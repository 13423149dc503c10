-- ===== src/Handles/Operations.antt =====
-- Close, dup2, fork and exit keep the counts of the open files.
use mathlib.Core.Path.{subst}
use mboot.Prelude.{
  ℕ, zero, suc, ◌+◌, ◌^◌, ◌≤◌, ◌<◌, ◌≡◌, ap, ◌∙◌, sym, true, false, some, List, [], ◌∷◌, ◌++◌,
  arith, set, length, length-append, ℤ, pos, negsuc,
}
use mboot.Vfs.Backends.{Backends, file_close, dup_handle, exit_handle}
use mboot.Vfs.Fds.{vfs_fork_fds, vfs_exit_fds, exit_loop, handle_at, is_zero}
use mboot.Vfs.Refs.{one_if}
use mboot.Fat16.Files.{Fat16, fat16_dup, fat16_close}
use mboot.Handles.Counts.{
  holds, file_held, file_refs, file_held-append, file_held-le-length, IsReferenced, fat16_dup-Adds,
  fat16_close-Drops,
}
use mboot.Handles.Driver.{fat16_driver, dup_handle-disk, exit_handle-disk, file_close-result}

pub file_held-set :
    (i : ℕ) (table : List ℤ) (fd : ℕ) (h : ℤ)
    → fd < length table
    → file_held i (set table fd h) + one_if (holds i (handle_at table fd))
      ≡ file_held i table + one_if (holds i h)
file_held-set i [] fd h k = elim k [ ]
file_held-set i (t ∷ table) zero h k = omega arith
file_held-set i (t ∷ table) (suc fd) h k =
    omega (arith, file_held-set i table fd h (omega (arith, k)))

pub file_held-at :
    (i : ℕ) (table : List ℤ) (fd : ℕ)
    → fd < length table
    → one_if (holds i (handle_at table fd)) ≤ file_held i table
file_held-at i [] fd k = elim k [ ]
file_held-at i (t ∷ table) zero k = omega arith
file_held-at i (t ∷ table) (suc fd) k = omega (arith, file_held-at i table fd (omega (arith, k)))

pub no_file : (i : ℕ) (h : ℤ) → holds i h ≡ false → one_if (holds i h) ≡ 0
no_file i h e = ap one_if e

-- The descriptors fit their counts of 32 bits.
abbrev pub Room : List ℤ → Type 0
Room fds = length fds + 1 < 2 ^ 32

module _ {fds : List ℤ} {st : Fat16} (h : IsReferenced fds st) (room : Room fds) where
  pub small : (i : ℕ) → file_refs i st + 1 < 2 ^ 32
  small i = omega (arith, h.refs i, file_held-le-length i fds, room)

  -- What a descriptor with a held handle does to the disk.
  pub dup-step :
      (p : ℤ)
      → ((i : ℕ) → one_if (holds i p) ≤ file_held i fds)
      → IsReferenced (p ∷ fds) (fat16_dup p st).1
  dup-step p live =
      let (table, adds) =
        fat16_dup-Adds st h.table p (λ i. omega (arith, live i, h.refs i)) small in
      record { table = table; refs = λ i. omega (arith, adds i, h.refs i) }

fork-loop :
    (parent others : List ℤ) (st : Backends Fat16)
    → ((i : ℕ) → file_held i parent ≤ file_held i others)
    → Room (parent ++ others)
    → IsReferenced others st.disk
    → IsReferenced (parent ++ others) (vfs_fork_fds (some fat16_driver) parent st).1.disk
unfolding vfs_fork_fds
fork-loop [] others st live room h = h
fork-loop (p ∷ parent) others st live room h =
    let long = length-append parent others in
    let one =
      subst (IsReferenced (p ∷ others)) (sym (dup_handle-disk p st))
        (dup-step h (omega (arith, room, long)) p (λ i. omega (arith, live i))) in
    let rest =
      fork-loop parent (p ∷ others) (dup_handle (some fat16_driver) p st)
        (λ i. omega (arith, live i)) (omega (arith, room, long, length-append parent (p ∷ others)))
        one in
    record {
      table = rest.table;
      refs = λ i. omega (
        arith,
        rest.refs i,
        file_held-append i parent (p ∷ others),
        file_held-append i parent others,
      );
    }

pub vfs_fork_fds-IsReferenced :
    (parent others : List ℤ) (st : Backends Fat16)
    → Room (parent ++ (parent ++ others))
    → IsReferenced (parent ++ others) st.disk
    → IsReferenced
        (parent ++ (parent ++ others))
        (vfs_fork_fds (some fat16_driver) parent st).1.disk
vfs_fork_fds-IsReferenced parent others st room h =
    fork-loop parent (parent ++ others) st (λ i. omega (arith, file_held-append i parent others))
      room h

exit-loop :
    (table others : List ℤ) (st : Backends Fat16)
    → Room (table ++ others)
    → IsReferenced (table ++ others) st.disk
    → IsReferenced others (exit_loop (some fat16_driver) fat16_close table st).1.disk
unfolding exit_loop
exit-loop [] others st room h = h
exit-loop (t ∷ table) others st room h =
    let ((size, drops), result) =
      fat16_close-Drops st.disk h.table t (λ i. omega (arith, h.refs i)) (small h room) in
    exit-loop table others (exit_handle fat16_close t st) (omega (arith, room)) (
      subst (IsReferenced (table ++ others)) (sym (exit_handle-disk t st))
        (record { table = size; refs = λ i. omega (arith, drops i, h.refs i) }))

pub vfs_exit_fds-IsReferenced :
    (table others : List ℤ) (st : Backends Fat16)
    → Room (table ++ others)
    → IsReferenced (table ++ others) st.disk
    → IsReferenced others (vfs_exit_fds (some fat16_driver) table st).1.disk
unfolding vfs_exit_fds
vfs_exit_fds-IsReferenced table others st room h = exit-loop table others st room h

negative_close : (n : ℕ) (st : Fat16) → (fat16_close (negsuc n) st).0 ≡ pos 0 → ⊥
unfolding fat16_close
negative_close n st e = cc

-- vfs.c passes the driver's result on.
pub result_zero :
    (h : ℤ) (st : Backends Fat16)
    → (fat16_close h st.disk).0 ≡ pos 0
    → is_zero (file_close (some fat16_driver) h st).0 ≡ true
result_zero (pos n) st e = ap is_zero (file_close-result n st ∙ e)
result_zero (negsuc n) st e = absurd (negative_close n st.disk e)
