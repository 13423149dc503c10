-- ===== src/Handles/Closing.antt =====
-- Close and dup2 keep the counts of the open files.
use mathlib.Core.Path.{subst}
use mathlib.Core.Bool.{true≢false}
use mboot.Prelude.{
  ℕ, ◌+◌, ◌≤◌, ◌<◌, ◌≡◌, refl, ap, ◌∙◌, sym, true, false, ◌||◌, some, List, ◌++◌, if-All, arith,
  set, get_or-set, length, length-set, inl, inr, leb, ℤ, pos, negsuc,
}
use mboot.Vfs.Backends.{Backends, empty_handle, file_close}
use mboot.Vfs.Fds.{vfs_close, closed, duplicated, handle_at, is_empty, is_zero}
use mboot.Vfs.Refs.{one_if}
use mboot.Fat16.Files.{Fat16}
use mboot.Handles.Counts.{holds, file_held, file_held-append, IsReferenced, fat16_close-Drops}
use mboot.Handles.Driver.{fat16_driver, dup_handle-disk, file_close-disk}
use mboot.Handles.Operations.{
  file_held-set, file_held-at, no_file, Room, small, dup-step, result_zero,
}

pub is_empty-holds : (h : ℤ) → is_empty h ≡ true → (i : ℕ) → holds i h ≡ false
is_empty-holds (negsuc n) e i = refl
is_empty-holds (pos n) e i = cc

module _ (others table : List ℤ) (st : Backends Fat16) (full : length table ≡ 16)
    (room : Room (table ++ others)) (h : IsReferenced (table ++ others) st.disk) where
  -- A table with a descriptor closed.
  pub record IsClosed (fd : ℕ) (r : ℤ × List ℤ × Backends Fat16) : Type 0 where
    pub counted : IsReferenced (r.1 ++ others) r.2.disk
    pub size : length r.1 ≡ 16
    pub left : (i : ℕ) → holds i (handle_at r.1 fd) ≡ false

  held_split : (i : ℕ) → file_held i (table ++ others) ≡ file_held i table + file_held i others
  held_split i = file_held-append i table others

  module _ (fd : ℕ) (k : fd < 16) where
    abbrev handle : ℤ
    handle = handle_at table fd

    held_here : (i : ℕ) → one_if (holds i handle) ≤ file_held i (table ++ others)
    held_here i = omega (arith, held_split i, file_held-at i table fd (omega (arith, full, k)))

    pub closed-IsClosed :
        IsClosed fd (closed (some fat16_driver) fd table (file_close (some fat16_driver) handle st))
    closed-IsClosed =
        let ((size, drops), result) =
          fat16_close-Drops st.disk h.table handle (λ i. omega (arith, h.refs i, held_here i))
            (small h room) in
        let (result', st') = file_close (some fat16_driver) handle st in
        let same = file_close-disk handle st in
        if-All (λ (t : List ℤ). IsClosed fd (result', t, st')) (is_zero result')
          (λ e. record {
            counted =
                subst (IsReferenced (set table fd empty_handle ++ others)) (sym same) (record {
                  table = size;
                  refs = λ i. omega (
                    arith,
                    drops i,
                    h.refs i,
                    held_split i,
                    file_held-append i (set table fd empty_handle) others,
                    file_held-set i table fd empty_handle (omega (arith, full, k)),
                  );
                });
            size = length-set table fd empty_handle ∙ full;
            left = λ i.
                ap (holds i)
                  (get_or-set table fd empty_handle empty_handle (omega (arith, full, k)));
          })
          (λ e. elim result [
            | inl z ↦ absurd (true≢false (sym (result_zero handle st z) ∙ e))
            | inr none_held ↦ record {
              counted = subst (IsReferenced (table ++ others)) (sym same) (record {
                table = size;
                refs = λ i. omega (arith, drops i, no_file i handle (none_held i), h.refs i);
              });
              size = full;
              left = none_held;
            }
          ])

  -- What vfs_dup2 leaves, of a table that already lost the new descriptor.
  pub duplicated-IsReferenced :
      (oldfd newfd : ℕ)
      → oldfd < 16
      → newfd < 16
      → ((i : ℕ) → holds i (handle_at table newfd) ≡ false)
      → let r = duplicated (some fat16_driver) oldfd newfd table st in
        IsReferenced (r.1 ++ others) r.2.disk
  duplicated-IsReferenced oldfd newfd a b e =
      let source = handle_at table oldfd in
      let added = dup-step h room source (held_here oldfd a) in
      subst (IsReferenced (set table newfd source ++ others)) (sym (dup_handle-disk source st))
        (record {
          table = added.table;
          refs = λ i. omega (
            arith,
            added.refs i,
            held_split i,
            file_held-append i (set table newfd source) others,
            file_held-set i table newfd source (omega (arith, full, b)),
            no_file i (handle_at table newfd) (e i),
          );
        })

  abbrev After : ℤ × List ℤ × Backends Fat16 → Type 0
  After r = IsReferenced (r.1 ++ others) r.2.disk

  pub vfs_close-IsReferenced :
      (fd : ℤ)
      → let r = vfs_close (some fat16_driver) fd table st in IsReferenced (r.1 ++ others) r.2.disk
  unfolding vfs_close
  vfs_close-IsReferenced (negsuc n) = h
  vfs_close-IsReferenced (pos fd) =
      if-All After (leb 16 fd || is_empty (handle_at table fd)) (λ e. h)
        (λ e. (closed-IsClosed fd (ground (arith, e))).counted)
