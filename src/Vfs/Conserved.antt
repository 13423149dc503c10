-- ===== src/Vfs/Conserved.antt =====
-- Sockets and cpuinfo files count the descriptors that hold them: the steps of the operations on
-- descriptors. The files of the disk are under Handles.
use mboot.Prelude.{
  ℕ, zero, suc, ◌+◌, ◌≤◌, ◌<◌, ◌≡◌, ◌≢◌, refl, ap, ◌∙◌, sym, Option, none, List, [], ◌∷◌, ◌++◌,
  if-All, arith, set, get_or-set, get_or-set_ne, length, length-set, inl, inr, ℤ,
}
use mathlib.Core.Path.{subst}
use mathlib.Core.Bool.{true≢false}
use mboot.Net.Socket.{socket_index_from_handle}
use mboot.Vfs.Backends.{cpuinfo_handle_id, Backends, Driver, empty_handle, file_close, dup_handle}
use mboot.Vfs.Fds.{vfs_fork_fds, duplicated, closed, handle_at, is_zero}
use mboot.Vfs.Refs.{Slot, slot_of, same_slot, one_if, held, refs_of, IsTables}
use mboot.Vfs.Effects.{dup-Adds, close-Drops}

held-append : (s : Slot) (xs ys : List ℤ) → held s (xs ++ ys) ≡ held s xs + held s ys
held-append s [] ys = omega arith
held-append s (h ∷ xs) ys = omega (arith, held-append s xs ys)

-- Each socket and each cpuinfo file counts the descriptors that hold it.
pub record IsCounted {Disk : Type 0} (fds : List ℤ) (st : Backends Disk) : Type 0 where
  pub tables : IsTables st
  pub refs : (s : Slot) → refs_of s st ≡ held s fds

module _ {Disk : Type 0} (driver : Option (Driver Disk)) where
  -- The copies of the parent's descriptors, in the middle of the loop.
  fork-loop :
      (parent others : List ℤ) (st : Backends Disk)
      → ((s : Slot) → held s parent ≤ held s others)
      → IsCounted others st
      → IsCounted (parent ++ others) (vfs_fork_fds driver parent st).1
        × ((vfs_fork_fds driver parent st).0 ≡ parent)
  unfolding vfs_fork_fds
  fork-loop [] others st in_use h = (h, refl)
  fork-loop (p ∷ parent) others st in_use h =
      let (tables, adds) = dup-Adds p st h.tables (λ s. omega (arith, in_use s, h.refs s)) driver in
      let (rest, same) =
        fork-loop parent (p ∷ others) (dup_handle driver p st) (λ s. omega (arith, in_use s))
          (record { tables = tables; refs = λ s. omega (arith, adds s, h.refs s) }) in
      (
        record {
          tables = rest.tables;
          refs = λ s.
              omega (
                arith,
                rest.refs s,
                held-append s parent (p ∷ others),
                held-append s parent others,
              );
        },
        ap (λ l. p ∷ l) same,
      )

  -- When each socket and each cpuinfo file counts the descriptors that hold it, a fork gives the
  -- child the parent's handles, and they count the child's descriptors as well.
  pub vfs_fork_fds-IsCounted :
      (parent others : List ℤ) (st : Backends Disk)
      → IsCounted (parent ++ others) st
      → ((vfs_fork_fds driver parent st).0 ≡ parent)
        × IsCounted
            ((vfs_fork_fds driver parent st).0 ++ (parent ++ others))
            (vfs_fork_fds driver parent st).1
  vfs_fork_fds-IsCounted parent others st h =
      let (counted, same) =
        fork-loop parent (parent ++ others) st (λ s. omega (arith, held-append s parent others))
          h in
      (
        same,
        subst (λ l. IsCounted (l ++ (parent ++ others)) (vfs_fork_fds driver parent st).1)
            (sym same) counted,
      )

-- The descriptors of a table.
held-set :
    (s : Slot) (table : List ℤ) (i : ℕ) (h : ℤ)
    → i < length table
    → held s (set table i h) + one_if (same_slot s (slot_of (handle_at table i)))
      ≡ held s table + one_if (same_slot s (slot_of h))
held-set s [] i h k = elim k [ ]
held-set s (t ∷ table) zero h k = omega arith
held-set s (t ∷ table) (suc i) h k = omega (arith, held-set s table i h (omega (arith, k)))

held-at :
    (s : Slot) (table : List ℤ) (i : ℕ)
    → i < length table
    → one_if (same_slot s (slot_of (handle_at table i))) ≤ held s table
held-at s [] i k = elim k [ ]
held-at s (t ∷ table) zero k = omega arith
held-at s (t ∷ table) (suc i) k = omega (arith, held-at s table i (omega (arith, k)))

pub empty-slot : slot_of empty_handle ≡ none
unfolding socket_index_from_handle cpuinfo_handle_id
empty-slot = refl

no_slot : (s : Slot) (h : ℤ) → slot_of h ≡ none → one_if (same_slot s (slot_of h)) ≡ 0
no_slot s h e = ap (λ o. one_if (same_slot s o)) e

module _ {Disk : Type 0} (driver : Option (Driver Disk)) (others table : List ℤ)
    (st : Backends Disk) (full : length table ≡ 16) (h : IsCounted (table ++ others) st) where
  split : (s : Slot) → refs_of s st ≡ held s table + held s others
  split s = h.refs s ∙ held-append s table others

  -- A table with a descriptor closed: what holds of the slot that it leaves.
  pub record IsClosed (fd : ℕ) (r : ℤ × List ℤ × Backends Disk) : Type 0 where
    pub counted : IsCounted (r.1 ++ others) r.2
    pub size : length r.1 ≡ 16
    pub left : slot_of (handle_at r.1 fd) ≡ none
    pub kept : (other : ℕ) → other ≢ fd → handle_at r.1 other ≡ handle_at table other

  module _ (fd : ℕ) (k : fd < 16) where
    abbrev pub handle : ℤ
    handle = handle_at table fd

    pub closed-IsClosed : IsClosed fd (closed driver fd table (file_close driver handle st))
    closed-IsClosed =
        let ((tables, drops), result) =
          close-Drops handle st h.tables
            (λ s. omega (arith, split s, held-at s table fd (omega (arith, full, k)))) driver in
        let (result', st') = file_close driver handle st in
        if-All (λ (t : List ℤ). IsClosed fd (result', t, st')) (is_zero result')
          (λ e. record {
            counted = record {
              tables = tables;
              refs = λ s. omega (
                arith,
                split s,
                drops s,
                held-append s (set table fd empty_handle) others,
                held-set s table fd empty_handle (omega (arith, full, k)),
                no_slot s empty_handle empty-slot,
              );
            };
            size = length-set table fd empty_handle ∙ full;
            left =
                ap slot_of (get_or-set table fd empty_handle empty_handle (omega (arith, full, k)))
                ∙ empty-slot;
            kept = λ other ne.
                get_or-set_ne table fd other empty_handle empty_handle (λ q. ne (sym q));
          })
          (λ e. elim result [
            | inl z ↦ absurd (true≢false (sym (ap is_zero z) ∙ e))
            | inr none_held ↦ record {
              counted = record {
                tables = tables;
                refs = λ s. omega (arith, drops s, no_slot s handle none_held, h.refs s);
              };
              size = full;
              left = none_held;
              kept = λ other ne. refl;
            }
          ])

  -- What vfs_dup2 leaves, of a table and backends that already lost the new descriptor.
  pub duplicated-IsCounted :
      (oldfd newfd : ℕ)
      → oldfd < 16
      → newfd < 16
      → slot_of (handle_at table newfd) ≡ none
      → let r = duplicated driver oldfd newfd table st in IsCounted (r.1 ++ others) r.2
  duplicated-IsCounted oldfd newfd a b e =
      let source = handle_at table oldfd in
      let (tables, adds) =
        dup-Adds source st h.tables
          (λ s. omega (arith, split s, held-at s table oldfd (omega (arith, full, a)))) driver in
      record {
        tables = tables;
        refs = λ s. omega (
          arith,
          split s,
          adds s,
          held-append s (set table newfd source) others,
          held-set s table newfd source (omega (arith, full, b)),
          no_slot s (handle_at table newfd) e,
        );
      }
