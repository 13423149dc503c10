-- ===== src/Vfs/Operations.antt =====
-- Sockets and cpuinfo files count the descriptors that hold them, whatever a close, a dup2 or an exit
-- does. The files of the disk are under Handles.
mod Tests
use mboot.Prelude.{
  ℕ, zero, suc, ◌+◌, ◌≤◌, ◌<◌, ◌≡◌, ◌≢◌, refl, ap, ◌∙◌, sym, Bool, true, false, ◌||◌, Option, none,
  some, List, [], ◌∷◌, ◌++◌, ◌==◌, ==_iff, if◌then◌else◌, if-All, arith, length, inl, inr,
  Bool-cases, leb, ℤ, pos, negsuc,
}
use mathlib.Core.Path.{subst}
use mathlib.Core.Bool.{true≢false}
use mboot.Vfs.Backends.{Backends, Driver, tty_handle_id, file_close, exit_handle}
use mboot.Vfs.Fds.{
  exit_loop, exit_with, vfs_exit_fds, vfs_close, vfs_dup2, duplicated, closed, foreign_tty,
  handle_at, is_empty,
}
use mboot.Vfs.Refs.{slot_of}
use mboot.Vfs.Effects.{exit-Drops}
use mboot.Vfs.Conserved.{IsCounted, IsClosed, closed-IsClosed, duplicated-IsCounted, empty-slot}

exit-IsCounted :
    {Disk : Type 0} (driver : Option (Driver Disk)) (close : ℤ → Disk → ℤ × Disk)
    (table others : List ℤ) (st : Backends Disk)
    → IsCounted (table ++ others) st
    → IsCounted others (exit_loop driver close table st).1
unfolding exit_loop
exit-IsCounted driver close [] others st h = h
exit-IsCounted driver close (t ∷ table) others st h =
    let (tables, drops) = exit-Drops t st h.tables (λ s. omega (arith, h.refs s)) close in
    exit-IsCounted driver close table others (exit_handle close t st)
      (record { tables = tables; refs = λ s. omega (arith, drops s, h.refs s) })

is_empty-slot : (h : ℤ) → is_empty h ≡ true → slot_of h ≡ none
is_empty-slot (negsuc zero) e = empty-slot
is_empty-slot (negsuc (suc n)) e = absurd (true≢false (sym e))
is_empty-slot (pos n) e = absurd (true≢false (sym e))

-- The counts at the end of an operation.
abbrev pub Counted : {Disk : Type 0} → List ℤ → ℤ × List ℤ × Backends Disk → Type 0
Counted others r = IsCounted (r.1 ++ others) r.2

module _ {Disk : Type 0} (driver : Option (Driver Disk)) (others table : List ℤ)
    (st : Backends Disk) (full : length table ≡ 16) (h : IsCounted (table ++ others) st) where
  -- When each socket and each cpuinfo file counts the descriptors that hold it, it does so after a close of any
  -- descriptor of a table of 16, valid or not.
  pub vfs_close-IsCounted : (fd : ℤ) → Counted others (vfs_close driver fd table st)
  unfolding vfs_close
  vfs_close-IsCounted (negsuc n) = h
  vfs_close-IsCounted (pos fd) =
      if-All (Counted others) (leb 16 fd || is_empty (handle_at table fd)) (λ e. h)
        (λ e. (closed-IsClosed driver others table st full h fd (ground (arith, e))).counted)

  over_open :
      (oldfd newfd : ℕ)
      → oldfd < 16
      → newfd < 16
      → is_empty (handle_at table newfd) ≡ false
      → let r = vfs_close driver (pos newfd) table st in
        Counted others (duplicated driver oldfd newfd r.1 r.2)
  unfolding vfs_close
  over_open oldfd newfd a b z =
      if-All
        (λ (r : ℤ × List ℤ × Backends Disk). Counted others (duplicated driver oldfd newfd r.1 r.2))
        (leb 16 newfd || is_empty (handle_at table newfd)) (λ e. ground (arith, e, z, b))
        (λ e.
          let r = closed driver newfd table (file_close driver (handle_at table newfd) st) in
          let c = closed-IsClosed driver others table st full h newfd b in
          duplicated-IsCounted driver others r.1 r.2 c.size c.counted oldfd newfd a b c.left)

  -- When each socket and each cpuinfo file counts the descriptors that hold it, it does so after a
  -- dup2 of any two descriptors of a table of 16, valid or not, empty or not.
  pub vfs_dup2-IsCounted :
      (tty : ℕ) (oldfd newfd : ℤ) → Counted others (vfs_dup2 driver tty oldfd newfd table st)
  unfolding vfs_dup2
  vfs_dup2-IsCounted tty (negsuc m) newfd = h
  vfs_dup2-IsCounted tty (pos oldfd) (negsuc n) = h
  vfs_dup2-IsCounted tty (pos oldfd) (pos newfd) =
      if-All (Counted others) ((leb 16 oldfd || leb 16 newfd) || is_empty (handle_at table oldfd))
        (λ e. h)
        (λ e.
          if-All (Counted others) (oldfd == newfd) (λ k. h)
            (λ k.
              if-All (Counted others)
                (foreign_tty driver tty newfd (tty_handle_id (handle_at table oldfd))) (λ f. h)
                (λ f.
                  let a : oldfd < 16 = ground (arith, e) in
                  let b : newfd < 16 = ground (arith, e) in
                  if-All (Counted others) (is_empty (handle_at table newfd))
                    (λ z.
                      duplicated-IsCounted driver others table st full h oldfd newfd a b
                        (is_empty-slot (handle_at table newfd) z))
                    (λ z. over_open oldfd newfd a b z))))

module _ {Disk : Type 0} (driver : Driver Disk) where
  -- When each socket and each cpuinfo file counts the descriptors that hold it and the driver has a
  -- close_file, they count the other tasks' descriptors alone after an exit.
  pub vfs_exit_fds-IsCounted :
      (close : ℤ → Disk → ℤ × Disk) (table others : List ℤ) (st : Backends Disk)
      → driver.close_file ≡ some close
      → IsCounted (table ++ others) st
      → IsCounted others (vfs_exit_fds (some driver) table st).1
  unfolding vfs_exit_fds
  vfs_exit_fds-IsCounted close table others st e h =
      subst (λ o. IsCounted others (exit_with (some driver) table st o).1) (sym e)
        (exit-IsCounted (some driver) close table others st h)
