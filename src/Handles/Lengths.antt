-- ===== src/Handles/Lengths.antt =====
-- The functions of stage2/vfs.c keep the 16 descriptors of a table.
use mboot.Prelude.{
  ℕ, ◌≡◌, refl, ap, ◌∙◌, ◌||◌, Option, List, [], ◌∷◌, ◌==◌, if-All, length, length-set, leb, ℤ, pos,
  negsuc,
}
use mboot.Vfs.Backends.{Backends, Driver, empty_handle, tty_handle_id, file_close, dup_handle}
use mboot.Vfs.Fds.{vfs_close, vfs_dup2, vfs_fork_fds, foreign_tty, handle_at, is_empty, is_zero}

module _ {Disk : Type 0} (driver : Option (Driver Disk)) where
  pub length-vfs_close :
      (fd : ℤ) (table : List ℤ) (st : Backends Disk)
      → length (vfs_close driver fd table st).1 ≡ length table
  unfolding vfs_close
  length-vfs_close (negsuc n) table st = refl
  length-vfs_close (pos fd) table st =
      if-All (λ (r : ℤ × List ℤ × Backends Disk). length r.1 ≡ length table)
        (leb 16 fd || is_empty (handle_at table fd)) (λ e. refl)
        (λ e.
          let r = file_close driver (handle_at table fd) st in
          if-All (λ (t : List ℤ). length t ≡ length table) (is_zero r.0)
            (λ z. length-set table fd empty_handle) (λ z. refl))

  pub length-vfs_dup2 :
      (tty : ℕ) (oldfd newfd : ℤ) (table : List ℤ) (st : Backends Disk)
      → length (vfs_dup2 driver tty oldfd newfd table st).1 ≡ length table
  unfolding vfs_dup2
  length-vfs_dup2 tty (negsuc m) newfd table st = refl
  length-vfs_dup2 tty (pos oldfd) (negsuc n) table st = refl
  length-vfs_dup2 tty (pos oldfd) (pos newfd) table st =
      if-All Same ((leb 16 oldfd || leb 16 newfd) || is_empty (handle_at table oldfd)) (λ e. refl)
        (λ e.
          if-All Same (oldfd == newfd) (λ k. refl)
            (λ k.
              if-All Same (foreign_tty driver tty newfd (tty_handle_id (handle_at table oldfd)))
                (λ f. refl)
                (λ f.
                  if-All Same (is_empty (handle_at table newfd))
                    (λ z. length-set table newfd (handle_at table oldfd))
                    (λ z.
                      let t = (vfs_close driver (pos newfd) table st).1 in
                      length-set t newfd (handle_at t oldfd)
                      ∙ length-vfs_close (pos newfd) table st))))
    where
      Same : ℤ × List ℤ × Backends Disk → Type 0
      Same r = length r.1 ≡ length table

  pub child-parent :
      (parent : List ℤ) (st : Backends Disk) → (vfs_fork_fds driver parent st).0 ≡ parent
  unfolding vfs_fork_fds
  child-parent [] st = refl
  child-parent (h ∷ parent) st = ap (λ l. h ∷ l) (child-parent parent (dup_handle driver h st))
