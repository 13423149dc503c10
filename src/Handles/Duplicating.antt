-- ===== src/Handles/Duplicating.antt =====
-- A dup2 keeps the counts of the open files.
use mboot.Prelude.{
  ℕ, ◌<◌, ◌≡◌, false, ◌||◌, some, List, ◌++◌, ◌==◌, if-All, arith, length, length-append, leb, ℤ,
  pos, negsuc,
}
use mboot.Vfs.Backends.{Backends, tty_handle_id, file_close}
use mboot.Vfs.Fds.{vfs_close, vfs_dup2, closed, duplicated, foreign_tty, handle_at, is_empty}
use mboot.Fat16.Files.{Fat16}
use mboot.Handles.Counts.{IsReferenced}
use mboot.Handles.Driver.{fat16_driver}
use mboot.Handles.Operations.{Room}
use mboot.Handles.Closing.{closed-IsClosed, duplicated-IsReferenced, is_empty-holds}

module _ (others table : List ℤ) (st : Backends Fat16) (full : length table ≡ 16)
    (room : Room (table ++ others)) (h : IsReferenced (table ++ others) st.disk) where
  abbrev pub After : ℤ × List ℤ × Backends Fat16 → Type 0
  After r = IsReferenced (r.1 ++ others) r.2.disk

  over_open :
      (oldfd newfd : ℕ)
      → oldfd < 16
      → newfd < 16
      → is_empty (handle_at table newfd) ≡ false
      → let r = vfs_close (some fat16_driver) (pos newfd) table st in
        After (duplicated (some fat16_driver) oldfd newfd r.1 r.2)
  unfolding vfs_close
  over_open oldfd newfd a b z =
      if-All
        (λ (r : ℤ × List ℤ × Backends Fat16).
          After (duplicated (some fat16_driver) oldfd newfd r.1 r.2))
        (leb 16 newfd || is_empty (handle_at table newfd)) (λ e. ground (arith, e, z, b))
        (λ e.
          let r =
            closed (some fat16_driver) newfd table
              (file_close (some fat16_driver) (handle_at table newfd) st) in
          let c = closed-IsClosed others table st full room h newfd b in
          duplicated-IsReferenced others r.1 r.2 c.size
            (omega
              (arith, room, full, c.size, length-append r.1 others, length-append table others))
            c.counted oldfd newfd a b c.left)

  pub vfs_dup2-IsReferenced :
      (tty : ℕ) (oldfd newfd : ℤ) → After (vfs_dup2 (some fat16_driver) tty oldfd newfd table st)
  unfolding vfs_dup2
  vfs_dup2-IsReferenced tty (negsuc m) newfd = h
  vfs_dup2-IsReferenced tty (pos oldfd) (negsuc n) = h
  vfs_dup2-IsReferenced tty (pos oldfd) (pos newfd) =
      if-All After ((leb 16 oldfd || leb 16 newfd) || is_empty (handle_at table oldfd)) (λ e. h)
        (λ e.
          if-All After (oldfd == newfd) (λ k. h)
            (λ k.
              if-All After
                (foreign_tty (some fat16_driver) tty newfd (tty_handle_id (handle_at table oldfd)))
                (λ f. h)
                (λ f.
                  let a : oldfd < 16 = ground (arith, e) in
                  let b : newfd < 16 = ground (arith, e) in
                  if-All After (is_empty (handle_at table newfd))
                    (λ z.
                      duplicated-IsReferenced others table st full room h oldfd newfd a b
                        (is_empty-holds (handle_at table newfd) z))
                    (λ z. over_open oldfd newfd a b z))))
