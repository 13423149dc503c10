-- ===== src/Vfs/Fds.antt =====
-- The descriptor tables of stage2/vfs.c.
--
-- A table is the list of its 16 handles. The current task's table is an argument of the functions that
-- take it from the scheduler.
use mboot.Prelude.{
  ℕ, zero, suc, ◌+◌, Bool, true, false, ◌&&◌, ◌||◌, not, Option, none, some, List, [], ◌∷◌, ◌==◌,
  ltb, leb, if◌then◌else◌, get_or, set, replicate, ℤ, pos, negsuc,
}
use mboot.Vfs.Backends.{
  Driver, Backends, empty_handle, tty_handle_id, file_close, dup_handle, exit_handle,
}

abbrev pub max_fds_per_process : ℕ
max_fds_per_process = 16

abbrev pub is_empty : ℤ → Bool
is_empty (negsuc zero) = true
is_empty (negsuc (suc n)) = false
is_empty (pos n) = false

-- The first slot, of those from the i-th on, that is empty.
unfoldable pub free_fd : ℕ → List ℤ → Option ℕ
free_fd i [] = none
free_fd i (h ∷ table) = let rest = free_fd (i + 1) table in if is_empty h then some i else rest

abbrev pub attached : ℤ → List ℤ → Option ℕ → ℤ × List ℤ
attached handle table none = (negsuc 0, table)
attached handle table (some i) = (pos i, set table i handle)

unfoldable pub vfs_attach_handle : ℤ → List ℤ → ℤ × List ℤ
vfs_attach_handle handle table = attached handle table (free_fd 0 table)

-- The handle of a descriptor, empty when the number is out of range.
unfoldable pub vfs_fd_handle : ℤ → List ℤ → ℤ
vfs_fd_handle (negsuc n) table = empty_handle
vfs_fd_handle (pos fd) table =
    if leb max_fds_per_process fd then empty_handle else get_or table fd empty_handle

-- VFS_DEV_TTY_BASE is -32, and TTY_COUNT 4.
unfoldable pub vfs_bind_tty : ℕ → List ℤ → List ℤ
vfs_bind_tty tty table =
    let handle = negsuc (31 + (if ltb tty 4 then tty else 0)) in
    set (set (set table 0 handle) 1 handle) 2 handle

unfoldable pub vfs_init_fds : ℕ → List ℤ
unfolding vfs_bind_tty
vfs_init_fds tty =
    vfs_bind_tty (if ltb tty 4 then tty else 0) (replicate max_fds_per_process empty_handle)

abbrev pub handle_at : List ℤ → ℕ → ℤ
handle_at table fd = get_or table fd empty_handle

abbrev pub is_zero : ℤ → Bool
is_zero (pos zero) = true
is_zero (pos (suc n)) = false
is_zero (negsuc n) = false

module _ {Disk : Type 0} (driver : Option (Driver Disk)) where
  -- What is returned, the table and the backends.
  abbrev pub Result : Type 0
  Result = ℤ × List ℤ × Backends Disk

  abbrev pub closed : ℕ → List ℤ → ℤ × Backends Disk → Result
  closed fd table (result, st) =
      (result, (if is_zero result then set table fd empty_handle else table), st)

  unfoldable pub vfs_close : ℤ → List ℤ → Backends Disk → Result
  vfs_close (negsuc n) table st = (negsuc 0, table, st)
  vfs_close (pos fd) table st =
      if leb max_fds_per_process fd || is_empty (handle_at table fd)
      then (negsuc 0, table, st)
      else closed fd table (file_close driver (handle_at table fd) st)

  -- A terminal's handle on a standard descriptor, of a terminal that is not the task's.
  abbrev pub foreign_tty : ℕ → ℕ → Option ℕ → Bool
  foreign_tty tty newfd none = false
  foreign_tty tty newfd (some other) = leb newfd 2 && not (other == tty)

  -- The end of vfs_dup2, once the new descriptor is closed.
  abbrev pub duplicated : ℕ → ℕ → List ℤ → Backends Disk → Result
  duplicated oldfd newfd table st =
      let handle = handle_at table oldfd in
      (pos newfd, set table newfd handle, dup_handle driver handle st)

  -- `tty` is the current task's terminal.
  unfoldable pub vfs_dup2 : (tty : ℕ) → ℤ → ℤ → List ℤ → Backends Disk → Result
  unfolding vfs_close
  vfs_dup2 tty (negsuc m) newfd table st = (negsuc 0, table, st)
  vfs_dup2 tty (pos oldfd) (negsuc n) table st = (negsuc 0, table, st)
  vfs_dup2 tty (pos oldfd) (pos newfd) table st =
      if (leb max_fds_per_process oldfd || leb max_fds_per_process newfd)
        || is_empty (handle_at table oldfd)
      then (negsuc 0, table, st)
      else if oldfd == newfd
      then (pos newfd, table, st)
      else if foreign_tty tty newfd (tty_handle_id (handle_at table oldfd))
      then (negsuc 0, table, st)
      else if is_empty (handle_at table newfd)
      then duplicated oldfd newfd table st
      else (let (result, table', st') = vfs_close (pos newfd) table st in
          duplicated oldfd newfd table' st')

  -- The child's table is the parent's.
  unfoldable pub vfs_fork_fds : List ℤ → Backends Disk → List ℤ × Backends Disk
  vfs_fork_fds [] st = ([], st)
  vfs_fork_fds (h ∷ parent) st =
      let (child, st') = vfs_fork_fds parent (dup_handle driver h st) in (h ∷ child, st')

  unfoldable pub exit_loop : (ℤ → Disk → ℤ × Disk) → List ℤ → Backends Disk → List ℤ × Backends Disk
  exit_loop close [] st = ([], st)
  exit_loop close (h ∷ table) st =
      let (table', st') = exit_loop close table (exit_handle close h st) in
      (empty_handle ∷ table', st')

  abbrev pub exit_with :
      List ℤ → Backends Disk → Option (ℤ → Disk → ℤ × Disk) → List ℤ × Backends Disk
  exit_with table st none = (table, st)
  exit_with table st (some close) = exit_loop close table st

  -- Nothing is closed while the driver or its close_file is missing.
  unfoldable pub vfs_exit_fds : List ℤ → Backends Disk → List ℤ × Backends Disk
  vfs_exit_fds table st = elim driver [
    | none ↦ (table, st)
    | some d ↦ exit_with table st d.close_file
  ]
