-- ===== src/Handles/Backends.antt =====
-- What fork, dup2 and exit of stage2/vfs.c leave of all that descriptors hold, with the driver of
-- stage2/fat16.c: sockets, cpuinfo files and the files of the disk.
use mathlib.Core.Path.{subst}
use mboot.Prelude.{ℕ, ◌≡◌, refl, sym, some, List, ◌++◌, length, replicate, ℤ}
use mboot.Vfs.Backends.{Backends, empty_handle}
use mboot.Vfs.Fds.{vfs_fork_fds, vfs_dup2, vfs_exit_fds}
use mboot.Vfs.Conserved.{IsCounted, vfs_fork_fds-IsCounted}
use mboot.Vfs.Operations.{vfs_dup2-IsCounted, vfs_exit_fds-IsCounted}
use mboot.Fat16.Files.{Fat16, fat16_close}
use mboot.Handles.Counts.{IsReferenced}
use mboot.Handles.Driver.{fat16_driver}
use mboot.Handles.Operations.{Room, vfs_fork_fds-IsReferenced, vfs_exit_fds-IsReferenced}
use mboot.Handles.Duplicating.{vfs_dup2-IsReferenced}
use mboot.Handles.Rebinding.{Rebound, vfs_dup2-Rebound, vfs_exit_fds-empty}

-- Each socket, each cpuinfo file and each file of the disk counts the descriptors that hold it.
pub record IsBalanced (fds : List ℤ) (st : Backends Fat16) : Type 0 where
  pub counted : IsCounted fds st
  pub referenced : IsReferenced fds st.disk

-- When each socket, each cpuinfo file and each file of the FAT16 driver counts the descriptors that
-- hold it, of a task and all others, and the descriptors are fewer than 2 ^ 32 - 1 with the
-- child's, a fork gives the child the parent's handles, and each of the three kinds counts the
-- child's descriptors as well.
pub vfs_fork_fds-IsBalanced :
    (parent others : List ℤ) (st : Backends Fat16)
    → Room (parent ++ (parent ++ others))
    → IsBalanced (parent ++ others) st
    → let r = vfs_fork_fds (some fat16_driver) parent st in
      (r.0 ≡ parent) × IsBalanced (r.0 ++ (parent ++ others)) r.1
vfs_fork_fds-IsBalanced parent others st room h =
    let (same, counted) = vfs_fork_fds-IsCounted (some fat16_driver) parent others st h.counted in
    (
      same,
      record {
        counted = counted;
        referenced =
            subst
              (λ l.
                IsReferenced (l ++ (parent ++ others))
                  (vfs_fork_fds (some fat16_driver) parent st).1.disk)
              (sym same) (vfs_fork_fds-IsReferenced parent others st room h.referenced);
      },
    )

-- When each socket, each cpuinfo file and each file of the FAT16 driver counts the descriptors that
-- hold it, with fewer than 2 ^ 32 - 1 descriptors in all, a dup2 of any two numbers, by a task with
-- a table of 16, leaves those counts right. It refuses, without a change, a number out of range, an
-- empty descriptor to duplicate, or a terminal other than the task's for a standard descriptor that
-- is not the same one; else it gives the new descriptor the old one's handle and changes no other
-- descriptor.
pub vfs_dup2-IsBalanced :
    (others table : List ℤ) (st : Backends Fat16)
    → length table ≡ 16
    → Room (table ++ others)
    → IsBalanced (table ++ others) st
    → (tty : ℕ) (oldfd newfd : ℤ)
    → let r = vfs_dup2 (some fat16_driver) tty oldfd newfd table st in
      Rebound tty table st oldfd newfd r × IsBalanced (r.1 ++ others) r.2
vfs_dup2-IsBalanced others table st full room h tty oldfd newfd = (
  vfs_dup2-Rebound (some fat16_driver) tty table st oldfd newfd,
  record {
    counted = vfs_dup2-IsCounted (some fat16_driver) others table st full h.counted tty oldfd newfd;
    referenced = vfs_dup2-IsReferenced others table st full room h.referenced tty oldfd newfd;
  },
)

-- When each socket, each cpuinfo file and each file of the FAT16 driver counts the descriptors that
-- hold it, with fewer than 2 ^ 32 - 1 descriptors in all, an exit leaves a table of empty
-- descriptors, and each of the three kinds counts the other tasks' descriptors alone.
pub vfs_exit_fds-IsBalanced :
    (table others : List ℤ) (st : Backends Fat16)
    → Room (table ++ others)
    → IsBalanced (table ++ others) st
    → let r = vfs_exit_fds (some fat16_driver) table st in
      (r.0 ≡ replicate (length table) empty_handle) × IsBalanced others r.1
vfs_exit_fds-IsBalanced table others st room h = (
  vfs_exit_fds-empty fat16_driver fat16_close table st refl,
  record {
    counted = vfs_exit_fds-IsCounted fat16_driver fat16_close table others st refl h.counted;
    referenced = vfs_exit_fds-IsReferenced table others st room h.referenced;
  },
)
