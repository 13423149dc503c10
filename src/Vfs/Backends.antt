-- ===== src/Vfs/Backends.antt =====
-- What the handles of stage2/vfs.c name: sockets, devices, and files of the disk.
--
-- The state of the disk is of any type, with the driver's functions on it.
use mboot.Prelude.{
  ℕ, suc, ◌+◌, ◌-◌, Bool, true, false, ◌&&◌, Option, none, some, List, [], ◌∷◌, ◌==◌, ltb, leb,
  if◌then◌else◌, get_or, set, ℤ, pos, negsuc,
}
use mboot.Net.Socket.{Socket, socket_handle_valid, socket_dup, socket_close}

-- `VFS_EMPTY_HANDLE`, and the error of most functions
abbrev pub empty_handle : ℤ
empty_handle = negsuc 0

-- `cpuinfo_file_t`
pub record CpuinfoFile : Type 0 where
  pub used : Bool
  pub refs : ℕ
  pub offset : ℕ

-- `vfs_driver_t`, without the reads and writes.
pub record Driver (Disk : Type 0) : Type 0 where
  pub close_file : Option (ℤ → Disk → ℤ × Disk)
  pub dup_file : Option (ℤ → Disk → Disk)

pub record Backends (Disk : Type 0) : Type 0 where
  pub sockets : List Socket
  pub cpuinfo_files : List CpuinfoFile
  pub disk : Disk

abbrev pub closed_cpuinfo : CpuinfoFile
closed_cpuinfo = record { used = false; refs = 0; offset = 0 }

abbrev pub cpuinfo_at : List CpuinfoFile → ℕ → CpuinfoFile
cpuinfo_at files i = get_or files i closed_cpuinfo

-- VFS_DEV_CPUINFO_BASE is -8, and CPUINFO_OPEN_FILES 4.
unfoldable pub cpuinfo_handle_id : ℤ → Option ℕ
cpuinfo_handle_id (pos n) = none
cpuinfo_handle_id (negsuc n) = if leb 7 n && ltb n 11 then some (n - 7) else none

-- VFS_DEV_TTY_BASE is -32, and TTY_COUNT 4.
unfoldable pub tty_handle_id : ℤ → Option ℕ
tty_handle_id (pos n) = none
tty_handle_id (negsuc n) = if leb 31 n && ltb n 35 then some (n - 31) else none

-- VFS_DEV_UDP_BASE is -1024.
unfoldable pub udp_tty_handle_port : ℤ → Option ℕ
udp_tty_handle_port (pos n) = none
udp_tty_handle_port (negsuc n) = if leb 1023 n then some (n - 1023) else none

-- The loop of cpuinfo_open, from the i-th place on.
unfoldable pub free_cpuinfo : ℕ → List CpuinfoFile → Option ℕ
free_cpuinfo i [] = none
free_cpuinfo i (f ∷ files) =
    let rest = free_cpuinfo (i + 1) files in if f.used then rest else some i

abbrev pub opened_cpuinfo : List CpuinfoFile → Option ℕ → ℤ × List CpuinfoFile
opened_cpuinfo files none = (empty_handle, files)
opened_cpuinfo files (some i) =
    (negsuc (7 + i), set files i (record { used = true; refs = 1; offset = 0 }))

-- cpuinfo_open, for the name of the device.
unfoldable pub cpuinfo_open : List CpuinfoFile → ℤ × List CpuinfoFile
cpuinfo_open files = opened_cpuinfo files (free_cpuinfo 0 files)

-- A place that is in use, changed; the number is what is returned.
abbrev pub change_cpuinfo :
    (CpuinfoFile → CpuinfoFile) → List CpuinfoFile → Option ℕ → ℤ × List CpuinfoFile
change_cpuinfo f files none = (negsuc 0, files)
change_cpuinfo f files (some i) =
    if (cpuinfo_at files i).used
    then (pos 0, set files i (f (cpuinfo_at files i)))
    else (negsuc 0, files)

-- The count of a place in use is at least 1.
abbrev pub dropped_cpuinfo : CpuinfoFile → CpuinfoFile
dropped_cpuinfo f = if f.refs - 1 == 0 then closed_cpuinfo else record f { refs = f.refs - 1 }

unfoldable pub cpuinfo_close : ℤ → List CpuinfoFile → ℤ × List CpuinfoFile
cpuinfo_close handle files = change_cpuinfo dropped_cpuinfo files (cpuinfo_handle_id handle)

unfoldable pub cpuinfo_dup : ℤ → List CpuinfoFile → ℤ × List CpuinfoFile
cpuinfo_dup handle files =
    change_cpuinfo (λ (f : CpuinfoFile). record f { refs = f.refs + 1 }) files
      (cpuinfo_handle_id handle)

-- device_close and device_dup: only the places of cpuinfo count.
abbrev pub on_cpuinfo :
    (ℤ → List CpuinfoFile → ℤ × List CpuinfoFile)
    → ℤ
    → List CpuinfoFile
    → Option ℕ
    → ℤ × List CpuinfoFile
on_cpuinfo f handle files none = (pos 0, files)
on_cpuinfo f handle files (some i) = f handle files

unfoldable pub device_close : ℤ → List CpuinfoFile → ℤ × List CpuinfoFile
device_close handle files = on_cpuinfo cpuinfo_close handle files (cpuinfo_handle_id handle)

unfoldable pub device_dup : ℤ → List CpuinfoFile → ℤ × List CpuinfoFile
device_dup handle files = on_cpuinfo cpuinfo_dup handle files (cpuinfo_handle_id handle)

-- `handle < VFS_EMPTY_HANDLE`
abbrev pub is_device : ℤ → Bool
is_device (negsuc (suc n)) = true
is_device _ = false

-- `handle >= 0`
abbrev pub is_file : ℤ → Bool
is_file (pos n) = true
is_file (negsuc n) = false

module _ {Disk : Type 0} where
  abbrev pub with_sockets : Backends Disk → Option (List Socket) → ℤ × Backends Disk
  with_sockets st none = (negsuc 0, st)
  with_sockets st (some sockets) = (pos 0, record st { sockets = sockets })

  abbrev pub with_cpuinfo : Backends Disk → ℤ × List CpuinfoFile → ℤ × Backends Disk
  with_cpuinfo st (result, files) = (result, record st { cpuinfo_files = files })

  -- The driver's close_file, an error when there is none.
  abbrev pub close_with : ℤ → Backends Disk → Option (ℤ → Disk → ℤ × Disk) → ℤ × Backends Disk
  close_with handle st none = (negsuc 0, st)
  close_with handle st (some close) =
      let (result, disk') = close handle st.disk in (result, record st { disk = disk' })

  abbrev pub disk_close : Option (Driver Disk) → ℤ → Backends Disk → ℤ × Backends Disk
  disk_close none handle st = (negsuc 0, st)
  disk_close (some driver) handle st = close_with handle st driver.close_file

  -- The driver's dup_file, if there is one.
  abbrev pub dup_with : ℤ → Backends Disk → Option (ℤ → Disk → Disk) → Backends Disk
  dup_with handle st none = st
  dup_with handle st (some dup) = record st { disk = dup handle st.disk }

  abbrev pub disk_dup : Option (Driver Disk) → ℤ → Backends Disk → Backends Disk
  disk_dup none handle st = st
  disk_dup (some driver) handle st = dup_with handle st driver.dup_file

  unfoldable pub file_close : Option (Driver Disk) → ℤ → Backends Disk → ℤ × Backends Disk
  file_close driver handle st =
      if socket_handle_valid handle st.sockets
      then with_sockets st (socket_close handle st.sockets)
      else if is_device handle
      then with_cpuinfo st (device_close handle st.cpuinfo_files)
      else disk_close driver handle st

  -- What vfs_dup2 and vfs_fork_fds do for another descriptor with the handle.
  unfoldable pub dup_handle : Option (Driver Disk) → ℤ → Backends Disk → Backends Disk
  dup_handle driver handle st =
      if socket_handle_valid handle st.sockets
      then (with_sockets st (socket_dup handle st.sockets)).1
      else if is_device handle
      then (with_cpuinfo st (device_dup handle st.cpuinfo_files)).1
      else if is_file handle
      then disk_dup driver handle st
      else st

  -- What vfs_exit_fds does for a descriptor, once a driver with a close_file is there.
  unfoldable pub exit_handle : (ℤ → Disk → ℤ × Disk) → ℤ → Backends Disk → Backends Disk
  exit_handle close handle st =
      if socket_handle_valid handle st.sockets
      then (with_sockets st (socket_close handle st.sockets)).1
      else if is_file handle
      then record st { disk = (close handle st.disk).1 }
      else if is_device handle
      then (with_cpuinfo st (device_close handle st.cpuinfo_files)).1
      else st
