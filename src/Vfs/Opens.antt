-- ===== src/Vfs/Opens.antt =====
-- file_open and vfs_open of stage2/vfs.c.
--
-- The driver's open_file is an argument beside its other functions; it has no result when its search
-- does not end.
use mboot.Prelude.{ℕ, Option, none, some, List, if◌then◌else◌, ℤ, pos, negsuc}
use mboot.Vfs.Backends.{Backends, Driver, is_device, file_close}
use mboot.Vfs.Fds.{is_empty, vfs_attach_handle}
use mboot.Vfs.Devices.{UdpDevices, DeviceResult, device_open}

-- The type of `open_file` of `vfs_driver_t`.
abbrev pub OpenFile : Type 0 → Type 0
OpenFile Disk = List ℕ → Disk → Option (ℤ × Disk)

-- The descriptor, the table, the backends and the devices.
abbrev pub OpenResult : Type 0 → Type 0
OpenResult Disk = ℤ × List ℤ × Backends Disk × UdpDevices

module _ {Disk : Type 0} where
  abbrev pub on_disk : Backends Disk → UdpDevices → Option (ℤ × Disk) → Option (DeviceResult Disk)
  on_disk st devices none = none
  on_disk st devices (some (handle, disk)) = some (handle, record st { disk = disk }, devices)

  abbrev pub open_with :
      Option (OpenFile Disk) → List ℕ → Backends Disk → UdpDevices → Option (DeviceResult Disk)
  open_with none path st devices = some (negsuc 0, st, devices)
  open_with (some open_file) path st devices = on_disk st devices (open_file path st.disk)

  -- A name that is no device's goes to the driver, if there is one.
  abbrev pub driver_open :
      Option (OpenFile Disk) → List ℕ → DeviceResult Disk → Option (DeviceResult Disk)
  driver_open open_file path (handle, st, devices) =
      if is_device handle then some (handle, st, devices) else open_with open_file path st devices

  unfoldable pub file_open :
      (current_tty : ℕ)
      → Option (OpenFile Disk)
      → List ℕ
      → Backends Disk
      → UdpDevices
      → Option (DeviceResult Disk)
  file_open current_tty open_file path st devices =
      driver_open open_file path (device_open current_tty path st devices)

  -- The end of vfs_open, on what vfs_attach_handle gave.
  abbrev pub attached_or_closed :
      Option (Driver Disk)
      → (handle : ℤ) → Backends Disk
      → UdpDevices
      → ℤ × List ℤ
      → OpenResult Disk
  attached_or_closed driver handle st devices (pos fd, table) = (pos fd, table, st, devices)
  attached_or_closed driver handle st devices (negsuc n, table) =
      (negsuc n, table, (file_close driver handle st).1, devices)

  abbrev pub attach_opened :
      Option (Driver Disk) → List ℤ → Option (DeviceResult Disk) → Option (OpenResult Disk)
  attach_opened driver table none = none
  attach_opened driver table (some (handle, st, devices)) =
      if is_empty handle
      then some (negsuc 0, table, st, devices)
      else some (attached_or_closed driver handle st devices (vfs_attach_handle handle table))

  unfoldable pub vfs_open :
      (current_tty : ℕ)
      → Option (Driver Disk)
      → Option (OpenFile Disk)
      → List ℕ
      → List ℤ
      → Backends Disk
      → UdpDevices
      → Option (OpenResult Disk)
  vfs_open current_tty driver open_file path table st devices =
      attach_opened driver table (file_open current_tty open_file path st devices)
