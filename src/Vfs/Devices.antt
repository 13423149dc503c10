-- ===== src/Vfs/Devices.antt =====
-- The devices of stage2/vfs.c by their names: device_open.
--
-- The current task's terminal is an argument.
use mboot.Prelude.{
  ℕ, ◌+◌, ◌-◌, Bool, true, false, ◌&&◌, ◌||◌, not, Option, none, some, List, [], ◌∷◌, ◌==◌, ltb,
  if◌then◌else◌, drop, get_or, set, ℤ, negsuc,
}
use mboot.Net.Udp.{Server, udp_server_bind}
use mboot.Vfs.{normalize_path, path_eq, path_has_prefix, parse_uint16}
use mboot.Vfs.Backends.{Backends, CpuinfoFile, empty_handle, cpuinfo_open, is_device}

-- `udp_tty_t`, but for its buffers and its peer's address.
pub record UdpTty : Type 0 where
  pub port : ℕ
  pub bound : Bool
  pub has_peer : Bool
  pub in_len : ℕ
  pub in_pos : ℕ
  pub out_len : ℕ

-- `udp_ttys`, and the servers of stage2/net/udp.c.
pub record UdpDevices : Type 0 where
  pub udp_ttys : List UdpTty
  pub servers : List (Option Server)

-- "dev/" and a name
abbrev pub dev : List ℕ → List ℕ
dev name = 100 ∷ 101 ∷ 118 ∷ 47 ∷ name

abbrev pub null_name : List ℕ
null_name = dev (110 ∷ 117 ∷ 108 ∷ 108 ∷ [])

abbrev pub zero_name : List ℕ
zero_name = dev (122 ∷ 101 ∷ 114 ∷ 111 ∷ [])

abbrev pub full_name : List ℕ
full_name = dev (102 ∷ 117 ∷ 108 ∷ 108 ∷ [])

abbrev pub cpuinfo_name : List ℕ
cpuinfo_name = dev (99 ∷ 112 ∷ 117 ∷ 105 ∷ 110 ∷ 102 ∷ 111 ∷ [])

abbrev pub tty_name : List ℕ
tty_name = dev (116 ∷ 116 ∷ 121 ∷ [])

abbrev pub udp_name : List ℕ
udp_name = dev (117 ∷ 100 ∷ 112 ∷ [])

-- The character of a string, its terminator behind the end.
abbrev pub char_at : List ℕ → ℕ → ℕ
char_at s i = get_or s i 0

unfoldable pub tty_path_id : (current_tty : ℕ) → List ℕ → Option ℕ
tty_path_id current_tty name =
    let n = char_at name 7 in
    if path_eq name tty_name
    then some current_tty
    else if not (path_has_prefix name tty_name)
    then none
    else if ltb n 49 || (ltb 52 n || not (char_at name 8 == 0))
    then none
    else some (n - 49)

-- The device of a port, from the i-th place on, and the first one that is not bound.
unfoldable pub find_udp : (port i : ℕ) → List UdpTty → Option ℕ
find_udp port i [] = none
find_udp port i (t ∷ ttys) =
    let rest = find_udp port (i + 1) ttys in if t.bound && (t.port == port) then some i else rest

unfoldable pub free_udp : (i : ℕ) → List UdpTty → Option ℕ
free_udp i [] = none
free_udp i (t ∷ ttys) = let rest = free_udp (i + 1) ttys in if t.bound then rest else some i

abbrev pub new_udp : ℕ → UdpTty
new_udp port = record {
  port = port;
  bound = true;
  has_peer = false;
  in_len = 0;
  in_pos = 0;
  out_len = 0;
}

abbrev pub udp_placed : ℕ → List UdpTty → Option ℕ → Option ℕ → Option (ℕ × List UdpTty)
udp_placed port ttys (some i) free = some (i, ttys)
udp_placed port ttys none (some i) = some (i, set ttys i (new_udp port))
udp_placed port ttys none none = none

-- The place of a port's device, and the table.
unfoldable pub udp_tty_for_port : ℕ → List UdpTty → Option (ℕ × List UdpTty)
udp_tty_for_port port ttys = udp_placed port ttys (find_udp port 0 ttys) (free_udp 0 ttys)

abbrev pub udp_bound : ℕ → UdpDevices → Option (List (Option Server)) → ℤ × UdpDevices
udp_bound port devices none = (empty_handle, devices)
udp_bound port devices (some servers) = (negsuc (1023 + port), record devices { servers = servers })

abbrev pub udp_open_at : ℕ → UdpDevices → Option (ℕ × List UdpTty) → ℤ × UdpDevices
udp_open_at port devices none = (empty_handle, devices)
udp_open_at port devices (some (i, ttys)) =
    udp_bound port (record devices { udp_ttys = ttys }) (udp_server_bind port devices.servers)

abbrev pub udp_open_port : UdpDevices → Option ℕ → ℤ × UdpDevices
udp_open_port devices none = (empty_handle, devices)
udp_open_port devices (some port) =
    udp_open_at port devices (udp_tty_for_port port devices.udp_ttys)

-- The number stands behind the seven characters of the prefix.
unfoldable pub udp_tty_open : List ℕ → UdpDevices → ℤ × UdpDevices
udp_tty_open name devices =
    if path_has_prefix name udp_name
    then udp_open_port devices (parse_uint16 (drop 7 name))
    else (empty_handle, devices)

-- cpuinfo_open with the test of the name.
unfoldable pub open_cpuinfo : List ℕ → List CpuinfoFile → ℤ × List CpuinfoFile
open_cpuinfo name files =
    if path_eq name cpuinfo_name then cpuinfo_open files else (empty_handle, files)

-- What device_open returns, and what it changes.
abbrev pub DeviceResult : Type 0 → Type 0
DeviceResult Disk = ℤ × Backends Disk × UdpDevices

module _ {Disk : Type 0} where
  abbrev pub open_udp : Backends Disk → ℤ × UdpDevices → DeviceResult Disk
  open_udp st (handle, devices) = (handle, st, devices)

  abbrev pub open_tty : List ℕ → Backends Disk → UdpDevices → Option ℕ → DeviceResult Disk
  open_tty name st devices none = open_udp st (udp_tty_open name devices)
  open_tty name st devices (some tty) = (negsuc (31 + tty), st, devices)

  -- The end of device_open, on what cpuinfo_open gave.
  abbrev pub behind_cpuinfo :
      (current_tty : ℕ)
      → List ℕ
      → Backends Disk
      → UdpDevices
      → ℤ × List CpuinfoFile
      → DeviceResult Disk
  behind_cpuinfo current_tty name st devices (handle, files) =
      let st' = record st { cpuinfo_files = files } in
      if is_device handle
      then (handle, st', devices)
      else open_tty name st' devices (tty_path_id current_tty name)

  -- device_open, on the name behind the leading "/" and "./".
  abbrev pub device_named :
      (current_tty : ℕ) → List ℕ → Backends Disk → UdpDevices → DeviceResult Disk
  device_named current_tty name st devices =
      if path_eq name null_name
      then (negsuc 1, st, devices)
      else if path_eq name zero_name
      then (negsuc 2, st, devices)
      else if path_eq name full_name
      then (negsuc 3, st, devices)
      else behind_cpuinfo current_tty name st devices (open_cpuinfo name st.cpuinfo_files)

  unfoldable pub device_open :
      (current_tty : ℕ) → List ℕ → Backends Disk → UdpDevices → DeviceResult Disk
  device_open current_tty path st devices =
      device_named current_tty (normalize_path path) st devices
