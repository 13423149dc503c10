-- ===== src/Vfs/Tests.antt =====
-- The path functions at concrete strings: runs of the code, and the theorems where they apply.
use mboot.Prelude.{
  ◌≡◌, ◌&&◌, refl, some, none, List, [], ◌∷◌, ◌++◌, leb, if◌then◌else◌, ℕ, false, arith,
}
use mboot.Vfs.Backends.{Backends}
use mboot.Vfs.Devices.{UdpDevices, device_open}
use mboot.Vfs.Names.{udp_at, HandleOf, device_open-HandleOf}
use mboot.Vfs.{normalize_path, parse_uint16, parse_digits}
use mboot.Vfs.Paths.{Normal, Skipped, normalize_path-Normal}
use mboot.Vfs.Ports.{all_digits, decimal, is_numeral, parse_uint16-decimal}

-- "/./dev"
abbrev rooted : List ℕ
rooted = 47 ∷ 46 ∷ 47 ∷ 100 ∷ 101 ∷ 118 ∷ []

rooted_is_normalized : normalize_path rooted ≡ 100 ∷ 101 ∷ 118 ∷ []
unfolding normalize_path
rooted_is_normalized = refl

normalize_path-Normal_example :
    Normal (normalize_path rooted)
    × ((pre : List ℕ) × (rooted ≡ pre ++ normalize_path rooted) × Skipped pre)
normalize_path-Normal_example = normalize_path-Normal rooted

-- "8080"
abbrev port_name : List ℕ
port_name = 56 ∷ 48 ∷ 56 ∷ 48 ∷ []

port_is_parsed : parse_uint16 port_name ≡ some 8080
unfolding parse_uint16 parse_digits
port_is_parsed = refl

parse_uint16-decimal_example : parse_uint16 port_name ≡ (
    if is_numeral port_name && leb (decimal 0 port_name) 65535
    then some (decimal 0 port_name)
    else none)
parse_uint16-decimal_example = parse_uint16-decimal port_name

abbrev no_backends : Backends Unit
no_backends = record { sockets = []; cpuinfo_files = []; disk = tt }

abbrev one_udp : UdpDevices
one_udp = record {
  udp_ttys =
      record { port = 0; bound = false; has_peer = false; in_len = 0; in_pos = 0; out_len = 0 }
      ∷ [];
  servers = none ∷ [];
}

-- The path /dev/udp7.
abbrev udp_path : List ℕ
udp_path = 47 ∷ 100 ∷ 101 ∷ 118 ∷ 47 ∷ 117 ∷ 100 ∷ 112 ∷ 55 ∷ []

device_open-HandleOf_example :
    HandleOf 0 one_udp (udp_at (55 ∷ [])) (device_open 0 udp_path no_backends one_udp).0
unfolding normalize_path all_digits decimal
device_open-HandleOf_example =
    device_open-HandleOf 0 udp_path no_backends one_udp (udp_at (55 ∷ [])) (omega arith)
      (refl, omega arith) refl
