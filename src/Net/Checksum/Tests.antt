-- ===== src/Net/Checksum/Tests.antt =====
-- The checksum at concrete buffers: runs of the code, and the theorems where they apply.
use mboot.Prelude.{◌<◌, ◌^◌, ◌%◌, ◌≢◌, ◌≡◌, refl, some, none, List, [], ◌∷◌, arith, ℕ}
use mboot.Net.Udp.{Ip}
use mboot.Net.Checksum.Fold.{fold_carries-mod}
use mboot.Net.Checksum.{fold_carries, udp_checksum, ipv4_checksum, udp_segment, udp_process_packet}
use mboot.Net.Checksum.Roundtrip.{IsIp, udp_process_packet-udp_segment}

-- The header of RFC 1071's kind: a well-known example, its checksum field zero.
abbrev header : List ℕ
header =
    0x45 ∷ 0x00 ∷ 0x00 ∷ 0x73 ∷ 0x00 ∷ 0x00 ∷ 0x40 ∷ 0x00 ∷ 0x40 ∷ 0x11 ∷ 0x00 ∷ 0x00 ∷ 0xc0 ∷ 0xa8
    ∷ 0x00 ∷ 0x01 ∷ 0xc0 ∷ 0xa8 ∷ 0x00 ∷ 0xc7 ∷ []

header_checksum : ipv4_checksum header ≡ 0xb861
unfolding ipv4_checksum
header_checksum = refl

abbrev here : Ip
here = record { byte0 = 10; byte1 = 0; byte2 = 2; byte3 = 15 }

abbrev there : Ip
there = record { byte0 = 10; byte1 = 0; byte2 = 2; byte3 = 2 }

here-IsIp : IsIp here
here-IsIp = record {
  byte0 = omega arith;
  byte1 = omega arith;
  byte2 = omega arith;
  byte3 = omega arith;
}

there-IsIp : IsIp there
there-IsIp = record {
  byte0 = omega arith;
  byte1 = omega arith;
  byte2 = omega arith;
  byte3 = omega arith;
}

udp_process_packet-udp_segment_example :
    udp_process_packet here there (udp_segment here there 4000 7 (1 ∷ 2 ∷ 3 ∷ []))
    ≡ some (record { src_port = 4000; dst_port = 7; payload = 1 ∷ 2 ∷ 3 ∷ [] })
udp_process_packet-udp_segment_example =
    udp_process_packet-udp_segment here there 4000 7 (1 ∷ 2 ∷ 3 ∷ []) here-IsIp there-IsIp
      (omega arith) (omega arith) (omega arith, (omega arith, (omega arith, tt))) (omega arith)

-- A payload byte that changed on the way.
changed_is_dropped :
    udp_process_packet here there (0x0f ∷ 0xa0 ∷ 0 ∷ 7 ∷ 0 ∷ 9 ∷ 0xff ∷ 0xff ∷ 2 ∷ []) ≡ none
unfolding udp_process_packet udp_checksum
changed_is_dropped = refl

abbrev carries : ℕ
carries = 0x1fffe

fold_carries-mod_example :
    (fold_carries 2 carries < 2 ^ 16)
    × (fold_carries 2 carries % 65535 ≡ carries % 65535)
    × (carries ≢ 0 → fold_carries 2 carries ≢ 0)
fold_carries-mod_example = fold_carries-mod carries (omega arith)
