-- ===== src/Net/Checksum.antt =====
-- The Internet checksum of stage2/net/udp.c and ipv4.c, and the datagrams that carry it: what
-- udp_send builds and what udp_process_packet accepts.
--
-- A buffer is its list of bytes, a 16-bit field two of them, in the machine's little-endian order.
-- Shifts and masks of whole bytes are quotients and remainders by powers of 2.
pub mod Fold
pub mod Roundtrip
mod Tests
use mboot.Prelude.{
  ℕ, zero, suc, ◌+◌, ◌-◌, ◌*◌, ◌/◌, ◌%◌, ◌^◌, Bool, true, false, ◌||◌, Option, none, some, List, [],
  ◌∷◌, ◌++◌, ◌==◌, ltb, if◌then◌else◌, length, take, bit_or,
}
use mboot.Net.Udp.{Ip}

-- The sum of a buffer's big-endian words, an odd last byte padded with zero.
unfoldable pub add_words : ℕ → List ℕ → ℕ
add_words sum [] = sum
add_words sum (a ∷ []) = (sum + a * 2 ^ 8) % 2 ^ 32
add_words sum (a ∷ b ∷ rest) = add_words ((sum + bit_or (a * 2 ^ 8) b) % 2 ^ 32) rest

-- The loop that adds the carries back in, on fuel.
unfoldable pub fold_carries : ℕ → ℕ → ℕ
fold_carries zero sum = sum
fold_carries (suc fuel) sum =
    let rest = fold_carries fuel (sum % 2 ^ 16 + sum / 2 ^ 16) in
    if sum / 2 ^ 16 == 0 then sum else rest

-- `(uint16_t)~sum`
abbrev pub complement : ℕ → ℕ
complement sum = (2 ^ 32 - 1 - sum) % 2 ^ 16

unfoldable pub ipv4_checksum : List ℕ → ℕ
unfolding add_words fold_carries
ipv4_checksum bytes = complement (fold_carries 2 (add_words 0 bytes))

abbrev pub ipv4_protocol_udp : ℕ
ipv4_protocol_udp = 17

abbrev pub ip_words : Ip → ℕ
ip_words ip = bit_or (ip.byte0 * 2 ^ 8) ip.byte1 + bit_or (ip.byte2 * 2 ^ 8) ip.byte3

-- The sum over the pseudo-header, which is too short to wrap.
abbrev pub pseudo_sum : Ip → Ip → ℕ → ℕ
pseudo_sum src_ip dst_ip segment_len =
    ip_words src_ip + ip_words dst_ip + ipv4_protocol_udp + segment_len

unfoldable pub udp_checksum : Ip → Ip → List ℕ → ℕ
unfolding add_words fold_carries
udp_checksum src_ip dst_ip segment =
    complement (fold_carries 2 (add_words (pseudo_sum src_ip dst_ip (length segment)) segment))

abbrev pub udp_checksum_valid : Ip → Ip → List ℕ → Bool
udp_checksum_valid src_ip dst_ip segment = udp_checksum src_ip dst_ip segment == 0

abbrev pub htons : ℕ → ℕ
htons x = bit_or (x % 2 ^ 8 * 2 ^ 8) (x / 2 ^ 8)

-- the bytes of a uint16_t in memory
abbrev pub stored : ℕ → List ℕ
stored x = x % 2 ^ 8 ∷ x / 2 ^ 8 % 2 ^ 8 ∷ []

abbrev pub loaded : ℕ → ℕ → ℕ
loaded low high = low + high * 2 ^ 8

-- The segment that udp_send builds, with a checksum field.
abbrev pub segment_with : (src_port dst_port checksum : ℕ) → List ℕ → List ℕ
segment_with src_port dst_port checksum payload =
    stored (htons src_port)
    ++ stored (htons dst_port)
    ++ stored (htons ((8 + length payload) % 2 ^ 16))
    ++ stored checksum
    ++ payload

abbrev pub sent_checksum : ℕ → ℕ
sent_checksum checksum = if checksum == 0 then 0xffff else checksum

unfoldable pub udp_segment : Ip → Ip → (src_port dst_port : ℕ) → List ℕ → List ℕ
unfolding udp_checksum
udp_segment src_ip dst_ip src_port dst_port payload =
    segment_with src_port dst_port
      (htons
        (sent_checksum (udp_checksum src_ip dst_ip (segment_with src_port dst_port 0 payload))))
      payload

pub record Datagram : Type 0 where
  pub src_port : ℕ
  pub dst_port : ℕ
  pub payload : List ℕ

-- udp_process_packet up to the delivery; `none` is a drop.
unfoldable pub udp_process_packet : Ip → Ip → List ℕ → Option Datagram
udp_process_packet src_ip dst_ip (s0 ∷ s1 ∷ d0 ∷ d1 ∷ l0 ∷ l1 ∷ c0 ∷ c1 ∷ rest) =
    let dgram_len = htons (loaded l0 l1) in
    let datagram : Datagram = record {
      src_port = htons (loaded s0 s1);
      dst_port = htons (loaded d0 d1);
      payload = take (dgram_len - 8) rest;
    } in
    let segment = take dgram_len (s0 ∷ s1 ∷ d0 ∷ d1 ∷ l0 ∷ l1 ∷ c0 ∷ c1 ∷ rest) in
    if ltb dgram_len 8 || ltb (8 + length rest) dgram_len
    then none
    else if (loaded c0 c1 == 0) || udp_checksum_valid src_ip dst_ip segment
    then some datagram
    else none
udp_process_packet src_ip dst_ip _ = none
