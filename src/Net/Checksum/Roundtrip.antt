-- ===== src/Net/Checksum/Roundtrip.antt =====
-- What udp_send builds, udp_process_packet accepts and delivers.
use mboot.Prelude.{
  ℕ, ◌+◌, ◌-◌, ◌*◌, ◌/◌, ◌%◌, ◌^◌, ◌≤◌, ◌<◌, ◌≡◌, refl, sym, ap, ◌∙◌, some, List, [], ◌∷◌, arith,
  length, All, take, le→ltb,
}
use mboot.Net.Udp.{Ip}
use mboot.Net.Checksum.{
  add_words, fold_carries, complement, sent_checksum, htons, loaded, segment_with, udp_segment,
  udp_checksum, pseudo_sum, ip_words, udp_process_packet,
}
use mboot.Prelude.Bits.{bit_or_fields}
use mboot.Net.Checksum.Fold.{
  IsByte, words_total, words_total-le, add_words-total, htons-bytes, complement-zero,
}

pub record IsIp (ip : Ip) : Type 0 where
  pub byte0 : IsByte ip.byte0
  pub byte1 : IsByte ip.byte1
  pub byte2 : IsByte ip.byte2
  pub byte3 : IsByte ip.byte3

ip_words-lt : (ip : Ip) → IsIp ip → ip_words ip ≤ 2 * 65535
ip_words-lt ip h =
    let p = bit_or_fields 8 ip.byte0 ip.byte1 h.byte1 in
    let q = bit_or_fields 8 ip.byte2 ip.byte3 h.byte3 in
    omega (arith, p, q, h.byte0, h.byte1, h.byte2, h.byte3)

stored-word : (x : ℕ) → x < 2 ^ 16 → htons x % 2 ^ 8 * 2 ^ 8 + htons x / 2 ^ 8 % 2 ^ 8 ≡ x
stored-word x h = omega (arith, htons-bytes x h, h)

-- A field that is stored in network order is read back.
loaded-stored :
    (x : ℕ) → x < 2 ^ 16 → htons (loaded (htons x % 2 ^ 8) (htons x / 2 ^ 8 % 2 ^ 8)) ≡ x
loaded-stored x h =
    let y = htons-bytes x h in
    let l : loaded (htons x % 2 ^ 8) (htons x / 2 ^ 8 % 2 ^ 8) ≡ x % 2 ^ 8 * 2 ^ 8 + x / 2 ^ 8 =
      omega (arith, y, h) in
    ap htons l ∙ htons-bytes (x % 2 ^ 8 * 2 ^ 8 + x / 2 ^ 8) (omega (arith, h)) ∙ omega (arith, h)

sent_checksum-lt : (x : ℕ) → sent_checksum (complement x) < 2 ^ 16
sent_checksum-lt x = ground arith

take-all : (xs : List ℕ) → take (length xs) xs ≡ xs
take-all [] = refl
take-all (x ∷ xs) = ap (λ l. x ∷ l) (take-all xs)

module _ (src_ip dst_ip : Ip) (src_port dst_port : ℕ) (payload : List ℕ) (src : IsIp src_ip)
    (dst : IsIp dst_ip) (src_word : src_port < 2 ^ 16) (dst_word : dst_port < 2 ^ 16)
    (bytes : All IsByte payload) (fits : 8 + length payload < 2 ^ 16) where
  abbrev base : ℕ
  base =
      pseudo_sum src_ip dst_ip (8 + length payload)
      + (src_port + dst_port + (8 + length payload) + words_total payload)

  base-le : base + 2 ^ 16 ≤ 2 ^ 32
  base-le = omega (
    arith,
    ip_words-lt src_ip src,
    ip_words-lt dst_ip dst,
    words_total-le payload bytes,
    fits,
    src_word,
    dst_word,
  )

  -- the segment's bytes and their sum, with any checksum field
  sent-bytes : (k : ℕ) → All IsByte (segment_with src_port dst_port k payload)
  sent-bytes k = (
    omega arith,
    (
      omega arith,
      (
        omega arith,
        (omega arith, (omega arith, (omega arith, (omega arith, (omega arith, bytes))))),
      ),
    ),
  )

  sent-total :
      (k c : ℕ)
      → k % 2 ^ 8 * 2 ^ 8 + k / 2 ^ 8 % 2 ^ 8 ≡ c
      → words_total (segment_with src_port dst_port k payload)
        ≡ src_port + dst_port + (8 + length payload) + words_total payload + c
  unfolding words_total
  sent-total k c e = omega (
    arith,
    e,
    stored-word src_port src_word,
    stored-word dst_port dst_word,
    stored-word ((8 + length payload) % 2 ^ 16) (omega arith),
    fits,
  )

  sent-sum :
      (k c : ℕ)
      → c < 2 ^ 16
      → k % 2 ^ 8 * 2 ^ 8 + k / 2 ^ 8 % 2 ^ 8 ≡ c
      → add_words
          (pseudo_sum src_ip dst_ip (8 + length payload))
          (segment_with src_port dst_port k payload)
        ≡ base + c
  sent-sum k c h e =
      let t = sent-total k c e in
      add_words-total (pseudo_sum src_ip dst_ip (8 + length payload))
        (segment_with src_port dst_port k payload) (sent-bytes k) (omega (arith, t, base-le, h))
      ∙ omega (arith, t)

  sent-length : (k : ℕ) → length (segment_with src_port dst_port k payload) ≡ 8 + length payload
  sent-length k = omega arith

  sent-checksum :
      (k c : ℕ)
      → c < 2 ^ 16
      → k % 2 ^ 8 * 2 ^ 8 + k / 2 ^ 8 % 2 ^ 8 ≡ c
      → udp_checksum src_ip dst_ip (segment_with src_port dst_port k payload)
        ≡ complement (fold_carries 2 (base + c))
  unfolding udp_checksum
  sent-checksum k c h e = rw (udp_checksum, sent-length k, sent-sum k c h e)

  udp_segment-zero :
      udp_checksum src_ip dst_ip (udp_segment src_ip dst_ip src_port dst_port payload) ≡ 0
  unfolding udp_segment
  udp_segment-zero =
      let start =
        sent-checksum 0 0 (omega arith) refl
        ∙ ap (λ x. complement (fold_carries 2 x)) {x = base + 0} {y = base} (omega arith) in
      let c =
        sent_checksum (udp_checksum src_ip dst_ip (segment_with src_port dst_port 0 payload)) in
      let word : c < 2 ^ 16 = rw start (sent_checksum-lt (fold_carries 2 base)) in
      sent-checksum (htons c) c word (stored-word c word)
      ∙ ap (λ x. complement (fold_carries 2 (base + sent_checksum x))) start
      ∙ complement-zero base base-le

  whole :
      (k : ℕ)
      → take (8 + length payload) (segment_with src_port dst_port k payload)
        ≡ segment_with src_port dst_port k payload
  whole k =
      ap (λ n. take n (segment_with src_port dst_port k payload)) (sym (sent-length k))
      ∙ take-all (segment_with src_port dst_port k payload)

  delivered : take (8 + length payload - 8) payload ≡ payload
  delivered = ap (λ n. take n payload) (omega arith) ∙ take-all payload

  accepts :
      (k : ℕ)
      → udp_checksum src_ip dst_ip (segment_with src_port dst_port k payload) ≡ 0
      → udp_process_packet src_ip dst_ip (segment_with src_port dst_port k payload)
        ≡ some (record { src_port = src_port; dst_port = dst_port; payload = payload })
  unfolding udp_process_packet
  accepts k e =
      let l : (8 + length payload) % 2 ^ 16 ≡ 8 + length payload = omega (arith, fits) in
      let len = loaded-stored ((8 + length payload) % 2 ^ 16) (omega arith) ∙ l in
      rw
        (
          len,
          loaded-stored src_port src_word,
          loaded-stored dst_port dst_word,
          le→ltb (8 + length payload) 8 (omega arith),
          le→ltb (8 + length payload) (8 + length payload) (omega arith),
          whole k,
          e,
          delivered,
        )
        (ground arith)

  -- A datagram of at most 2^16 - 9 bytes that udp_send builds, on whatever addresses and ports,
  -- passes the length and checksum tests of udp_process_packet at those addresses, which delivers
  -- the ports and the payload that were sent.
  pub udp_process_packet-udp_segment :
      udp_process_packet src_ip dst_ip (udp_segment src_ip dst_ip src_port dst_port payload)
      ≡ some (record { src_port = src_port; dst_port = dst_port; payload = payload })
  unfolding udp_segment
  udp_process_packet-udp_segment = accepts _ udp_segment-zero
