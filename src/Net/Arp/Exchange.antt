-- ===== src/Net/Arp/Exchange.antt =====
-- What a packet teaches the cache, and an exchange of a request and its reply.
use mboot.Prelude.{
  ℕ, ◌≤◌, ◌≡◌, ◌≢◌, refl, true, false, none, some, Option, arith, le→ltb, Bool-cases, inl, inr,
}
use mboot.Net.Udp.{Ip}
use mboot.Net.Arp.{
  Mac, ArpPkt, ArpFrame, ArpCache, arp_update_cache, ip_equal, ipv4_is_local_address,
  arp_send_request, arp_send_reply, arp_process_packet, arp_try_get_mac,
}

ip_equal_same : (ip : Ip) → ip_equal ip ip ≡ true
unfolding ip_equal
ip_equal_same ip = ground arith

ip_equal→eq : (a b : Ip) → ip_equal a b ≡ true → a ≡ b
unfolding ip_equal
ip_equal→eq a b e =
    let p : a.byte0 ≡ b.byte0 = ground arith in
    let q : a.byte1 ≡ b.byte1 = ground arith in
    let r : a.byte2 ≡ b.byte2 = ground arith in
    let s : a.byte3 ≡ b.byte3 = ground arith in
    λ i. record { byte0 = p i; byte1 = q i; byte2 = r i; byte3 = s i }

ip_equal_other : (a b : Ip) → a ≢ b → ip_equal a b ≡ false
ip_equal_other a b ne = elim (Bool-cases (ip_equal a b)) [
  | inl e ↦ absurd (ne (ip_equal→eq a b e))
  | inr e ↦ e
]

-- Whatever the cache held, a packet of at least 28 bytes leaves one that resolves the sender's
-- address to the sender's hardware address, and no other address.
pub arp_process_packet-learns :
    (local : Option Ip) (own_mac : Mac) (arp : ArpPkt) (len : ℕ) (cache : ArpCache)
    → 28 ≤ len
    → (arp_try_get_mac arp.sender_ip (arp_process_packet local own_mac arp len cache).0
        ≡ some arp.sender_mac)
      × ((ip : Ip)
          → ip ≢ arp.sender_ip
          → arp_try_get_mac ip (arp_process_packet local own_mac arp len cache).0 ≡ none)
unfolding arp_process_packet arp_try_get_mac arp_update_cache
arp_process_packet-learns local own_mac arp len cache h = (
  rw (le→ltb len 28 h, ip_equal_same arp.sender_ip),
  λ ip ne. rw (le→ltb len 28 h, ip_equal_other ip arp.sender_ip ne),
)

-- Two hosts, whatever their caches: one asks for the other's local address. The other answers, learns who asked, and
-- its answer, processed by the one that asked, resolves the address to the hardware address of the
-- other's card.
pub arp_process_packet-arp_send_request :
    (own_ip their_ip : Ip) (own_mac their_mac : Mac) (own their : ArpCache)
    → (reply : ArpFrame) × ((arp_process_packet
          (some their_ip)
          their_mac
          (arp_send_request own_mac own_ip their_ip).arp
          28
          their).1
        ≡ some reply)
      × (arp_try_get_mac own_ip
            (arp_process_packet
              (some their_ip)
              their_mac
              (arp_send_request own_mac own_ip their_ip).arp
              28
              their).0
          ≡ some own_mac)
      × (reply.dst ≡ own_mac)
      × (arp_try_get_mac their_ip (arp_process_packet (some own_ip) own_mac reply.arp 28 own).0
          ≡ some their_mac)
unfolding arp_process_packet arp_send_request arp_send_reply ipv4_is_local_address
arp_process_packet-arp_send_request own_ip their_ip own_mac their_mac own their = (
  arp_send_reply their_mac own_mac their_ip own_ip,
  rw (ip_equal_same their_ip),
  (arp_process_packet-learns (some their_ip) their_mac
      (arp_send_request own_mac own_ip their_ip).arp 28 their (omega arith)).0,
  refl,
  (arp_process_packet-learns (some own_ip) own_mac
      (arp_send_reply their_mac own_mac their_ip own_ip).arp 28 own (omega arith)).0,
)
