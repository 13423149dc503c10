-- ===== src/Net/Arp/Tests.antt =====
-- Address resolution between two concrete hosts.
use mboot.Prelude.{◌≡◌, ◌≢◌, some, none, false, arith, ℕ}
use mboot.Net.Udp.{Ip}
use mboot.Net.Arp.{
  Mac, ArpFrame, ArpCache, arp_send_request, arp_process_packet, arp_try_get_mac, zero_mac,
}
use mboot.Net.Arp.Exchange.{arp_process_packet-learns, arp_process_packet-arp_send_request}

abbrev guest : Ip
guest = record { byte0 = 10; byte1 = 0; byte2 = 2; byte3 = 15 }

abbrev gateway : Ip
gateway = record { byte0 = 10; byte1 = 0; byte2 = 2; byte3 = 2 }

abbrev card : ℕ → Mac
card n = record { byte0 = 0x52; byte1 = 0x54; byte2 = 0; byte3 = 0x12; byte4 = 0x34; byte5 = n }

abbrev empty_cache : ArpCache
empty_cache = record { cached_ip = guest; cached_mac = zero_mac; valid = false }

arp_process_packet-learns_example :
    (arp_try_get_mac guest
        (arp_process_packet
          (some gateway)
          (card 1)
          (arp_send_request (card 2) guest gateway).arp
          46
          empty_cache).0
      ≡ some (card 2))
    × ((ip : Ip)
        → ip ≢ guest
        → arp_try_get_mac ip
            (arp_process_packet
              (some gateway)
              (card 1)
              (arp_send_request (card 2) guest gateway).arp
              46
              empty_cache).0
          ≡ none)
unfolding arp_send_request
arp_process_packet-learns_example =
    arp_process_packet-learns (some gateway) (card 1) (arp_send_request (card 2) guest gateway).arp
      46 empty_cache (omega arith)

arp_process_packet-arp_send_request_example :
    (reply : ArpFrame) × ((arp_process_packet
        (some gateway)
        (card 1)
        (arp_send_request (card 2) guest gateway).arp
        28
        empty_cache).1
      ≡ some reply)
    × (arp_try_get_mac guest
          (arp_process_packet
            (some gateway)
            (card 1)
            (arp_send_request (card 2) guest gateway).arp
            28
            empty_cache).0
        ≡ some (card 2))
    × (reply.dst ≡ card 2)
    × (arp_try_get_mac gateway (arp_process_packet (some guest) (card 2) reply.arp 28 empty_cache).0
        ≡ some (card 1))
arp_process_packet-arp_send_request_example =
    arp_process_packet-arp_send_request guest gateway (card 2) (card 1) empty_cache empty_cache
