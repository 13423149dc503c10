-- ===== src/Net/Arp.antt =====
-- The address resolution of stage2/net/arp.c, and the local address of stage2/net/ipv4.c that it asks.
--
-- A packet is the packed struct over its bytes; a 16-bit field holds the value in network order. The
-- address of the network card is an argument, and the frame that is sent a result.
pub mod Exchange
mod Tests
use mboot.Prelude.{
  ℕ, Bool, true, false, ◌&&◌, not, ◌||◌, Option, none, some, ◌==◌, ltb, if◌then◌else◌,
}
use mboot.Net.Udp.{Ip}
use mboot.Net.Checksum.{htons}

-- `uint8_t mac[6]`
pub record Mac : Type 0 where
  pub byte0 : ℕ
  pub byte1 : ℕ
  pub byte2 : ℕ
  pub byte3 : ℕ
  pub byte4 : ℕ
  pub byte5 : ℕ

-- `arp_pkt`, 28 bytes
pub record ArpPkt : Type 0 where
  pub htype : ℕ
  pub ptype : ℕ
  pub hlen : ℕ
  pub plen : ℕ
  pub opcode : ℕ
  pub sender_mac : Mac
  pub sender_ip : Ip
  pub target_mac : Mac
  pub target_ip : Ip

-- A frame with its packet, padded to its length.
pub record ArpFrame : Type 0 where
  pub dst : Mac
  pub src : Mac
  pub ethertype : ℕ
  pub arp : ArpPkt
  pub frame_len : ℕ

pub record ArpCache : Type 0 where
  pub cached_ip : Ip
  pub cached_mac : Mac
  pub valid : Bool

abbrev pub arp_pkt_size : ℕ
arp_pkt_size = 28

abbrev pub broadcast : Mac
broadcast = record {
  byte0 = 0xff;
  byte1 = 0xff;
  byte2 = 0xff;
  byte3 = 0xff;
  byte4 = 0xff;
  byte5 = 0xff;
}

abbrev pub zero_mac : Mac
zero_mac = record { byte0 = 0; byte1 = 0; byte2 = 0; byte3 = 0; byte4 = 0; byte5 = 0 }

unfoldable pub arp_update_cache : Ip → Mac → ArpCache → ArpCache
arp_update_cache sender_ip sender_mac cache = record {
  cached_ip = sender_ip;
  cached_mac = sender_mac;
  valid = true;
}

unfoldable pub ip_equal : Ip → Ip → Bool
ip_equal lhs rhs =
    (lhs.byte0 == rhs.byte0)
    && ((lhs.byte1 == rhs.byte1) && ((lhs.byte2 == rhs.byte2) && (lhs.byte3 == rhs.byte3)))

-- `none` is an address that is not valid.
unfoldable pub ipv4_is_local_address : Option Ip → Ip → Bool
unfolding ip_equal
ipv4_is_local_address none ip = false
ipv4_is_local_address (some local) ip = ip_equal local ip

unfoldable pub arp_send_request : Mac → Ip → Ip → ArpFrame
arp_send_request own_mac src_ip target_ip = record {
  dst = broadcast;
  src = own_mac;
  ethertype = htons 0x0806;
  arp = record {
    htype = htons 1;
    ptype = htons 0x0800;
    hlen = 6;
    plen = 4;
    opcode = htons 1;
    sender_mac = own_mac;
    sender_ip = src_ip;
    target_mac = zero_mac;
    target_ip = target_ip;
  };
  frame_len = 60;
}

unfoldable pub arp_send_reply : Mac → Mac → Ip → Ip → ArpFrame
arp_send_reply own_mac target_mac sender_ip target_ip = record {
  dst = target_mac;
  src = own_mac;
  ethertype = htons 0x0806;
  arp = record {
    htype = htons 1;
    ptype = htons 0x0800;
    hlen = 6;
    plen = 4;
    opcode = htons 2;
    sender_mac = own_mac;
    sender_ip = sender_ip;
    target_mac = target_mac;
    target_ip = target_ip;
  };
  frame_len = 60;
}

-- The second result is the reply that is sent, if one is.
unfoldable pub arp_process_packet :
    Option Ip → Mac → ArpPkt → ℕ → ArpCache → ArpCache × Option ArpFrame
arp_process_packet local own_mac arp len cache = if ltb len arp_pkt_size then (cache, none) else (
  arp_update_cache arp.sender_ip arp.sender_mac cache,
  if htons arp.opcode == 1
      then if ipv4_is_local_address local arp.target_ip
        then some (arp_send_reply own_mac arp.sender_mac arp.target_ip arp.sender_ip)
        else none
      else none,
)

unfoldable pub arp_try_get_mac : Ip → ArpCache → Option Mac
unfolding ip_equal
arp_try_get_mac target_ip cache =
    if not cache.valid || not (ip_equal target_ip cache.cached_ip)
    then none
    else some cache.cached_mac
