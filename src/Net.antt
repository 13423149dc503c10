-- ===== src/Net.antt =====
-- The network stack of stage2/net.
pub mod Udp
pub mod Checksum
pub mod Arp
pub mod Socket
