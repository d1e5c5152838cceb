-- ===== src/Net.antt =====
-- The network stack: kernel/src/net.
pub mod Arp
pub mod Ipv4
pub mod Wire
pub mod Udp
pub mod Icmp
pub mod Dns
pub mod Dhcp
pub mod Stack
pub mod Tcp
mod Tests
