-- ===== src/Network.antt =====
-- src/network: addresses, the network settings and the DHCP client.
pub mod Ipv4
pub mod Settings
pub mod Dhcp
