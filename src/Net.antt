-- ===== src/Net.antt =====
-- The network stack: mod/core/netstack.
pub mod Sequence
pub mod Tcp
pub mod Arp
pub mod TcpProtocol
