-- ===== src/Network.antt =====
-- The network code: checksums, headers and the maps of ports.
pub mod Checksum
pub mod Ip4
pub mod Arp
pub mod Udp
pub mod SocketBuffer
pub mod TcpSocket
pub mod TcpSend
pub mod TcpControl
pub mod TcpReceive
pub mod Icmp
