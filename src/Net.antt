-- ===== src/Net.antt =====
-- include/net and src/net: peers, sockets, messages, what a peer has, and the connection to a peer.
pub mod UdpClient
pub mod Peer
pub mod Message
pub mod PiecesAvailability
pub mod TcpConnect
pub mod PeerConnect
