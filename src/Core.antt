-- ===== src/Core.antt =====
-- include/core and src/core: the torrent file, pieces and their storage, trackers, and the client.
pub mod TorrentFile
pub mod Piece
pub mod OutputFile
pub mod PieceStorage
pub mod UdpTracker
pub mod TorrentTracker
pub mod PeerOrder
pub mod TorrentClient
