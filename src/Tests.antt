-- ===== src/Tests.antt =====
-- Instances of the theorems at concrete inputs, and runs of the definitions.
mod Torrents
mod Bytes
mod Pieces
mod Storage
mod Connections
mod Sockets
mod Runs
mod Trackers
mod Downloads
mod Encoded
mod Peers
mod Client
mod Arguments
