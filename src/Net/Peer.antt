-- ===== src/Net/Peer.antt =====
-- include/net/Peer.hpp: where a peer listens.
use simple_torrent_client.Common.{ℕ}
use simple_torrent_client.ByteTools.{Bytes}

pub record Peer : Type 0 where
  pub ip : Bytes
  pub port : ℕ
