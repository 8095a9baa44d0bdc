-- ===== src/Tests/Torrents.antt =====
-- A torrent of one piece of two bytes, whose SHA-1 is taken to be the bytes themselves, and one of
-- three pieces.
use simple_torrent_client.Common.{[], ◌∷◌, replicate, arith}
use simple_torrent_client.ByteTools.{Bytes}
use simple_torrent_client.Core.TorrentFile.{TorrentFile}
use simple_torrent_client.Core.PieceStorage.Invariant.{IsTorrent}

abbrev pub plain : Bytes → Bytes
plain s = s

abbrev pub tiny : TorrentFile
tiny = record {
  announce = [];
  comment = [];
  piece_hashes = (7 ∷ 8 ∷ []) ∷ [];
  piece_length = 2;
  length = 2;
  name = [];
  info_hash = replicate 20 5;
}

pub tiny-IsTorrent : IsTorrent tiny
tiny-IsTorrent = record { positive = omega arith; small = omega arith }

abbrev pub three : TorrentFile
three = record {
  announce = [];
  comment = [];
  piece_hashes = (1 ∷ 2 ∷ []) ∷ (3 ∷ 4 ∷ []) ∷ (5 ∷ []) ∷ [];
  piece_length = 2;
  length = 5;
  name = [];
  info_hash = replicate 20 6;
}

pub three-IsTorrent : IsTorrent three
three-IsTorrent = record { positive = omega arith; small = omega arith }
