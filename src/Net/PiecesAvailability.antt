-- ===== src/Net/PiecesAvailability.antt =====
-- `PeerPiecesAvailability` of include/net/PeerConnect.hpp and src/net/PeerConnect.cpp: which pieces
-- a peer has, one bit for each, the highest bit of a byte first. The class does not compare `size`
-- with the length of the string; an index behind the string's end, which is undefined in the
-- source, reads 0 here and is not written.
pub mod Bits
use simple_torrent_client.Common.{
  ℕ, ◌+◌, ◌-◌, ◌*◌, ◌/◌, ◌^◌, bit_and, bit_or, Bool, false, leb, ltb, ◌==◌, if◌then◌else◌, length,
  get_or, set, ◌<<◌, ◌>>◌,
}
use simple_torrent_client.ByteTools.{Bytes, byte_at}

pub record PeerPiecesAvailability : Type 0 where
  pub bitfield : Bytes
  pub size : ℕ

unfoldable pub is_piece_available : PeerPiecesAvailability → ℕ → Bool
is_piece_available a piece_index =
    if leb (a.size << 3) piece_index
    then false
    else bit_and (byte_at a.bitfield (piece_index >> 3) >> (7 - bit_and piece_index 7)) 1 == 1

unfoldable pub set_piece_availability : PeerPiecesAvailability → ℕ → PeerPiecesAvailability
set_piece_availability a piece_index =
    let place = piece_index >> 3 in
    let byte = bit_or (byte_at a.bitfield place) (1 << (7 - bit_and piece_index 7)) in
    if ltb piece_index (a.size << 3) then record a { bitfield = set a.bitfield place byte } else a
