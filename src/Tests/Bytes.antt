-- ===== src/Tests/Bytes.antt =====
-- Byte tools, messages and bitfields.
use simple_torrent_client.Common.{
  ◌%◌, ◌^◌, ltb, ◌==◌, if◌then◌else◌, [], ◌∷◌, ◌++◌, ◌≡◌, inl, refl, arith, ok, u32, ◌<<◌,
}
use simple_torrent_client.ByteTools.{substr, bytes_to_int, int_to_bytes, bytes_to_hex}
use simple_torrent_client.ByteTools.RoundTrip.{bytes_to_int-int_to_bytes}
use simple_torrent_client.Net.Message.{have, request, id_byte, parse, to_string, Message}
use simple_torrent_client.Net.Message
use simple_torrent_client.Net.Message.RoundTrip.{parse-to_string}
use simple_torrent_client.Net.PiecesAvailability.{
  PeerPiecesAvailability, is_piece_available, set_piece_availability,
}
use simple_torrent_client.Net.PiecesAvailability.Bits.{is_piece_available-set_piece_availability}
use simple_torrent_client.Core.Piece.{new_block}
use simple_torrent_client.Net.PeerConnect.{request_message}
use simple_torrent_client.Net.PeerConnect.Requests.{parse-request_message}

bytes_to_int-int_to_bytes_example :
    bytes_to_int (int_to_bytes 16909060 ++ 9 ∷ []) ≡ ok (16909060 % 2 ^ 32)
bytes_to_int-int_to_bytes_example = bytes_to_int-int_to_bytes 16909060 (9 ∷ [])

hex : bytes_to_hex (171 ∷ 5 ∷ []) ≡ b'a' ∷ b'b' ∷ b'0' ∷ b'5' ∷ []
unfolding bytes_to_hex
hex = refl

parse-to_string_example :
    parse (to_string (Message.init have (0 ∷ 0 ∷ 0 ∷ 3 ∷ [])))
    ≡ ok (Message.init have (0 ∷ 0 ∷ 0 ∷ 3 ∷ []))
unfolding id_byte
parse-to_string_example =
    parse-to_string have (0 ∷ 0 ∷ 0 ∷ 3 ∷ []) tt (inl (omega arith)) (omega arith)

abbrev field : PeerPiecesAvailability
field = record { bitfield = 128 ∷ 0 ∷ []; size = 2 }

is_piece_available-set_piece_availability_example :
    is_piece_available (set_piece_availability field 9) 9
    ≡ (if 9 == 9 then ltb 9 (2 << 3) else is_piece_available field 9)
is_piece_available-set_piece_availability_example =
    is_piece_available-set_piece_availability field 9 9
      (record { bytes = omega arith; covered = omega arith })

parse-request_message_example :
    (m : Message) × (parse (request_message (new_block 3 16384 100)) ≡ ok m)
    × (m.id ≡ request)
    × (m.message_length ≡ 13)
    × (bytes_to_int (substr 0 4 m.payload) ≡ ok (u32 3))
    × (bytes_to_int (substr 4 4 m.payload) ≡ ok (u32 16384))
    × (bytes_to_int (substr 8 4 m.payload) ≡ ok (u32 100))
parse-request_message_example = parse-request_message (new_block 3 16384 100)
