-- ===== src/Net/PeerConnect/Requests.antt =====
-- What the connection sends, read back by the parser of messages.
use simple_torrent_client.Common.{
  ℕ, [], ◌++◌, ◌≡◌, refl, ap, ◌∙◌, arith, inl, u32, ok, append-nil, sym, inr,
}
use simple_torrent_client.ByteTools.{substr, bytes_to_int, int_to_bytes}
use simple_torrent_client.ByteTools.RoundTrip.{bytes_to_int-int_to_bytes}
use simple_torrent_client.Core.Piece.{Block}
use simple_torrent_client.Net.Message.{Message, request, interested, parse, id_byte}
use simple_torrent_client.Net.Message
use simple_torrent_client.Net.Message.RoundTrip.{parse-to_string}
use simple_torrent_client.Net.PeerConnect.{request_message, interested_message}

word : (v : ℕ) → bytes_to_int (int_to_bytes (u32 v)) ≡ ok (u32 v)
word v =
    ap bytes_to_int (sym (append-nil (int_to_bytes (u32 v))))
    ∙ (bytes_to_int-int_to_bytes (u32 v) [] ∙ ap ok (omega arith))

-- A request is read back as a request, whose payload gives the piece, the offset and the length of
-- the block, each modulo 2 ^ 32.
pub parse-request_message :
    (b : Block)
    → (m : Message) × (parse (request_message b) ≡ ok m)
      × (m.id ≡ request)
      × (m.message_length ≡ 13)
      × (bytes_to_int (substr 0 4 m.payload) ≡ ok (u32 b.piece))
      × (bytes_to_int (substr 4 4 m.payload) ≡ ok (u32 b.offset))
      × (bytes_to_int (substr 8 4 m.payload) ≡ ok (u32 b.length))
unfolding request_message Message.init int_to_bytes
parse-request_message b =
    let payload =
      int_to_bytes (u32 b.piece) ++ (int_to_bytes (u32 b.offset) ++ int_to_bytes (u32 b.length)) in
    (
      Message.init request payload,
      parse-to_string request payload tt (inl (unfold id_byte in omega arith)) (omega arith),
      refl,
      refl,
      word b.piece,
      word b.offset,
      word b.length,
    )

-- The message of interest is read back as a message of interest without a payload.
pub parse-interested_message : parse interested_message ≡ ok (Message.init interested [])
unfolding interested_message
parse-interested_message = parse-to_string interested [] tt (inr refl) (omega arith)
