-- ===== src/Net/Message.antt =====
-- include/net/Message.hpp and src/net/Message.cpp: the messages of the peer protocol.
pub mod RoundTrip
use simple_torrent_client.Common.{
  ℕ, ◌+◌, ◌%◌, ◌^◌, bit_and, Bool, List, [], ◌∷◌, ◌++◌, ltb, ◌==◌, if◌then◌else◌, length, drop,
  take, u8, Result, ok, ◌>>=◌,
}
use simple_torrent_client.ByteTools.{Bytes, byte_at, substr, to_size_t, bytes_to_int, int_to_bytes}

-- The enumeration stands on `uint8_t`, so a byte that names no member is a value too: `other`.
pub data MessageId : Type 0 where
  choke : MessageId
  unchoke : MessageId
  interested : MessageId
  not_interested : MessageId
  have : MessageId
  bit_field : MessageId
  request : MessageId
  piece : MessageId
  cancel : MessageId
  port : MessageId
  keep_alive : MessageId
  other : ℕ → MessageId

-- `static_cast<uint8_t>(id)`.
unfoldable pub id_byte : MessageId → ℕ
id_byte choke = 0
id_byte unchoke = 1
id_byte interested = 2
id_byte not_interested = 3
id_byte have = 4
id_byte bit_field = 5
id_byte request = 6
id_byte piece = 7
id_byte cancel = 8
id_byte port = 9
id_byte keep_alive = 10
id_byte (other b) = b

-- `MessageId(b)`.
unfoldable pub message_id : ℕ → MessageId
message_id b =
    if b == 0
    then choke
    else if b == 1
    then unchoke
    else if b == 2
    then interested
    else if b == 3
    then not_interested
    else if b == 4
    then have
    else if b == 5
    then bit_field
    else if b == 6
    then request
    else if b == 7
    then piece
    else if b == 8
    then cancel
    else if b == 9
    then port
    else if b == 10
    then keep_alive
    else other b

pub record Message : Type 0 where
  pub id : MessageId
  pub message_length : ℕ
  pub payload : Bytes

unfoldable pub parse : Bytes → Result Message
parse message_string = do
  word ← bytes_to_int (substr 0 4 message_string)
  let message_length = to_size_t word
  let id = u8 (byte_at message_string 4)
  let payload = if ltb 3 id then drop 5 message_string else []
  if message_length == 0
      then ok (record { id = message_id 10; message_length = 0; payload = [] })
      else ok (record { id = message_id id; message_length = message_length; payload = payload })

unfoldable pub init : MessageId → Bytes → Message
init id payload = record { id = id; message_length = length payload + 1; payload = payload }

unfoldable pub to_string : Message → Bytes
to_string m = int_to_bytes m.message_length ++ bit_and (id_byte m.id) 0xff ∷ m.payload
