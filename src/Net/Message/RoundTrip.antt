-- ===== src/Net/Message/RoundTrip.antt =====
-- `Message::Parse` after `Message::ToString`, and the errors of `Message::Parse`.
use simple_torrent_client.Common.{
  ℕ, ◌+◌, ◌%◌, ◌/◌, ◌^◌, ◌<◌, bit_and, false, [], ◌∷◌, ◌++◌, ltb, ◌==◌, ◌≡◌, ◌⊎◌, ◌↔◌, refl, arith,
  if◌then◌else◌, length, take, length-append, length-take, ok, err, not_enough_bytes, and_byte,
  IsBytes,
}
use simple_torrent_client.ByteTools.{Bytes, to_size_t, int_to_bytes}
use simple_torrent_client.ByteTools.RoundTrip.{
  int_to_bytes-eq, to_size_t-nonneg, length-int_to_bytes, bytes_to_int_short, big_endian,
  bytes_to_int-big_endian,
}
use simple_torrent_client.Net.Message.{
  MessageId, choke, other, id_byte, message_id, parse, init, to_string,
}

-- `other` holds only bytes that name no member.
abbrev pub IsId : MessageId → Type 0
IsId (other b) = (10 < b) × (b < 256)
IsId _ = Unit {0}

pub message_id-id_byte : (id : MessageId) → IsId id → message_id (id_byte id) ≡ id
unfolding message_id id_byte
message_id-id_byte choke v = refl
message_id-id_byte (other b) v = ground arith
message_id-id_byte _ v = refl

pub id_byte-lt : (id : MessageId) → IsId id → id_byte id < 256
unfolding id_byte
id_byte-lt choke v = omega arith
id_byte-lt (other b) v = omega arith
id_byte-lt _ v = omega arith

-- `Parse` of a text with its length prefix, its identifier and what follows.
pub parse_lem :
    (a b c d id : ℕ) (rest : Bytes)
    → IsBytes (a ∷ b ∷ c ∷ d ∷ id ∷ [])
    → parse (a ∷ b ∷ c ∷ d ∷ id ∷ rest) ≡ (
        if to_size_t (big_endian a b c d) == 0
        then ok (record { id = message_id 10; message_length = 0; payload = [] })
        else ok (record {
          id = message_id id;
          message_length = to_size_t (big_endian a b c d);
          payload = if ltb 3 id then rest else [];
        }))
unfolding parse
parse_lem a b c d id rest h =
    let e : id % 256 ≡ id = omega arith in rw (bytes_to_int-big_endian a b c d [] (omega arith), e)

-- The same for a written prefix that is a positive `int`.
pub parse-int_to_bytes :
    (n id : ℕ) (rest : Bytes)
    → 0 < n
    → n < 2 ^ 31
    → id < 256
    → parse (int_to_bytes n ++ id ∷ rest)
      ≡ ok (record {
        id = message_id id;
        message_length = n;
        payload = if ltb 3 id then rest else [];
      })
parse-int_to_bytes n id rest h k l =
    let e : big_endian (n / 2 ^ 24 % 256) (n / 2 ^ 16 % 256) (n / 2 ^ 8 % 256) (n % 256) ≡ n =
      omega arith in
    let z : (n == 0) ≡ false = ground arith in
    rw (
      int_to_bytes-eq,
      parse_lem (n / 2 ^ 24 % 256) (n / 2 ^ 16 % 256) (n / 2 ^ 8 % 256) (n % 256) id rest
          (omega arith),
      e,
      to_size_t-nonneg n k,
      z,
    )

-- A message that Init builds is read back from its text, if its identifier is a byte, its payload
-- is empty or its identifier above 3, and its length is below 2 ^ 31.
pub parse-to_string :
    (id : MessageId) (payload : Bytes)
    → IsId id
    → (3 < id_byte id) ⊎ (payload ≡ [])
    → length payload + 1 < 2 ^ 31
    → parse (to_string (init id payload)) ≡ ok (init id payload)
unfolding to_string init
parse-to_string id payload v c h =
    let e : id_byte id % 256 ≡ id_byte id = omega (arith, id_byte-lt id v) in
    let p : (if ltb 3 (id_byte id) then payload else []) ≡ payload = ground arith in
    rw (
      and_byte,
      e,
      parse-int_to_bytes (length payload + 1) (id_byte id) payload (omega arith) h
          (id_byte-lt id v),
      message_id-id_byte id v,
      p,
    )

-- The text of a message is its length prefix and as many bytes as the prefix says.
pub length-to_string :
    (id : MessageId) (payload : Bytes)
    → length (to_string (init id payload)) ≡ 4 + (init id payload).message_length
unfolding to_string init
length-to_string id payload = omega (
  arith,
  length-append {0} (int_to_bytes (length payload + 1)) (bit_and (id_byte id) 0xff ∷ payload),
  length-int_to_bytes (length payload + 1),
)

-- `Parse` throws exactly on texts of fewer than four bytes.
pub parse_short : (s : Bytes) → (parse s ≡ err not_enough_bytes) ↔ (length s < 4)
unfolding parse
parse_short s = ground (arith, bytes_to_int_short (take 4 s), length-take {0} 4 s)
