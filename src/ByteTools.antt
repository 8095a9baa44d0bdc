-- ===== src/ByteTools.antt =====
-- src/utils/byte_tools.cpp: big-endian integers and hexadecimal text. A `std::string` is the list
-- of its bytes. An `int` is its 32-bit pattern, a number below 2 ^ 32; `to_size_t` is the
-- conversion to `size_t`, which repeats the sign bit.
pub mod RoundTrip
use simple_torrent_client.Common.{
  ℕ, zero, suc, ◌+◌, ◌-◌, ◌*◌, ◌/◌, ◌%◌, ◌^◌, bit_and, bit_or, List, [], ◌∷◌, ◌++◌, ltb,
  if◌then◌else◌, length, get_or, take, drop, ◌<<◌, ◌>>◌, u32, u64, Result, ok, err,
  not_enough_bytes,
}

abbrev pub Bytes : Type 0
Bytes = List ℕ

-- `s[i]` of a string: the byte at `i`, and the terminating 0 at the end.
abbrev pub byte_at : Bytes → ℕ → ℕ
byte_at s i = get_or s i 0

-- `s.substr(i, n)` and `s.substr(i)` for `i` within the string.
abbrev pub substr : ℕ → ℕ → Bytes → Bytes
substr i n s = take n (drop i s)

-- An `int` converted to `size_t`.
unfoldable pub to_size_t : ℕ → ℕ
to_size_t w = if ltb w (2 ^ 31) then w else w + (2 ^ 64 - 2 ^ 32)

unfoldable pub bytes_to_int : Bytes → Result ℕ
bytes_to_int bytes =
    if ltb (length bytes) 4
    then err not_enough_bytes
    else ok (
        u32 (
          bit_or (byte_at bytes 0 << 24)
            (bit_or (byte_at bytes 1 << 16) (bit_or (byte_at bytes 2 << 8) (byte_at bytes 3)))))

unfoldable pub int_to_bytes : ℕ → Bytes
int_to_bytes value =
    bit_and (value >> 24) 0xff
    ∷ bit_and (value >> 16) 0xff
    ∷ bit_and (value >> 8) 0xff
    ∷ bit_and value 0xff
    ∷ []

-- The loop of `Int64ToBytes`: `n` rounds are left, and `result` holds the bytes already written.
int64_bytes : ℕ → ℕ → Bytes → Bytes
int64_bytes zero value result = result
int64_bytes (suc n) value result = int64_bytes n (value >> 8) (bit_and value 0xff ∷ result)

unfoldable pub int64_to_bytes : ℕ → Bytes
unfolding int64_bytes
int64_to_bytes value = int64_bytes 8 value []

-- The loop of `BytesToInt64` over the bytes that are left.
int64_value : ℕ → Bytes → ℕ
int64_value result [] = result
int64_value result (b ∷ rest) = int64_value (bit_or (u64 (result << 8)) b) rest

unfoldable pub bytes_to_int64 : Bytes → Result ℕ
unfolding int64_value
bytes_to_int64 bytes =
    if ltb (length bytes) 8 then err not_enough_bytes else ok (int64_value 0 (take 8 bytes))

-- A digit of `std::hex`.
hex_digit : ℕ → ℕ
hex_digit d = if ltb d 10 then b'0' + d else b'a' + (d - 10)

-- Each byte at width 2, filled with `0`.
unfoldable pub bytes_to_hex : Bytes → Bytes
unfolding hex_digit
bytes_to_hex [] = []
bytes_to_hex (c ∷ rest) = hex_digit (c / 16) ∷ hex_digit (c % 16) ∷ bytes_to_hex rest

-- `HexEncode` has the body of `BytesToHex`.
abbrev hex_encode : Bytes → Bytes
hex_encode input = bytes_to_hex input
