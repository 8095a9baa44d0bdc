-- ===== src/ByteTools/RoundTrip.antt =====
-- The codecs of src/utils/byte_tools.cpp are inverse to one another.
use simple_torrent_client.Common.{
  ℕ, ◌+◌, ◌-◌, ◌*◌, ◌/◌, ◌%◌, ◌^◌, ◌≤◌, ◌<◌, bit_or, [], ◌∷◌, ◌++◌, ◌≡◌, refl, ap, ap₂, ◌↔◌, ◌∙◌,
  arith, length, ◌<<◌, u64, ok, err, not_enough_bytes, or_fields, and_byte, IsBytes,
}
use simple_torrent_client.ByteTools.{
  Bytes, to_size_t, bytes_to_int, int_to_bytes, int64_to_bytes, int64_value, bytes_to_int64,
}

-- The number that four bytes stand for, most significant first.
abbrev pub big_endian : ℕ → ℕ → ℕ → ℕ → ℕ
big_endian a b c d = a * 2 ^ 24 + b * 2 ^ 16 + c * 2 ^ 8 + d

pub bytes_to_int-big_endian :
    (a b c d : ℕ) (rest : Bytes)
    → IsBytes (a ∷ b ∷ c ∷ d ∷ [])
    → bytes_to_int (a ∷ b ∷ c ∷ d ∷ rest) ≡ ok (big_endian a b c d)
unfolding bytes_to_int
bytes_to_int-big_endian a b c d rest h = ground (
  arith,
  or_fields 8 c d (omega arith),
  or_fields 16 b (c * 2 ^ 8 + d) (omega arith),
  or_fields 24 a (b * 2 ^ 16 + (c * 2 ^ 8 + d)) (omega arith),
)

pub int_to_bytes-eq :
    (value : ℕ)
    → int_to_bytes value
      ≡ value / 2 ^ 24 % 256 ∷ value / 2 ^ 16 % 256 ∷ value / 2 ^ 8 % 256 ∷ value % 256 ∷ []
unfolding int_to_bytes
int_to_bytes-eq value = simp and_byte

-- Reading a written int gives its 32-bit pattern, whatever follows it.
pub bytes_to_int-int_to_bytes :
    (value : ℕ) (rest : Bytes) → bytes_to_int (int_to_bytes value ++ rest) ≡ ok (value % 2 ^ 32)
bytes_to_int-int_to_bytes value rest = rw int_to_bytes-eq (
    rw
      (bytes_to_int-big_endian (value / 2 ^ 24 % 256) (value / 2 ^ 16 % 256) (value / 2 ^ 8 % 256)
        (value % 256) rest (omega arith))
      (ap ok (omega arith)))

-- IntToBytes of the number that four bytes stand for, the highest first, gives the bytes back.
pub int_to_bytes-big_endian :
    (a b c d : ℕ)
    → IsBytes (a ∷ b ∷ c ∷ d ∷ [])
    → int_to_bytes (big_endian a b c d) ≡ a ∷ b ∷ c ∷ d ∷ []
int_to_bytes-big_endian a b c d h = rw int_to_bytes-eq (
    ap₂ ◌∷◌ (omega arith)
      (ap₂ ◌∷◌ (omega arith) (ap₂ ◌∷◌ (omega arith) (ap₂ ◌∷◌ (omega arith) refl))))

pub length-int_to_bytes : (value : ℕ) → length (int_to_bytes value) ≡ 4
unfolding int_to_bytes
length-int_to_bytes value = refl

pub int_to_bytes-IsBytes : (value : ℕ) → IsBytes (int_to_bytes value)
int_to_bytes-IsBytes value = rw int_to_bytes-eq (omega arith)

-- `bytes_to_int` throws exactly on fewer than four bytes.
pub bytes_to_int_short : (s : Bytes) → (bytes_to_int s ≡ err not_enough_bytes) ↔ (length s < 4)
unfolding bytes_to_int
bytes_to_int_short s = ground arith

-- The read value is a 32-bit pattern.
pub bytes_to_int-lt : (s : Bytes) {v : ℕ} → bytes_to_int s ≡ ok v → v < 2 ^ 32
unfolding bytes_to_int
bytes_to_int-lt s h = ground arith

-- A `size_t` from a pattern that is no negative `int` is the pattern.
pub to_size_t-nonneg : (w : ℕ) → w < 2 ^ 31 → to_size_t w ≡ w
unfolding to_size_t
to_size_t-nonneg w h = ground arith

-- A negative `int` becomes a `size_t` near the top of the range.
pub to_size_t_neg : (w : ℕ) → 2 ^ 31 ≤ w → w < 2 ^ 32 → 2 ^ 64 - 2 ^ 31 ≤ to_size_t w
unfolding to_size_t
to_size_t_neg w h k = ground arith

-- One round of the loop of `BytesToInt64`, before the highest byte is taken.
shift_in : (r b : ℕ) → r < 2 ^ 56 → b < 256 → bit_or (u64 (r << 8)) b ≡ r * 256 + b
shift_in r b h k = ground (arith, or_fields 8 r b)

-- The number that eight bytes stand for.
abbrev pub big_endian64 : ℕ → ℕ → ℕ → ℕ → ℕ → ℕ → ℕ → ℕ → ℕ
big_endian64 a b c d e f g h = big_endian a b c d * 2 ^ 32 + big_endian e f g h

abbrev word64 : ℕ → ℕ → ℕ → ℕ → ℕ → ℕ → ℕ → ℕ → Bytes
word64 a b c d e f g h = a ∷ b ∷ c ∷ d ∷ e ∷ f ∷ g ∷ h ∷ []

int64_value-big_endian64 :
    (a b c d e f g h : ℕ)
    → IsBytes (word64 a b c d e f g h)
    → int64_value 0 (word64 a b c d e f g h) ≡ big_endian64 a b c d e f g h
unfolding int64_value
int64_value-big_endian64 a b c d e f g h v =
    let r2 : ℕ = a * 256 + b in
    let r3 : ℕ = r2 * 256 + c in
    let r4 : ℕ = r3 * 256 + d in
    let r5 : ℕ = r4 * 256 + e in
    let r6 : ℕ = r5 * 256 + f in
    let r7 : ℕ = r6 * 256 + g in
    ground (
      arith,
      shift_in 0 a (omega arith) (omega arith),
      shift_in a b (omega arith) (omega arith),
      shift_in r2 c (omega arith) (omega arith),
      shift_in r3 d (omega arith) (omega arith),
      shift_in r4 e (omega arith) (omega arith),
      shift_in r5 f (omega arith) (omega arith),
      shift_in r6 g (omega arith) (omega arith),
      shift_in r7 h (omega arith) (omega arith),
    )

pub bytes_to_int64-big_endian64 :
    (a b c d e f g h : ℕ) (rest : Bytes)
    → IsBytes (word64 a b c d e f g h)
    → bytes_to_int64 (word64 a b c d e f g h ++ rest) ≡ ok (big_endian64 a b c d e f g h)
unfolding bytes_to_int64
bytes_to_int64-big_endian64 a b c d e f g h rest v =
    ground (arith, int64_value-big_endian64 a b c d e f g h v)

int64_to_bytes-eq :
    (v : ℕ)
    → int64_to_bytes v
      ≡ word64
          (v / 2 ^ 56 % 256)
          (v / 2 ^ 48 % 256)
          (v / 2 ^ 40 % 256)
          (v / 2 ^ 32 % 256)
          (v / 2 ^ 24 % 256)
          (v / 2 ^ 16 % 256)
          (v / 2 ^ 8 % 256)
          (v % 256)
unfolding int64_to_bytes
int64_to_bytes-eq v = simp and_byte (ground arith)

-- A number below 2 ^ 64 that Int64ToBytes writes is read back by BytesToInt64, whatever follows.
pub bytes_to_int64-int64_to_bytes :
    (value : ℕ) (rest : Bytes)
    → value < 2 ^ 64
    → bytes_to_int64 (int64_to_bytes value ++ rest) ≡ ok value
bytes_to_int64-int64_to_bytes value rest h =
    rw int64_to_bytes-eq
      (bytes_to_int64-big_endian64 _ _ _ _ _ _ _ _ rest (omega arith) ∙ ap ok (omega arith))

pub length-int64_to_bytes : (value : ℕ) → length (int64_to_bytes value) ≡ 8
unfolding int64_to_bytes
length-int64_to_bytes value = refl
