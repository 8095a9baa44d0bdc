-- ===== src/Net/PiecesAvailability/Bits.antt =====
-- Setting a piece's bit makes that piece available and changes no other.
use simple_torrent_client.Common.{
  ℕ, zero, suc, ◌-◌, ◌/◌, ◌%◌, ◌≤◌, ◌<◌, bit_and, bit_or, Bool, true, false, ◌&&◌, ◌||◌, [], ◌∷◌,
  ltb, ◌==◌, get_or-set, ◌≡◌, refl, ap, ap₂, ◌∙◌, arith, if◌then◌else◌, length, set, ◌<<◌, ◌>>◌,
  and_seven, ℕ_discrete, dec_lt, IsBytes,
}
use simple_torrent_client.ByteTools.{Bytes, byte_at}
use simple_torrent_client.Net.PiecesAvailability.{
  PeerPiecesAvailability, is_piece_available, set_piece_availability,
}

-- A test that passes for every number below a bound.
passes : (ℕ → Bool) → ℕ → Bool
passes test zero = true
passes test (suc bound) = if test bound then passes test bound else false

passes-at :
    (test : ℕ → Bool) (bound : ℕ) {k : ℕ} → k < bound → passes test bound ≡ true → test k ≡ true
unfolding passes
passes-at test zero lt h = absurd (omega arith)
passes-at test (suc bound) {k} lt h = elim (ℕ_discrete k bound) [
  | yes e ↦ ground arith
  | no ne ↦ passes-at test bound (omega arith) (ground arith)
]

abbrev bool_eq : Bool → Bool → Bool
bool_eq true b = b
bool_eq false true = false
bool_eq false false = true

-- Bit `k` of a byte, from the top.
pub bit_at : ℕ → ℕ → Bool
bit_at byte k = bit_and (byte >> (7 - k)) 1 == 1

bit_law : ℕ → ℕ → ℕ → Bool
unfolding bit_at
bit_law b j k = bool_eq (bit_at (bit_or b (1 << (7 - j))) k) (j == k || bit_at b k)

byte_law : ℕ → ℕ → Bool
unfolding passes
byte_law b j = passes (bit_law b j) 8

bits_table : passes (λ b. passes (byte_law b) 8) 256 ≡ true
unfolding passes bit_law byte_law
bits_table = refl

bool_eq_sound : (x y : Bool) → bool_eq x y ≡ true → x ≡ y
bool_eq_sound x y h = ground arith

-- Over a byte, every value is checked.
bit_at-bit_or :
    (b j k : ℕ)
    → b < 256
    → j < 8
    → k < 8
    → bit_at (bit_or b (1 << (7 - j))) k ≡ (j == k || bit_at b k)
unfolding bit_law byte_law
bit_at-bit_or b j k hb hj hk =
    let at_b = passes-at (λ b. passes (byte_law b) 8) 256 hb bits_table in
    let at_j = passes-at (byte_law b) 8 hj at_b in
    bool_eq_sound _ _ (passes-at (bit_law b j) 8 hk at_j)

byte_at-lt : (s : Bytes) (i : ℕ) → IsBytes s → byte_at s i < 256
byte_at-lt [] i h = omega arith
byte_at-lt (b ∷ s) zero h = h.0
byte_at-lt (b ∷ s) (suc i) h = byte_at-lt s i h.1

-- A bitfield whose string is as long as its size says.
pub record IsField (a : PeerPiecesAvailability) : Type 0 where
  pub bytes : IsBytes a.bitfield
  pub covered : a.size ≤ length a.bitfield

available_lem :
    (a : PeerPiecesAvailability) (j : ℕ)
    → is_piece_available a j ≡ (ltb j (a.size << 3) && bit_at (byte_at a.bitfield (j / 8)) (j % 8))
unfolding is_piece_available bit_at
available_lem a j = rw and_seven (ground arith)

bit_at-set :
    (bits : Bytes) (i j : ℕ)
    → IsBytes bits
    → i / 8 < length bits
    → bit_at
        (byte_at (set bits (i / 8) (bit_or (byte_at bits (i / 8)) (1 << (7 - i % 8)))) (j / 8))
        (j % 8)
      ≡ (i == j || bit_at (byte_at bits (j / 8)) (j % 8))
bit_at-set bits i j b h =
    let byte = bit_or (byte_at bits (i / 8)) (1 << (7 - i % 8)) in
    let same =
      bit_at-bit_or (byte_at bits (i / 8)) (i % 8) (j % 8) (byte_at-lt bits (i / 8) b) (omega arith)
        (omega arith) in
    rw (get_or-set bits (i / 8) (j / 8) byte 0 h) (elim (ℕ_discrete (i / 8) (j / 8)) [
      | yes e ↦
          let t : (i / 8 == j / 8) ≡ true = ground arith in
          let u : (i % 8 == j % 8) ≡ (i == j) = ground arith in
          rw t (same ∙ ap₂ ◌||◌ u (ap (λ (k : ℕ). bit_at (byte_at bits k) (j % 8)) e))
      | no ne ↦
          let t : (i / 8 == j / 8) ≡ false = ground arith in
          let u : (i == j) ≡ false = ground arith in rw (t, u)
    ])

-- In a bitfield that is long enough, SetPieceAvailability makes the piece available if its index is
-- below 8 times the size, and changes nothing for any other piece.
pub is_piece_available-set_piece_availability :
    (a : PeerPiecesAvailability) (i j : ℕ)
    → IsField a
    → is_piece_available (set_piece_availability a i) j
      ≡ (if i == j then ltb i (a.size << 3) else is_piece_available a j)
unfolding set_piece_availability
is_piece_available-set_piece_availability a i j v = elim (dec_lt i (a.size << 3)) [
  | yes lt ↦
      let bits = a.bitfield in
      let byte = bit_or (byte_at bits (i / 8)) (1 << (7 - i % 8)) in
      let inside : ltb i (a.size << 3) ≡ true = ground arith in
      rw (and_seven, inside)
        (ground (
          arith,
          available_lem (record a { bitfield = set bits (i / 8) byte }) j,
          available_lem a j,
          bit_at-set bits i j v.bytes (omega (arith, v.covered)),
        ))
  | no ge ↦
      let outside : ltb i (a.size << 3) ≡ false = ground arith in
      rw (and_seven, outside) (ground (arith, available_lem a j))
]
