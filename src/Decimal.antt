-- ===== src/Decimal.antt =====
-- The conversions of the standard library that the code uses between numbers and decimal text:
-- `std::to_string` of an unsigned number, `std::stoi` and `std::stol`.
pub mod RoundTrip
use simple_torrent_client.Common.{
  ℕ, zero, suc, ◌+◌, ◌-◌, ◌*◌, ◌/◌, ◌%◌, ◌^◌, Bool, true, false, ◌&&◌, ◌||◌, Option, none, some,
  List, [], ◌∷◌, ltb, leb, ◌==◌, if◌then◌else◌, Result, ok, err, invalid_argument, out_of_range,
}
use simple_torrent_client.ByteTools.{Bytes}

abbrev pub is_digit : ℕ → Bool
is_digit c = leb b'0' c && leb c b'9'

-- The digits of `n` in front of `text`. A round divides `n` by ten, so `n` rounds are enough.
digits : ℕ → ℕ → Bytes → Bytes
digits zero n text = (b'0' + n % 10) ∷ text
digits (suc fuel) n text =
    let more = digits fuel (n / 10) ((b'0' + n % 10) ∷ text) in
    if ltb n 10 then (b'0' + n % 10) ∷ text else more

unfoldable pub to_string : ℕ → Bytes
unfolding digits
to_string n = digits n n []

-- The number that the leading digits of a text spell behind `n`.
unfoldable pub leading_number : ℕ → Bytes → ℕ
leading_number n [] = n
leading_number n (c ∷ rest) = if is_digit c then leading_number (n * 10 + (c - b'0')) rest else n

abbrev pub is_space : ℕ → Bool
is_space c = c == 32 || (leb 9 c && leb c 13)

skip_spaces : Bytes → Bytes
skip_spaces [] = []
skip_spaces (c ∷ rest) = if is_space c then skip_spaces rest else c ∷ rest

-- A number below `limit`, or the negative of one up to `limit`, as a pattern below `2 * limit`.
signed : ℕ → Bool → ℕ → Result ℕ
signed limit false n = if ltb n limit then ok n else err out_of_range
signed limit true n = if leb n limit then ok ((2 * limit - n) % (2 * limit)) else err out_of_range

unsigned_text : ℕ → Bool → Bytes → Result ℕ
unfolding signed
unsigned_text limit negative [] = err invalid_argument
unsigned_text limit negative (c ∷ rest) =
    if is_digit c then signed limit negative (leading_number 0 (c ∷ rest)) else err invalid_argument

signed_text : ℕ → Bytes → Result ℕ
unfolding unsigned_text
signed_text limit [] = err invalid_argument
signed_text limit (c ∷ rest) =
    if c == b'-'
    then unsigned_text limit true rest
    else if c == b'+'
    then unsigned_text limit false rest
    else unsigned_text limit false (c ∷ rest)

-- Leading white space is skipped, then a sign may stand, then the leading digits count.
unfoldable pub stoi : Bytes → Result ℕ
unfolding skip_spaces signed_text
stoi text = signed_text (2 ^ 31) (skip_spaces text)

unfoldable pub stol : Bytes → Result ℕ
unfolding skip_spaces signed_text
stol text = signed_text (2 ^ 63) (skip_spaces text)
