-- ===== src/Decimal/RoundTrip.antt =====
-- `stoi` and `stol` read back what `to_string` writes.
use simple_torrent_client.Common.{
  ℕ, zero, suc, ◌+◌, ◌/◌, ◌%◌, ◌^◌, ◌≤◌, ◌<◌, true, false, [], ◌∷◌, ◌≡◌, ltb, ◌==◌, refl, sym, ap,
  subst, ◌∙◌, arith, inl, inr, Bool-cases, if_true, if_false, ok, All, bytes_eq, bytes_eq_sound,
}
use simple_torrent_client.ByteTools.{Bytes}
use simple_torrent_client.Decimal.{
  is_digit, is_space, digits, to_string, leading_number, skip_spaces, signed, unsigned_text,
  signed_text, stoi, stol,
}

-- What follows the digits is read on.
leading_number-digits :
    (fuel n : ℕ) (text : Bytes)
    → n ≤ fuel
    → leading_number 0 (digits fuel n text) ≡ leading_number n text
unfolding leading_number digits
leading_number-digits zero n text h = ground arith
leading_number-digits (suc fuel) n text h =
    ground (arith, leading_number-digits fuel (n / 10) ((b'0' + n % 10) ∷ text))

-- Digits begin with a digit.
record BeginsWithDigit (text : Bytes) : Type 0 where
  first : ℕ
  rest : Bytes
  splits : text ≡ first ∷ rest
  low : b'0' ≤ first
  high : first ≤ b'9'

digits-BeginsWithDigit : (fuel n : ℕ) (text : Bytes) → BeginsWithDigit (digits fuel n text)
unfolding digits
digits-BeginsWithDigit zero n text = record {
  first = b'0' + n % 10;
  rest = text;
  splits = refl;
  low = omega arith;
  high = omega arith;
}
digits-BeginsWithDigit (suc fuel) n text = elim (Bool-cases (ltb n 10)) [
  | inl e ↦ record {
    first = b'0' + n % 10;
    rest = text;
    splits = if_true _ _ _ e;
    low = omega arith;
    high = omega arith;
  }
  | inr e ↦
      let d = digits-BeginsWithDigit fuel (n / 10) ((b'0' + n % 10) ∷ text) in
      record {
        first = d.first;
        rest = d.rest;
        splits = if_false _ _ _ e ∙ d.splits;
        low = d.low;
        high = d.high;
      }
]

signed_text_digit :
    (limit c : ℕ) (rest : Bytes)
    → b'0' ≤ c
    → c ≤ b'9'
    → leading_number 0 (c ∷ rest) < limit
    → signed_text limit (skip_spaces (c ∷ rest)) ≡ ok (leading_number 0 (c ∷ rest))
unfolding signed_text skip_spaces unsigned_text signed
signed_text_digit limit c rest l h k =
    let space : is_space c ≡ false = ground arith in
    let minus : (c == b'-') ≡ false = ground arith in
    let plus : (c == b'+') ≡ false = ground arith in
    let digit : is_digit c ≡ true = ground arith in
    let small : ltb (leading_number 0 (c ∷ rest)) limit ≡ true = ground arith in
    rw (space, minus, plus, digit) (if_true _ _ _ small)

signed_text-to_string :
    (limit n : ℕ) → n < limit → signed_text limit (skip_spaces (to_string n)) ≡ ok n
unfolding to_string leading_number
signed_text-to_string limit n h =
    let d = digits-BeginsWithDigit n n [] in
    let v : leading_number 0 (digits n n []) ≡ n = leading_number-digits n n [] (omega arith) in
    let bound : leading_number 0 (d.first ∷ d.rest) < limit =
      subst (λ (t : Bytes). leading_number 0 t < limit) d.splits (omega (arith, v)) in
    ap (λ (t : Bytes). signed_text limit (skip_spaces t)) d.splits
    ∙ (signed_text_digit limit d.first d.rest d.low d.high bound
        ∙ ap ok (ap (leading_number 0) (sym d.splits) ∙ v))

-- `stoi` reads back every number below 2 ^ 31 that `to_string` writes, and `stol` every number below
-- 2 ^ 63.
pub stoi-to_string : (n : ℕ) → n < 2 ^ 31 → stoi (to_string n) ≡ ok n
unfolding stoi
stoi-to_string n h = signed_text-to_string (2 ^ 31) n h

pub stol-to_string : (n : ℕ) → n < 2 ^ 63 → stol (to_string n) ≡ ok n
unfolding stol
stol-to_string n h = signed_text-to_string (2 ^ 63) n h

abbrev pub IsDigit : ℕ → Type 0
IsDigit c = (b'0' ≤ c) × (c ≤ b'9')

digits-All : (fuel n : ℕ) (text : Bytes) → All IsDigit text → All IsDigit (digits fuel n text)
unfolding digits
digits-All zero n text h = ((omega arith, omega arith), h)
digits-All (suc fuel) n text h = elim (Bool-cases (ltb n 10)) [
  | inl e ↦ rw e ((omega arith, omega arith), h)
  | inr e ↦ rw e (digits-All fuel (n / 10) ((b'0' + n % 10) ∷ text) ((omega arith, omega arith), h))
]

-- `to_string` writes digits only, one at least.
pub to_string-All : (n : ℕ) → All IsDigit (to_string n)
unfolding to_string
to_string-All n = digits-All n n [] tt

pub to_string_nonempty : (n : ℕ) → (c : ℕ) × ((rest : Bytes) × (to_string n ≡ c ∷ rest))
unfolding to_string
to_string_nonempty n = let d = digits-BeginsWithDigit n n [] in (d.first, (d.rest, d.splits))

-- A text that begins with what is above the digits is no number.
pub to_string-differs :
    (n c : ℕ) (rest : Bytes) → b'9' < c → bytes_eq (to_string n) (c ∷ rest) ≡ false
to_string-differs n c rest h = elim (Bool-cases (bytes_eq (to_string n) (c ∷ rest))) [
  | inl e ↦
      let d = subst (All IsDigit) (bytes_eq_sound (to_string n) (c ∷ rest) e) (to_string-All n) in
      absurd (omega (arith, d.0))
  | inr e ↦ e
]
