-- ===== src/Bencode/Steps.antt =====
-- One call of the parser at a given text.
use simple_torrent_client.Common.{
  ℕ, zero, suc, ◌+◌, ◌^◌, ◌≤◌, ◌<◌, Bool, true, false, List, [], ◌∷◌, ◌++◌, append_assoc, ◌≡◌, ◌≢◌,
  refl, sym, ap, ◌∙◌, arith, ltb, ◌==◌, if◌then◌else◌, if_false, length, length-append, length-drop,
  take, drop, drop-drop, drop-append, take-append, get_or, All,
}
use simple_torrent_client.ByteTools.{Bytes}
use simple_torrent_client.Decimal.{is_digit, to_string}
use simple_torrent_client.Decimal.RoundTrip.{IsDigit, to_string-All, stoi-to_string}
use simple_torrent_client.Bencode.{
  Run, ends, ◌>>=◌, checked, Parser, advance, current, read_fixed_amount, until,
  read_until_delimiter, process_string, process_integer, process, process_dict, process_list,
  DictState, dict_start, with_key, with_value, is_empty, set_info_hash,
}
use simple_torrent_client.Bencode.Values.{write_text}

pub >>=-ends {ℓ κ} :
    {A : Type ℓ} {B : Type κ} {m : Run A} {a : A} (f : A → Run B) → m ≡ ends a → (m >>= f) ≡ f a
>>=-ends f e = ap (λ r. r >>= f) e

-- What stands at the parser's index and behind it.
abbrev pub At : Parser → Bytes → Type 0
At p s = drop p.index p.to_decode ≡ s

-- The parser further on in its text, with more strings parsed.
abbrev pub moved : Parser → ℕ → List Bytes → Bytes → Parser
moved p n texts h = record p { index = p.index + n; parsed = p.parsed ++ texts; info_hash = h }

pub moved-moved :
    (p : Parser) (m n k : ℕ) (xs ys : List Bytes) (g h : Bytes)
    → m + n ≡ k
    → moved (moved p m xs g) n ys h ≡ moved p k (xs ++ ys) h
moved-moved p m n k xs ys g h e = λ i. record {
  to_decode = p.to_decode;
  info_hash = h;
  parsed = append_assoc p.parsed xs ys i;
  pieces_hashes = p.pieces_hashes;
  index = (let e' : p.index + m + n ≡ p.index + k = omega arith in e') i;
}

pub At-moved :
    (p : Parser) (before s : Bytes) (n : ℕ)
    → At p (before ++ s)
    → n ≡ length before
    → drop (p.index + n) p.to_decode ≡ s
At-moved p before s n h e =
    sym (drop-drop n p.index (p.index + n) p.to_decode refl)
    ∙ (ap (drop n) h ∙ drop-append before s n e)

get_or-drop :
    (xs : Bytes) (i c : ℕ) (s : Bytes) → drop i xs ≡ c ∷ s → (get_or xs i 0 ≡ c) × (i < length xs)
get_or-drop [] zero c s h = absurd (cc)
get_or-drop [] (suc i) c s h = absurd (cc)
get_or-drop (x ∷ xs) zero c s h = (ground arith, omega arith)
get_or-drop (x ∷ xs) (suc i) c s h = let r = get_or-drop xs i c s h in (r.0, omega (arith, r.1))

pub current_lem : (p : Parser) (c : ℕ) (s : Bytes) → At p (c ∷ s) → current p ≡ ends c
unfolding current
current_lem p c s h =
    let r = get_or-drop p.to_decode p.index c s h in
    let inside : ltb (length p.to_decode) p.index ≡ false = ground (arith, r.1) in
    if_false _ _ _ inside ∙ ap ends r.0

until_lem : (d : ℕ) (t rest : Bytes) → All (λ c. c ≢ d) t → until d (t ++ d ∷ rest) ≡ ends t
unfolding until
until_lem d [] rest h = let e : (d == d) ≡ true = ground arith in rw (until, e)
until_lem d (c ∷ t) rest h =
    let e : (c == d) ≡ false = ground (arith, h.0) in rw (until, e, until_lem d t rest h.1)

pub read_until_delimiter_lem :
    (p : Parser) (d : ℕ) (t rest : Bytes)
    → All (λ c. c ≢ d) t
    → At p (t ++ d ∷ rest)
    → read_until_delimiter p d ≡ ends (t, advance p (length t + 1))
unfolding read_until_delimiter
read_until_delimiter_lem p d t rest h a = >>=-ends _ (ap (until d) a ∙ until_lem d t rest h)

read_fixed_amount_lem :
    (p : Parser) (s rest : Bytes)
    → p.index ≤ length p.to_decode
    → At p (s ++ rest)
    → read_fixed_amount p (length s) ≡ ends (s, advance p (length s))
unfolding read_fixed_amount
read_fixed_amount_lem p s rest h a =
    let inside : ltb (length p.to_decode) p.index ≡ false = ground arith in
    if_false _ _ _ inside
    ∙ ap (λ (t : Bytes). ends (t, advance p (length s)))
        (ap (take (length s)) a ∙ take-append s rest (length s) refl)

digits_only : (t : Bytes) → All IsDigit t → All (λ c. c ≢ b':') t
digits_only [] h = tt
digits_only (c ∷ t) h = ((λ e. omega arith), digits_only t h.1)

pub process_string_lem :
    (p : Parser) (s rest : Bytes)
    → length s < 2 ^ 31
    → At p (write_text s rest)
    → process_string p ≡ ends (s, moved p (length (write_text s [])) (s ∷ []) p.info_hash)
unfolding process_string
process_string_lem p s rest h a =
    let t = to_string (length s) in
    let p₁ : Parser = advance p (length t + 1) in
    let size = ap length a ∙ length-append t (b':' ∷ (s ++ rest)) in
    let inside : p₁.index ≤ length p.to_decode =
      omega (arith, size, length-drop {0} p.index p.to_decode) in
    let at : drop p₁.index p.to_decode ≡ s ++ rest =
      At-moved p (t ++ b':' ∷ []) (s ++ rest) (length t + 1)
        (a ∙ sym (append_assoc t (b':' ∷ []) (s ++ rest)))
        (omega (arith, length-append {0} t (b':' ∷ []))) in
    let total : p.index + (length t + 1) + length s ≡ p.index + length (write_text s []) =
      omega (arith, length-append {0} t (b':' ∷ (s ++ [])), length-append {0} s []) in
    >>=-ends _
      (read_until_delimiter_lem p b':' t (s ++ rest) (digits_only t (to_string-All (length s))) a)
    ∙ (>>=-ends _ (ap checked (stoi-to_string (length s) h))
        ∙ (>>=-ends _ (read_fixed_amount_lem p₁ s rest inside at)
            ∙ ap (λ (i : ℕ). ends (s, record p { index = i; parsed = p.parsed ++ s ∷ [] })) total))

pub process_integer_lem :
    (p : Parser) (t rest : Bytes)
    → All (λ c. c ≢ b'e') t
    → At p (b'i' ∷ (t ++ b'e' ∷ rest))
    → process_integer p ≡ ends ([], moved p (length t + 2) (t ∷ []) p.info_hash)
unfolding process_integer
process_integer_lem p t rest h a =
    let p₁ : Parser = advance p 1 in
    let at : At p₁ (t ++ b'e' ∷ rest) = At-moved p (b'i' ∷ []) (t ++ b'e' ∷ rest) 1 a refl in
    let total : p.index + 1 + (length t + 1) ≡ p.index + (length t + 2) = omega arith in
    >>=-ends _ (read_until_delimiter_lem p₁ b'e' t rest h at)
    ∙ ap (λ (i : ℕ). ends ([], record p { index = i; parsed = p.parsed ++ t ∷ [] })) total

-- `Process` by the character at the index.
module _ (sha1 : Bytes → Bytes) (fuel : ℕ) (p : Parser) where
  pub process_digit :
      (c : ℕ) (s : Bytes) → IsDigit c → At p (c ∷ s) → process sha1 (suc fuel) p ≡ process_string p
  unfolding process
  process_digit c s h a =
      let digit : is_digit c ≡ true = ground arith in
      >>=-ends _ (current_lem p c s a)
      ∙ ap
          (λ (b : Bool). elim b [
            | true ↦ process_string p
            | false ↦ elim (c == b'i') [
              | true ↦ process_integer p
              | false ↦ elim (c == b'd') [
                | true ↦ process_dict sha1 fuel dict_start (advance p 1) >>= λ p'. ends ([], p')
                | false ↦ elim (c == b'l') [
                  | true ↦ process_list sha1 fuel (advance p 1) >>= λ p'. ends ([], p')
                  | false ↦ ends ([], p)
                ]
              ]
            ]
          ])
          digit

  pub process_i : (s : Bytes) → At p (b'i' ∷ s) → process sha1 (suc fuel) p ≡ process_integer p
  unfolding process
  process_i s a = >>=-ends _ (current_lem p b'i' s a)

  pub process_d :
      (s : Bytes)
      → At p (b'd' ∷ s)
      → process sha1 (suc fuel) p
        ≡ (process_dict sha1 fuel dict_start (advance p 1) >>= λ p'. ends ([], p'))
  unfolding process
  process_d s a = >>=-ends _ (current_lem p b'd' s a)

  pub process_l :
      (s : Bytes)
      → At p (b'l' ∷ s)
      → process sha1 (suc fuel) p ≡ (process_list sha1 fuel (advance p 1) >>= λ p'. ends ([], p'))
  unfolding process
  process_l s a = >>=-ends _ (current_lem p b'l' s a)

  pub list_end : (s : Bytes) → At p (b'e' ∷ s) → process_list sha1 (suc fuel) p ≡ ends (advance p 1)
  unfolding process
  list_end s a = >>=-ends _ (current_lem p b'e' s a)

  pub list_next :
      (c : ℕ) (s : Bytes)
      → c ≢ b'e'
      → At p (c ∷ s)
      → process_list sha1 (suc fuel) p ≡ (process sha1 fuel p >>= λ r. process_list sha1 fuel r.1)
  unfolding process
  list_next c s n a =
      let e : (c == b'e') ≡ false = ground arith in
      >>=-ends _ (current_lem p c s a)
      ∙ ap
          (λ (b : Bool). elim b [
            | true ↦ ends (advance p 1)
            | false ↦ process sha1 fuel p >>= λ r. process_list sha1 fuel r.1
          ])
          e

  pub dict_end :
      (d : DictState) (s : Bytes)
      → At p (b'e' ∷ s)
      → process_dict sha1 (suc fuel) d p
        ≡ ends (set_info_hash sha1 d.start_index d.end_index (advance p 1))
  unfolding process
  dict_end d s a = >>=-ends _ (current_lem p b'e' s a)

  pub dict_next :
      (d : DictState) (c : ℕ) (s : Bytes)
      → c ≢ b'e'
      → At p (c ∷ s)
      → process_dict sha1 (suc fuel) d p ≡ (
          process sha1 fuel p >>= λ r.
          process_dict sha1 fuel
            (if is_empty d.key_name then with_key d r.0 r.1.index else with_value d r.1.index)
            r.1)
  unfolding process
  dict_next d c s n a =
      let e : (c == b'e') ≡ false = ground arith in
      >>=-ends _ (current_lem p c s a)
      ∙ ap
          (λ (b : Bool). elim b [
            | true ↦ ends (set_info_hash sha1 d.start_index d.end_index (advance p 1))
            | false ↦ process sha1 fuel p >>= λ r.
                process_dict sha1 fuel
                  (if is_empty d.key_name then with_key d r.0 r.1.index else with_value d r.1.index)
                  r.1
          ])
          e
