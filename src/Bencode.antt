-- ===== src/Bencode.antt =====
-- `BencodeParser` of include/utils/BencodeParser.hpp and src/utils/BencodeParser.cpp: the members are
-- a record, a call returns the new one. SHA-1 is an argument. `index` does not reach 2 ^ 31 on the
-- files in question. A string may be read at its end, where it is 0; behind it the call `strays`.
pub mod Values
pub mod Sizes
pub mod Steps
pub mod Entry
pub mod RoundTrip
pub mod Fuel
pub mod Endless
pub mod Pieces
use simple_torrent_client.Common.{
  ℕ, zero, suc, ◌+◌, ◌-◌, ◌≤◌, Bool, true, false, not, ◌&&◌, Option, none, some, List, [], ◌∷◌,
  ◌++◌, ltb, leb, ◌==◌, bytes_eq, if◌then◌else◌, length, take, drop, get_or, Error, Result, ok, err,
  out_of_range,
}
use simple_torrent_client.ByteTools.{Bytes, byte_at}
use simple_torrent_client.Decimal.{is_digit, stoi}

-- What a call comes to: it ends, throws, reads behind the end of the text, or has not ended when the
-- fuel is spent.
pub data Run {ℓ} (A : Type ℓ) : Type ℓ where
  ends : A → Run A
  throws : Error → Run A
  strays : Run A
  goes_on : Run A

infixl 5 ◌>>=◌
abbrev pub ◌>>=◌ {ℓ κ} : {A : Type ℓ} {B : Type κ} → Run A → (A → Run B) → Run B
call >>= following = elim call [
  | ends a ↦ following a
  | throws e ↦ throws e
  | strays ↦ strays
  | goes_on ↦ goes_on
]

abbrev pub checked {ℓ} : {A : Type ℓ} → Result A → Run A
checked (err e) = throws e
checked (ok a) = ends a

pub record Parser : Type 0 where
  pub to_decode : Bytes
  pub info_hash : Bytes
  pub parsed : List Bytes
  pub pieces_hashes : List Bytes
  pub index : ℕ

abbrev pub advance : Parser → ℕ → Parser
advance p n = record p { index = p.index + n }

abbrev pub push : Parser → Bytes → Parser
push p text = record p { parsed = p.parsed ++ text ∷ [] }

-- `to_decode[index]`
unfoldable pub current : Parser → Run ℕ
current p = if ltb (length p.to_decode) p.index then strays else ends (byte_at p.to_decode p.index)

unfoldable pub read_fixed_amount : Parser → ℕ → Run (Bytes × Parser)
read_fixed_amount p amount =
    if ltb (length p.to_decode) p.index
    then throws out_of_range
    else ends (take amount (drop p.index p.to_decode), advance p amount)

-- The loop of `ReadUntilDelimiter`, over what stands at `index` and behind it.
pub until : ℕ → Bytes → Run Bytes
until delimiter [] = strays
until delimiter (c ∷ rest) = elim (c == delimiter) [
  | true ↦ ends []
  | false ↦ until delimiter rest >>= λ text. ends (c ∷ text)
]

unfoldable pub read_until_delimiter : Parser → ℕ → Run (Bytes × Parser)
unfolding until
read_until_delimiter p delimiter = do
  text ← until delimiter (drop p.index p.to_decode)
  ends (text, advance p (length text + 1))

-- A string: its length, a colon, its bytes.
unfoldable pub process_string : Parser → Run (Bytes × Parser)
unfolding read_until_delimiter read_fixed_amount
process_string p = do
  (text, p₁) ← read_until_delimiter p b':'
  string_length ← checked (stoi text)
  (temp, p₂) ← read_fixed_amount p₁ string_length
  ends (temp, push p₂ temp)

unfoldable pub process_integer : Parser → Run (Bytes × Parser)
unfolding read_until_delimiter
process_integer p = do (text, p₁) ← read_until_delimiter (advance p 1) b'e'; ends ([], push p₁ text)

-- The local variables of `ProcessDict`; -1 is `none`.
pub record DictState : Type 0 where
  pub key_name : Bytes
  pub start_index : Option ℕ
  pub end_index : Option ℕ
  pub flag : Bool

abbrev pub dict_start : DictState
dict_start = record { key_name = []; start_index = none; end_index = none; flag = false }

abbrev pub is_empty : Bytes → Bool
is_empty [] = true
is_empty (c ∷ rest) = false

abbrev pub info_key : Bytes
info_key = b'i' ∷ b'n' ∷ b'f' ∷ b'o' ∷ []

-- After a key, and after a value, where `index` is what the call of `Process` left.
abbrev pub with_key : DictState → Bytes → ℕ → DictState
with_key d key index = record {
  key_name = key;
  start_index = if bytes_eq key info_key then some index else d.start_index;
  end_index = d.end_index;
  flag = if bytes_eq key info_key then true else d.flag;
}

abbrev pub with_value : DictState → ℕ → DictState
with_value d index = record {
  key_name = [];
  start_index = d.start_index;
  end_index = if d.flag then some index else d.end_index;
  flag = false;
}

-- `to_decode` from `i` up to `j`.
abbrev pub between : ℕ → ℕ → Bytes → Bytes
between i j text = take (j - i) (drop i text)

-- The end of `ProcessDict`: the bytes of the value of `info` are hashed.
unfoldable pub set_info_hash : (Bytes → Bytes) → Option ℕ → Option ℕ → Parser → Parser
set_info_hash sha1 (some i) (some j) p = record p { info_hash = sha1 (between i j p.to_decode) }
set_info_hash sha1 _ _ p = p

-- `Process`, and the loops of `ProcessDict` and `ProcessList` behind their first `++index`. Each call
-- spends a unit of the fuel.
unfoldable mutual
  pub process : (Bytes → Bytes) → ℕ → Parser → Run (Bytes × Parser)
  process sha1 zero p = goes_on
  process sha1 (suc fuel) p = do
    c ← current p
    elim (is_digit c) [
      | true ↦ process_string p
      | false ↦ elim (c == b'i') [
        | true ↦ process_integer p
        | false ↦ elim (c == b'd') [
          | true ↦ process_dict sha1 fuel dict_start (advance p 1) >>= λ p'. ends ([], p')
          | false ↦ elim (c == b'l') [
            | true ↦ process_list sha1 fuel (advance p 1) >>= λ p'. ends ([], p')
            | false ↦ ends ([], p)
          ]
        ]
      ]
    ]

  pub process_dict : (Bytes → Bytes) → ℕ → DictState → Parser → Run Parser
  process_dict sha1 zero d p = goes_on
  process_dict sha1 (suc fuel) d p = do
    c ← current p
    elim (c == b'e') [
      | true ↦ ends (set_info_hash sha1 d.start_index d.end_index (advance p 1))
      | false ↦ process sha1 fuel p >>= λ r.
          process_dict sha1 fuel
            (if is_empty d.key_name then with_key d r.0 r.1.index else with_value d r.1.index) r.1
    ]

  pub process_list : (Bytes → Bytes) → ℕ → Parser → Run Parser
  process_list sha1 zero p = goes_on
  process_list sha1 (suc fuel) p = do
    c ← current p
    elim (c == b'e') [
      | true ↦ ends (advance p 1)
      | false ↦ process sha1 fuel p >>= λ r. process_list sha1 fuel r.1
    ]

abbrev pub fresh : Bytes → Parser
fresh text = record { to_decode = text; info_hash = []; parsed = []; pieces_hashes = []; index = 0 }

-- `ParseFromString`, and `ParseFromFile` on the contents of the file, in a new parser.
unfoldable pub parse_from_string : (Bytes → Bytes) → ℕ → Bytes → Run Parser
parse_from_string sha1 fuel text = process sha1 fuel (fresh text) >>= λ r. ends r.1

-- The pieces of 20 bytes, over what stands at `j` and behind it.
unfoldable pub pieces_of : ℕ → Bytes → List Bytes
pieces_of zero data_left = []
pieces_of (suc fuel) data_left =
    let rest = take 20 data_left ∷ pieces_of fuel (drop 20 data_left) in
    if leb 20 (length data_left) then rest else []

abbrev pub pieces_key : Bytes
pieces_key = b'p' ∷ b'i' ∷ b'e' ∷ b'c' ∷ b'e' ∷ b's' ∷ []

-- The search of `GetPieceHashes`: the entry behind the first "pieces" that has one.
unfoldable pub pieces_data : List Bytes → Option Bytes
pieces_data [] = none
pieces_data (x ∷ []) = none
pieces_data (x ∷ y ∷ rest) = if bytes_eq x pieces_key then some y else pieces_data (y ∷ rest)

pub push_pieces : Parser → Option Bytes → Parser
unfolding pieces_of
push_pieces p none = p
push_pieces p (some d) = record p { pieces_hashes = p.pieces_hashes ++ pieces_of (length d) d }

-- `GetPieceHashes` appends to the member that it returns.
unfoldable pub get_piece_hashes : Parser → Parser
unfolding push_pieces pieces_data
get_piece_hashes p = push_pieces p (pieces_data p.parsed)
