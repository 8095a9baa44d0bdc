-- ===== src/Bencode/Sizes.antt =====
-- How long a written value is, how it begins, and the fuel that it costs.
use simple_torrent_client.Common.{
  ℕ, ◌+◌, ◌*◌, ◌≤◌, [], ◌∷◌, ◌++◌, ◌≡◌, ◌≢◌, refl, ap, subst, ◌∙◌, arith, length, length-append,
  All,
}
use simple_torrent_client.ByteTools.{Bytes}
use simple_torrent_client.Decimal.{to_string}
use simple_torrent_client.Decimal.RoundTrip.{IsDigit, to_string-All, to_string_nonempty}
use simple_torrent_client.Bencode.Values.{
  Value, text, integer, list, dict, Items, no_items, item, Entries, no_entries, entry, write_text,
  write, write_items, write_entries, write_text-append, write-append, write_items-append,
  write_entries-append,
}

-- The fuel that a value costs.
unfoldable mutual
  pub cost : Value → ℕ
  cost (text s) = 1
  cost (integer t) = 1
  cost (list xs) = 1 + cost_items xs
  cost (dict es) = 1 + cost_entries es

  pub cost_items : Items → ℕ
  cost_items no_items = 1
  cost_items (item v xs) = 1 + cost v + cost_items xs

  pub cost_entries : Entries → ℕ
  cost_entries no_entries = 1
  cost_entries (entry k v es) = 2 + cost v + cost_entries es

abbrev pub size : Value → ℕ
size v = length (write v [])

pub length-write_text :
    (k rest : Bytes) → length (write_text k rest) ≡ length (write_text k []) + length rest
length-write_text k rest =
    ap length (write_text-append k [] rest) ∙ length-append (write_text k []) rest

pub length-write : (v : Value) (rest : Bytes) → length (write v rest) ≡ size v + length rest
length-write v rest = ap length (write-append v rest) ∙ length-append (write v []) rest

-- Text begins with a digit, and no value begins with the end mark.
pub record Begins (P : ℕ → Type 0) (s : Bytes) : Type 0 where
  pub first : ℕ
  pub rest : Bytes
  pub splits : s ≡ first ∷ rest
  pub holds : P first

pub write_text-Begins : (k rest : Bytes) → Begins IsDigit (write_text k rest)
write_text-Begins k rest =
    let t = to_string_nonempty (length k) in
    record {
      first = t.0;
      rest = t.1.0 ++ b':' ∷ (k ++ rest);
      splits = ap (λ (x : Bytes). x ++ b':' ∷ (k ++ rest)) t.1.1;
      holds = (subst (All IsDigit) t.1.1 (to_string-All (length k))).0;
    }

pub IsDigit-ne-e : (c : ℕ) → IsDigit c → c ≢ b'e'
IsDigit-ne-e c h e = omega arith

pub write-Begins : (v : Value) (rest : Bytes) → Begins (λ c. c ≢ b'e') (write v rest)
unfolding write
write-Begins (text s) rest =
    let b = write_text-Begins s rest in
    record {
      first = b.first;
      rest = b.rest;
      splits = b.splits;
      holds = IsDigit-ne-e b.first b.holds;
    }
write-Begins (integer t) rest = record {
  first = b'i';
  rest = t ++ b'e' ∷ rest;
  splits = refl;
  holds = λ e. omega arith;
}
write-Begins (list xs) rest = record {
  first = b'l';
  rest = write_items xs (b'e' ∷ rest);
  splits = refl;
  holds = λ e. omega arith;
}
write-Begins (dict es) rest = record {
  first = b'd';
  rest = write_entries es (b'e' ∷ rest);
  splits = refl;
  holds = λ e. omega arith;
}

-- Each unit of fuel is spent on a byte that is written, or on a call that reads one.
mutual
  unfolding write cost

  pub cost-size : (v : Value) → cost v + 2 ≤ 2 * size v
  cost-size (text s) = omega (
    arith,
    length-append {0} (to_string (length s)) (b':' ∷ (s ++ [])),
    ap length (to_string_nonempty (length s)).1.1,
  )
  cost-size (integer t) = omega (arith, length-append {0} t (b'e' ∷ []))
  cost-size (list xs) = omega (
    arith,
    cost_items-size xs,
    ap length (write_items-append xs (b'e' ∷ [])),
    length-append {0} (write_items xs []) (b'e' ∷ []),
  )
  cost-size (dict es) = omega (
    arith,
    cost_entries-size es,
    ap length (write_entries-append es (b'e' ∷ [])),
    length-append {0} (write_entries es []) (b'e' ∷ []),
  )

  cost_items-size : (xs : Items) → cost_items xs ≤ 2 * length (write_items xs []) + 1
  cost_items-size no_items = omega arith
  cost_items-size (item v xs) =
      omega (arith, cost-size v, cost_items-size xs, length-write v (write_items xs []))

  cost_entries-size : (es : Entries) → cost_entries es ≤ 2 * length (write_entries es []) + 1
  cost_entries-size no_entries = omega arith
  cost_entries-size (entry k v es) = omega (
    arith,
    cost-size v,
    cost_entries-size es,
    length-write v (write_entries es []),
    length-write_text k (write v (write_entries es [])),
  )
