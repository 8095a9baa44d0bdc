-- ===== src/Bencode/Values.antt =====
-- Bencoded values, as the format has them: what a value is written as, which strings and numbers it
-- holds in their order, and the bytes of the value of `info`.
use simple_torrent_client.Common.{
  ◌^◌, ◌<◌, false, Option, none, some, List, [], ◌∷◌, ◌++◌, append_assoc, append-nil, ◌≡◌, ◌≢◌,
  refl, sym, ap, ◌∙◌, bytes_eq, if◌then◌else◌, length, All,
}
use simple_torrent_client.ByteTools.{Bytes}
use simple_torrent_client.Decimal.{to_string}
use simple_torrent_client.Bencode.{info_key, is_empty}

-- The number of an `integer` is kept as its text.
mutual
  pub data Value : Type 0 where
    text : Bytes → Value
    integer : Bytes → Value
    list : Items → Value
    dict : Entries → Value

  pub data Items : Type 0 where
    no_items : Items
    item : Value → Items → Items

  pub data Entries : Type 0 where
    no_entries : Entries
    entry : Bytes → Value → Entries → Entries

abbrev pub write_text : Bytes → Bytes → Bytes
write_text s rest = to_string (length s) ++ b':' ∷ (s ++ rest)

-- A value as it is written in front of `rest`.
unfoldable mutual
  pub write : Value → Bytes → Bytes
  write (text s) rest = write_text s rest
  write (integer t) rest = b'i' ∷ (t ++ b'e' ∷ rest)
  write (list xs) rest = b'l' ∷ write_items xs (b'e' ∷ rest)
  write (dict es) rest = b'd' ∷ write_entries es (b'e' ∷ rest)

  pub write_items : Items → Bytes → Bytes
  write_items no_items rest = rest
  write_items (item v xs) rest = write v (write_items xs rest)

  pub write_entries : Entries → Bytes → Bytes
  write_entries no_entries rest = rest
  write_entries (entry k v es) rest = write_text k (write v (write_entries es rest))

abbrev pub encode : Value → Bytes
encode v = write v []

-- The strings and numbers of a value, keys included, from left to right.
unfoldable mutual
  pub leaves : Value → List Bytes
  leaves (text s) = s ∷ []
  leaves (integer t) = t ∷ []
  leaves (list xs) = leaves_items xs
  leaves (dict es) = leaves_entries es

  pub leaves_items : Items → List Bytes
  leaves_items no_items = []
  leaves_items (item v xs) = leaves v ++ leaves_items xs

  pub leaves_entries : Entries → List Bytes
  leaves_entries no_entries = []
  leaves_entries (entry k v es) = k ∷ (leaves v ++ leaves_entries es)

abbrev pub chosen : Bytes → Option Bytes → (Bytes → Bytes) → Bytes
chosen h none sha1 = h
chosen h (some s) sha1 = sha1 s

-- The info hash behind a value, where it was `h` before: the SHA-1 of the bytes of the value of the
-- last key `info` of the outermost dictionary that has one. `s` is what the dictionary has so far.
unfoldable mutual
  pub hash_after : (Bytes → Bytes) → Bytes → Value → Bytes
  hash_after sha1 h (text s) = h
  hash_after sha1 h (integer t) = h
  hash_after sha1 h (list xs) = hash_after_items sha1 h xs
  hash_after sha1 h (dict es) = hash_after_entries sha1 h none es

  pub hash_after_items : (Bytes → Bytes) → Bytes → Items → Bytes
  hash_after_items sha1 h no_items = h
  hash_after_items sha1 h (item v xs) = hash_after_items sha1 (hash_after sha1 h v) xs

  pub hash_after_entries : (Bytes → Bytes) → Bytes → Option Bytes → Entries → Bytes
  hash_after_entries sha1 h s no_entries = chosen h s sha1
  hash_after_entries sha1 h s (entry k v es) =
      hash_after_entries sha1 (hash_after sha1 h v)
        (if bytes_eq k info_key then some (write v []) else s) es

-- Lengths that `stoi` can read, texts of numbers without their delimiter, keys that are not empty.
unfoldable mutual
  pub IsValue : Value → Type 0
  IsValue (text s) = length s < 2 ^ 31
  IsValue (integer t) = All (λ c. c ≢ b'e') t
  IsValue (list xs) = IsItems xs
  IsValue (dict es) = IsEntries es

  pub IsItems : Items → Type 0
  IsItems no_items = Unit {0}
  IsItems (item v xs) = IsValue v × IsItems xs

  pub IsEntries : Entries → Type 0
  IsEntries no_entries = Unit {0}
  IsEntries (entry k v es) = (is_empty k ≡ false) × (length k < 2 ^ 31) × IsValue v × IsEntries es

pub write_text-append :
    (k rest more : Bytes) → write_text k (rest ++ more) ≡ write_text k rest ++ more
write_text-append k rest more = simp append_assoc

-- What stands behind a value is not part of it.
mutual
  unfolding write

  pub write-append : (v : Value) (rest : Bytes) → write v rest ≡ write v [] ++ rest
  write-append (text s) rest = simp (append_assoc, append-nil)
  write-append (integer t) rest = simp append_assoc
  write-append (list xs) rest =
      simp (write_items-append xs (b'e' ∷ rest), write_items-append xs (b'e' ∷ []), append_assoc)
  write-append (dict es) rest =
      simp
        (write_entries-append es (b'e' ∷ rest), write_entries-append es (b'e' ∷ []), append_assoc)

  pub write_items-append :
      (xs : Items) (rest : Bytes) → write_items xs rest ≡ write_items xs [] ++ rest
  write_items-append no_items rest = refl
  write_items-append (item v xs) rest =
      write-append v (write_items xs rest)
      ∙ (ap (λ (r : Bytes). write v [] ++ r) (write_items-append xs rest)
          ∙ (sym (append_assoc (write v []) (write_items xs []) rest)
              ∙ ap (λ (r : Bytes). r ++ rest) (sym (write-append v (write_items xs [])))))

  pub write_entries-append :
      (es : Entries) (rest : Bytes) → write_entries es rest ≡ write_entries es [] ++ rest
  write_entries-append no_entries rest = refl
  write_entries-append (entry k v es) rest =
      ap (write_text k) (
        write-append v (write_entries es rest)
        ∙ (ap (λ (r : Bytes). write v [] ++ r) (write_entries-append es rest)
            ∙ (sym (append_assoc (write v []) (write_entries es []) rest)
                ∙ ap (λ (r : Bytes). r ++ rest) (sym (write-append v (write_entries es []))))))
      ∙ write_text-append k (write v (write_entries es [])) rest
