-- ===== src/Core/TorrentFile/Others.antt =====
-- Entries of a torrent file that the client does not know, such as the list of further trackers or the
-- program that made it, are passed over.
use simple_torrent_client.Common.{
  false, Option, none, some, List, [], ◌∷◌, ◌++◌, append_assoc, ◌≡◌, refl, sym, ap, ◌∙◌, bytes_eq,
  if◌then◌else◌, if_false, All,
}
use simple_torrent_client.ByteTools.{Bytes}
use simple_torrent_client.Bencode.{info_key, pieces_key, pieces_data}
use simple_torrent_client.Bencode.Values.{
  Value, text, integer, list, dict, Items, no_items, item, Entries, no_entries, entry, write,
  leaves, leaves_items, leaves_entries, hash_after, hash_after_items, hash_after_entries, chosen,
  IsValue, IsEntries,
}
use simple_torrent_client.Core.TorrentFile.{
  TorrentFile, announce_key, comment_key, piece_length_key, length_key, name_key, set_field,
  load_fields,
}

abbrev pub known_keys : List Bytes
known_keys =
    announce_key ∷ comment_key ∷ piece_length_key ∷ length_key ∷ name_key ∷ pieces_key ∷ info_key
    ∷ []

-- A string that is none of the words that the client looks for.
abbrev pub IsOther : Bytes → Type 0
IsOther s = All (λ key. bytes_eq s key ≡ false) known_keys

set_field-IsOther : (s value : Bytes) (t : TorrentFile) → IsOther s → set_field s value t ≡ none
unfolding set_field
set_field-IsOther s value t h =
    if_false _ _ _ h.0
    ∙ (if_false _ _ _ h.1.0
        ∙ (if_false _ _ _ h.1.1.0 ∙ (if_false _ _ _ h.1.1.1.0 ∙ if_false _ _ _ h.1.1.1.1.0)))

-- A turn of the loop.
pub load_fields_skip :
    (key value : Bytes) (rest : List Bytes) (t : TorrentFile)
    → set_field key value t ≡ none
    → load_fields (key ∷ value ∷ rest) t ≡ load_fields (value ∷ rest) t
unfolding load_fields
load_fields_skip key value rest t e = rw (load_fields, e) refl

pub load_fields-others :
    (xs : List Bytes) (y : Bytes) (ys : List Bytes) (t : TorrentFile)
    → All IsOther xs
    → load_fields (xs ++ y ∷ ys) t ≡ load_fields (y ∷ ys) t
load_fields-others [] y ys t h = refl
load_fields-others (x ∷ []) y ys t h = load_fields_skip x y ys t (set_field-IsOther x y t h.0)
load_fields-others (x ∷ z ∷ xs) y ys t h =
    load_fields_skip x z (xs ++ y ∷ ys) t (set_field-IsOther x z t h.0)
    ∙ load_fields-others (z ∷ xs) y ys t h.1

pub pieces_data-others :
    (xs : List Bytes) (y : Bytes) (ys : List Bytes)
    → All IsOther xs
    → pieces_data (xs ++ y ∷ ys) ≡ pieces_data (y ∷ ys)
unfolding pieces_data
pieces_data-others [] y ys h = refl
pieces_data-others (x ∷ []) y ys h = if_false _ _ _ h.0.1.1.1.1.1.0
pieces_data-others (x ∷ z ∷ xs) y ys h =
    if_false _ _ _ h.0.1.1.1.1.1.0 ∙ pieces_data-others (z ∷ xs) y ys h.1

-- What is not the key leads to what follows it.
pub pieces_data_skip :
    (x : Bytes) (zs : List Bytes) (y : Bytes) (ys : List Bytes)
    → bytes_eq x pieces_key ≡ false
    → pieces_data (x ∷ (zs ++ y ∷ ys)) ≡ pieces_data (zs ++ y ∷ ys)
unfolding pieces_data
pieces_data_skip x [] y ys h = if_false _ _ _ h
pieces_data_skip x (z ∷ zs) y ys h = if_false _ _ _ h

-- Entries in front of others.
abbrev pub before_entries : Entries → Entries → Entries
before_entries no_entries rest = rest
before_entries (entry k v es) rest = entry k v (before_entries es rest)

pub leaves-before_entries :
    (es rest : Entries)
    → leaves_entries (before_entries es rest) ≡ leaves_entries es ++ leaves_entries rest
unfolding leaves
leaves-before_entries no_entries rest = refl
leaves-before_entries (entry k v es) rest =
    ap (λ (xs : List Bytes). k ∷ (leaves v ++ xs)) (leaves-before_entries es rest)
    ∙ ap (λ (xs : List Bytes). k ∷ xs)
        (sym (append_assoc (leaves v) (leaves_entries es) (leaves_entries rest)))

pub before_entries-IsEntries :
    (es rest : Entries) → IsEntries es → IsEntries rest → IsEntries (before_entries es rest)
unfolding IsValue
before_entries-IsEntries no_entries rest h k = k
before_entries-IsEntries (entry key v es) rest h k =
    (h.0, h.1, h.2, before_entries-IsEntries es rest h.3 k)

All-front : (P : Bytes → Type 0) (xs ys : List Bytes) → All P (xs ++ ys) → All P xs
All-front P [] ys h = tt
All-front P (x ∷ xs) ys h = (h.0, All-front P xs ys h.1)

All-back : (P : Bytes → Type 0) (xs ys : List Bytes) → All P (xs ++ ys) → All P ys
All-back P [] ys h = h
All-back P (x ∷ xs) ys h = All-back P xs ys h.1

-- They have no info hash.
module _ (sha1 : Bytes → Bytes) where
  mutual
    unfolding leaves hash_after

    hash_after-others : (v : Value) (h : Bytes) → All IsOther (leaves v) → hash_after sha1 h v ≡ h
    hash_after-others (text s) h o = refl
    hash_after-others (integer s) h o = refl
    hash_after-others (list xs) h o = hash_after_items-others xs h o
    hash_after-others (dict es) h o = hash_after_entries-others es h none o

    hash_after_items-others :
        (xs : Items) (h : Bytes) → All IsOther (leaves_items xs) → hash_after_items sha1 h xs ≡ h
    hash_after_items-others no_items h o = refl
    hash_after_items-others (item v xs) h o =
        ap (λ (g : Bytes). hash_after_items sha1 g xs)
          (hash_after-others v h (All-front IsOther (leaves v) (leaves_items xs) o))
        ∙ hash_after_items-others xs h (All-back IsOther (leaves v) (leaves_items xs) o)

    hash_after_entries-others :
        (es : Entries) (h : Bytes) (s : Option Bytes)
        → All IsOther (leaves_entries es)
        → hash_after_entries sha1 h s es ≡ chosen h s sha1
    hash_after_entries-others no_entries h s o = refl
    hash_after_entries-others (entry k v es) h s o =
        ap
          (λ (g : Bytes).
            hash_after_entries sha1 g (if bytes_eq k info_key then some (write v []) else s) es)
          (hash_after-others v h (All-front IsOther (leaves v) (leaves_entries es) o.1))
        ∙ (ap (λ (x : Option Bytes). hash_after_entries sha1 h x es)
              (if_false _ _ _ o.0.1.1.1.1.1.1.0)
            ∙ hash_after_entries-others es h s
                (All-back IsOther (leaves v) (leaves_entries es) o.1))

  pub hash_after-before_entries :
      (es rest : Entries) (h : Bytes) (s : Option Bytes)
      → All IsOther (leaves_entries es)
      → hash_after_entries sha1 h s (before_entries es rest) ≡ hash_after_entries sha1 h s rest
  unfolding leaves hash_after
  hash_after-before_entries no_entries rest h s o = refl
  hash_after-before_entries (entry k v es) rest h s o =
      ap
        (λ (g : Bytes).
          hash_after_entries sha1 g (if bytes_eq k info_key then some (write v []) else s)
            (before_entries es rest))
        (hash_after-others v h (All-front IsOther (leaves v) (leaves_entries es) o.1))
      ∙ (ap (λ (x : Option Bytes). hash_after_entries sha1 h x (before_entries es rest))
            (if_false _ _ _ o.0.1.1.1.1.1.1.0)
          ∙ hash_after-before_entries es rest h s
              (All-back IsOther (leaves v) (leaves_entries es) o.1))
