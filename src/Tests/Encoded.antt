-- ===== src/Tests/Encoded.antt =====
-- Bencoded texts and a torrent file.
use simple_torrent_client.Common.{◌*◌, [], ◌∷◌, ◌++◌, ◌≡◌, refl, arith, length, replicate}
use simple_torrent_client.Common.{bytes_eq}
use simple_torrent_client.Core.TorrentFile.{name_key, load_fields, set_field}
use simple_torrent_client.Bencode.{strays, process, current}
use simple_torrent_client.ByteTools.{Bytes}
use simple_torrent_client.Core.TorrentFile.Written.{AreOthers}
use simple_torrent_client.Bencode.Values.{Value}
use simple_torrent_client.Bencode.{ends, goes_on, parse_from_string, info_key}
use simple_torrent_client.Bencode.Values.{
  text, integer, list, dict, Items, item, no_items, Entries, entry, no_entries, write_items,
  write_entries, encode, leaves, hash_after, IsValue, IsItems, IsEntries,
}
use simple_torrent_client.Bencode.RoundTrip.{parse_from_string-write}
use simple_torrent_client.Bencode.Endless.{parse_from_string-cut}
use simple_torrent_client.Core.TorrentFile.{TorrentFile, blank, load_torrent_file}
use simple_torrent_client.Core.TorrentFile.Written.{IsPublished, torrent_value}
use simple_torrent_client.Core.TorrentFile.Load.{load_torrent_file-torrent_value}

-- SHA-1 is taken to give one hash for everything.
abbrev pub one_hash : Bytes
one_hash = replicate 20 1

abbrev pub constant : Bytes → Bytes
constant s = one_hash

-- A dictionary with a list of a number and a string, and an empty `info`.
abbrev entries : Entries
entries =
    entry (b'a' ∷ []) (list (item (integer (b'7' ∷ [])) (item (text (b'x' ∷ b'y' ∷ [])) no_items)))
      (entry info_key (dict no_entries) no_entries)

abbrev items : Items
items = item (integer (b'7' ∷ [])) no_items

valid : IsValue (dict entries)
unfolding IsValue
valid =
    (refl, omega arith, (((λ e. omega arith), tt), (omega arith, tt)), (refl, omega arith, tt, tt))

parse_from_string-write_example :
    parse_from_string constant
      (2 * length (encode (dict entries)))
      (encode (dict entries) ++ b'e' ∷ [])
    ≡ ends (record {
      to_decode = encode (dict entries) ++ b'e' ∷ [];
      info_hash = hash_after constant [] (dict entries);
      parsed = leaves (dict entries);
      pieces_hashes = [];
      index = length (encode (dict entries));
    })
parse_from_string-write_example =
    parse_from_string-write constant (dict entries) (b'e' ∷ []) (2 * length (encode (dict entries)))
      valid (omega arith)

items_valid : IsItems items
unfolding IsValue
items_valid = (((λ e. omega arith), tt), tt)

entries_valid : IsEntries entries
unfolding IsValue
entries_valid = valid

-- With any fuel, here a thousand units.
parse_from_string-cut_example :
    (parse_from_string constant 1000 (b'l' ∷ write_items items []) ≡ goes_on)
    × (parse_from_string constant 1000 (b'd' ∷ write_entries entries []) ≡ goes_on)
parse_from_string-cut_example =
    parse_from_string-cut constant items entries 1000 items_valid entries_valid

-- A torrent of one piece of two bytes.
abbrev pub published : TorrentFile
published = record {
  announce = b'h' ∷ [];
  comment = [];
  piece_hashes = one_hash ∷ [];
  piece_length = 2;
  length = 2;
  name = b'n' ∷ [];
  info_hash = [];
}

pub published-IsPublished : IsPublished published
published-IsPublished = record {
  length_bound = omega arith;
  piece_length_bound = omega arith;
  hashes = (refl, tt);
  hashes_bound = omega arith;
  announce_bound = omega arith;
  comment_bound = omega arith;
  name_bound = omega arith;
  announce_fits = λ e. cc;
  comment_fits = λ e. cc;
  name_fits = λ e. cc;
}

-- A list of further trackers, and the program that made the file.
abbrev pub further : Entries
further =
    entry
      (b'a' ∷ b'n' ∷ b'n' ∷ b'o' ∷ b'u' ∷ b'n' ∷ b'c' ∷ b'e' ∷ b'-' ∷ b'l' ∷ b'i' ∷ b's' ∷ b't'
        ∷ [])
      (list (item (list (item (text (b'x' ∷ [])) no_items)) no_items)) no_entries

abbrev pub maker : Entries
maker =
    entry (b'c' ∷ b'r' ∷ b'e' ∷ b'a' ∷ b't' ∷ b'e' ∷ b'd' ∷ b' ' ∷ b'b' ∷ b'y' ∷ [])
      (text (b'x' ∷ [])) no_entries

pub further-AreOthers : AreOthers further
unfolding IsValue leaves bytes_eq
further-AreOthers = record {
  valid = (refl, omega arith, ((omega arith, tt), tt), tt);
  others = (
    (refl, (refl, (refl, (refl, (refl, (refl, (refl, tt))))))),
    ((refl, (refl, (refl, (refl, (refl, (refl, (refl, tt))))))), tt),
  );
}

pub maker-AreOthers : AreOthers maker
unfolding IsValue leaves bytes_eq
maker-AreOthers = record {
  valid = (refl, omega arith, omega arith, tt);
  others = (
    (refl, (refl, (refl, (refl, (refl, (refl, (refl, tt))))))),
    ((refl, (refl, (refl, (refl, (refl, (refl, (refl, tt))))))), tt),
  );
}

abbrev pub torrent : Value
torrent = torrent_value further maker published

load_torrent_file-torrent_value_example :
    load_torrent_file constant (2 * length (encode torrent)) (blank 5 6) (encode torrent ++ [])
    ≡ ends (record published { info_hash = one_hash })
load_torrent_file-torrent_value_example =
    load_torrent_file-torrent_value further maker published further-AreOthers maker-AreOthers
      published-IsPublished constant (2 * length (encode torrent)) 5 6 [] (omega arith)

-- A value that is one of the words is taken for the key, and reads behind the end as the last entry.
abbrev created_by : Bytes
created_by = b'c' ∷ b'r' ∷ b'e' ∷ b'a' ∷ b't' ∷ b'e' ∷ b'd' ∷ b' ' ∷ b'b' ∷ b'y' ∷ []

value_as_key :
    load_fields (created_by ∷ name_key ∷ (b'x' ∷ []) ∷ []) (blank 5 6)
    ≡ ends (record (blank 5 6) { name = b'x' ∷ [] })
unfolding load_fields set_field bytes_eq
value_as_key = refl

key_at_end : load_fields (created_by ∷ name_key ∷ []) (blank 5 6) ≡ strays
unfolding load_fields set_field bytes_eq
key_at_end = refl

-- A list with a character that begins no value does not end, here after a hundred units of fuel.
stray_character : parse_from_string constant 100 (b'l' ∷ b'x' ∷ b'e' ∷ []) ≡ goes_on
unfolding parse_from_string process current
stray_character = refl
