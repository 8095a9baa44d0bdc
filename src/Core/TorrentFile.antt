-- ===== src/Core/TorrentFile.antt =====
-- include/core/TorrentFile.hpp and src/core/TorrentFile.cpp: what the client knows of a torrent, and how
-- it is loaded. The contents of the file, SHA-1, and what the members `piece_length` and `length` hold
-- before they are written are arguments.
pub mod Others
pub mod Written
pub mod Load
use simple_torrent_client.Common.{
  ℕ, List, [], ◌∷◌, Option, none, some, bytes_eq, if◌then◌else◌, Result,
}
use simple_torrent_client.ByteTools.{Bytes}
use simple_torrent_client.Decimal.{stol}
use simple_torrent_client.Bencode.{
  Run, ends, strays, ◌>>=◌, checked, Parser, parse_from_string, get_piece_hashes,
}

pub record TorrentFile : Type 0 where
  pub announce : Bytes
  pub comment : Bytes
  pub piece_hashes : List Bytes
  pub piece_length : ℕ
  pub length : ℕ
  pub name : Bytes
  pub info_hash : Bytes

abbrev pub announce_key : Bytes
announce_key = b'a' ∷ b'n' ∷ b'n' ∷ b'o' ∷ b'u' ∷ b'n' ∷ b'c' ∷ b'e' ∷ []

abbrev pub comment_key : Bytes
comment_key = b'c' ∷ b'o' ∷ b'm' ∷ b'm' ∷ b'e' ∷ b'n' ∷ b't' ∷ []

abbrev pub piece_length_key : Bytes
piece_length_key =
    b'p' ∷ b'i' ∷ b'e' ∷ b'c' ∷ b'e' ∷ b' ' ∷ b'l' ∷ b'e' ∷ b'n' ∷ b'g' ∷ b't' ∷ b'h' ∷ []

abbrev pub length_key : Bytes
length_key = b'l' ∷ b'e' ∷ b'n' ∷ b'g' ∷ b't' ∷ b'h' ∷ []

abbrev pub name_key : Bytes
name_key = b'n' ∷ b'a' ∷ b'm' ∷ b'e' ∷ []

-- `TorrentFile result;`
abbrev pub blank : ℕ → ℕ → TorrentFile
blank piece_length length = record {
  announce = [];
  comment = [];
  piece_hashes = [];
  piece_length = piece_length;
  length = length;
  name = [];
  info_hash = [];
}

-- What the loop does with the entry behind one of its keys. A number keeps its 64-bit pattern.
unfoldable pub set_field : Bytes → Bytes → TorrentFile → Option (Run TorrentFile)
set_field key value t =
    if bytes_eq key announce_key
    then some (ends (record t { announce = value }))
    else if bytes_eq key comment_key
    then some (ends (record t { comment = value }))
    else if bytes_eq key piece_length_key
    then some (checked (stol value) >>= λ n. ends (record t { piece_length = n }))
    else if bytes_eq key length_key
    then some (checked (stol value) >>= λ n. ends (record t { length = n }))
    else if bytes_eq key name_key
    then some (ends (record t { name = value }))
    else none

-- The loop, over the entries from `i` on. A key that is the last entry is followed by a read behind
-- the end of the vector.
unfoldable pub load_fields : List Bytes → TorrentFile → Run TorrentFile
unfolding set_field
load_fields [] t = ends t
load_fields (key ∷ []) t = elim (set_field key [] t) [ none ↦ ends t | some r ↦ strays ]
load_fields (key ∷ value ∷ rest) t = elim (set_field key value t) [
  | none ↦ load_fields (value ∷ rest) t
  | some r ↦ r >>= λ t'. load_fields rest t'
]

unfoldable pub load_torrent_file : (Bytes → Bytes) → ℕ → TorrentFile → Bytes → Run TorrentFile
unfolding load_fields
load_torrent_file sha1 fuel result contents = do
  p ← parse_from_string sha1 fuel contents
  t ← load_fields p.parsed result
  ends (record t { info_hash = p.info_hash; piece_hashes = (get_piece_hashes p).pieces_hashes })
