-- ===== src/Core/TorrentFile/Written.antt =====
-- A torrent file for one file, as it is written, with entries that the client does not know.
use simple_torrent_client.Common.{
  ◌*◌, ◌^◌, ◌<◌, List, [], ◌∷◌, ◌++◌, ◌≡◌, ◌≢◌, refl, ap, ◌∙◌, arith, length, All,
}
use simple_torrent_client.ByteTools.{Bytes}
use simple_torrent_client.Bencode.Values.{Entries, IsEntries, leaves_entries}
use simple_torrent_client.Core.TorrentFile.Others.{
  IsOther, before_entries, leaves-before_entries, before_entries-IsEntries,
}
use simple_torrent_client.Decimal.{to_string}
use simple_torrent_client.Decimal.RoundTrip.{IsDigit, to_string-All}
use simple_torrent_client.Bencode.{info_key, pieces_key}
use simple_torrent_client.Bencode.Values.{
  Value, text, integer, dict, no_entries, entry, leaves, IsValue,
}
use simple_torrent_client.Bencode.Pieces.{joined, IsHash, length-joined}
use simple_torrent_client.Core.TorrentFile.{
  TorrentFile, announce_key, comment_key, piece_length_key, length_key, name_key,
}

-- The dictionary `info` and the torrent file, with their keys in order.
abbrev pub info_value : TorrentFile → Value
info_value m = dict (
    entry length_key (integer (to_string m.length)) (
      entry name_key (text m.name) (
        entry piece_length_key (integer (to_string m.piece_length))
          (entry pieces_key (text (joined m.piece_hashes)) no_entries))))

-- `xs` and `ys` are entries that the client does not know.
abbrev pub torrent_value : Entries → Entries → TorrentFile → Value
torrent_value xs ys m = dict (
    entry announce_key (text m.announce) (
      before_entries xs (
        entry comment_key (text m.comment)
          (before_entries ys (entry info_key (info_value m) no_entries)))))

pub record AreOthers (es : Entries) : Type 0 where
  pub valid : IsEntries es
  pub others : All IsOther (leaves_entries es)

-- Numbers that `stol` reads, hashes of 20 bytes, lengths that `stoi` reads, and no value `pieces`,
-- which GetPieceHashes would take for the key.
pub record IsPublished (m : TorrentFile) : Type 0 where
  pub length_bound : m.length < 2 ^ 63
  pub piece_length_bound : m.piece_length < 2 ^ 63
  pub hashes : All IsHash m.piece_hashes
  pub hashes_bound : 20 * length m.piece_hashes < 2 ^ 31
  pub announce_bound : length m.announce < 2 ^ 31
  pub comment_bound : length m.comment < 2 ^ 31
  pub name_bound : length m.name < 2 ^ 31
  pub announce_fits : m.announce ≢ pieces_key
  pub comment_fits : m.comment ≢ pieces_key
  pub name_fits : m.name ≢ pieces_key

pub digits-All : (t : Bytes) → All IsDigit t → All (λ c. c ≢ b'e') t
digits-All [] h = tt
digits-All (c ∷ t) h = ((λ e. omega arith), digits-All t h.1)

module _ (xs ys : Entries) (m : TorrentFile) (ox : AreOthers xs) (oy : AreOthers ys)
    (h : IsPublished m) where
  info_value-IsValue : IsValue (info_value m)
  unfolding IsValue
  info_value-IsValue =
      let n = digits-All (to_string m.length) (to_string-All m.length) in
      let k = digits-All (to_string m.piece_length) (to_string-All m.piece_length) in
      let d : length (joined m.piece_hashes) < 2 ^ 31 =
        omega (arith, length-joined m.piece_hashes h.hashes, h.hashes_bound) in
      (
        refl,
        omega arith,
        n,
        (refl, omega arith, h.name_bound, (refl, omega arith, k, (refl, omega arith, d, tt))),
      )

  pub torrent_value-IsValue : IsValue (torrent_value xs ys m)
  unfolding IsValue
  torrent_value-IsValue =
      let ending : IsEntries (entry info_key (info_value m) no_entries) =
        (refl, omega arith, info_value-IsValue, tt) in
      let middle : IsEntries (
          entry comment_key (text m.comment)
            (before_entries ys (entry info_key (info_value m) no_entries))) =
        (refl, omega arith, h.comment_bound, before_entries-IsEntries ys _ oy.valid ending) in
      (refl, omega arith, h.announce_bound, before_entries-IsEntries xs _ ox.valid middle)

  -- The strings from `info` on, and all of them.
  abbrev pub info_leaves : List Bytes
  info_leaves =
      length_key
      ∷ to_string m.length
      ∷ name_key
      ∷ m.name
      ∷ piece_length_key
      ∷ to_string m.piece_length
      ∷ pieces_key
      ∷ joined m.piece_hashes
      ∷ []

  abbrev pub comment_leaves : List Bytes
  comment_leaves = m.comment ∷ (leaves_entries ys ++ info_key ∷ info_leaves)

  pub leaves_lem :
      leaves (torrent_value xs ys m)
      ≡ announce_key ∷ m.announce ∷ (leaves_entries xs ++ comment_key ∷ comment_leaves)
  unfolding leaves
  leaves_lem =
      ap (λ (l : List Bytes). announce_key ∷ m.announce ∷ l)
        (leaves-before_entries xs _
          ∙ ap (λ (l : List Bytes). leaves_entries xs ++ comment_key ∷ m.comment ∷ l)
              (leaves-before_entries ys _))
