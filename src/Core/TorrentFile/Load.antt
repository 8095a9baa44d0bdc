-- ===== src/Core/TorrentFile/Load.antt =====
-- A torrent file for one file is loaded as what it says.
use simple_torrent_client.Common.{
  ℕ, ◌*◌, ◌≤◌, false, none, some, List, [], ◌∷◌, ◌++◌, append-nil, ◌≡◌, ◌≢◌, refl, sym, ap, ◌∙◌,
  arith, bytes_eq, bytes_eq-length, if_false, Bool-cases, bytes_eq_sound, inl, inr, length,
}
use simple_torrent_client.Common.{ap₂}
use simple_torrent_client.ByteTools.{Bytes}
use simple_torrent_client.Core.TorrentFile.Written.{
  info_value, torrent_value, AreOthers, IsPublished, torrent_value-IsValue, info_leaves,
  comment_leaves, leaves_lem,
}
use simple_torrent_client.Bencode.Values.{Entries, leaves_entries}
use simple_torrent_client.Core.TorrentFile.Others.{
  load_fields_skip, load_fields-others, pieces_data-others, pieces_data_skip,
  hash_after-before_entries,
}
use simple_torrent_client.Decimal.{to_string}
use simple_torrent_client.Decimal.RoundTrip.{to_string-differs, stol-to_string}
use simple_torrent_client.Bencode.{ends, checked, info_key, pieces_key, pieces_data}
use simple_torrent_client.Bencode.Values.{encode, leaves, hash_after}
use simple_torrent_client.Bencode.Steps.{>>=-ends}
use simple_torrent_client.Bencode.RoundTrip.{parse_from_string-write}
use simple_torrent_client.Bencode.Pieces.{joined, length-joined, get_piece_hashes-joined}
use simple_torrent_client.Core.TorrentFile.{
  TorrentFile, announce_key, comment_key, piece_length_key, length_key, name_key, blank, set_field,
  load_fields, load_torrent_file,
}

-- A turn of the loop.
load_fields_field :
    (key value : Bytes) (rest : List Bytes) (t t' : TorrentFile)
    → set_field key value t ≡ some (ends t')
    → load_fields (key ∷ value ∷ rest) t ≡ load_fields rest t'
unfolding load_fields
load_fields_field key value rest t t' e = rw (load_fields, e) refl

load_fields_last :
    (key : Bytes) (t : TorrentFile) → set_field key [] t ≡ none → load_fields (key ∷ []) t ≡ ends t
unfolding load_fields
load_fields_last key t e = rw (load_fields, e) refl

module _ (xs ys : Entries) (m : TorrentFile) (ox : AreOthers xs) (oy : AreOthers ys)
    (h : IsPublished m) where
  -- The hashes are not taken for a key: no key has a multiple of 20 bytes.
  set_field-hashes :
      (value : Bytes) (t : TorrentFile) → set_field (joined m.piece_hashes) value t ≡ none
  unfolding set_field
  set_field-hashes value t =
      let d = joined m.piece_hashes in
      let size = length-joined m.piece_hashes h.hashes in
      let no : (key : Bytes) (n : ℕ)
          → length key ≡ n
          → 20 * length m.piece_hashes ≢ n
          → bytes_eq d key ≡ false =
        λ key n e x. bytes_eq-length d key (λ y. x (sym size ∙ (y ∙ e))) in
      if_false _ _ _ (no announce_key 8 refl (λ e. omega arith))
      ∙ (if_false _ _ _ (no comment_key 7 refl (λ e. omega arith))
          ∙ (if_false _ _ _ (no piece_length_key 12 refl (λ e. omega arith))
              ∙ (if_false _ _ _ (no length_key 6 refl (λ e. omega arith))
                  ∙ if_false _ _ _ (no name_key 4 refl (λ e. omega arith)))))

  -- The entries as the loop meets them.
  load_fields_lem :
      (a b : ℕ)
      → load_fields (leaves (torrent_value xs ys m)) (blank a b)
        ≡ ends (record m { info_hash = []; piece_hashes = [] })
  unfolding leaves set_field bytes_eq
  load_fields_lem a b =
      let size =
        >>=-ends
          (λ n. ends (record {
            announce = m.announce;
            comment = m.comment;
            piece_hashes = [];
            piece_length = a;
            length = n;
            name = [];
            info_hash = [];
          }))
          (ap checked (stol-to_string m.length h.length_bound)) in
      let step =
        >>=-ends
          (λ n. ends (record {
            announce = m.announce;
            comment = m.comment;
            piece_hashes = [];
            piece_length = n;
            length = m.length;
            name = m.name;
            info_hash = [];
          }))
          (ap checked (stol-to_string m.piece_length h.piece_length_bound)) in
      ap (λ (l : List Bytes). load_fields l (blank a b)) (leaves_lem xs ys m ox oy h)
      ∙ (load_fields_field announce_key m.announce _ _ _ refl
          ∙ (load_fields-others (leaves_entries xs) comment_key (comment_leaves xs ys m ox oy h) _
                ox.others
              ∙ (load_fields_field comment_key m.comment _ _ _ refl
                  ∙ (load_fields-others (leaves_entries ys) info_key (info_leaves xs ys m ox oy h) _
                        oy.others
                      ∙ (load_fields_skip info_key length_key _ _ refl
                          ∙ (load_fields_field length_key (to_string m.length) _ _ _ (ap some size)
                              ∙ (load_fields_field name_key m.name _ _ _ refl
                                  ∙ (load_fields_field piece_length_key (to_string m.piece_length) _
                                        _ _ (ap some step)
                                      ∙ (load_fields_skip pieces_key (joined m.piece_hashes) [] _
                                            refl
                                          ∙ load_fields_last (joined m.piece_hashes) _
                                              (set_field-hashes [] _))))))))))

  differs : (x : Bytes) → x ≢ pieces_key → bytes_eq x pieces_key ≡ false
  differs x n = elim (Bool-cases (bytes_eq x pieces_key)) [
    | inl e ↦ absurd (n (bytes_eq_sound x pieces_key e))
    | inr e ↦ e
  ]

  pieces_data_lem :
      pieces_data (leaves (torrent_value xs ys m)) ≡ some (joined m.piece_hashes ++ [])
  unfolding pieces_data bytes_eq
  pieces_data_lem =
      ap pieces_data (leaves_lem xs ys m ox oy h)
      ∙ (pieces_data_skip m.announce (leaves_entries xs) comment_key
            (comment_leaves xs ys m ox oy h) (differs m.announce h.announce_fits)
          ∙ (pieces_data-others (leaves_entries xs) comment_key (comment_leaves xs ys m ox oy h)
                ox.others
              ∙ (pieces_data_skip m.comment (leaves_entries ys) info_key
                    (info_leaves xs ys m ox oy h) (differs m.comment h.comment_fits)
                  ∙ (pieces_data-others (leaves_entries ys) info_key (info_leaves xs ys m ox oy h)
                        oy.others
                      ∙ (if_false _ _ _ (to_string-differs m.length b'p' _ (omega arith))
                          ∙ (if_false _ _ _ (differs m.name h.name_fits)
                              ∙ (if_false _ _ _
                                    (to_string-differs m.piece_length b'p' _ (omega arith))
                                  ∙ ap some (sym (append-nil (joined m.piece_hashes))))))))))

  hash_after_lem :
      (sha1 : Bytes → Bytes)
      → hash_after sha1 [] (torrent_value xs ys m) ≡ sha1 (encode (info_value m))
  unfolding hash_after bytes_eq
  hash_after_lem sha1 =
      hash_after-before_entries sha1 xs _ [] none ox.others
      ∙ hash_after-before_entries sha1 ys _ [] none oy.others

  -- A torrent file for one file: announce, comment and info with length, name, piece length and
  -- pieces, in this order, and in front of comment and of info any entries in whose strings none of
  -- the words stands that the client looks for; with hashes of 20 bytes, texts and all hashes
  -- together below 2 ^ 31 bytes, numbers below 2 ^ 63, and announce, comment and name not the word
  -- pieces. It is loaded as what it says, with the SHA-1 of its info as the info hash, whatever
  -- follows it and whatever the members hold before. The fuel is twice the size of the file at
  -- least.
  pub load_torrent_file-torrent_value :
      (sha1 : Bytes → Bytes) (fuel a b : ℕ) (rest : Bytes)
      → 2 * length (encode (torrent_value xs ys m)) ≤ fuel
      → load_torrent_file sha1 fuel (blank a b) (encode (torrent_value xs ys m) ++ rest)
        ≡ ends (record m { info_hash = sha1 (encode (info_value m)) })
  unfolding load_torrent_file
  load_torrent_file-torrent_value sha1 fuel a b rest k =
      >>=-ends _ (
        parse_from_string-write sha1 (torrent_value xs ys m) rest fuel
          (torrent_value-IsValue xs ys m ox oy h) k)
      ∙ (>>=-ends _ (load_fields_lem a b)
          ∙ ap₂
              (λ (s : Bytes) (hs : List Bytes).
                ends (record m { info_hash = s; piece_hashes = hs }))
              (hash_after_lem sha1)
              (get_piece_hashes-joined _ m.piece_hashes [] pieces_data_lem h.hashes (omega arith)))
