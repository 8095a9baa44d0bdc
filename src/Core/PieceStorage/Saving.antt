-- ===== src/Core/PieceStorage/Saving.antt =====
-- `SavePieceToDisk` and `PieceProcessed`: what is recorded as saved is in the file, and checked.
use native.Mathlib.Nat.{mod-eq_of_lt}
use simple_torrent_client.Common.{List, append-nil, refl, sym, 
  ℕ, ◌+◌, ◌*◌, ◌^◌, ◌≤◌, ◌<◌, true, false, not, some, [], ◌∷◌, ◌++◌, ◌==◌, ◌≡◌, ◌≢◌, ◌⊎◌, inl, inr,
  ap, ◌∙◌, arith, length, get_or, contains, All-append, All-map_ne, dec_lt, if_true, if_false,
  IsDistinct-append, u64, Bool-cases, bytes_eq_sound, ℕ_discrete,
}
use simple_torrent_client.ByteTools.{Bytes}
use simple_torrent_client.Core.TorrentFile.{TorrentFile}
use simple_torrent_client.Core.Piece.{Piece, hash_matches, get_data}
use simple_torrent_client.Core.OutputFile.{OutputFile, write_at, seek_write}
use simple_torrent_client.Core.OutputFile.Sections.{
  section-write_at_self, section-write_at_before, section-write_at_after, length-write_at,
  le-length-write_at,
}
use simple_torrent_client.Core.PieceStorage.{PieceStorage, save_piece_to_disk, piece_processed, enqueue, is_piece_already_saved}
use simple_torrent_client.Core.PieceStorage.Invariant.{
  IsTorrent, total_of, length_of, length_of_bounds, IsPieceOf, StoredIn, IsValid, enqueue-IsValid,
}

-- Regions of different pieces do not meet.
regions_apart : (i j n pl : ℕ) → i < j → n ≤ pl → i * pl + n ≤ j * pl
regions_apart i j n pl h k = grind arith

offset_small : (i n pl : ℕ) → i < n → n * pl < 2 ^ 63 → i * pl < 2 ^ 64
offset_small i n pl h k = grind arith

hash_matches-sha1 :
    (sha1 : Bytes → Bytes) (p : Piece) → hash_matches sha1 p ≡ true → sha1 (get_data p) ≡ p.hash
unfolding hash_matches
hash_matches-sha1 sha1 p h = bytes_eq_sound (sha1 (get_data p)) p.hash (ground arith)

module _ (sha1 : Bytes → Bytes) (t : TorrentFile) (w : IsTorrent t) where
  -- A write of piece `i` keeps what is stored of another piece.
  StoredIn-write_other :
      (i j : ℕ) (bytes contents : Bytes)
      → length bytes ≡ length_of t i
      → j ≢ i
      → StoredIn sha1 t contents j
      → StoredIn sha1 t (write_at (i * t.piece_length) bytes contents) j
  StoredIn-write_other i j bytes contents e ne h = elim (dec_lt i j) [
    | yes lt ↦ (
      omega (arith, h.0, le-length-write_at (i * t.piece_length) bytes contents),
      rw
          (section-write_at_after (j * t.piece_length) (length_of t j) (i * t.piece_length) bytes
            contents
            (rw e (
              regions_apart i j (length_of t i) t.piece_length lt
                (length_of_bounds t i w.positive).1)))
          h.1,
    )
    | no ge ↦ (
      omega (arith, h.0, le-length-write_at (i * t.piece_length) bytes contents),
      rw
          (section-write_at_before (j * t.piece_length) (length_of t j) (i * t.piece_length) bytes
            contents
            (regions_apart j i (length_of t j) t.piece_length (omega arith)
              (length_of_bounds t j w.positive).1)
            h.0)
          h.1,
    )
  ]

  StoredIn-write_self :
      (i : ℕ) (bytes contents : Bytes)
      → length bytes ≡ length_of t i
      → sha1 bytes ≡ get_or t.piece_hashes i []
      → StoredIn sha1 t (write_at (i * t.piece_length) bytes contents) i
  StoredIn-write_self i bytes contents e h = (
    omega (
      arith,
      length-write_at (i * t.piece_length) bytes contents,
      length_of_bounds t i w.positive,
    ),
    rw (← e, section-write_at_self (i * t.piece_length) bytes contents) h,
  )

  module _ (s : PieceStorage) (v : IsValid sha1 t s) (p : Piece) (h : IsPieceOf t p) where
    abbrev saved_state : ℕ → PieceStorage
    saved_state offset = record s {
      file = record s.file { contents = write_at offset (get_data p) s.file.contents };
      indices_of_pieces_saved_to_disk = s.indices_of_pieces_saved_to_disk ++ p.index ∷ [];
    }

    saved_state-IsValid :
        contains p.index s.indices_of_pieces_saved_to_disk ≡ false
        → length (get_data p) ≡ p.length
        → sha1 (get_data p) ≡ p.hash
        → IsValid sha1 t (saved_state (p.index * t.piece_length))
    saved_state-IsValid new len hash = record {
      torrent = v.torrent;
      total = v.total;
      piece_size = v.piece_size;
      queued = v.queued;
      known =
          All-append (λ i. i < total_of t) s.indices_of_pieces_saved_to_disk (p.index ∷ []) v.known
            (h.known, tt);
      distinct = IsDistinct-append s.indices_of_pieces_saved_to_disk p.index v.distinct new;
      opened = v.opened;
      stored =
          All-append
            (StoredIn sha1 t (write_at (p.index * t.piece_length) (get_data p) s.file.contents))
            s.indices_of_pieces_saved_to_disk (p.index ∷ [])
            (All-map_ne p.index
              (λ (j : ℕ) (ne : j ≢ p.index) (x : StoredIn sha1 t s.file.contents j).
                StoredIn-write_other p.index j (get_data p) s.file.contents (len ∙ h.sized) ne x)
              s.indices_of_pieces_saved_to_disk new v.stored)
            (
              StoredIn-write_self p.index (get_data p) s.file.contents (len ∙ h.sized)
                  (hash ∙ h.hashed),
              tt,
            );
    }

    save_new :
        contains p.index s.indices_of_pieces_saved_to_disk ≡ false
        → length (get_data p) ≡ p.length
        → save_piece_to_disk s (some p) ≡ saved_state (p.index * t.piece_length)
    unfolding save_piece_to_disk seek_write
    save_new new len =
        let size : not (length (get_data p) == p.length) ≡ false = ground (arith, len) in
        let offset : u64 (p.index * s.default_piece_length) ≡ p.index * t.piece_length =
          ap (λ (k : ℕ). u64 (p.index * k)) v.piece_size
          ∙ mod-eq_of_lt (offset_small p.index (total_of t) t.piece_length h.known w.small) in
        if_false _ _ _ new
        ∙ if_false _ _ _ size
        ∙ ap
            (λ (f : OutputFile). record s {
              file = f;
              indices_of_pieces_saved_to_disk = s.indices_of_pieces_saved_to_disk ++ p.index ∷ [];
            })
            (if_true _ _ _ v.opened
              ∙ ap (λ (k : ℕ). record s.file { contents = write_at k (get_data p) s.file.contents })
                  offset)

  -- A save either changes nothing, or the piece is new and its data have the right length.
  save_piece_to_disk-cases :
      (s : PieceStorage) (p : Piece)
      → (save_piece_to_disk s (some p) ≡ s)
        ⊎ ((contains p.index s.indices_of_pieces_saved_to_disk ≡ false)
            × (length (get_data p) ≡ p.length))
  unfolding save_piece_to_disk
  save_piece_to_disk-cases s p =
      elim (Bool-cases (contains p.index s.indices_of_pieces_saved_to_disk)) [
        | inl old ↦ inl (if_true _ _ _ old)
        | inr new ↦ elim (ℕ_discrete (length (get_data p)) p.length) [
          | yes len ↦ inr (new, len)
          | no len ↦ inl (
              if_false _ _ _ new
              ∙ if_true (not (length (get_data p) == p.length)) _ _ (ground arith))
        ]
      ]

  -- A save of a checked piece.
  pub save_piece_to_disk-IsValid :
      (s : PieceStorage) (p : Piece)
      → IsValid sha1 t s
      → IsPieceOf t p
      → hash_matches sha1 p ≡ true
      → IsValid sha1 t (save_piece_to_disk s (some p))
  save_piece_to_disk-IsValid s p v h m = elim (save_piece_to_disk-cases s p) [
    | inl e ↦ rw e v
    | inr (new, len) ↦
        rw (save_new s v p h new len)
          (saved_state-IsValid s v p h new len (hash_matches-sha1 sha1 p m))
  ]

  -- Nothing that was recorded as saved is forgotten.
  abbrev Keeps : PieceStorage → PieceStorage → Type 0
  Keeps s s' =
      (more : List ℕ)
      × (s'.indices_of_pieces_saved_to_disk ≡ s.indices_of_pieces_saved_to_disk ++ more)

  enqueue-Keeps : (s : PieceStorage) (p : Piece) → Keeps s (enqueue s (some p))
  unfolding enqueue
  enqueue-Keeps s p = elim (Bool-cases (is_piece_already_saved s p.index)) [
    | inl e ↦ rw e ([], sym (append-nil s.indices_of_pieces_saved_to_disk))
    | inr e ↦ rw e ([], sym (append-nil s.indices_of_pieces_saved_to_disk))
  ]

  save_piece_to_disk-Keeps :
      (s : PieceStorage) (p : Piece)
      → IsValid sha1 t s
      → IsPieceOf t p
      → Keeps s (save_piece_to_disk s (some p))
  save_piece_to_disk-Keeps s p v h = elim (save_piece_to_disk-cases s p) [
    | inl e ↦ rw e ([], sym (append-nil s.indices_of_pieces_saved_to_disk))
    | inr (new, len) ↦ rw (save_new s v p h new len) (p.index ∷ [], refl)
  ]

  -- For a torrent whose pieces have at least one byte and whose number of pieces times piece length
  -- is below 2 ^ 63:
  pub piece_processed-IsValid :
      (s : PieceStorage) (p : Piece)
      → IsValid sha1 t s
      → IsPieceOf t p
      → IsValid sha1 t (piece_processed sha1 s (some p))
        × ((more : List ℕ)
            × ((piece_processed sha1 s (some p)).indices_of_pieces_saved_to_disk
              ≡ s.indices_of_pieces_saved_to_disk ++ more))
  unfolding piece_processed
  piece_processed-IsValid s p v h = elim (Bool-cases (hash_matches sha1 p)) [
    | inl m ↦ rw m (save_piece_to_disk-IsValid s p v h m, save_piece_to_disk-Keeps s p v h)
    | inr m ↦ rw m (enqueue-IsValid sha1 t s v p h, enqueue-Keeps s p)
  ]
