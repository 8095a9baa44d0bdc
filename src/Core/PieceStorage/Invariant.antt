-- ===== src/Core/PieceStorage/Invariant.antt =====
-- What holds of the storage of a torrent, whatever calls are made: the queue holds pieces of the
-- torrent, and each index recorded as saved stands for checked data in the file.
use native.Mathlib.Nat.{mod-lt}
use mathlib.Core.Option.{some-injective}
use simple_torrent_client.Common.{
  ℕ, ◌+◌, ◌*◌, ◌^◌, ◌≤◌, ◌<◌, true, some, List, [], ◌∷◌, ◌++◌, ◌≡◌, inl, inr, refl, sym, subst,
  arith, length, get_or, All, All-append, IsDistinct, Bool-cases,
}
use simple_torrent_client.ByteTools.{Bytes}
use simple_torrent_client.Core.TorrentFile.{TorrentFile}
use simple_torrent_client.Core.Piece.{Piece, get_first_missing_block, make, reset}
use simple_torrent_client.Core.Piece.Invariant.{
  get_first_missing_block-IsValid, make-IsValid, reset-eq-make,
}
use simple_torrent_client.Core.Piece.Invariant
use simple_torrent_client.Core.OutputFile.Sections.{section}
use simple_torrent_client.Core.PieceStorage.{
  PieceStorage, piece_length_at, new_piece, get_next_piece_to_download, is_piece_already_saved,
  take_front, enqueue,
}

-- What the storage relies on of a torrent file: pieces are not empty, and file offsets are small
-- enough for a signed 64-bit offset.
pub record IsTorrent (t : TorrentFile) : Type 0 where
  pub positive : 0 < t.piece_length
  pub small : length t.piece_hashes * t.piece_length < 2 ^ 63

abbrev pub total_of : TorrentFile → ℕ
total_of t = length t.piece_hashes

-- The length of piece `i` of the torrent.
abbrev pub length_of : TorrentFile → ℕ → ℕ
length_of t i = piece_length_at t (total_of t) i

pub length_of_bounds :
    (t : TorrentFile) (i : ℕ)
    → 0 < t.piece_length
    → (0 < length_of t i) × (length_of t i ≤ t.piece_length)
unfolding piece_length_at
length_of_bounds t i h = ground (arith, mod-lt t.length h)

pub record IsPieceOf (t : TorrentFile) (p : Piece) : Type 0 where
  pub known : p.index < total_of t
  pub sized : p.length ≡ length_of t p.index
  pub hashed : p.hash ≡ get_or t.piece_hashes p.index []
  pub valid : Invariant.IsValid p

module _ (sha1 : Bytes → Bytes) (t : TorrentFile) where
  -- The file holds all of piece `i`, with the SHA-1 that the torrent states.
  abbrev pub StoredIn : Bytes → ℕ → Type 0
  StoredIn contents i =
      (i * t.piece_length + length_of t i ≤ length contents)
      × (sha1 (section (i * t.piece_length) (length_of t i) contents) ≡ get_or t.piece_hashes i [])

  pub record IsValid (s : PieceStorage) : Type 0 where
    pub torrent : s.torrent_file ≡ t
    pub total : s.total_piece_count ≡ total_of t
    pub piece_size : s.default_piece_length ≡ t.piece_length
    pub queued : All (IsPieceOf t) s.remaining_pieces_queue
    pub known : All (λ i. i < total_of t) s.indices_of_pieces_saved_to_disk
    pub distinct : IsDistinct s.indices_of_pieces_saved_to_disk
    pub opened : s.file.is_open ≡ true
    pub stored : All (StoredIn s.file.contents) s.indices_of_pieces_saved_to_disk

pub reset-IsPieceOf : (t : TorrentFile) (p : Piece) → IsPieceOf t p → IsPieceOf t (reset p)
unfolding reset
reset-IsPieceOf t p v = record {
  known = v.known;
  sized = v.sized;
  hashed = v.hashed;
  valid =
      subst Invariant.IsValid (sym (reset-eq-make p v.valid))
        (make-IsValid p.index p.length p.hash);
}

pub get_first_missing_block-IsPieceOf :
    (t : TorrentFile) (p : Piece) → IsPieceOf t p → IsPieceOf t (get_first_missing_block p).0
unfolding get_first_missing_block
get_first_missing_block-IsPieceOf t p h = record {
  known = h.known;
  sized = h.sized;
  hashed = h.hashed;
  valid = get_first_missing_block-IsValid p h.valid;
}

pub new_piece-IsPieceOf :
    (t : TorrentFile) (i : ℕ) → i < total_of t → IsPieceOf t (new_piece t (total_of t) i)
unfolding new_piece make
new_piece-IsPieceOf t i h = record {
  known = h;
  sized = refl;
  hashed = refl;
  valid = make-IsValid i (length_of t i) (get_or t.piece_hashes i []);
}

module _ (sha1 : Bytes → Bytes) (t : TorrentFile) (s : PieceStorage) (v : IsValid sha1 t s) where
  -- A change of the queue alone.
  pub with_queue :
      (q : List Piece)
      → All (IsPieceOf t) q
      → IsValid sha1 t (record s { remaining_pieces_queue = q })
  with_queue q h = record {
    torrent = v.torrent;
    total = v.total;
    piece_size = v.piece_size;
    queued = h;
    known = v.known;
    distinct = v.distinct;
    opened = v.opened;
    stored = v.stored;
  }

  -- `Enqueue` of a piece of the torrent.
  pub enqueue-IsValid : (p : Piece) → IsPieceOf t p → IsValid sha1 t (enqueue s (some p))
  unfolding enqueue
  enqueue-IsValid p h = elim (Bool-cases (is_piece_already_saved s p.index)) [
    | inl e ↦ rw e v
    | inr e ↦ rw e (
        with_queue (s.remaining_pieces_queue ++ reset p ∷ []) (
          All-append (IsPieceOf t) s.remaining_pieces_queue (reset p ∷ []) v.queued
            (reset-IsPieceOf t p h, tt)))
  ]

  take_front-IsValid :
      (q : List Piece)
      → All (IsPieceOf t) q
      → IsValid sha1 t (take_front s q).0
        × ((p : Piece) → (take_front s q).1 ≡ some p → IsPieceOf t p)
  unfolding take_front
  take_front-IsValid [] h = (v, λ p e. cc)
  take_front-IsValid (p ∷ rest) h =
      (with_queue rest h.1, λ p' e. subst (IsPieceOf t) (some-injective p p' e) h.0)

  -- `GetNextPieceToDownload` hands out a piece of the torrent.
  pub get_next_piece_to_download-IsValid :
      IsValid sha1 t (get_next_piece_to_download s).0
      × ((p : Piece) → (get_next_piece_to_download s).1 ≡ some p → IsPieceOf t p)
  unfolding get_next_piece_to_download
  get_next_piece_to_download-IsValid = take_front-IsValid s.remaining_pieces_queue v.queued
