-- ===== src/Net/PeerConnect/Search.antt =====
-- `PeerConnect::GetNextAvailablePiece`: the search of the queue for a piece that the peer has. The
-- source's loop has no bound of its own and does not sleep; here it runs for a number of rounds, and
-- `searching` says that it has not ended by then.
pub mod Finds
use simple_torrent_client.Common.{
  ℕ, zero, suc, ◌+◌, ◌≤◌, ◌<◌, Bool, true, false, not, ◌&&◌, ◌||◌, Option, none, some, List, [],
  ◌∷◌, ◌++◌, append_assoc, append-nil, leb, ◌≡◌, ◌⊎◌, inl, inr, refl, sym, ap, subst, ◌∙◌, arith,
  if◌then◌else◌, length, Bool-cases, Option-cases, if_true, if_false,
}
use simple_torrent_client.ByteTools.{Bytes}
use simple_torrent_client.Core.TorrentFile.{TorrentFile}
use simple_torrent_client.Core.Piece.{Piece, reset}
use simple_torrent_client.Core.PieceStorage.{
  PieceStorage, enqueue, take_front, get_missing_pieces, get_next_piece_to_download,
  is_download_complete, is_piece_already_saved,
}
use simple_torrent_client.Core.PieceStorage.Invariant.{
  IsPieceOf, enqueue-IsValid, get_next_piece_to_download-IsValid,
}
use simple_torrent_client.Core.PieceStorage.Invariant
use simple_torrent_client.Net.PiecesAvailability.{PeerPiecesAvailability, is_piece_available}
use simple_torrent_client.Net.PeerConnect.{PeerConnect, Session}

pub data Search : Type 0 where
  found : Piece → Search
  nothing : Search
  searching : Search

-- The piece is one that the peer has, or at most ten pieces are missing.
unfoldable pub is_wanted : PeerPiecesAvailability → PieceStorage → Piece → Bool
is_wanted a storage p = is_piece_available a p.index || leb (length (get_missing_pieces storage)) 10

-- The body of the loop behind `GetNextPieceToDownload`.
pub judge : PeerPiecesAvailability → PieceStorage → Option Piece → PieceStorage × Search
judge a storage none = (storage, if is_download_complete storage then nothing else searching)
judge a storage (some p) =
    if is_wanted a storage p then (storage, found p) else (enqueue storage (some p), searching)

unfoldable pub search_round : PeerConnect → PieceStorage → PieceStorage × Search
unfolding judge
search_round c storage =
    let (storage', taken) = get_next_piece_to_download storage in
    if c.is_terminated then (storage, nothing) else judge c.pieces_availability storage' taken

pub search_from :
    (PieceStorage → PieceStorage × Search) → PieceStorage → Search → PieceStorage × Search
search_from again storage searching = again storage
search_from again storage done = (storage, done)

unfoldable pub get_next_available_piece : ℕ → PeerConnect → PieceStorage → PieceStorage × Search
unfolding search_round search_from
get_next_available_piece zero c storage = (storage, searching)
get_next_available_piece (suc rounds) c storage =
    search_from (get_next_available_piece rounds c) (search_round c storage).0
      (search_round c storage).1

-- What a search gives is a piece of the torrent.
abbrev pub FindsPieceOf : TorrentFile → Search → Type 0
FindsPieceOf t (found p) = IsPieceOf t p
FindsPieceOf t nothing = Unit {0}
FindsPieceOf t searching = Unit {0}

module _ (sha1 : Bytes → Bytes) (t : TorrentFile) where
  judge-IsValid :
      (a : PeerPiecesAvailability) (storage : PieceStorage) (o : Option Piece)
      → Invariant.IsValid sha1 t storage
      → ((p : Piece) → o ≡ some p → IsPieceOf t p)
      → Invariant.IsValid sha1 t (judge a storage o).0 × FindsPieceOf t (judge a storage o).1
  unfolding judge
  judge-IsValid a storage none v h = elim (Bool-cases (is_download_complete storage)) [
    | inl e ↦ rw e (v, tt)
    | inr e ↦ rw e (v, tt)
  ]
  judge-IsValid a storage (some p) v h = elim (Bool-cases (is_wanted a storage p)) [
    | inl e ↦ rw e (v, h p refl)
    | inr e ↦ rw e (enqueue-IsValid sha1 t storage v p (h p refl), tt)
  ]

  -- A round of the search leaves the storage valid.
  pub search_round-IsValid :
      (c : PeerConnect) (storage : PieceStorage)
      → Invariant.IsValid sha1 t storage
      → Invariant.IsValid sha1 t (search_round c storage).0
        × FindsPieceOf t (search_round c storage).1
  unfolding search_round
  search_round-IsValid c storage v = elim (Bool-cases c.is_terminated) [
    | inl e ↦ rw e (v, tt)
    | inr e ↦
        let h = get_next_piece_to_download-IsValid sha1 t storage v in
        rw e (judge-IsValid c.pieces_availability _ _ h.0 h.1)
  ]

  search_from-IsValid :
      (again : PieceStorage → PieceStorage × Search)
      → ((storage : PieceStorage)
          → Invariant.IsValid sha1 t storage
          → Invariant.IsValid sha1 t (again storage).0 × FindsPieceOf t (again storage).1)
      → (storage : PieceStorage) (r : Search) → Invariant.IsValid sha1 t storage × FindsPieceOf t r
      → Invariant.IsValid sha1 t (search_from again storage r).0
        × FindsPieceOf t (search_from again storage r).1
  unfolding search_from
  search_from-IsValid again h storage searching v = h storage v.0
  search_from-IsValid again h storage (found p) v = v
  search_from-IsValid again h storage nothing v = v

  pub get_next_available_piece-IsValid :
      (rounds : ℕ) (c : PeerConnect) (storage : PieceStorage)
      → Invariant.IsValid sha1 t storage
      → Invariant.IsValid sha1 t (get_next_available_piece rounds c storage).0
        × FindsPieceOf t (get_next_available_piece rounds c storage).1
  unfolding get_next_available_piece
  get_next_available_piece-IsValid zero c storage v = (v, tt)
  get_next_available_piece-IsValid (suc rounds) c storage v =
      search_from-IsValid (get_next_available_piece rounds c)
        (get_next_available_piece-IsValid rounds c) (search_round c storage).0
        (search_round c storage).1 (search_round-IsValid c storage v)
