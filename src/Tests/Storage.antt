-- ===== src/Tests/Storage.antt =====
-- The storage of a torrent of three pieces.
use simple_torrent_client.Common.{ℕ, List, ◌++◌, division_by_zero, 
  true, false, ◌&&◌, not, ltb, [], ◌∷◌, ◌≡◌, refl, arith, contains, some, ok, err,
  output_file_not_open,
}
use simple_torrent_client.Core.Piece.{Piece}
use simple_torrent_client.Core.PieceStorage.{
  PieceStorage, init, new_piece, piece_length_at, is_download_complete, get_missing_pieces,
  piece_processed,
}
use simple_torrent_client.Core.PieceStorage.Invariant.{new_piece-IsPieceOf, IsValid}
use simple_torrent_client.Core.PieceStorage.Queued.{Covers, WaitsForAll, init-WaitsForAll}
use simple_torrent_client.Core.PieceStorage.Saving.{piece_processed-IsValid}
use simple_torrent_client.Core.PieceStorage.Missing.{contains-get_missing_pieces}
use simple_torrent_client.Core.PieceStorage.Integrity.{initial, initial-IsValid}
use simple_torrent_client.Tests.Torrents.{plain, three, three-IsTorrent}

abbrev start : PieceStorage
start = initial three

start-IsValid : IsValid plain three start
start-IsValid = initial-IsValid plain three

abbrev last : Piece
last = new_piece three 3 2

three-Covers : Covers three
three-Covers = record { all = omega arith; no_more = omega arith }

init-WaitsForAll_example :
    ((s : PieceStorage) × (init true three ≡ ok s) × WaitsForAll three s)
    × (init false three ≡ err output_file_not_open)
init-WaitsForAll_example = init-WaitsForAll three (omega arith) (omega arith) three-Covers

-- With a piece length of 0 the constructor divides by zero.
no_length : init true (record three { piece_length = 0 }) ≡ err division_by_zero
unfolding init
no_length = refl

-- A storage that has one piece on disk, and another piece that has come in full.
abbrev begun : PieceStorage
begun = record start {
  file = record { is_open = true; contents = 1 ∷ 2 ∷ 0 ∷ 0 ∷ 0 ∷ [] };
  indices_of_pieces_saved_to_disk = 0 ∷ [];
}

begun-IsValid : IsValid plain three begun
unfolding contains piece_length_at
begun-IsValid = record {
  torrent = refl;
  total = refl;
  piece_size = refl;
  queued = start-IsValid.queued;
  known = omega arith;
  distinct = (refl, tt);
  opened = refl;
  stored = ((omega arith, refl), tt);
}

piece_processed-IsValid_example :
    IsValid plain three (piece_processed plain begun (some last))
    × ((more : List ℕ)
        × ((piece_processed plain begun (some last)).indices_of_pieces_saved_to_disk
          ≡ (0 ∷ []) ++ more))
piece_processed-IsValid_example =
    piece_processed-IsValid plain three three-IsTorrent begun last begun-IsValid
      (new_piece-IsPieceOf three 2 (omega arith))

contains-get_missing_pieces_example :
    contains 1 (get_missing_pieces start) ≡ (ltb 1 3 && not (contains 1 []))
contains-get_missing_pieces_example = contains-get_missing_pieces start 1

-- A storage whose pieces have all been saved.
abbrev full : PieceStorage
full = record start {
  remaining_pieces_queue = [];
  file = record { is_open = true; contents = 1 ∷ 2 ∷ 3 ∷ 4 ∷ 5 ∷ [] };
  indices_of_pieces_saved_to_disk = 2 ∷ 0 ∷ 1 ∷ [];
}

full-IsValid : IsValid plain three full
unfolding contains piece_length_at
full-IsValid = record {
  torrent = refl;
  total = refl;
  piece_size = refl;
  queued = tt;
  known = omega arith;
  distinct = (refl, (refl, (refl, tt)));
  opened = refl;
  stored = ((omega arith, refl), ((omega arith, refl), ((omega arith, refl), tt)));
}

full_complete : is_download_complete full ≡ true
unfolding is_download_complete
full_complete = refl
