-- ===== src/Core/PieceStorage.antt =====
-- include/core/PieceStorage.hpp and src/core/PieceStorage.cpp: the queue of pieces that are to be
-- downloaded, and the output file. A `PiecePtr` that may be null is an `Option`. A piece has one
-- owner at a time, the queue or the connection that took it out, so that it is passed by value; a
-- method that changes the piece in place before it is pushed pushes the changed value. Each method
-- takes its mutexes for its whole run (`Enqueue` one after the other), and is one step here.
pub mod Invariant
pub mod Saving
pub mod Integrity
pub mod Missing
pub mod Growing
pub mod Queued
use simple_torrent_client.Common.{
  ℕ, zero, suc, ◌+◌, ◌-◌, ◌*◌, ◌%◌, ◌^◌, min, Bool, true, false, not, Option, none, some, List, [],
  ◌∷◌, ◌++◌, ltb, leb, ◌==◌, if◌then◌else◌, length, get_or, set, replicate, contains, u64, Result,
  ok, err, ◌>>=◌, output_file_not_open, division_by_zero, ◌&&◌,
}
use simple_torrent_client.ByteTools.{Bytes}
use simple_torrent_client.Core.TorrentFile.{TorrentFile}
use simple_torrent_client.Core.Piece.{Piece, make, hash_matches, get_data, reset}
use simple_torrent_client.Core.OutputFile.{OutputFile, seek_write, close}

pub record PieceStorage : Type 0 where
  pub remaining_pieces_queue : List Piece
  pub file : OutputFile
  pub indices_of_pieces_saved_to_disk : List ℕ
  pub default_piece_length : ℕ
  pub total_piece_count : ℕ
  pub torrent_file : TorrentFile

-- `a ?: b`
abbrev or_if_zero : ℕ → ℕ → ℕ
or_if_zero a b = if a == 0 then b else a

-- The length of piece `i` of `total`: the last one has what is left. (`total` is not 0 here, and the
-- piece length is not 0 where this is evaluated: see `init`.)
unfoldable pub piece_length_at : TorrentFile → ℕ → ℕ → ℕ
piece_length_at t total i =
    if i == total - 1 then or_if_zero (t.length % t.piece_length) t.piece_length else t.piece_length

-- `std::make_shared<Piece>(i, pieceLength, torrent_file.piece_hashes[i])`
unfoldable pub new_piece : TorrentFile → ℕ → ℕ → Piece
new_piece t total i = make i (piece_length_at t total i) (get_or t.piece_hashes i [])

-- The loop of the constructor from `i` on, with `n` rounds left.
unfoldable pub new_pieces : TorrentFile → ℕ → ℕ → ℕ → List Piece
new_pieces t total zero i = []
new_pieces t total (suc n) i = new_piece t total i ∷ new_pieces t total n (i + 1)

-- The loop of `InitializeOutputFile`, which writes zeros in chunks. Each round adds `chunk_size`,
-- at least 1, to `offset`, so `size` rounds are enough, as long as the sum stays below 2 ^ 64.
pub fill_zeros : ℕ → ℕ → ℕ → ℕ → OutputFile → OutputFile
fill_zeros zero chunk_size size offset file = file
fill_zeros (suc fuel) chunk_size size offset file =
    let write_size = min chunk_size (size - offset) in
    let rest =
      fill_zeros fuel chunk_size size (u64 (offset + chunk_size))
        (seek_write file offset (replicate write_size 0)) in
    if ltb offset size then rest else file

abbrev pub chunk_size : ℕ
chunk_size = 100 * 2 ^ 20

-- `opens` says whether `file.open(..., std::ios::trunc)` succeeds.
unfoldable pub initialize_output_file : Bool → TorrentFile → Result OutputFile
unfolding fill_zeros
initialize_output_file opens t =
    if not opens
    then err output_file_not_open
    else ok (fill_zeros t.length chunk_size t.length 0 (record { is_open = true; contents = [] }))

unfoldable pub construct : Bool → TorrentFile → ℕ → Result PieceStorage
unfolding new_pieces
construct opens t total = do
  file ← initialize_output_file opens t
  ok (record {
    remaining_pieces_queue = new_pieces t total total 0;
    file = file;
    indices_of_pieces_saved_to_disk = [];
    default_piece_length = t.piece_length;
    total_piece_count = total;
    torrent_file = t;
  })

-- The loop over the pieces computes `length % piece_length` for the last piece, if there is one,
-- before the output file is opened: with a piece length of 0 that divides by zero. Where a storage
-- exists, its pieces have a length or it has none, so that the forced requeue, which computes the
-- same for missing pieces only, never divides by zero.
unfoldable pub init : Bool → TorrentFile → Result PieceStorage
unfolding construct
init opens t =
    let total = length t.piece_hashes in
    if t.piece_length == 0 && not (total == 0)
    then err division_by_zero
    else construct opens t total

pub take_front : PieceStorage → List Piece → PieceStorage × Option Piece
take_front s [] = (s, none)
take_front s (p ∷ rest) = (record s { remaining_pieces_queue = rest }, some p)

unfoldable pub get_next_piece_to_download : PieceStorage → PieceStorage × Option Piece
unfolding take_front
get_next_piece_to_download s = take_front s s.remaining_pieces_queue

unfoldable pub is_piece_already_saved : PieceStorage → ℕ → Bool
unfolding contains
is_piece_already_saved s piece_index = contains piece_index s.indices_of_pieces_saved_to_disk

unfoldable pub enqueue : PieceStorage → Option Piece → PieceStorage
unfolding is_piece_already_saved
enqueue s none = s
enqueue s (some piece) =
    if is_piece_already_saved s piece.index
    then s
    else record s { remaining_pieces_queue = s.remaining_pieces_queue ++ reset piece ∷ [] }

unfoldable pub save_piece_to_disk : PieceStorage → Option Piece → PieceStorage
unfolding contains
save_piece_to_disk s none = s
save_piece_to_disk s (some piece) =
    let file_offset = u64 (piece.index * s.default_piece_length) in
    let piece_data = get_data piece in
    if contains piece.index s.indices_of_pieces_saved_to_disk
    then s
    else if not (length piece_data == piece.length)
    then s
    else record s {
      file = seek_write s.file file_offset piece_data;
      indices_of_pieces_saved_to_disk = s.indices_of_pieces_saved_to_disk ++ piece.index ∷ [];
    }

unfoldable pub piece_processed : (Bytes → Bytes) → PieceStorage → Option Piece → PieceStorage
unfolding enqueue save_piece_to_disk
piece_processed sha1 s none = s
piece_processed sha1 s (some piece) =
    if not (hash_matches sha1 piece)
    then enqueue s (some piece)
    else save_piece_to_disk s (some piece)

pub is_nil : List Piece → Bool
is_nil [] = true
is_nil (p ∷ ps) = false

unfoldable pub queue_is_empty : PieceStorage → Bool
unfolding is_nil
queue_is_empty s = is_nil s.remaining_pieces_queue

unfoldable pub has_active_work : PieceStorage → Bool
unfolding queue_is_empty
has_active_work s = not (queue_is_empty s)

unfoldable pub pieces_saved_to_disc_count : PieceStorage → ℕ
pieces_saved_to_disc_count s = length s.indices_of_pieces_saved_to_disk

unfoldable pub is_download_complete : PieceStorage → Bool
is_download_complete s = length s.indices_of_pieces_saved_to_disk == s.total_piece_count

-- The first loop of `GetMissingPieces`, over the saved indices that are left.
pub mark_saved : ℕ → List ℕ → List Bool → List Bool
mark_saved total [] piece_status = piece_status
mark_saved total (i ∷ rest) piece_status =
    mark_saved total rest (if ltb i total then set piece_status i true else piece_status)

-- The second loop, from index `i` on.
pub unmarked : ℕ → List Bool → List ℕ
unmarked i [] = []
unmarked i (done ∷ rest) = if not done then i ∷ unmarked (i + 1) rest else unmarked (i + 1) rest

unfoldable pub get_missing_pieces : PieceStorage → List ℕ
unfolding mark_saved unmarked
get_missing_pieces s = unmarked 0 (
    mark_saved s.total_piece_count s.indices_of_pieces_saved_to_disk
      (replicate s.total_piece_count false))

unfoldable pub get_missing_pieces_count : PieceStorage → ℕ
unfolding get_missing_pieces
get_missing_pieces_count s = length (get_missing_pieces s)

pub requeue : TorrentFile → ℕ → List ℕ → List Piece
requeue t total [] = []
requeue t total (i ∷ rest) = new_piece t total i ∷ requeue t total rest

unfoldable pub force_requeue_missing_pieces : PieceStorage → PieceStorage
unfolding requeue
force_requeue_missing_pieces s = record s {
  remaining_pieces_queue = requeue s.torrent_file s.total_piece_count (get_missing_pieces s);
}

unfoldable pub close_output_file : PieceStorage → PieceStorage
close_output_file s = if s.file.is_open then record s { file = close s.file } else s
