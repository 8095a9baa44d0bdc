-- ===== src/Core/PieceStorage/Integrity.antt =====
-- The construction of the storage, the forced requeue, and what a complete download means.
use native.Mathlib.Nat.{mod-eq_of_lt}
use simple_torrent_client.Common.{
  ℕ, zero, suc, ◌+◌, ◌-◌, ◌≤◌, ◌<◌, min, Bool, true, false, List, [], ◌∷◌, ltb, ◌≡◌, refl, ap, ◌∙◌,
  arith, length, replicate, length-replicate, All, All-contains, dec_lt, if_true, if_false, ok, u64,
  ap₂, ◌^◌, ◌==◌, not, ◌&&◌,
}
use simple_torrent_client.ByteTools.{Bytes}
use simple_torrent_client.Core.TorrentFile.{TorrentFile}
use simple_torrent_client.Core.OutputFile.{OutputFile, seek_write, close}
use simple_torrent_client.Core.OutputFile.Sections.{write_at-replicate}
use simple_torrent_client.Core.PieceStorage.{
  PieceStorage, new_pieces, fill_zeros, chunk_size, initialize_output_file, construct, init,
  is_download_complete, mark_saved, unmarked, get_missing_pieces, requeue,
  force_requeue_missing_pieces, close_output_file,
}
use simple_torrent_client.Core.PieceStorage.Invariant.{
  total_of, IsPieceOf, StoredIn, IsValid, new_piece-IsPieceOf, with_queue,
}
use simple_torrent_client.Core.PieceStorage.Missing.{
  length-mark_saved, is_download_complete-contains,
}

abbrev zeros : ℕ → OutputFile
zeros n = record { is_open = true; contents = replicate n 0 }

zeros-eq : (m n : ℕ) → m ≡ n → zeros m ≡ zeros n
zeros-eq m n e = ap zeros e

seek_write-zeros : (o n k : ℕ) → o + n ≡ k → seek_write (zeros o) o (replicate n 0) ≡ zeros k
unfolding seek_write
seek_write-zeros o n k e =
    ap (λ (c : Bytes). let f : OutputFile = record { is_open = true; contents = c } in f)
      (write_at-replicate o n k e)

-- The file is filled up to the end, whatever the size of the chunks.
fill_zeros-eq :
    (fuel chunk size offset done : ℕ)
    → 0 < chunk
    → size + chunk ≤ 2 ^ 64
    → size ≤ offset + fuel
    → done ≡ min offset size
    → fill_zeros fuel chunk size offset (zeros done) ≡ zeros size
unfolding fill_zeros
fill_zeros-eq zero chunk size offset done h b k e = zeros-eq done size (omega arith)
fill_zeros-eq (suc fuel) chunk size offset done h b k e = elim (dec_lt offset size) [
  | yes lt ↦
      let here : offset ≡ done = omega arith in
      let n = min chunk (size - offset) in
      let no_wrap : u64 (offset + chunk) ≡ offset + chunk = mod-eq_of_lt (omega arith) in
      if_true (ltb offset size) _ _ (ground arith)
      ∙ ap₂ (fill_zeros fuel chunk size) no_wrap (
          ap (λ (o : ℕ). seek_write (zeros done) o (replicate n 0)) here
          ∙ seek_write-zeros done n (done + n) refl)
      ∙ fill_zeros-eq fuel chunk size (offset + chunk) (done + n) h b (omega arith) (omega arith)
  | no ge ↦ if_false (ltb offset size) _ _ (ground arith) ∙ zeros-eq done size (omega arith)
]

new_pieces-IsPieceOf :
    (t : TorrentFile) (n i : ℕ)
    → i + n ≤ total_of t
    → All (IsPieceOf t) (new_pieces t (total_of t) n i)
unfolding new_pieces
new_pieces-IsPieceOf t zero i h = tt
new_pieces-IsPieceOf t (suc n) i h =
    (new_piece-IsPieceOf t i (omega arith), new_pieces-IsPieceOf t n (i + 1) (omega arith))

-- The storage as it is constructed: every piece queued, the file full of zeros.
abbrev pub initial : TorrentFile → PieceStorage
initial t = record {
  remaining_pieces_queue = new_pieces t (total_of t) (total_of t) 0;
  file = record { is_open = true; contents = replicate t.length 0 };
  indices_of_pieces_saved_to_disk = [];
  default_piece_length = t.piece_length;
  total_piece_count = total_of t;
  torrent_file = t;
}

-- The constructor of a torrent of less than 2 ^ 63 bytes whose pieces have a length, where the file
-- can be opened.
pub init_lem :
    (t : TorrentFile) → 0 < t.piece_length → t.length < 2 ^ 63 → init true t ≡ ok (initial t)
unfolding init construct initialize_output_file
init_lem t h b =
    if_false (t.piece_length == 0 && not (length t.piece_hashes == 0)) _ _ (ground arith)
    ∙ rw
        (fill_zeros-eq t.length chunk_size t.length 0 0 (omega arith) (omega arith) (omega arith)
          (omega arith))
        refl

pub initial-IsValid : (sha1 : Bytes → Bytes) (t : TorrentFile) → IsValid sha1 t (initial t)
initial-IsValid sha1 t = record {
  torrent = refl;
  total = refl;
  piece_size = refl;
  queued = new_pieces-IsPieceOf t (total_of t) 0 (omega arith);
  known = tt;
  distinct = tt;
  opened = refl;
  stored = tt;
}

requeue-IsPieceOf :
    (t : TorrentFile) (is : List ℕ)
    → All (λ i. i < total_of t) is
    → All (IsPieceOf t) (requeue t (total_of t) is)
unfolding requeue
requeue-IsPieceOf t [] h = tt
requeue-IsPieceOf t (i ∷ is) h = (new_piece-IsPieceOf t i h.0, requeue-IsPieceOf t is h.1)

unmarked-lt :
    (k : ℕ) (bs : List Bool) (n : ℕ) → k + length bs ≤ n → All (λ i. i < n) (unmarked k bs)
unfolding unmarked
unmarked-lt k [] n h = tt
unmarked-lt k (b ∷ bs) n h = ground (arith, unmarked-lt (k + 1) bs n)

requeue-here :
    (sha1 : Bytes → Bytes) (t : TorrentFile) (s : PieceStorage)
    → IsValid sha1 t s
    → (is : List ℕ) → All (λ i. i < total_of t) is
    → All (IsPieceOf t) (requeue s.torrent_file s.total_piece_count is)
requeue-here sha1 t s v is h = rw (v.torrent, v.total) (requeue-IsPieceOf t is h)

-- ForceRequeueMissingPieces keeps a valid storage valid.
pub force_requeue_missing_pieces-IsValid :
    (sha1 : Bytes → Bytes) (t : TorrentFile) (s : PieceStorage)
    → IsValid sha1 t s
    → IsValid sha1 t (force_requeue_missing_pieces s)
unfolding force_requeue_missing_pieces get_missing_pieces
force_requeue_missing_pieces-IsValid sha1 t s v =
    let marks =
      mark_saved s.total_piece_count s.indices_of_pieces_saved_to_disk
        (replicate s.total_piece_count false) in
    let size : length marks ≡ s.total_piece_count =
      length-mark_saved s.total_piece_count s.indices_of_pieces_saved_to_disk
        (replicate s.total_piece_count false)
      ∙ length-replicate s.total_piece_count false in
    with_queue sha1 t s v (requeue s.torrent_file s.total_piece_count (unmarked 0 marks)) (
      requeue-here sha1 t s v (unmarked 0 marks)
        (unmarked-lt 0 marks (total_of t) (omega (arith, size, v.total))))

-- Closing the output file changes no byte of it and forgets no piece.
pub close_output_file-contents :
    (s : PieceStorage)
    → ((close_output_file s).file.contents ≡ s.file.contents)
      × ((close_output_file s).indices_of_pieces_saved_to_disk ≡ s.indices_of_pieces_saved_to_disk)
      × ((close_output_file s).file.is_open ≡ false)
unfolding close_output_file close
close_output_file-contents s = ground arith

-- When a download with a valid storage counts as complete, the file holds every piece of the
-- torrent in full, each with the SHA-1 that the torrent states.
pub is_download_complete-StoredIn :
    (sha1 : Bytes → Bytes) (t : TorrentFile) (s : PieceStorage)
    → IsValid sha1 t s
    → is_download_complete s ≡ true
    → (i : ℕ) → i < total_of t
    → StoredIn sha1 t s.file.contents i
is_download_complete-StoredIn sha1 t s v c i h =
    All-contains (StoredIn sha1 t s.file.contents) s.indices_of_pieces_saved_to_disk i v.stored
      (is_download_complete-contains sha1 t s v c i h)
