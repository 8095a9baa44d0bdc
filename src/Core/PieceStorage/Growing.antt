-- ===== src/Core/PieceStorage/Growing.antt =====
-- No operation of the storage forgets a saved piece, so that a complete download stays complete.
use simple_torrent_client.Common.{
  ◌≤◌, Bool, true, false, not, Option, none, some, List, [], ◌∷◌, ◌==◌, ◌≡◌, refl, ◌∙◌, arith,
  if◌then◌else◌, length, length-append, contains,
}
use simple_torrent_client.ByteTools.{Bytes}
use simple_torrent_client.Core.TorrentFile.{TorrentFile}
use simple_torrent_client.Core.Piece.{Piece, hash_matches, get_data}
use simple_torrent_client.Core.PieceStorage.{
  PieceStorage, get_next_piece_to_download, take_front, is_piece_already_saved, enqueue,
  save_piece_to_disk, piece_processed, pieces_saved_to_disc_count, is_download_complete,
  force_requeue_missing_pieces,
}
use simple_torrent_client.Core.PieceStorage.Invariant.{IsValid}
use simple_torrent_client.Core.PieceStorage.Missing.{length-get_missing_pieces}

-- The same torrent, and as many saved pieces at least.
pub record Grows (s s' : PieceStorage) : Type 0 where
  pub total : s'.total_piece_count ≡ s.total_piece_count
  pub saved : length s.indices_of_pieces_saved_to_disk ≤ length s'.indices_of_pieces_saved_to_disk

pub Grows-refl : (s : PieceStorage) → Grows s s
Grows-refl s = record { total = refl; saved = omega arith }

pub Grows-trans : {x y z : PieceStorage} → Grows x y → Grows y z → Grows x z
Grows-trans g h = record { total = h.total ∙ g.total; saved = omega (arith, g.saved, h.saved) }

pub Grows-if :
    {s : PieceStorage} (b : Bool) (x y : PieceStorage)
    → Grows s x
    → Grows s y
    → Grows s (if b then x else y)
Grows-if true x y g h = g
Grows-if false x y g h = h

pub enqueue-Grows : (s : PieceStorage) (o : Option Piece) → Grows s (enqueue s o)
unfolding enqueue
enqueue-Grows s none = Grows-refl s
enqueue-Grows s (some p) =
    Grows-if (is_piece_already_saved s p.index) s _ (Grows-refl s)
      (record { total = refl; saved = omega arith })

save_piece_to_disk-Grows : (s : PieceStorage) (o : Option Piece) → Grows s (save_piece_to_disk s o)
unfolding save_piece_to_disk
save_piece_to_disk-Grows s none = Grows-refl s
save_piece_to_disk-Grows s (some p) =
    let saved = s.indices_of_pieces_saved_to_disk in
    Grows-if (contains p.index saved) s _ (Grows-refl s) (
      Grows-if (not (length (get_data p) == p.length)) s _ (Grows-refl s)
        (record { total = refl; saved = omega (arith, length-append {0} saved (p.index ∷ [])) }))

pub piece_processed-Grows :
    (sha1 : Bytes → Bytes) (s : PieceStorage) (o : Option Piece)
    → Grows s (piece_processed sha1 s o)
unfolding piece_processed
piece_processed-Grows sha1 s none = Grows-refl s
piece_processed-Grows sha1 s (some p) =
    Grows-if (not (hash_matches sha1 p)) _ _ (enqueue-Grows s (some p))
      (save_piece_to_disk-Grows s (some p))

take_front-Grows : (s : PieceStorage) (q : List Piece) → Grows s (take_front s q).0
unfolding take_front
take_front-Grows s [] = Grows-refl s
take_front-Grows s (p ∷ q) = record { total = refl; saved = omega arith }

pub get_next_piece_to_download-Grows : (s : PieceStorage) → Grows s (get_next_piece_to_download s).0
unfolding get_next_piece_to_download
get_next_piece_to_download-Grows s = take_front-Grows s s.remaining_pieces_queue

pub force_requeue_missing_pieces-Grows :
    (s : PieceStorage) → Grows s (force_requeue_missing_pieces s)
unfolding force_requeue_missing_pieces
force_requeue_missing_pieces-Grows s = record { total = refl; saved = omega arith }

pub is_download_complete-Grows :
    (sha1 : Bytes → Bytes) (t : TorrentFile) {s s' : PieceStorage}
    → IsValid sha1 t s'
    → Grows s s'
    → is_download_complete s ≡ true
    → is_download_complete s' ≡ true
unfolding is_download_complete pieces_saved_to_disc_count
is_download_complete-Grows sha1 t {s} {s'} v g c =
    ground (arith, length-get_missing_pieces sha1 t s' v, g.total, g.saved)
