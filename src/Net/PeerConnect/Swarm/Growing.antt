-- ===== src/Net/PeerConnect/Swarm/Growing.antt =====
-- No step of a thread forgets a saved piece.
use simple_torrent_client.Common.{
  ℕ, Bool, true, false, not, Option, none, some, ltb, ◌==◌, if◌then◌else◌, length, drop, Result, ok,
  err, ◌>>=◌,
}
use simple_torrent_client.ByteTools.{Bytes, to_size_t, bytes_to_int, substr}
use simple_torrent_client.Core.TorrentFile.{TorrentFile}
use simple_torrent_client.Core.Piece.{Piece, all_blocks_retrieved, hash_matches, reset, save_block}
use simple_torrent_client.Core.PieceStorage.{PieceStorage, is_piece_already_saved}
use simple_torrent_client.Core.PieceStorage.Growing.{
  Grows, Grows-refl, Grows-trans, enqueue-Grows, piece_processed-Grows,
  get_next_piece_to_download-Grows, force_requeue_missing_pieces-Grows,
}
use simple_torrent_client.Net.Message.{MessageId, choke, unchoke, have, piece, parse}
use simple_torrent_client.Net.PeerConnect.{
  Session, give_back, give_back_unfinished, clean_up, handle_connection_error, terminate, on_choke,
  on_have, on_block, on_piece, after_save, dispatch, process_message,
}
use simple_torrent_client.Net.PeerConnect.Swarm.{
  Act, takes, keeps, puts_back, requests, processes, times_out, fails, terminates, minds_itself,
  Swarm, Step, acts, requeues, joins, leaves, Reach, here, next,
}

module _ (x : PieceStorage) where
  -- The storage of a session, and of a call where it returns.
  abbrev Kept : Session → Type 0
  Kept s = Grows x s.piece_storage

  abbrev KeptBy : Result Session → Type 0
  KeptBy (ok s) = Kept s
  KeptBy (err e) = Unit {0}

  Kept-if : (b : Bool) (y z : Session) → Kept y → Kept z → Kept (if b then y else z)
  Kept-if true y z g h = g
  Kept-if false y z g h = h

  KeptBy-if : (b : Bool) (y z : Result Session) → KeptBy y → KeptBy z → KeptBy (if b then y else z)
  KeptBy-if true y z g h = g
  KeptBy-if false y z g h = h

  KeptBy-bind :
      {A : Type 0} (m : Result A) (f : A → Result Session)
      → ((a : A) → KeptBy (f a))
      → KeptBy (m >>= f)
  KeptBy-bind (ok a) f h = h a
  KeptBy-bind (err e) f h = tt

  give_back-Kept : (s : Session) (p : Piece) → Kept s → Kept (give_back s p)
  unfolding give_back
  give_back-Kept s p g = Grows-trans g (enqueue-Grows s.piece_storage (some (reset p)))

  give_back_unfinished-Kept :
      (s : Session) (o : Option Piece) → Kept s → Kept (give_back_unfinished s o)
  unfolding give_back_unfinished
  give_back_unfinished-Kept s none g = g
  give_back_unfinished-Kept s (some p) g =
      Kept-if (all_blocks_retrieved p) _ _ g (give_back-Kept s p g)

  clean_up-Kept : (s : Session) (o : Option Piece) → Kept s → Kept (clean_up s o)
  unfolding clean_up
  clean_up-Kept s none g = g
  clean_up-Kept s (some p) g =
      Kept-if (all_blocks_retrieved p) _ _ g
        (Kept-if (is_piece_already_saved s.piece_storage p.index) _ _ g (give_back-Kept s p g))

  after_save-Kept :
      (sha1 : Bytes → Bytes) (s : Session) (p : Piece) → Kept s → Kept (after_save sha1 s p)
  unfolding after_save
  after_save-Kept sha1 s p g = Kept-if (not (all_blocks_retrieved p)) _ _ g (
      Kept-if (hash_matches sha1 p) _ _
        (Grows-trans g (piece_processed-Grows sha1 s.piece_storage (some p)))
        (give_back-Kept
          (record s {
            connection = record s.connection {
              block_is_pending = false;
              piece_is_in_progress = some p;
            };
          })
          p g))

  on_block-Kept :
      (sha1 : Bytes → Bytes) (s : Session) (o : Option Piece) (i offset : ℕ) (d : Bytes)
      → Kept s
      → KeptBy (on_block sha1 s o i offset d)
  unfolding on_block
  on_block-Kept sha1 s none i offset d g = g
  on_block-Kept sha1 s (some p) i offset d g =
      KeptBy-if (not (p.index == i)) _ _ g
        (KeptBy-bind (save_block p offset d) _ (λ p'. after_save-Kept sha1 s p' g))

  on_piece-Kept :
      (sha1 : Bytes → Bytes) (s : Session) (d : Bytes) → Kept s → KeptBy (on_piece sha1 s d)
  unfolding on_piece
  on_piece-Kept sha1 s d g = KeptBy-if (ltb (length d) 8) _ _ g (
      KeptBy-bind (bytes_to_int (substr 0 4 d)) _ (λ i.
        KeptBy-bind (bytes_to_int (substr 4 4 d)) _ (λ o.
          on_block-Kept sha1 s s.connection.piece_is_in_progress (to_size_t i) (to_size_t o)
            (drop 8 d) g)))

  dispatch-Kept :
      (sha1 : Bytes → Bytes) (id : MessageId) (s : Session) (d : Bytes)
      → Kept s
      → KeptBy (dispatch sha1 s id d)
  unfolding dispatch on_choke on_have
  dispatch-Kept sha1 choke s d g = give_back_unfinished-Kept _ s.connection.piece_is_in_progress g
  dispatch-Kept sha1 unchoke s d g = g
  dispatch-Kept sha1 have s d g =
      KeptBy-if (ltb (length d) 4) _ _ g (KeptBy-bind (bytes_to_int (substr 0 4 d)) _ (λ w. g))
  dispatch-Kept sha1 piece s d g = on_piece-Kept sha1 s d g
  dispatch-Kept sha1 _ s d g = g

  process_message-Kept :
      (sha1 : Bytes → Bytes) (s : Session) (d : Bytes) → Kept s → KeptBy (process_message sha1 s d)
  unfolding process_message
  process_message-Kept sha1 s d g =
      KeptBy-bind (parse d) _ (λ m. dispatch-Kept sha1 m.id s m.payload g)

Act-Grows :
    {sha1 : Bytes → Bytes} {s s' : Session} {o o' : Option Piece}
    → Act sha1 s o s' o'
    → Grows s.piece_storage s'.piece_storage
unfolding handle_connection_error terminate give_back
Act-Grows {s = s} (takes e f) = rw e (get_next_piece_to_download-Grows s.piece_storage)
Act-Grows {s = s} (keeps e f) = rw e (Grows-refl s.piece_storage)
Act-Grows {s = s} {o = o} (puts_back e f) = rw e (enqueue-Grows s.piece_storage o)
Act-Grows {s = s} (requests p k e f) = rw e (Grows-refl s.piece_storage)
Act-Grows {sha1} {s} (processes d e f) =
    rw e at (process_message-Kept s.piece_storage sha1 s d (Grows-refl s.piece_storage))
Act-Grows {s = s} (times_out p k e f) =
    rw e (give_back-Kept s.piece_storage s p (Grows-refl s.piece_storage))
Act-Grows {s = s} (fails e f) =
    rw e (
      clean_up-Kept s.piece_storage _ s.connection.piece_is_in_progress
        (Grows-refl s.piece_storage))
Act-Grows {s = s} (terminates e f) = rw e (
    give_back_unfinished-Kept s.piece_storage _ s.connection.piece_is_in_progress
      (Grows-refl s.piece_storage))
Act-Grows {s = s} (minds_itself e g f) = rw e (Grows-refl s.piece_storage)

Step-Grows :
    {sha1 : Bytes → Bytes} {t : TorrentFile} {x y : Swarm}
    → Step sha1 t x y
    → Grows x.storage y.storage
Step-Grows (acts i w s' o' e a f) = rw f (Act-Grows a)
Step-Grows {x = x} (requeues e) = rw e (force_requeue_missing_pieces-Grows x.storage)
Step-Grows {x = x} (joins ip port peer_id e) = rw e (Grows-refl x.storage)
Step-Grows {x = x} (leaves e) = rw e (Grows-refl x.storage)

pub Reach-Grows :
    {sha1 : Bytes → Bytes} {t : TorrentFile} {x y : Swarm}
    → Reach sha1 t x y
    → Grows x.storage y.storage
Reach-Grows {x = x} here = Grows-refl x.storage
Reach-Grows (next r s) = Grows-trans (Reach-Grows r) (Step-Grows s)
