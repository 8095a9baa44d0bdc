-- ===== src/Net/PeerConnect/Swarm/Safety.antt =====
-- What holds in every state that the threads of a download reach.
use mathlib.Core.Option.{some-injective}
use simple_torrent_client.Common.{
  ℕ, suc, zero, ◌<◌, true, Option, none, some, List, [], ◌∷◌, ◌≡◌, refl, subst, get_elem?, set, All,
  All-append,
}
use simple_torrent_client.ByteTools.{Bytes}
use simple_torrent_client.Core.TorrentFile.{TorrentFile}
use simple_torrent_client.Core.Piece.{Piece}
use simple_torrent_client.Core.PieceStorage.{PieceStorage, enqueue, is_download_complete}
use simple_torrent_client.Core.PieceStorage.Invariant.{
  get_first_missing_block-IsPieceOf, IsTorrent, total_of, IsPieceOf, StoredIn, enqueue-IsValid,
  get_next_piece_to_download-IsValid,
}
use simple_torrent_client.Core.PieceStorage.Invariant
use simple_torrent_client.Core.PieceStorage.Integrity.{
  initial-IsValid, force_requeue_missing_pieces-IsValid, is_download_complete-StoredIn,
}
use simple_torrent_client.Net.PeerConnect.{Session, make}
use simple_torrent_client.Net.PeerConnect.Invariant.{
  HoldsPieceOf, IsValid, IsValid-of, give_back-IsValid, handle_connection_error-IsValid,
  terminate-IsValid, process_message-Keeps,
}
use simple_torrent_client.Net.PeerConnect.Swarm.{
  Worker, Act, takes, keeps, puts_back, requests, processes, times_out, fails, terminates,
  minds_itself, Swarm, Step, acts, requeues, joins, leaves, Reach, here, next, start,
}

All-get_elem? :
    {A : Type 0} (P : A → Type 0) (xs : List A) (i : ℕ) (a : A)
    → All P xs
    → get_elem? xs i ≡ some a
    → P a
All-get_elem? P [] i a h e = absurd (cc)
All-get_elem? P (x ∷ xs) zero a h e = subst P (some-injective x a e) h.0
All-get_elem? P (x ∷ xs) (suc i) a h e = All-get_elem? P xs i a h.1 e

All-set :
    {A : Type 0} (P : A → Type 0) (xs : List A) (i : ℕ) (a : A)
    → All P xs
    → P a
    → All P (set xs i a)
All-set P [] i a h p = tt
All-set P (x ∷ xs) zero a h p = (p, h.1)
All-set P (x ∷ xs) (suc i) a h p = (h.0, All-set P xs i a h.1 p)

-- A piece in hand, if any, is one of the torrent.
HoldsPieceOf-all :
    (t : TorrentFile) (o : Option Piece)
    → ((p : Piece) → o ≡ some p → IsPieceOf t p)
    → HoldsPieceOf t o
HoldsPieceOf-all t none h = tt
HoldsPieceOf-all t (some p) h = h p refl

module _ (sha1 : Bytes → Bytes) (t : TorrentFile) (w : IsTorrent t) where
  held_piece :
      (s : Session) (p : Piece)
      → IsValid sha1 t s
      → s.connection.piece_is_in_progress ≡ some p
      → IsPieceOf t p
  held_piece s p v e = subst (HoldsPieceOf t) e v.held

  put_back-IsValid :
      (s : PieceStorage) (o : Option Piece)
      → Invariant.IsValid sha1 t s
      → HoldsPieceOf t o
      → Invariant.IsValid sha1 t (enqueue s o)
  unfolding enqueue
  put_back-IsValid s none v h = v
  put_back-IsValid s (some p) v h = enqueue-IsValid sha1 t s v p h

  -- Every act of a connection leaves its session valid, and in its hand a piece of the torrent or
  -- nothing.
  pub Act-IsValid :
      {s s' : Session} {o o' : Option Piece}
      → Act sha1 s o s' o'
      → IsValid sha1 t s
      → HoldsPieceOf t o
      → IsValid sha1 t s' × HoldsPieceOf t o'
  Act-IsValid {s} (takes e f) v h =
      let r = get_next_piece_to_download-IsValid sha1 t s.piece_storage v.storage in
      (rw e (record { storage = r.0; held = v.held }), rw f (HoldsPieceOf-all t _ r.1))
  Act-IsValid (keeps e f) v h = (rw e (record { storage = v.storage; held = h }), rw f tt)
  Act-IsValid {s} {o = o} (puts_back e f) v h = (
    rw e (record { storage = put_back-IsValid s.piece_storage o v.storage h; held = v.held }),
    rw f tt,
  )
  Act-IsValid {s} (requests p k e f) v h = (
    rw e (record {
      storage = v.storage;
      held = get_first_missing_block-IsPieceOf t p (held_piece s p v k);
    }),
    rw f h,
  )
  Act-IsValid {s} (processes d e f) v h = (rw e at (process_message-Keeps sha1 t w s d v), rw f h)
  Act-IsValid {s} (times_out p k e f) v h =
      (rw e (give_back-IsValid sha1 t s p v (held_piece s p v k)), rw f h)
  Act-IsValid {s} (fails e f) v h = (rw e (handle_connection_error-IsValid sha1 t s v), rw f h)
  Act-IsValid {s} (terminates e f) v h = (rw e (terminate-IsValid sha1 t s v), rw f h)
  Act-IsValid {s} {s'} (minds_itself e g f) v h = (IsValid-of sha1 t s s' e g v, rw f h)

  -- The pieces that a thread holds are pieces of the torrent.
  pub record Holds (x : Worker) : Type 0 where
    pub in_progress : HoldsPieceOf t x.connection.piece_is_in_progress
    pub in_hand : HoldsPieceOf t x.in_hand

  pub record IsSound (x : Swarm) : Type 0 where
    pub storage : Invariant.IsValid sha1 t x.storage
    pub held : All Holds x.workers

  pub Step-IsSound : {x y : Swarm} → Step sha1 t x y → IsSound x → IsSound y
  unfolding make
  Step-IsSound {x} (acts i c s' o' e a f) v =
      let held = All-get_elem? Holds x.workers i c v.held e in
      let r =
        Act-IsValid a (record { storage = v.storage; held = held.in_progress }) held.in_hand in
      rw f (record {
        storage = r.0.storage;
        held =
            All-set Holds x.workers i _ v.held (record { in_progress = r.0.held; in_hand = r.1 });
      })
  Step-IsSound {x} (requeues e) v = rw e (record {
    storage = force_requeue_missing_pieces-IsValid sha1 t x.storage v.storage;
    held = v.held;
  })
  Step-IsSound {x} (joins ip port peer_id e) v = rw e (record {
    storage = v.storage;
    held =
        All-append Holds x.workers
          (record { connection = make ip port t peer_id; in_hand = none } ∷ []) v.held
          (record { in_progress = tt; in_hand = tt }, tt);
  })
  Step-IsSound {x} (leaves e) v = rw e (record { storage = v.storage; held = tt })

  -- For a torrent whose pieces have at least one byte and whose number of pieces times piece length
  -- is below 2 ^ 63, whatever steps the threads of a download take, and in whatever order: from a
  -- state whose storage is valid and whose threads hold pieces of the torrent only, they reach such
  -- a state.
  pub Reach-IsSound : {x y : Swarm} → IsSound x → Reach sha1 t x y → IsSound y
  Reach-IsSound v here = v
  Reach-IsSound v (next r s) = Step-IsSound s (Reach-IsSound v r)

  -- For a torrent whose pieces have at least one byte and whose number of pieces times piece length
  -- is below 2 ^ 63, from the storage as it is constructed: however the steps of the threads
  -- interleave, and whatever the peers send, once the download counts as complete, the output file
  -- holds every piece of the torrent in full, with the SHA-1 that the torrent states for it.
  pub Reach-is_download_complete :
      {x : Swarm}
      → Reach sha1 t (start t) x
      → is_download_complete x.storage ≡ true
      → (i : ℕ) → i < total_of t
      → StoredIn sha1 t x.storage.file.contents i
  Reach-is_download_complete {x} r c =
      is_download_complete-StoredIn sha1 t x.storage
        (Reach-IsSound (record { storage = initial-IsValid sha1 t; held = tt }) r).storage c
