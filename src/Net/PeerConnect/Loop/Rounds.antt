-- ===== src/Net/PeerConnect/Loop/Rounds.antt =====
-- Every round of the main loop leaves a valid session, however it ends, and none reads through a
-- null pointer.
use simple_torrent_client.Common.{
  ◌-◌, Bool, true, false, not, ◌&&◌, ◌||◌, Option, none, some, ltb, ◌≡◌, refl, subst, arith, Result,
  ok, err, inactive,
}
use simple_torrent_client.ByteTools.{Bytes}
use simple_torrent_client.Core.TorrentFile.{TorrentFile}
use simple_torrent_client.Core.Piece.{Block, Piece, all_blocks_retrieved, get_first_missing_block}
use simple_torrent_client.Core.Piece.Invariant.{get_first_missing_block_unfinished}
use simple_torrent_client.Core.PieceStorage.{queue_is_empty}
use simple_torrent_client.Core.PieceStorage.Invariant.{
  get_first_missing_block-IsPieceOf, IsTorrent, IsPieceOf,
}
use simple_torrent_client.Core.PieceStorage.Invariant
use simple_torrent_client.Net.PeerConnect.{Session, give_back}
use simple_torrent_client.Net.PeerConnect.Invariant.{HoldsPieceOf, IsValid-of, give_back-IsValid}
use simple_torrent_client.Net.PeerConnect.Pending.{PendingAs, PendingAs-false}
use simple_torrent_client.Net.PeerConnect.Search.{
  Search, found, nothing, searching, FindsPieceOf, get_next_available_piece-IsValid,
}
use simple_torrent_client.Net.PeerConnect.Loop.{
  Times, Weather, requested, holding, request_block, request_first, work_on, with_search, next_piece, in_progress,
  time_out, main_loop_round,
}
use simple_torrent_client.Net.PeerConnect.Loop.Steady.{
  IsSteady, IsSteady-IsLeft, EndsSteady, EndsSteady-if, fail-EndsSteady, receive_step-EndsSteady,
}

-- The main thread does not terminate the connection at one of the three places within the round
-- at which the loop relies on what it has tested before.
pub record IsUndisturbed (x : Weather) : Type 0 where
  pub at_start : x.terminated_at_start ≡ false
  pub behind_tests : x.terminated_behind_tests ≡ false
  pub before_request : x.terminated_before_request ≡ false

module _ (sha1 : Bytes → Bytes) (t : TorrentFile) (w : IsTorrent t) where
  holding-IsSteady :
      (s : Session) (p : Piece)
      → Invariant.IsValid sha1 t s.piece_storage
      → IsPieceOf t p
      → PendingAs s.connection.block_is_pending (some p)
      → IsSteady sha1 t w (holding s p)
  holding-IsSteady s p v h k = record { valid = record { storage = v; held = h }; pending = k }

  requested-EndsSteady :
      (x : Weather) (s : Session) (times : Times) (p : Piece) (r : Result Bytes)
      → Invariant.IsValid sha1 t s.piece_storage
      → IsPieceOf t p
      → s.connection.block_is_pending ≡ false
      → all_blocks_retrieved p ≡ false
      → EndsSteady sha1 t w (requested sha1 x (holding s p) times r)
  unfolding requested
  requested-EndsSteady x s times p (ok sent) v h k u =
      receive_step-EndsSteady sha1 t w x
        (record (holding s p) {
          connection = record (holding s p).connection { block_is_pending = true };
        })
        (record { last_activity_time = x.now; last_block_request_time = x.now })
        (record { valid = record { storage = v; held = h }; pending = u })
  requested-EndsSteady x s times p (err e) v h k u =
      fail-EndsSteady sha1 t w e (holding s p) times
        (holding-IsSteady s p v h (PendingAs-false s.connection.block_is_pending (some p) k))

  -- A block that was marked as requested is not retrieved.
  abbrev Unfinished : Piece → Option Block → Type 0
  Unfinished p none = Unit {0}
  Unfinished p (some b) = all_blocks_retrieved p ≡ false

  request_block-EndsSteady :
      (x : Weather) (s : Session) (times : Times) (p : Piece) (o : Option Block)
      → Invariant.IsValid sha1 t s.piece_storage
      → IsPieceOf t p
      → s.connection.block_is_pending ≡ false
      → Unfinished p o
      → EndsSteady sha1 t w (request_block sha1 x (holding s p) times o)
  unfolding request_block
  request_block-EndsSteady x s times p none v h k u =
      receive_step-EndsSteady sha1 t w x (holding s p) times
        (holding-IsSteady s p v h (PendingAs-false s.connection.block_is_pending (some p) k))
  request_block-EndsSteady x s times p (some b) v h k u = requested-EndsSteady x s times p _ v h k u

  marked-Unfinished :
      (p : Piece) (o : Option Block)
      → (get_first_missing_block p).1 ≡ o
      → Unfinished (get_first_missing_block p).0 o
  marked-Unfinished p none e = tt
  marked-Unfinished p (some b) e = get_first_missing_block_unfinished p b e

  request_first-EndsSteady :
      (x : Weather) (s : Session) (times : Times) (p : Piece)
      → Invariant.IsValid sha1 t s.piece_storage
      → IsPieceOf t p
      → s.connection.block_is_pending ≡ false
      → EndsSteady sha1 t w (request_first sha1 x (holding s p) times (some p))
  unfolding request_first
  request_first-EndsSteady x s times p v h k =
      request_block-EndsSteady x s times (get_first_missing_block p).0
        (get_first_missing_block p).1 v (get_first_missing_block-IsPieceOf t p h) k
        (marked-Unfinished p (get_first_missing_block p).1 refl)

  work_on-EndsSteady :
      (x : Weather) (s : Session) (times : Times) (p : Piece)
      → IsUndisturbed x
      → Invariant.IsValid sha1 t s.piece_storage
      → IsPieceOf t p
      → PendingAs s.connection.block_is_pending (some p)
      → EndsSteady sha1 t w (work_on sha1 x s times p)
  unfolding work_on
  work_on-EndsSteady x s times p u v h k = rw u.before_request (
      EndsSteady-if sha1 t w (not s.connection.is_choked && not s.connection.block_is_pending) _ _
        (λ b. request_first-EndsSteady x s times p v h (ground arith))
        (λ b. receive_step-EndsSteady sha1 t w x (holding s p) times (holding-IsSteady s p v h k)))

  without_piece-IsSteady :
      (s : Session)
      → Invariant.IsValid sha1 t s.piece_storage
      → s.connection.block_is_pending ≡ false
      → IsSteady sha1 t w
          (record s { connection = record s.connection { piece_is_in_progress = none } })
  without_piece-IsSteady s v k = record {
    valid = record { storage = v; held = tt };
    pending = PendingAs-false s.connection.block_is_pending none k;
  }

  with_search-EndsSteady :
      (x : Weather) (s : Session) (times : Times) (r : Search)
      → IsUndisturbed x
      → IsSteady sha1 t w s
      → FindsPieceOf t r
      → s.connection.block_is_pending ≡ false
      → EndsSteady sha1 t w (with_search sha1 x s times r)
  unfolding with_search
  with_search-EndsSteady x s times (found p) u v h k =
      work_on-EndsSteady x s times p u v.valid.storage h
        (PendingAs-false s.connection.block_is_pending (some p) k)
  with_search-EndsSteady x s times nothing u v h k =
      EndsSteady-if sha1 t w (queue_is_empty s.piece_storage || s.connection.is_terminated) _ _
        (λ b. IsSteady-IsLeft sha1 t w _ (without_piece-IsSteady s v.valid.storage k))
        (λ b. without_piece-IsSteady s v.valid.storage k)
  with_search-EndsSteady x s times searching u v h k = v

  next_piece-EndsSteady :
      (x : Weather) (s : Session) (times : Times)
      → IsUndisturbed x
      → IsSteady sha1 t w s
      → s.connection.block_is_pending ≡ false
      → EndsSteady sha1 t w (next_piece sha1 x s times)
  unfolding next_piece
  next_piece-EndsSteady x s times u v k =
      let r =
        get_next_available_piece-IsValid sha1 t x.search_rounds s.connection s.piece_storage
          v.valid.storage in
      with_search-EndsSteady x _ times _ u
        (record { valid = record { storage = r.0; held = v.valid.held }; pending = v.pending }) r.1
        k

  in_progress-EndsSteady :
      (x : Weather) (s : Session) (times : Times) (o : Option Piece)
      → IsUndisturbed x
      → IsSteady sha1 t w s
      → HoldsPieceOf t o
      → PendingAs s.connection.block_is_pending o
      → EndsSteady sha1 t w (in_progress sha1 x s times o)
  unfolding in_progress
  in_progress-EndsSteady x s times none u v h k =
      next_piece-EndsSteady x s times u v (not-pending s.connection.block_is_pending k)
    where
      not-pending : (b : Bool) → PendingAs b none → b ≡ false
      not-pending true q = absurd q
      not-pending false q = refl
  in_progress-EndsSteady x s times (some p) u v h k =
      EndsSteady-if sha1 t w (all_blocks_retrieved p) _ _
        (λ b. next_piece-EndsSteady x s times u v (complete s.connection.block_is_pending k b))
        (λ b. work_on-EndsSteady x s times p u v.valid.storage h k)
    where
      complete : (b : Bool) → PendingAs b (some p) → all_blocks_retrieved p ≡ true → b ≡ false
      complete true q r = ground arith
      complete false q r = refl

  time_out-EndsSteady :
      (s : Session) (times : Times) (o : Option Piece)
      → IsSteady sha1 t w s
      → HoldsPieceOf t o
      → PendingAs true o
      → EndsSteady sha1 t w (time_out s times o)
  unfolding time_out
  time_out-EndsSteady s times none v h k = absurd k
  time_out-EndsSteady s times (some p) v h k = record {
    valid = IsValid-of sha1 t (give_back s p) _ refl refl (give_back-IsValid sha1 t s p v.valid h);
    pending = tt;
  }

  -- A round in which the main thread does not interfere: whatever the peer, the clock and the socket
  -- do, it takes a steady session (a valid one that holds a piece which is not complete while a
  -- block is requested) to a steady one, or ends, and does not read through a null pointer.
  pub main_loop_round-EndsSteady :
      (x : Weather) (s : Session) (times : Times)
      → IsUndisturbed x
      → IsSteady sha1 t w s
      → EndsSteady sha1 t w (main_loop_round sha1 x s times)
  unfolding main_loop_round
  main_loop_round-EndsSteady x s times u v = rw (u.at_start, u.behind_tests) (
      EndsSteady-if sha1 t w (ltb 30000 (x.now - times.last_activity_time)) _ _
        (λ b. fail-EndsSteady sha1 t w inactive s times v)
        (λ b.
          EndsSteady-if sha1 t w
            (s.connection.block_is_pending && ltb 15000 (x.now - times.last_block_request_time)) _ _
            (λ c. time_out-EndsSteady s times s.connection.piece_is_in_progress v v.valid.held (
              subst (λ k. PendingAs k s.connection.piece_is_in_progress)
                (and-left s.connection.block_is_pending
                  (ltb 15000 (x.now - times.last_block_request_time)) c)
                v.pending))
            (λ c.
              in_progress-EndsSteady x s times s.connection.piece_is_in_progress u v v.valid.held
                v.pending)))
    where
      and-left : (p q : Bool) → (p && q) ≡ true → p ≡ true
      and-left true q e = refl
      and-left false q e = cc
