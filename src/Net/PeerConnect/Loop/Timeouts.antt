-- ===== src/Net/PeerConnect/Loop/Timeouts.antt =====
-- The block timeout of the main loop, which uses the piece in progress without a test for null, while
-- the main thread may terminate the connection.
use simple_torrent_client.Common.{
  ◌-◌, ◌≤◌, ◌<◌, Bool, true, false, ◌&&◌, ◌||◌, Option, none, some, ltb, ◌≡◌, ◌↔◌, refl, sym, ap,
  ◌∙◌, arith, subst, Bool-cases, inl, inr, if_true, if_false,
}
use simple_torrent_client.ByteTools.{Bytes}
use simple_torrent_client.Core.Piece.{Piece, all_blocks_retrieved}
use simple_torrent_client.Net.PeerConnect.{Session, give_back_unfinished, terminate}
use simple_torrent_client.Net.PeerConnect.Pending.{terminate-pending}
use simple_torrent_client.Net.PeerConnect.Returns.{terminate-GivesBack}
use simple_torrent_client.Net.PeerConnect.Loop.{
  Times, Weather, Outcome, crashes, disturbed, time_out, main_loop_round,
}

-- A session that waits for a block of a piece that is not complete.
pub record WaitsFor (s : Session) (p : Piece) : Type 0 where
  pub pending : s.connection.block_is_pending ≡ true
  pub held : s.connection.piece_is_in_progress ≡ some p
  pub unfinished : all_blocks_retrieved p ≡ false

disturbed-pending :
    (b : Bool) (s : Session)
    → (disturbed b s).connection.block_is_pending ≡ s.connection.block_is_pending
disturbed-pending true s = terminate-pending s
disturbed-pending false s = refl

-- The piece in progress behind a second `Terminate`.
terminate_free :
    (s : Session)
    → s.connection.piece_is_in_progress ≡ none
    → (terminate s).connection.piece_is_in_progress ≡ none
unfolding terminate give_back_unfinished
terminate_free s e = rw e refl

-- The piece in progress where it is used.
disturbed_free :
    (a b : Bool) (s : Session) (p : Piece)
    → WaitsFor s p
    → (a || b) ≡ true
    → (disturbed b (disturbed a s)).connection.piece_is_in_progress ≡ none
disturbed_free true true s p h e =
    terminate_free (terminate s) (terminate-GivesBack s p h.held h.unfinished).0.free
disturbed_free true false s p h e = (terminate-GivesBack s p h.held h.unfinished).0.free
disturbed_free false true s p h e = (terminate-GivesBack s p h.held h.unfinished).0.free
disturbed_free false false s p h e = absurd (cc)

undisturbed_held :
    (a b : Bool) (s : Session) (p : Piece)
    → WaitsFor s p
    → (a || b) ≡ false
    → (disturbed b (disturbed a s)).connection.piece_is_in_progress ≡ some p
undisturbed_held true b s p h e = absurd (cc)
undisturbed_held false true s p h e = absurd (cc)
undisturbed_held false false s p h e = h.held

abbrev IsCrash : Outcome → Type 0
IsCrash crashes = Unit {0}
IsCrash _ = ⊥

time_out-crashes :
    (s : Session) (times : Times) (o : Option Piece) → o ≡ none → time_out s times o ≡ crashes
unfolding time_out
time_out-crashes s times o e = ap (time_out s times) e

time_out-continues :
    (s : Session) (times : Times) (o : Option Piece) (p : Piece)
    → o ≡ some p
    → time_out s times o ≡ crashes
    → ⊥
unfolding time_out
time_out-continues s times o p e c = subst IsCrash (sym (sym (ap (time_out s times) e) ∙ c)) tt

-- Where it is due.
due_lem :
    (sha1 : Bytes → Bytes) (x : Weather) (s : Session) (times : Times)
    → x.now - times.last_activity_time ≤ 30000
    → 15000 < x.now - times.last_block_request_time
    → s.connection.block_is_pending ≡ true
    → (s' : Session) × (s'
        ≡ disturbed x.terminated_behind_tests (disturbed x.terminated_at_start s))
      × (main_loop_round sha1 x s times ≡ time_out s' times s'.connection.piece_is_in_progress)
unfolding main_loop_round
due_lem sha1 x s times active late pending =
    let s' = disturbed x.terminated_at_start s in
    let quiet : ltb 30000 (x.now - times.last_activity_time) ≡ false = ground arith in
    let waits : s'.connection.block_is_pending ≡ true =
      disturbed-pending x.terminated_at_start s ∙ pending in
    let due : (s'.connection.block_is_pending && ltb 15000 (x.now - times.last_block_request_time))
        ≡ true =
      ground (arith, waits) in
    (_, refl, if_false _ _ _ quiet ∙ if_true _ _ _ due)

-- A block.
pub main_loop_round-crashes :
    (sha1 : Bytes → Bytes) (x : Weather) (s : Session) (times : Times) (p : Piece)
    → x.now - times.last_activity_time ≤ 30000
    → 15000 < x.now - times.last_block_request_time
    → WaitsFor s p
    → (main_loop_round sha1 x s times ≡ crashes)
      ↔ ((x.terminated_at_start || x.terminated_behind_tests) ≡ true)
main_loop_round-crashes sha1 x s times p active late h =
    let (s', here, e) = due_lem sha1 x s times active late h.pending in
    (
      λ c. elim (Bool-cases (x.terminated_at_start || x.terminated_behind_tests)) [
        | inl d ↦ d
        | inr d ↦ absurd (
            time_out-continues s' times s'.connection.piece_is_in_progress p
              (ap (λ (q : Session). q.connection.piece_is_in_progress) here
                ∙ undisturbed_held x.terminated_at_start x.terminated_behind_tests s p h d)
              (sym e ∙ c))
      ],
      λ d.
          e
          ∙ time_out-crashes s' times s'.connection.piece_is_in_progress (
              ap (λ (q : Session). q.connection.piece_is_in_progress) here
              ∙ disturbed_free x.terminated_at_start x.terminated_behind_tests s p h d),
    )
