-- ===== src/Net/PeerConnect/Loop.antt =====
-- The loop of `PeerConnect::MainLoop`, as the thread of the connection runs it. What a round meets,
-- the clock, the socket and the main thread, is a `Weather`; times are milliseconds. The main thread
-- runs `Terminate` on the connection (src/core/TorrentClient.cpp, line 125), here as one step: in
-- front of a round, at one of three places within the round, or while `ReceiveData` waits. Within
-- a search or `ProcessMessage` it does not run here. The other connections take their steps between
-- those of this one in Net/PeerConnect/Swarm.
pub mod Steady
pub mod Rounds
pub mod Timeouts
pub mod Whole
use simple_torrent_client.Common.{
  ℕ, ◌+◌, ◌-◌, Bool, true, false, not, ◌&&◌, ◌||◌, Option, none, some, List, [], ◌∷◌, ltb, ◌==◌,
  if◌then◌else◌, length, Error, Result, ok, err, connection_terminated, inactive,
}
use simple_torrent_client.ByteTools.{Bytes}
use simple_torrent_client.Core.Piece.{Block, Piece, all_blocks_retrieved, get_first_missing_block}
use simple_torrent_client.Core.PieceStorage.{PieceStorage, queue_is_empty}
use simple_torrent_client.Net.TcpConnect.{
  Poll, Received, Round, receive_data, returned, send_data, thrown, waiting,
}
use simple_torrent_client.Net.PeerConnect.{
  PeerConnect, Session, give_back, handle_connection_error, process_message, request_message, terminate,
}
use simple_torrent_client.Net.PeerConnect.Search.{
  Search, found, get_next_available_piece, nothing, searching,
}

pub record Times : Type 0 where
  pub last_activity_time : ℕ
  pub last_block_request_time : ℕ

-- `terminated_before`: the main thread runs `Terminate` in front of the test of `while`;
-- `terminated_at_start`: behind it and in front of the tests of the times;
-- `terminated_behind_tests`: behind the test for the block timeout, in front of what follows it;
-- `terminated_before_request`: behind the test that there is a piece in progress, in front of its
-- use. What `ReceiveData` meets is `poll` and `rounds`.
pub record Weather : Type 0 where
  pub terminated_before : Bool
  pub terminated_at_start : Bool
  pub terminated_behind_tests : Bool
  pub terminated_before_request : Bool
  pub now : ℕ
  pub now_after : ℕ
  pub search_rounds : ℕ
  pub send_fails : Bool
  pub poll : Poll
  pub rounds : List Round

-- The main thread may have run `Terminate`.
abbrev pub disturbed : Bool → Session → Session
disturbed b s = if b then terminate s else s

-- The loop goes on, ends by `break`, or is left by an exception; or it is still inside a call
-- (a search or a read); or it reads through a null pointer.
pub data Outcome : Type 0 where
  continues : Session → Times → Outcome
  breaks : Session → Outcome
  throws : Error → Session → Outcome
  busy : Session → Outcome
  crashes : Outcome

-- The outer `catch`: after the connection was ended the exception is dropped.
unfoldable pub fail : Error → Session → Times → Outcome
fail e s times =
    if s.connection.is_terminated then continues s times else throws e (handle_connection_error s)

-- `ProcessMessage` on what was received.
pub handle : (Bytes → Bytes) → Weather → Session → Times → Result Session → Outcome
unfolding fail
handle sha1 w s times (ok s') = continues s' (record times { last_activity_time = w.now_after })
handle sha1 w s times (err e) = fail e s times

pub is_connection_terminated : Error → Bool
is_connection_terminated connection_terminated = true
is_connection_terminated _ = false

-- `ReceiveData` throws "Connection terminated" when it finds the flag of its socket set behind its
-- first test of it. Only `Terminate`, run by the main thread, sets it there.
pub receive : (Bytes → Bytes) → Weather → Session → Times → Received → Outcome
unfolding handle is_connection_terminated
receive sha1 w s times (returned message) =
    if length message == 0
    then continues s times
    else handle sha1 w s times (process_message sha1 s message)
receive sha1 w s times (thrown e) =
    if is_connection_terminated e then breaks (terminate s) else fail e s times
receive sha1 w s times waiting = busy s

unfoldable pub receive_step : (Bytes → Bytes) → Weather → Session → Times → Outcome
unfolding receive
receive_step sha1 w s times =
    receive sha1 w s times (receive_data s.connection.socket 0 w.poll w.rounds)

-- `RequestPiece(block)` and what follows it, where the piece with the block marked is in place.
pub requested : (Bytes → Bytes) → Weather → Session → Times → Result Bytes → Outcome
unfolding receive_step fail
requested sha1 w s times (ok sent) =
    receive_step sha1 w (record s { connection = record s.connection { block_is_pending = true } })
      (record { last_activity_time = w.now; last_block_request_time = w.now })
requested sha1 w s times (err e) = fail e s times

abbrev pub holding : Session → Piece → Session
holding s p = record s { connection = record s.connection { piece_is_in_progress = some p } }

pub request_block : (Bytes → Bytes) → Weather → Session → Times → Option Block → Outcome
unfolding requested
request_block sha1 w s times none = receive_step sha1 w s times
request_block sha1 w s times (some b) =
    requested sha1 w s times (send_data s.connection.socket (request_message b) w.send_fails)

-- `piece_is_in_progress->GetFirstMissingBlock()`, without a test for null, and what follows.
pub request_first : (Bytes → Bytes) → Weather → Session → Times → Option Piece → Outcome
unfolding request_block
request_first sha1 w s times none = crashes
request_first sha1 w s times (some p) =
    let (p', block) = get_first_missing_block p in
    request_block sha1 w (holding s p') times block

-- From `if (!is_choked && !block_is_pending)` on, with a piece in progress.
unfoldable pub work_on : (Bytes → Bytes) → Weather → Session → Times → Piece → Outcome
unfolding request_first
work_on sha1 w s times p =
    let s' = disturbed w.terminated_before_request (holding s p) in
    if not s'.connection.is_choked && not s'.connection.block_is_pending
    then request_first sha1 w s' times s'.connection.piece_is_in_progress
    else receive_step sha1 w s' times

-- Behind `piece_is_in_progress = GetNextAvailablePiece()`.
pub with_search : (Bytes → Bytes) → Weather → Session → Times → Search → Outcome
unfolding work_on
with_search sha1 w s times (found p) = work_on sha1 w s times p
with_search sha1 w s times nothing =
    let s' = record s { connection = record s.connection { piece_is_in_progress = none } } in
    if queue_is_empty s.piece_storage || s.connection.is_terminated
    then breaks s'
    else continues s' times
with_search sha1 w s times searching = busy s

unfoldable pub next_piece : (Bytes → Bytes) → Weather → Session → Times → Outcome
unfolding with_search
next_piece sha1 w s times =
    let (storage, r) = get_next_available_piece w.search_rounds s.connection s.piece_storage in
    with_search sha1 w (record s { piece_storage = storage }) times r

pub in_progress : (Bytes → Bytes) → Weather → Session → Times → Option Piece → Outcome
unfolding next_piece work_on
in_progress sha1 w s times none = next_piece sha1 w s times
in_progress sha1 w s times (some p) =
    if all_blocks_retrieved p then next_piece sha1 w s times else work_on sha1 w s times p

-- The block timeout: the piece is used without a test for null.
pub time_out : Session → Times → Option Piece → Outcome
time_out s times none = crashes
time_out s times (some p) =
    let s' = give_back s p in
    continues (record s' { connection = record s'.connection { block_is_pending = false } }) times

unfoldable pub main_loop_round : (Bytes → Bytes) → Weather → Session → Times → Outcome
unfolding fail time_out in_progress
main_loop_round sha1 w s times =
    let s' = disturbed w.terminated_at_start s in
    let s'' = disturbed w.terminated_behind_tests s' in
    if ltb 30000 (w.now - times.last_activity_time)
    then fail inactive s' times
    else if s'.connection.block_is_pending && ltb 15000 (w.now - times.last_block_request_time)
    then time_out s'' times s''.connection.piece_is_in_progress
    else in_progress sha1 w s'' times s''.connection.piece_is_in_progress

-- What follows a round: the next one, if the loop goes on.
pub again : (Session → Times → Outcome) → Outcome → Outcome
again next_round (continues s times) = next_round s times
again next_round o = o

-- `while (!is_terminated)`, over what its rounds meet; `continues` says that it has not ended by then.
unfoldable pub main_loop : (Bytes → Bytes) → List Weather → Session → Times → Outcome
unfolding again main_loop_round
main_loop sha1 [] s times = if s.connection.is_terminated then breaks s else continues s times
main_loop sha1 (w ∷ rest) s times =
    let s' = disturbed w.terminated_before s in
    let ended = again (main_loop sha1 rest) (main_loop_round sha1 w s' times) in
    if s'.connection.is_terminated then breaks s' else ended
