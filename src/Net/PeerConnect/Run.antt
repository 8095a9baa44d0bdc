-- ===== src/Net/PeerConnect/Run.antt =====
-- `PeerConnect::EstablishConnection` and `PeerConnect::Run`: connecting, and the retry loop around
-- connecting and `MainLoop`. What they meet is a `Greeting` and a list of `Try`s. The waits between
-- two tries have no effect here but that the main thread may run `Terminate` in the meantime.
pub mod Greeted
pub mod Safety
pub mod GivesUp
use simple_torrent_client.Common.{
  ℕ, suc, Bool, true, false, ◌||◌, List, [], ◌∷◌, ltb, not, if◌then◌else◌, Error, Result, ok, err,
}
use simple_torrent_client.ByteTools.{Bytes}
use simple_torrent_client.Net.TcpConnect.{
  TcpConnect, Dialing, Poll, Round, Received, returned, thrown, waiting, close_connection,
  send_data, receive_data, establish_connection,
}
use simple_torrent_client.Net.PeerConnect.{
  PeerConnect, Session, handshake_message, accept_handshake, receive_bitfield, interested_message,
  handle_connection_error, terminate,
}
use simple_torrent_client.Net.PeerConnect.Loop.{
  Times, Weather, Outcome, continues, breaks, throws, busy, crashes, disturbed, main_loop,
}

-- What the system calls of `EstablishConnection` give, in their order.
pub record Greeting : Type 0 where
  pub dialing : Dialing
  pub handshake_send_fails : Bool
  pub handshake_rounds : List Round
  pub poll : Poll
  pub rounds : List Round
  pub interested_send_fails : Bool

-- A part of `EstablishConnection` is done, or throws, or still waits for the peer.
pub data Progress : Type 0 where
  done : PeerConnect → Progress
  fails_with : Error → PeerConnect → Progress
  waits : PeerConnect → Progress

pub and_then : (PeerConnect → Progress) → Progress → Progress
and_then following (done c) = following c
and_then following p = p

pub dialled : PeerConnect → TcpConnect × Result (Unit {0}) → Progress
dialled c (socket, ok u) = done (record c { socket = socket })
dialled c (socket, err e) = fails_with e (record c { socket = socket })

-- The outcome of a part that changes the connection only if it returns.
pub concluded : PeerConnect → Result PeerConnect → Progress
concluded c (ok c') = done c'
concluded c (err e) = fails_with e c

-- The handling of what `ReceiveData` gives.
pub on_received : (PeerConnect → Bytes → Result PeerConnect) → PeerConnect → Received → Progress
unfolding concluded
on_received handle_message c (returned message) = concluded c (handle_message c message)
on_received handle_message c (thrown e) = fails_with e c
on_received handle_message c waiting = waits c

pub sent : (PeerConnect → Progress) → PeerConnect → Result Bytes → Progress
sent following c (ok message) = following c
sent following c (err e) = fails_with e c

pub await_handshake : Greeting → PeerConnect → Progress
unfolding on_received
await_handshake g c =
    on_received accept_handshake c (receive_data c.socket 68 g.poll g.handshake_rounds)

pub perform_handshake : Greeting → PeerConnect → Progress
unfolding await_handshake sent
perform_handshake g c =
    sent (await_handshake g) c (send_data c.socket (handshake_message c) g.handshake_send_fails)

pub await_bitfield : Greeting → PeerConnect → Progress
unfolding on_received
await_bitfield g c = on_received receive_bitfield c (receive_data c.socket 0 g.poll g.rounds)

pub send_interested : Greeting → PeerConnect → Progress
unfolding sent
send_interested g c = sent done c (send_data c.socket interested_message g.interested_send_fails)

-- `EstablishConnection` gives true (`connected`) or false (`refused`), or waits for the peer.
pub data Established : Type 0 where
  connected : PeerConnect → Established
  refused : PeerConnect → Established
  hanging : PeerConnect → Established

pub settled : Progress → Established
settled (done c) = connected c
settled (fails_with e c) = refused (record c { socket = close_connection c.socket })
settled (waits c) = hanging c

unfoldable pub establish : Greeting → PeerConnect → Established
unfolding and_then dialled perform_handshake await_bitfield send_interested settled
establish g c = settled (
    and_then (send_interested g) (
      and_then (await_bitfield g)
        (and_then (perform_handshake g) (dialled c (establish_connection c.socket g.dialing)))))

-- One pass of the loop of `Run`: connecting, and the rounds of `MainLoop` behind it.
-- `terminated_before`: the main thread runs `Terminate` in front of the pass or while it waits;
-- `terminated_meanwhile`: while `EstablishConnection` runs, which does not read `is_terminated`, so
-- that it shows behind the call.
pub record Try : Type 0 where
  pub terminated_before : Bool
  pub terminated_meanwhile : Bool
  pub greeting : Greeting
  pub times : Times
  pub rounds : List Weather

-- `Run` has ended; or it still waits, within a call or for the rest of its passes; or it crashes.
pub data Ran : Type 0 where
  ended : Session → Ran
  unfinished : Session → Ran
  broken : Ran

abbrev max_total_failures : ℕ
max_total_failures = 20

-- Behind the loop.
unfoldable pub give_up : ℕ → Session → Ran
give_up total_failures s =
    let s' = record s { connection = record s.connection { has_failed = true } } in
    ended (terminate (if ltb total_failures max_total_failures then s else s'))

-- Behind `MainLoop`, with `total_failures` at 0: an exception counts as a failure.
pub looped : (ℕ → Session → Ran) → Outcome → Ran
looped next_pass (breaks s) = next_pass 0 s
looped next_pass (continues s times) = unfinished s
looped next_pass (busy s) = unfinished s
looped next_pass (throws e s) =
    if s.connection.is_terminated then next_pass 0 s else next_pass 1 (handle_connection_error s)
looped next_pass crashes = broken

pub tried : (Bytes → Bytes) → Try → (ℕ → Session → Ran) → ℕ → Session → Established → Ran
unfolding looped
tried sha1 x next_pass total_failures s (connected c) =
    let s' = disturbed x.terminated_meanwhile (record s { connection = c }) in
    looped next_pass (main_loop sha1 x.rounds s' x.times)
tried sha1 x next_pass total_failures s (refused c) =
    next_pass (suc total_failures) (disturbed x.terminated_meanwhile (record s { connection = c }))
tried sha1 x next_pass total_failures s (hanging c) = unfinished (record s { connection = c })

unfoldable pub run : (Bytes → Bytes) → List Try → ℕ → Session → Ran
unfolding give_up tried
run sha1 [] total_failures s =
    if s.connection.is_terminated || not (ltb total_failures max_total_failures)
    then give_up total_failures s
    else unfinished s
run sha1 (x ∷ rest) total_failures s =
    let s' = disturbed x.terminated_before s in
    let pass = tried sha1 x (run sha1 rest) total_failures s' (establish x.greeting s'.connection) in
    if s'.connection.is_terminated || not (ltb total_failures max_total_failures)
    then give_up total_failures s'
    else pass
