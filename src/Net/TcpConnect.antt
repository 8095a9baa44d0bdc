-- ===== src/Net/TcpConnect.antt =====
-- include/net/TcpConnect.hpp and src/net/TcpConnect.cpp. What the operating system answers, and what
-- another thread does to the flag `force_close_` in between, are arguments: one event for each
-- system call. A call that would wait for ever ends as `waiting`.
pub mod Receive
use simple_torrent_client.Common.{
  ℕ, zero, suc, ◌+◌, ◌-◌, Bool, true, false, ◌||◌, Option, none, some, List, [], ◌∷◌, ◌++◌, ltb,
  ◌==◌, if◌then◌else◌, length, Error, Result, ok, err, not_enough_bytes, socket_not_created,
  connection_timed_out, socket_connection_error, connection_closed, send_error,
  connection_terminated, poll_error, read_timed_out, read_error, too_much_data,
}
use simple_torrent_client.ByteTools.{Bytes, to_size_t, bytes_to_int}

-- `sock` is -1 as `none`.
pub record TcpConnect : Type 0 where
  pub ip : Bytes
  pub port : ℕ
  pub connect_timeout : ℕ
  pub read_timeout : ℕ
  pub force_close : Bool
  pub sock : Option ℕ

unfoldable pub make : Bytes → ℕ → ℕ → ℕ → TcpConnect
make ip port connect_timeout read_timeout = record {
  ip = ip;
  port = port;
  connect_timeout = connect_timeout;
  read_timeout = read_timeout;
  force_close = false;
  sock = none;
}

-- `CloseConnection`, and `ForceClose`, which does not shut the socket down first.
unfoldable pub close_connection : TcpConnect → TcpConnect
close_connection c = record c { force_close = true; sock = none }

unfoldable pub is_terminated : TcpConnect → Bool
is_terminated c = c.force_close

-- What the calls of `EstablishConnection` give: `socket`, `connect`, `select` and the socket's error.
pub record Dialing : Type 0 where
  pub fresh_socket : Option ℕ
  pub connects_at_once : Bool
  pub select_times_out : Bool
  pub socket_error : ℕ

dial : TcpConnect → Dialing → Option ℕ → TcpConnect × Result (Unit {0})
dial c d none = (record c { force_close = false; sock = none }, err socket_not_created)
dial c d (some fd) =
    let connected = record c { force_close = false; sock = some fd } in
    let given_up = record c { force_close = false; sock = none } in
    if d.connects_at_once
    then (connected, ok tt)
    else if d.select_times_out
    then (given_up, err connection_timed_out)
    else if d.socket_error == 0
    then (connected, ok tt)
    else (given_up, err socket_connection_error)

unfoldable pub establish_connection : TcpConnect → Dialing → TcpConnect × Result (Unit {0})
unfolding dial
establish_connection c d = dial c d d.fresh_socket

is_none : Option ℕ → Bool
is_none none = true
is_none (some fd) = false

-- `force_close_.load() || sock == -1`
unfoldable pub is_closed : TcpConnect → Bool
unfolding is_none
is_closed c = c.force_close || is_none c.sock

-- `send_fails` is the outcome of `send`. The buffer holds BUFSIZ bytes; all messages are shorter.
unfoldable pub send_data : TcpConnect → Bytes → Bool → Result Bytes
unfolding is_closed
send_data c message send_fails =
    if is_closed c then err connection_closed else if send_fails then err send_error else ok message

-- What `recv` gives: a failure, with the flag as it is read behind the call, or bytes.
pub data Chunk : Type 0 where
  lost : Bool → Chunk
  received : Bytes → Chunk

-- One round of the reading loop: the flag is found set in front of `recv`, or `recv` is called.
pub data Round : Type 0 where
  closed_before : Round
  reads : Chunk → Round

-- `poll`: the flag is found set behind it; or it fails, with the flag as it is read again; or the
-- time is up; or there is something to read, and `recv` of the length prefix gives a chunk.
pub data Poll : Type 0 where
  closed_meanwhile : Poll
  failed : Bool → Poll
  timed_out : Poll
  ready : Chunk → Poll

pub data Received : Type 0 where
  returned : Bytes → Received
  thrown : Error → Received
  waiting : Received

abbrev terminated_or : Bool → Error → Error
terminated_or closed e = if closed then connection_terminated else e

-- `while (to_read > 0)`: `to_read` falls by what was read, and the loop ends at 0 or below. What is
-- read behind the last round stays in the socket.
pub receive_loop : ℕ → Bytes → List Round → Received
receive_loop zero message rounds = returned message
receive_loop (suc n) message [] = waiting
receive_loop (suc n) message (closed_before ∷ rest) = thrown connection_terminated
receive_loop (suc n) message (reads (lost closed) ∷ rest) = thrown (terminated_or closed read_error)
receive_loop (suc n) message (reads (received bytes) ∷ rest) =
    receive_loop (suc n - length bytes) (message ++ bytes) rest

-- The part behind the length prefix.
pub receive_body : ℕ → Bytes → List Round → Received
unfolding receive_loop
receive_body buffer_size message rounds =
    if ltb 100000 buffer_size then thrown too_much_data else receive_loop buffer_size message rounds

-- `buffer_size = utils::BytesToInt(message)`
pub receive_sized : Result ℕ → Bytes → List Round → Received
unfolding receive_body
receive_sized (ok word) message rounds = receive_body (to_size_t word) message rounds
receive_sized (err e) message rounds = thrown e

pub receive_polled : Poll → List Round → Received
unfolding receive_sized
receive_polled closed_meanwhile rounds = thrown connection_terminated
receive_polled (failed closed) rounds = thrown (terminated_or closed poll_error)
receive_polled timed_out rounds = thrown read_timed_out
receive_polled (ready (lost closed)) rounds = thrown (terminated_or closed read_error)
receive_polled (ready (received bytes)) rounds = receive_sized (bytes_to_int bytes) bytes rounds

-- `ReceiveData(buffer_size)`: 0 asks for a message with a length prefix.
unfoldable pub receive_data : TcpConnect → ℕ → Poll → List Round → Received
unfolding is_closed receive_body receive_polled
receive_data c buffer_size poll rounds =
    if is_closed c
    then thrown connection_closed
    else if buffer_size == 0
    then receive_polled poll rounds
    else receive_body buffer_size [] rounds
