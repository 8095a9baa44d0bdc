-- ===== src/Tests/Runs.antt =====
-- Connecting, and the retry loop.
use simple_torrent_client.Common.{List, ◌++◌, 
  ℕ, zero, suc, true, false, some, [], ◌∷◌, ◌≡◌, refl, arith, replicate, All, bytes_eq,
}
use simple_torrent_client.ByteTools.{bytes_to_int, to_size_t}
use simple_torrent_client.Core.PieceStorage.Integrity.{initial, initial-IsValid}
use simple_torrent_client.Net.TcpConnect.{
  Poll, timed_out, ready, received, reads, establish_connection, receive_data, send_data,
}
use simple_torrent_client.Net.TcpConnect
use simple_torrent_client.Net.PeerConnect.{
  PeerConnect, Session, handshake_message, accept_handshake, receive_bitfield, interested_message,
}
use simple_torrent_client.Net.PeerConnect
use simple_torrent_client.Net.PeerConnect.Loop.Steady.{IsSteady}
use simple_torrent_client.Net.PeerConnect.Loop.{Weather}
use simple_torrent_client.Net.PeerConnect.Loop.Rounds.{IsUndisturbed}
use simple_torrent_client.Net.PeerConnect.Run.{
  Greeting, Try, Established, connected, establish, run,
}
use simple_torrent_client.Net.PeerConnect.Run.Greeted.{Settles, establish-Settles}
use simple_torrent_client.Net.PeerConnect.Run.Safety.{EndsWell, run-EndsWell}
use simple_torrent_client.Net.PeerConnect.Run.GivesUp.{
  Refuses, StillTries, GivenUp, run-gives_up,
}
use simple_torrent_client.Tests.Torrents.{plain, three, three-IsTorrent}

abbrev peer : PeerConnect
peer = PeerConnect.make [] 6881 three (replicate 20 1)

abbrev other_peer : PeerConnect
other_peer = PeerConnect.make [] 6882 three (replicate 20 2)

abbrev session : Session
session = record { connection = peer; piece_storage = initial three }

session-IsSteady : IsSteady plain three three-IsTorrent session
unfolding PeerConnect.make
session-IsSteady = record {
  valid = record { storage = initial-IsValid plain three; held = tt };
  pending = tt;
}

-- No connection comes about.
abbrev unreachable : Greeting
unreachable = record {
  dialing = record {
    fresh_socket = some 3;
    connects_at_once = false;
    select_times_out = true;
    socket_error = 0;
  };
  handshake_send_fails = false;
  handshake_rounds = [];
  poll = timed_out;
  rounds = [];
  interested_send_fails = false;
}

-- The peer answers the handshake and unchokes.
abbrev friendly : Greeting
friendly = record {
  dialing = record {
    fresh_socket = some 3;
    connects_at_once = true;
    select_times_out = false;
    socket_error = 0;
  };
  handshake_send_fails = false;
  handshake_rounds = reads (received (handshake_message other_peer)) ∷ [];
  poll = ready (received (0 ∷ 0 ∷ 0 ∷ 1 ∷ []));
  rounds = reads (received (1 ∷ [])) ∷ [];
  interested_send_fails = false;
}

abbrev IsUnchoked : Established → Type 0
IsUnchoked (connected c) = c.is_choked ≡ false
IsUnchoked _ = ⊥

connects : IsUnchoked (establish friendly peer)
unfolding establish handshake_message accept_handshake receive_bitfield establish_connection
    receive_data send_data bytes_to_int to_size_t PeerConnect.make TcpConnect.make bytes_eq
connects = refl

establish-Settles_example : Settles friendly peer (establish friendly peer)
establish-Settles_example = establish-Settles friendly peer

abbrev futile : Try
futile = record {
  terminated_before = false;
  terminated_meanwhile = false;
  greeting = unreachable;
  times = record { last_activity_time = 0; last_block_request_time = 0 };
  rounds = [];
}

futile-Refuses : Refuses futile
unfolding establish establish_connection
futile-Refuses = record { before = refl; meanwhile = refl; refuses = λ c. (_, refl) }

All-replicate : (n : ℕ) → All Refuses (replicate n futile)
All-replicate zero = tt
All-replicate (suc n) = (futile-Refuses, All-replicate n)

usable : session.connection.is_terminated ≡ false
unfolding PeerConnect.make
usable = refl

-- The peer is reached, and sends nothing in the first round; the main thread terminates the connection
-- in front of the second.
abbrev silent : Weather
silent = record {
  terminated_before = false;
  terminated_at_start = false;
  terminated_behind_tests = false;
  terminated_before_request = false;
  now = 1000;
  now_after = 1000;
  search_rounds = 5;
  send_fails = false;
  poll = ready (received (0 ∷ 0 ∷ 0 ∷ 0 ∷ []));
  rounds = [];
}

abbrev left : List Try
left =
    record futile {
      greeting = friendly;
      rounds = silent ∷ record silent { terminated_before = true } ∷ [];
    }
    ∷ futile ∷ []

quiet : IsUndisturbed silent × IsUndisturbed (record silent { terminated_before = true }) × Unit {0}
quiet = (
  record { at_start = refl; behind_tests = refl; before_request = refl },
  record { at_start = refl; behind_tests = refl; before_request = refl },
  tt,
)

run-EndsWell_example : EndsWell plain three three-IsTorrent (run plain left 0 session)
run-EndsWell_example =
    run-EndsWell plain three three-IsTorrent left 0 session
      ((quiet.0, (quiet.1, tt)), (tt, tt)) session-IsSteady

run-gives_up_example :
    StillTries (run plain (replicate 19 futile) 0 session)
    × GivenUp (run plain (replicate 19 futile ++ futile ∷ []) 0 session)
run-gives_up_example =
    run-gives_up plain (replicate 19 futile) (futile ∷ []) 0 session usable (All-replicate 19)
      (futile-Refuses, tt) (omega arith) (omega arith)
