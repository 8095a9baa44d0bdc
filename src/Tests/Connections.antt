-- ===== src/Tests/Connections.antt =====
-- Connections, the search and the main loop.
use simple_torrent_client.Common.{
  ◌↔◌, ◌||◌, true, false, some, [], ◌∷◌, ◌++◌, ◌≡◌, refl, arith, replicate, ok,
}
use simple_torrent_client.ByteTools.{Bytes, to_size_t, bytes_to_int}
use simple_torrent_client.Core.Piece.{make, all_blocks_retrieved}
use simple_torrent_client.Core.PieceStorage.{
  piece_length_at, new_piece, new_pieces, get_missing_pieces,
}
use simple_torrent_client.Core.PieceStorage.Integrity.{initial, initial-IsValid}
use simple_torrent_client.Net.PiecesAvailability.{is_piece_available}
use simple_torrent_client.Net.TcpConnect.{reads, received, ready, is_closed}
use simple_torrent_client.Net.PeerConnect.{
  PeerConnect, Session, handle_connection_error, terminate, process_message, accept_handshake,
  handshake_message,
}
use simple_torrent_client.Net.PeerConnect
use simple_torrent_client.Net.PeerConnect.Invariant.{IsValid, Keeps, process_message-Keeps}
use simple_torrent_client.Net.PeerConnect.Search.{found, get_next_available_piece, is_wanted}
use simple_torrent_client.Net.PeerConnect.Search.Finds.{get_next_available_piece-found}
use simple_torrent_client.Net.PeerConnect.Loop.{Times, Weather, crashes, main_loop_round}
use simple_torrent_client.Net.PeerConnect.Loop.Steady.{IsSteady}
use simple_torrent_client.Net.Message.{Message, choke, parse, message_id}
use simple_torrent_client.Net.PeerConnect.Returns.{
  GivesBack, handle_connection_error-GivesBack, terminate-GivesBack, process_message_choke,
}
use simple_torrent_client.Net.PeerConnect.Loop.Timeouts.{WaitsFor, main_loop_round-crashes}
use simple_torrent_client.Tests.Torrents.{plain, three, three-IsTorrent}

abbrev peer : PeerConnect
peer = PeerConnect.make [] 6881 three (replicate 20 1)

abbrev session : Session
session = record { connection = peer; piece_storage = initial three }

session-IsValid : IsValid plain three session
unfolding PeerConnect.make
session-IsValid = record { storage = initial-IsValid plain three; held = tt }

session-IsSteady : IsSteady plain three three-IsTorrent session
unfolding PeerConnect.make
session-IsSteady = record { valid = session-IsValid; pending = tt }

-- `kChoke`.
abbrev choking : Bytes
choking = 0 ∷ 0 ∷ 0 ∷ 1 ∷ 0 ∷ []

process_message-Keeps_example :
    Keeps plain three three-IsTorrent (process_message plain session choking)
process_message-Keeps_example =
    process_message-Keeps plain three three-IsTorrent session choking session-IsValid

-- The same connection with the first piece in progress, and a block of it requested.
abbrev busy_session : Session
busy_session = record session {
  connection = record peer {
    piece_is_in_progress = some (new_piece three 3 0);
    is_choked = false;
    block_is_pending = true;
  };
}

unfinished : all_blocks_retrieved (new_piece three 3 0) ≡ false
unfolding all_blocks_retrieved new_piece make piece_length_at
unfinished = refl

handle_connection_error-GivesBack_example :
    GivesBack busy_session (new_piece three 3 0) (handle_connection_error busy_session)
    × ((handle_connection_error busy_session).connection.block_is_pending ≡ false)
    × (is_closed (handle_connection_error busy_session).connection.socket ≡ true)
handle_connection_error-GivesBack_example =
    handle_connection_error-GivesBack busy_session (new_piece three 3 0) refl unfinished

terminate-GivesBack_example :
    GivesBack busy_session (new_piece three 3 0) (terminate busy_session)
    × (is_closed (terminate busy_session).connection.socket ≡ true)
terminate-GivesBack_example = terminate-GivesBack busy_session (new_piece three 3 0) refl unfinished

abbrev choke_message : Message
choke_message = record { id = choke; message_length = 1; payload = [] }

choke_lem : parse choking ≡ ok choke_message
unfolding parse bytes_to_int to_size_t message_id
choke_lem = refl

process_message_choke_example :
    (s' : Session) × (process_message plain busy_session choking ≡ ok s')
    × GivesBack busy_session (new_piece three 3 0) s'
    × (s'.connection.is_choked ≡ true)
    × (s'.connection.block_is_pending ≡ false)
process_message_choke_example =
    process_message_choke plain busy_session (new_piece three 3 0) choking choke_message choke_lem
      refl refl unfinished

abbrev weather : Weather
weather = record {
  terminated_before = false;
  terminated_at_start = false;
  terminated_behind_tests = false;
  terminated_before_request = false;
  now = 1000;
  now_after = 1200;
  search_rounds = 5;
  send_fails = false;
  poll = ready (received (0 ∷ 0 ∷ 0 ∷ 1 ∷ []));
  rounds = reads (received (1 ∷ [])) ∷ [];
}

abbrev times : Times
times = record { last_activity_time = 900; last_block_request_time = 0 }

abbrev late : Weather
late = record weather { now = 20000 }

abbrev recent : Times
recent = record { last_activity_time = 4000; last_block_request_time = 4000 }

-- The main thread ends the connection behind the test of the loop.
abbrev unlucky : Weather
unlucky = record late { terminated_at_start = true }

waits : WaitsFor busy_session (new_piece three 3 0)
waits = record { pending = refl; held = refl; unfinished = unfinished }

main_loop_round-crashes_example :
    (main_loop_round plain unlucky busy_session recent ≡ crashes)
    ↔ ((unlucky.terminated_at_start || unlucky.terminated_behind_tests) ≡ true)
main_loop_round-crashes_example =
    main_loop_round-crashes plain unlucky busy_session recent (new_piece three 3 0) (omega arith)
      (omega arith) waits

-- At most ten pieces are missing, so the first of the queue is taken at once.
wanted : is_wanted peer.pieces_availability session.piece_storage (new_piece three 3 0) ≡ true
unfolding is_wanted is_piece_available get_missing_pieces PeerConnect.make new_piece make
wanted = refl

queue_lem :
    session.piece_storage.remaining_pieces_queue
    ≡ [] ++ new_piece three 3 0 ∷ new_piece three 3 1 ∷ new_piece three 3 2 ∷ []
unfolding new_pieces
queue_lem = refl

usable : peer.is_terminated ≡ false
unfolding PeerConnect.make
usable = refl

get_next_available_piece-found_example :
    (get_next_available_piece 1 peer session.piece_storage).1 ≡ found (new_piece three 3 0)
get_next_available_piece-found_example =
    get_next_available_piece-found 1 peer session.piece_storage []
      (new_piece three 3 1 ∷ new_piece three 3 2 ∷ []) (new_piece three 3 0) usable queue_lem tt
      wanted (omega arith)
