-- ===== src/Tests/Sockets.antt =====
-- The handshake, and reading from a socket.
use simple_torrent_client.Common.{
  ◌≤◌, false, some, List, [], ◌∷◌, ◌++◌, ◌≡◌, refl, arith, length, replicate, ok,
}
use simple_torrent_client.ByteTools.{Bytes, to_size_t, bytes_to_int}
use simple_torrent_client.Net.TcpConnect.{
  TcpConnect, Round, reads, received, ready, is_closed, returned, receive_data,
}
use simple_torrent_client.Net.TcpConnect.Receive.{
  Read, stream, receive_data-Read, receive_data_exact,
}
use simple_torrent_client.Net.PeerConnect.{
  PeerConnect, Session, handle_connection_error, terminate, process_message, accept_handshake,
  handshake_message,
}
use simple_torrent_client.Net.PeerConnect
use simple_torrent_client.Net.PeerConnect.Handshake.{accept_handshake-handshake_message}
use simple_torrent_client.Tests.Torrents.{three}

abbrev peer : PeerConnect
peer = PeerConnect.make [] 6881 three (replicate 20 1)

abbrev other_peer : PeerConnect
other_peer = PeerConnect.make [] 6882 three (replicate 20 2)

same_torrent : peer.torrent_file.info_hash ≡ other_peer.torrent_file.info_hash
unfolding PeerConnect.make
same_torrent = refl

hash_size : length other_peer.torrent_file.info_hash ≡ 20
unfolding PeerConnect.make
hash_size = refl

id_size : length other_peer.self_peer_id ≡ 20
unfolding PeerConnect.make
id_size = refl

accept_handshake-handshake_message_example :
    accept_handshake peer (handshake_message other_peer)
    ≡ ok (record peer { peer_id = other_peer.self_peer_id })
accept_handshake-handshake_message_example =
    accept_handshake-handshake_message peer other_peer same_torrent hash_size id_size

abbrev socket : TcpConnect
socket = record {
  ip = [];
  port = 6881;
  connect_timeout = 3500;
  read_timeout = 3500;
  force_close = false;
  sock = some 4;
}

-- Two bytes are asked for, and come in two chunks; the second brings one byte too many.
abbrev prefix : Bytes
prefix = 0 ∷ 0 ∷ 0 ∷ 2 ∷ []

abbrev chunks : List Round
chunks = reads (received (9 ∷ [])) ∷ reads (received (8 ∷ 7 ∷ [])) ∷ []

prefix_lem : bytes_to_int prefix ≡ ok 2
unfolding bytes_to_int
prefix_lem = refl

read_too_much :
    receive_data socket 0 (ready (received prefix)) chunks
    ≡ returned (0 ∷ 0 ∷ 0 ∷ 2 ∷ 9 ∷ 8 ∷ 7 ∷ [])
unfolding receive_data bytes_to_int to_size_t
read_too_much = refl

receive_data-Read_example :
    Read (to_size_t 2) (to_size_t 2) prefix chunks (0 ∷ 0 ∷ 0 ∷ 2 ∷ 9 ∷ 8 ∷ 7 ∷ [])
    × (to_size_t 2 ≤ 100000)
unfolding to_size_t
receive_data-Read_example =
    receive_data-Read socket prefix chunks 2 (0 ∷ 0 ∷ 0 ∷ 2 ∷ 9 ∷ 8 ∷ 7 ∷ []) prefix_lem
      (omega arith) (omega arith) read_too_much

abbrev exact : List Round
exact = reads (received (9 ∷ [])) ∷ reads (received (8 ∷ [])) ∷ []

receive_data_exact_example :
    receive_data socket 0 (ready (received prefix)) exact ≡ returned (prefix ++ stream exact)
unfolding to_size_t is_closed
receive_data_exact_example =
    receive_data_exact socket prefix exact 2 refl prefix_lem (omega arith) refl (omega arith)
