-- ===== src/Tests/Client.antt =====
-- A client downloads a torrent of one piece from one peer, which one tracker names.
use simple_torrent_client.Common.{
  ℕ, length, Bool, leb, bytes_eq, not, ◌&&◌, true, false, Option, none, some, List, [], ◌∷◌, ◌++◌,
  ◌≡◌, refl, ◌∙◌, ap, arith, Result, ok, err,
}
use simple_torrent_client.Common.Order.{sort, insert, unique, unique_from}
use simple_torrent_client.ByteTools.{Bytes, bytes_to_int, to_size_t}
use simple_torrent_client.Decimal.{stoi, leading_number}
use simple_torrent_client.Bencode.{ends}
use simple_torrent_client.Bencode.Values.{encode}
use simple_torrent_client.Bencode.Steps.{>>=-ends}
use simple_torrent_client.Net.Peer.{Peer}
use simple_torrent_client.Net.UdpClient
use simple_torrent_client.Net.Message.{parse, message_id}
use simple_torrent_client.Net.PeerConnect.{PeerConnect, Session, process_message}
use simple_torrent_client.Net.PeerConnect
use simple_torrent_client.Net.PeerConnect.Swarm.{
  Swarm, requests, processes, acts, takes, keeps, working_on, Reach, here, next,
}
use simple_torrent_client.Core.OutputFile.{seek_write}
use simple_torrent_client.Core.Piece.{Piece, get_first_missing_block}
use simple_torrent_client.Core.Piece
use simple_torrent_client.Core.PieceStorage.{
  PieceStorage, get_missing_pieces, piece_processed, piece_length_at, new_pieces,
  get_next_piece_to_download, new_piece, is_download_complete, queue_is_empty, close_output_file,
  pieces_saved_to_disc_count,
}
use simple_torrent_client.Core.PieceStorage.Invariant.{IsTorrent, StoredIn}
use simple_torrent_client.Core.PieceStorage.Integrity.{initial, initial-IsValid, init_lem}
use simple_torrent_client.Core.TorrentFile.{TorrentFile}
use simple_torrent_client.Core.TorrentFile.Load.{load_torrent_file-torrent_value}
use simple_torrent_client.Core.PeerOrder.{bytes_order, bytes_lt}
use simple_torrent_client.Core.TorrentTracker.{
  convert_tracker_peer, is_udp_tracker, parse_udp_url, host_and_port, split_at, before, ask,
  udp_peers, update_peers_udp,
}
use simple_torrent_client.Core.TorrentTracker.Update.{
  update_peers, try_trackers, all_trackers, others, update_from,
}
use simple_torrent_client.Core.TorrentClient.{
  init_peer_id, default_peer_id, known_trackers, may_go_on, Setting, Cycle, unique_trackers,
  unique_peers, gather, asks, RunsDownload, downloads, leaves_loop, prepare, DownloadsFromTracker,
  tries_again, is_done, completion, DownloadsTorrent, returns,
}
use simple_torrent_client.Core.TorrentClient.Cycles.{DownloadsFromTracker-StoredIn}
use simple_torrent_client.Core.TorrentClient.Download.{hashed, DownloadsTorrent-StoredIn}
use simple_torrent_client.Tests.Encoded.{
  further, maker, further-AreOthers, maker-AreOthers, torrent, constant, one_hash, published,
  published-IsPublished,
}
use simple_torrent_client.Tests.Peers.{
  one_peer, response_fuel, no_network, get, context, asked_http,
}

abbrev t : TorrentFile
t = record published { info_hash = one_hash }

abbrev loading_fuel : ℕ
loading_fuel = response_fuel

abbrev listed : Peer
listed = convert_tracker_peer one_peer

abbrev peer : PeerConnect
peer = PeerConnect.make listed.ip listed.port t one_hash

abbrev session_0 : Session
session_0 = record { connection = peer; piece_storage = initial t }

abbrev taken : Session
taken = record session_0 { piece_storage = (get_next_piece_to_download (initial t)).0 }

abbrev in_hand : Option Piece
in_hand = (get_next_piece_to_download (initial t)).1

abbrev session_1 : Session
session_1 = working_on taken in_hand

abbrev piece_0 : Piece
piece_0 = new_piece t 1 0

abbrev session_2 : Session
session_2 = record session_1 {
  connection = record session_1.connection {
    piece_is_in_progress = some (get_first_missing_block piece_0).0;
    block_is_pending = true;
  };
}

-- The message `kPiece` with the bytes 7 and 8.
abbrev answer : Bytes
answer = 0 ∷ 0 ∷ 0 ∷ 11 ∷ 7 ∷ 0 ∷ 0 ∷ 0 ∷ 0 ∷ 0 ∷ 0 ∷ 0 ∷ 0 ∷ 7 ∷ 8 ∷ []

abbrev ok_or : Session → Result Session → Session
ok_or s (ok s') = s'
ok_or s (err e) = s

abbrev session_3 : Session
session_3 = ok_or session_2 (process_message constant session_2 answer)

found_piece_0 : session_1.connection.piece_is_in_progress ≡ some piece_0
unfolding get_next_piece_to_download new_pieces PeerConnect.make new_piece Piece.make
    get_missing_pieces
found_piece_0 = refl

answered : process_message constant session_2 answer ≡ ok session_3
unfolding process_message get_next_piece_to_download new_pieces get_first_missing_block new_piece
    Piece.make PeerConnect.make parse bytes_to_int to_size_t message_id Piece.save_block
    piece_length_at
answered = refl

abbrev swarm_of : Session → Swarm
swarm_of s = record {
  storage = s.piece_storage;
  workers = record { connection = s.connection; in_hand = none } ∷ [];
}

-- The thread of the connection takes the piece, keeps it, requests its block and gets it.
threads : Reach constant t (swarm_of session_0) (swarm_of session_3)
threads =
    next
      (next
        (next
          (next here (
            acts 0 (record { connection = peer; in_hand = none }) taken in_hand refl
              (takes refl refl) refl))
          (acts 0 (record { connection = peer; in_hand = in_hand }) session_1 none refl
            (keeps refl refl) refl))
        (acts 0 (record { connection = session_1.connection; in_hand = none }) session_2 none refl
          (requests piece_0 found_piece_0 refl refl) refl))
      (acts 0 (record { connection = session_2.connection; in_hand = none }) session_3 none refl
        (processes answer answered refl) refl)

complete : is_download_complete session_3.piece_storage ≡ true
unfolding process_message get_next_piece_to_download new_pieces get_first_missing_block new_piece
    Piece.make PeerConnect.make is_download_complete parse bytes_to_int to_size_t message_id
    Piece.save_block piece_length_at Piece.all_blocks_retrieved Piece.hash_matches piece_processed
    get_missing_pieces
complete = refl

abbrev setting : Setting
setting = record { sha1 = constant; fuel = loading_fuel; torrent_file = t; peer_id = one_hash }

abbrev other_trackers : List Bytes
other_trackers = unique bytes_order (sort bytes_order known_trackers)

sorted : unique_trackers t.announce ≡ t.announce ∷ other_trackers
unfolding unique_trackers unique sort insert unique_from bytes_lt bytes_eq
sorted = refl

-- The other trackers are not reached.
unreached : gather context other_trackers (listed ∷ []) ≡ ends (listed ∷ [])
unfolding gather unique sort insert unique_from bytes_lt update_peers try_trackers all_trackers
    is_udp_tracker others update_from update_peers_udp udp_peers parse_udp_url host_and_port
    split_at ask UdpClient.init bytes_eq before stoi leading_number
unreached = refl

asked : asks setting no_network get ≡ ends (listed ∷ [])
unfolding gather
asked =
    ap (λ (urls : List Bytes). gather context urls []) sorted
    ∙ (>>=-ends
          (λ r.
            gather context other_trackers
              (elim r.thrown [ none ↦ [] ++ r.tracker.peers | some e ↦ [] ]))
          asked_http
        ∙ unreached)

abbrev start : Cycle
start = record { storage = initial t; is_terminated = false; retry_count = 0 }

abbrev finished : Cycle
finished = record { storage = session_3.piece_storage; is_terminated = true; retry_count = 0 }

downloaded : RunsDownload constant t one_hash (unique_peers (listed ∷ [])) (prepare start) finished
unfolding prepare queue_is_empty new_pieces unique_peers unique sort insert unique_from
downloaded = downloads 0 refl threads (leaves_loop complete) here

done : may_go_on finished ≡ false
done = refl

begun : may_go_on start ≡ true
unfolding is_download_complete
begun = refl

whole : DownloadsFromTracker setting start finished
whole =
    tries_again no_network get (listed ∷ []) begun asked refl downloaded
      (ap (λ (b : Bool). not b && leb 10 0) complete) (is_done done)

published-IsTorrent : IsTorrent published
published-IsTorrent = record { positive = omega arith; small = omega arith }

t-IsTorrent : IsTorrent t
t-IsTorrent = record { positive = omega arith; small = omega arith }

DownloadsFromTracker-StoredIn_example :
    (is_download_complete session_3.piece_storage ≡ true)
    × StoredIn constant t session_3.piece_storage.file.contents 0
DownloadsFromTracker-StoredIn_example =
    DownloadsFromTracker-StoredIn constant t t-IsTorrent loading_fuel one_hash {x = start}
      {z = finished} 0 (initial-IsValid constant t) refl whole (omega arith)

abbrev saved : PieceStorage
saved = close_output_file session_3.piece_storage

percent : completion saved 1 ≡ some 100
unfolding completion process_message get_next_piece_to_download new_pieces get_first_missing_block
    new_piece Piece.make PeerConnect.make parse bytes_to_int to_size_t message_id close_output_file
    pieces_saved_to_disc_count Piece.save_block piece_length_at Piece.all_blocks_retrieved
    Piece.hash_matches piece_processed get_missing_pieces seek_write
percent = refl

client : DownloadsTorrent constant loading_fuel one_hash (encode torrent ++ []) saved
client =
    returns 5 6 100 t (initial t) finished
      (load_torrent_file-torrent_value further maker published further-AreOthers maker-AreOthers
        published-IsPublished constant loading_fuel 5 6 [] (omega arith))
      (init_lem t (omega arith) (omega arith)) whole refl percent

DownloadsTorrent-StoredIn_example :
    StoredIn constant (hashed constant published) saved.file.contents 0
DownloadsTorrent-StoredIn_example =
    DownloadsTorrent-StoredIn constant loading_fuel one_hash further maker published [] saved
      further-AreOthers maker-AreOthers published-IsPublished published-IsTorrent (omega arith)
      client 0 (omega arith)

-- The identifier that the constructor makes has the 20 bytes that a UDP tracker wants.
identifier_size : (letter : ℕ → ℕ) → length (init_peer_id letter default_peer_id) ≡ 20
unfolding init_peer_id
identifier_size letter = refl

-- Without pieces the percentage is a division by zero.
no_percentage : completion saved 0 ≡ none
unfolding completion
no_percentage = refl
