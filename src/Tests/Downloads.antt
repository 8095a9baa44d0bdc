-- ===== src/Tests/Downloads.antt =====
-- A whole download: a connection joins, takes the piece, requests its block and gets it.
use simple_torrent_client.Common.{
  true, Option, none, some, [], ◌∷◌, ◌≡◌, refl, arith, replicate, Result, ok, err,
}
use simple_torrent_client.ByteTools.{Bytes, bytes_to_int, to_size_t}
use simple_torrent_client.Core.Piece.{Piece, get_first_missing_block}
use simple_torrent_client.Core.Piece
use simple_torrent_client.Net.Message.{parse, message_id}
use simple_torrent_client.Core.PieceStorage.{
  get_missing_pieces, piece_processed, piece_length_at, new_pieces, get_next_piece_to_download,
  new_piece, is_download_complete,
}
use simple_torrent_client.Core.PieceStorage.Invariant.{StoredIn}
use simple_torrent_client.Core.PieceStorage.Integrity.{initial, initial-IsValid}
use simple_torrent_client.Net.PeerConnect.{PeerConnect, Session, process_message}
use simple_torrent_client.Net.PeerConnect
use simple_torrent_client.Net.PeerConnect.Swarm.{
  Swarm, requests, processes, acts, joins, takes, keeps, working_on, Reach, here, next, start,
}
use simple_torrent_client.Net.PeerConnect.Swarm.Safety.{
  Reach-is_download_complete, Reach-IsSound, IsSound,
}
use simple_torrent_client.Tests.Torrents.{plain, tiny, tiny-IsTorrent}

abbrev peer : PeerConnect
peer = PeerConnect.make [] 6881 tiny (replicate 20 1)

abbrev session_0 : Session
session_0 = record { connection = peer; piece_storage = initial tiny }

-- The piece is taken from the queue, and then kept.
abbrev taken : Session
taken = record session_0 { piece_storage = (get_next_piece_to_download (initial tiny)).0 }

abbrev in_hand : Option Piece
in_hand = (get_next_piece_to_download (initial tiny)).1

abbrev session_1 : Session
session_1 = working_on taken in_hand

abbrev piece_0 : Piece
piece_0 = new_piece tiny 1 0

abbrev session_2 : Session
session_2 = record session_1 {
  connection = record session_1.connection {
    piece_is_in_progress = some (get_first_missing_block piece_0).0;
    block_is_pending = true;
  };
}

-- The message `kPiece` with the bytes 7 and 8.
abbrev answer : Bytes
answer = 0 ∷ 0 ∷ 0 ∷ 11 ∷ 7 ∷ 0 ∷ 0 ∷ 0 ∷ 0 ∷ 0 ∷ 0 ∷ 0 ∷ 0 ∷ 7 ∷ 8 ∷ []

abbrev ok_or : Session → Result Session → Session
ok_or s (ok s') = s'
ok_or s (err e) = s

abbrev pub session_3 : Session
session_3 = ok_or session_2 (process_message plain session_2 answer)

abbrev swarm_of : Session → Swarm
swarm_of s = record {
  storage = s.piece_storage;
  workers = record { connection = s.connection; in_hand = none } ∷ [];
}

found_piece_0 : session_1.connection.piece_is_in_progress ≡ some piece_0
unfolding get_next_piece_to_download new_pieces PeerConnect.make new_piece Piece.make
    get_missing_pieces
found_piece_0 = refl

answered : process_message plain session_2 answer ≡ ok session_3
unfolding process_message get_next_piece_to_download new_pieces get_first_missing_block new_piece
    Piece.make PeerConnect.make parse bytes_to_int to_size_t message_id Piece.save_block
    piece_length_at
answered = refl

download : Reach plain tiny (start tiny) (swarm_of session_3)
download =
    next
      (next
        (next
          (next (next here (joins [] 6881 (replicate 20 1) refl)) (
            acts 0 (record { connection = peer; in_hand = none }) taken in_hand refl
              (takes refl refl) refl))
          (acts 0 (record { connection = peer; in_hand = in_hand }) session_1 none refl
            (keeps refl refl) refl))
        (acts 0 (record { connection = session_1.connection; in_hand = none }) session_2 none refl
          (requests piece_0 found_piece_0 refl refl) refl))
      (acts 0 (record { connection = session_2.connection; in_hand = none }) session_3 none refl
        (processes answer answered refl) refl)

pub complete : is_download_complete session_3.piece_storage ≡ true
unfolding process_message get_next_piece_to_download new_pieces get_first_missing_block new_piece
    Piece.make PeerConnect.make is_download_complete parse bytes_to_int to_size_t message_id
    Piece.save_block piece_length_at Piece.all_blocks_retrieved Piece.hash_matches piece_processed
    get_missing_pieces
complete = refl

Reach-is_download_complete_example : StoredIn plain tiny session_3.piece_storage.file.contents 0
Reach-is_download_complete_example =
    Reach-is_download_complete plain tiny tiny-IsTorrent download complete 0 (omega arith)

-- The state reached is sound, from the sound state at the start.
Reach-IsSound_example : IsSound plain tiny tiny-IsTorrent (swarm_of session_3)
Reach-IsSound_example =
    Reach-IsSound plain tiny tiny-IsTorrent
      (record { storage = initial-IsValid plain tiny; held = tt }) download
