-- ===== src/Net/PeerConnect.antt =====
-- `PeerConnect` of include/net/PeerConnect.hpp and src/net/PeerConnect.cpp: one connection to a
-- peer. The shared `PieceStorage&` is passed along: a `Session` is a connection with the storage as
-- the connection finds it. Logging and sleeping are left out. Between two calls on the storage other
-- threads may run (Net/PeerConnect/Swarm).
pub mod Handshake
pub mod Requests
pub mod Invariant
pub mod Search
pub mod Loop
pub mod Pending
pub mod Returns
pub mod Run
pub mod Swarm
use simple_torrent_client.Common.{
  ℕ, ◌+◌, ◌-◌, ◌/◌, ◌<◌, ◌^◌, Bool, true, false, not, ◌&&◌, ◌||◌, Option, none, some, List, [], ◌∷◌,
  ◌++◌, ltb, leb, ◌==◌, bytes_eq, if◌then◌else◌, length, drop, take, replicate, u8, u32, ◌>>◌,
  Error, Result, ok, err, ◌>>=◌, handshake_too_short, info_hash_mismatch, empty_message,
}
use simple_torrent_client.ByteTools.{Bytes, byte_at, substr, to_size_t, bytes_to_int, int_to_bytes}
use simple_torrent_client.Core.TorrentFile.{TorrentFile}
use simple_torrent_client.Core.Piece.{
  Block, Piece, all_blocks_retrieved, get_first_missing_block, hash_matches, reset, save_block,
}
use simple_torrent_client.Core.PieceStorage.{
  PieceStorage, enqueue, get_missing_pieces, get_next_piece_to_download, is_download_complete,
  is_piece_already_saved, piece_processed, queue_is_empty,
}
use simple_torrent_client.Net.Message.{
  Message, MessageId, choke, unchoke, have, piece, interested, request, parse, to_string,
}
use simple_torrent_client.Net.Message
use simple_torrent_client.Net.PiecesAvailability.{
  PeerPiecesAvailability, is_piece_available, set_piece_availability,
}
use simple_torrent_client.Net.TcpConnect.{TcpConnect, close_connection}
use simple_torrent_client.Net.TcpConnect

pub record PeerConnect : Type 0 where
  pub torrent_file : TorrentFile
  pub socket : TcpConnect
  pub self_peer_id : Bytes
  pub peer_id : Bytes
  pub pieces_availability : PeerPiecesAvailability
  pub is_terminated : Bool
  pub is_choked : Bool
  pub piece_is_in_progress : Option Piece
  pub block_is_pending : Bool
  pub has_failed : Bool

-- The timeouts of 3500 ms are those that the constructor passes to its socket.
unfoldable pub make : Bytes → ℕ → TorrentFile → Bytes → PeerConnect
make ip port t self_peer_id = record {
  torrent_file = t;
  socket = TcpConnect.make ip port 3500 3500;
  self_peer_id = self_peer_id;
  peer_id = [];
  pieces_availability = record { bitfield = []; size = 0 };
  is_terminated = false;
  is_choked = true;
  piece_is_in_progress = none;
  block_is_pending = false;
  has_failed = false;
}

pub record Session : Type 0 where
  pub connection : PeerConnect
  pub piece_storage : PieceStorage

-- "BitTorrent protocol"
abbrev pub protocol_name : Bytes
protocol_name =
    b'B' ∷ b'i' ∷ b't' ∷ b'T' ∷ b'o' ∷ b'r' ∷ b'r' ∷ b'e' ∷ b'n' ∷ b't' ∷ b' ' ∷ b'p' ∷ b'r' ∷ b'o'
    ∷ b't' ∷ b'o' ∷ b'c' ∷ b'o' ∷ b'l' ∷ []

unfoldable pub handshake_message : PeerConnect → Bytes
handshake_message c =
    19 ∷ (protocol_name ++ (replicate 8 0 ++ (c.torrent_file.info_hash ++ c.self_peer_id)))

-- `PerformHandshake` from the peer's answer on.
unfoldable pub accept_handshake : PeerConnect → Bytes → Result PeerConnect
accept_handshake c response =
    if ltb (length response) 68
    then err handshake_too_short
    else if not (bytes_eq (substr 28 20 response) c.torrent_file.info_hash)
    then err info_hash_mismatch
    else ok (record c { peer_id = substr 48 20 response })

-- `(piece_hashes.size() + 7) >> 3`
unfoldable pub bitfield_size : TorrentFile → ℕ
bitfield_size t = (length t.piece_hashes + 7) >> 3

-- `ReceiveBitfield` from the message received on. (On a message of four bytes `message[4]` is 0.)
unfoldable pub receive_bitfield : PeerConnect → Bytes → Result PeerConnect
unfolding bitfield_size
receive_bitfield c message = if length message == 0 then err empty_message else do
  word ← bytes_to_int (substr 0 4 message)
  let id = byte_at message 4
  let field : PeerPiecesAvailability = record {
    bitfield = drop 5 message;
    size = bitfield_size c.torrent_file;
  }
  if word == 0
      then ok c
      else if id == 1
      then ok (record c { is_choked = false })
      else if id == 5
      then ok (record c { pieces_availability = field })
      else ok c

-- The bytes that `SendInterested` sends.
unfoldable pub interested_message : Bytes
interested_message = to_string (Message.init interested [])

-- The bytes that `RequestPiece` sends.
unfoldable pub request_message : Block → Bytes
request_message b = to_string (
    Message.init request
      (int_to_bytes (u32 b.piece) ++ (int_to_bytes (u32 b.offset) ++ int_to_bytes (u32 b.length))))

-- `p->Reset(); piece_storage.Enqueue(p); p.reset();` on the piece in progress.
unfoldable pub give_back : Session → Piece → Session
give_back s p = record {
  connection = record s.connection { piece_is_in_progress = none };
  piece_storage = enqueue s.piece_storage (some (reset p));
}

-- The same under `if (piece_is_in_progress && !piece_is_in_progress->AllBlocksRetrieved())`.
pub give_back_unfinished : Session → Option Piece → Session
unfolding give_back
give_back_unfinished s none = s
give_back_unfinished s (some p) = if all_blocks_retrieved p then s else give_back s p

-- The cleanup of `HandleConnectionError`, which drops a piece that is saved already.
pub clean_up : Session → Option Piece → Session
unfolding give_back
clean_up s none = s
clean_up s (some p) =
    let dropped = record s { connection = record s.connection { piece_is_in_progress = none } } in
    if all_blocks_retrieved p
    then s
    else if is_piece_already_saved s.piece_storage p.index
    then dropped
    else give_back s p

abbrev with_connection : Session → PeerConnect → Session
with_connection s c = record s { connection = c }

unfoldable pub handle_connection_error : Session → Session
unfolding clean_up
handle_connection_error s =
    let failed = with_connection s (record s.connection { has_failed = true }) in
    let s' = clean_up failed s.connection.piece_is_in_progress in
    with_connection s' (record s'.connection {
      block_is_pending = false;
      socket = close_connection s'.connection.socket;
    })

unfoldable pub terminate : Session → Session
unfolding give_back_unfinished
terminate s =
    let ended = with_connection s (record s.connection { is_terminated = true }) in
    let s' = give_back_unfinished ended s.connection.piece_is_in_progress in
    with_connection s' (record s'.connection { socket = close_connection s'.connection.socket })

pub on_choke : Session → Session
unfolding give_back_unfinished
on_choke s =
    give_back_unfinished
      (with_connection s (record s.connection { is_choked = true; block_is_pending = false }))
      s.connection.piece_is_in_progress

-- `kHave`, on a payload of at least four bytes.
pub on_have : Session → Bytes → Result Session
on_have s payload = if ltb (length payload) 4 then ok s else do
  word ← bytes_to_int (substr 0 4 payload)
  let field = set_piece_availability s.connection.pieces_availability (to_size_t word)
  ok (with_connection s (record s.connection { pieces_availability = field }))

-- The piece in progress after a block of it has been saved, as `p`.
pub after_save : (Bytes → Bytes) → Session → Piece → Session
unfolding give_back
after_save sha1 s p =
    let answered = record s.connection {
      block_is_pending = false;
      piece_is_in_progress = some p;
    } in
    if not (all_blocks_retrieved p)
    then with_connection s answered
    else if hash_matches sha1 p
    then record {
      connection = record answered { piece_is_in_progress = none };
      piece_storage = piece_processed sha1 s.piece_storage (some p);
    }
    else give_back (with_connection s answered) p

-- A block for the piece in progress. `SaveBlock` throws before anything is changed.
pub on_block : (Bytes → Bytes) → Session → Option Piece → ℕ → ℕ → Bytes → Result Session
unfolding after_save
on_block sha1 s none piece_index block_offset block_data = ok s
on_block sha1 s (some p) piece_index block_offset block_data =
    if not (p.index == piece_index)
    then ok s
    else do p' ← save_block p block_offset block_data; ok (after_save sha1 s p')

-- `kPiece`, on a payload of at least eight bytes.
pub on_piece : (Bytes → Bytes) → Session → Bytes → Result Session
unfolding on_block
on_piece sha1 s payload = if ltb (length payload) 8 then ok s else do
  index ← bytes_to_int (substr 0 4 payload)
  offset ← bytes_to_int (substr 4 4 payload)
  on_block sha1 s s.connection.piece_is_in_progress (to_size_t index) (to_size_t offset)
      (drop 8 payload)

-- The `switch` of `ProcessMessage`.
pub dispatch : (Bytes → Bytes) → Session → MessageId → Bytes → Result Session
unfolding on_choke on_have on_piece
dispatch sha1 s choke payload = ok (on_choke s)
dispatch sha1 s unchoke payload = ok (with_connection s (record s.connection { is_choked = false }))
dispatch sha1 s have payload = on_have s payload
dispatch sha1 s piece payload = on_piece sha1 s payload
dispatch sha1 s id payload = ok s

-- An exception leaves the session as it was: it is thrown before anything is changed.
unfoldable pub process_message : (Bytes → Bytes) → Session → Bytes → Result Session
unfolding dispatch
process_message sha1 s message_data = do
  message ← parse message_data
  dispatch sha1 s message.id message.payload
