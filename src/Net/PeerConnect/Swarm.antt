-- ===== src/Net/PeerConnect/Swarm.antt =====
-- All connections of a download with their shared storage, as the threads of
-- src/core/TorrentClient.cpp (RunDownloadMultithread) run them. A step is what one thread does
-- between two moments at which another may run. It makes one changing call on the storage at most,
-- which counts as a single step; what a thread has read from the storage before may be out of date.
pub mod Safety
pub mod Growing
use mathlib.Core.Option.{some-injective}
use simple_torrent_client.Common.{
  ℕ, suc, zero, ◌+◌, ◌<◌, Bool, true, false, Option, none, some, List, [], ◌∷◌, ◌++◌, ◌≡◌, refl,
  sym, ap, subst, ◌∙◌, arith, length, get_elem?, set, get_or, Result, ok, err, All, All-append,
}
use simple_torrent_client.ByteTools.{Bytes}
use simple_torrent_client.Core.TorrentFile.{TorrentFile}
use simple_torrent_client.Core.Piece.{Piece, get_first_missing_block}
use simple_torrent_client.Core.Piece.Invariant.{get_first_missing_block-IsValid}
use simple_torrent_client.Core.PieceStorage.{
  PieceStorage, enqueue, get_next_piece_to_download, force_requeue_missing_pieces,
  is_download_complete,
}
use simple_torrent_client.Core.PieceStorage.Invariant.{
  get_first_missing_block-IsPieceOf, IsTorrent, total_of, IsPieceOf, StoredIn, enqueue-IsValid,
  get_next_piece_to_download-IsValid,
}
use simple_torrent_client.Core.PieceStorage.Invariant
use simple_torrent_client.Core.PieceStorage.Integrity.{
  initial, initial-IsValid, force_requeue_missing_pieces-IsValid, is_download_complete-StoredIn,
}
use simple_torrent_client.Net.PeerConnect.{
  PeerConnect, Session, make, accept_handshake, receive_bitfield, give_back,
  handle_connection_error, process_message, terminate,
}
use simple_torrent_client.Net.PeerConnect.Invariant.{
  HoldsPieceOf, IsValid, IsValid-of, give_back-IsValid, handle_connection_error-IsValid,
  terminate-IsValid, Keeps, process_message-Keeps,
}

-- A thread and its connection; `in_hand` is the local variable `piece` of `GetNextAvailablePiece`.
pub record Worker : Type 0 where
  pub connection : PeerConnect
  pub in_hand : Option Piece

abbrev pub working_on : Session → Option Piece → Session
working_on s o = record s { connection = record s.connection { piece_is_in_progress = o } }

-- What the thread of one connection does in a step: its session and the piece in its hand, before
-- and afterwards.
pub data Act (sha1 : Bytes → Bytes) (s : Session) (o : Option Piece) (s' : Session)
    (o' : Option Piece) : Type 0 where
  -- `GetNextPieceToDownload` in `GetNextAvailablePiece`
  takes :
      s' ≡ record s { piece_storage = (get_next_piece_to_download s.piece_storage).0 }
      → o' ≡ (get_next_piece_to_download s.piece_storage).1
      → Act sha1 s o s' o'
  -- the piece in hand is returned, or put back, by what `GetMissingPieces` said before
  keeps : s' ≡ working_on s o → o' ≡ none → Act sha1 s o s' o'
  puts_back :
      s' ≡ record s { piece_storage = enqueue s.piece_storage o } → o' ≡ none → Act sha1 s o s' o'
  -- `GetFirstMissingBlock` and `RequestPiece` on the piece in progress
  requests :
      (p : Piece)
      → s.connection.piece_is_in_progress ≡ some p
      → s' ≡ record s {
        connection = record s.connection {
          piece_is_in_progress = some (get_first_missing_block p).0;
          block_is_pending = true;
        };
      }
      → o' ≡ o
      → Act sha1 s o s' o'
  -- `ProcessMessage` on any bytes
  processes :
      (message_data : Bytes)
      → process_message sha1 s message_data ≡ ok s'
      → o' ≡ o
      → Act sha1 s o s' o'
  -- the block timeout
  times_out :
      (p : Piece)
      → s.connection.piece_is_in_progress ≡ some p
      → s' ≡ give_back s p
      → o' ≡ o
      → Act sha1 s o s' o'
  -- `HandleConnectionError`
  fails : s' ≡ handle_connection_error s → o' ≡ o → Act sha1 s o s' o'
  -- `Terminate`, of the connection's thread or of the main thread
  terminates : s' ≡ terminate s → o' ≡ o → Act sha1 s o s' o'
  -- anything that leaves the piece in progress and the storage alone: connecting, the handshake, the
  -- bitfield, the flags
  minds_itself :
      s'.piece_storage ≡ s.piece_storage
      → s'.connection.piece_is_in_progress ≡ s.connection.piece_is_in_progress
      → o' ≡ o
      → Act sha1 s o s' o'

pub record Swarm : Type 0 where
  pub storage : PieceStorage
  pub workers : List Worker

pub data Step (sha1 : Bytes → Bytes) (t : TorrentFile) (x y : Swarm) : Type 0 where
  -- the thread of connection `i` runs
  acts :
      (i : ℕ) (w : Worker) (s' : Session) (o' : Option Piece)
      → get_elem? x.workers i ≡ some w
      → Act sha1 (record { connection = w.connection; piece_storage = x.storage }) w.in_hand s' o'
      → y ≡ record {
        storage = s'.piece_storage;
        workers = set x.workers i (record { connection = s'.connection; in_hand = o' });
      }
      → Step sha1 t x y
  -- the main thread requeues what is missing
  requeues : y ≡ record x { storage = force_requeue_missing_pieces x.storage } → Step sha1 t x y
  -- the main thread makes a connection, or drops all of them before the next cycle
  joins :
      (ip : Bytes) (port : ℕ) (peer_id : Bytes)
      → y ≡ record x {
        workers = x.workers ++ record { connection = make ip port t peer_id; in_hand = none } ∷ [];
      }
      → Step sha1 t x y
  leaves : y ≡ record x { workers = [] } → Step sha1 t x y

pub data Reach (sha1 : Bytes → Bytes) (t : TorrentFile) (x : Swarm) : Swarm → Type 0 where
  here : Reach sha1 t x x
  next : {y z : Swarm} → Reach sha1 t x y → Step sha1 t y z → Reach sha1 t x z

abbrev pub start : TorrentFile → Swarm
start t = record { storage = initial t; workers = [] }
