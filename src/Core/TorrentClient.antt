-- ===== src/Core/TorrentClient.antt =====
-- src/core/TorrentClient.cpp: the peers of a cycle, the main thread beside the threads of the connections
-- (RunDownloadMultithread), the cycles of DownloadFromTracker, and DownloadTorrent. What may come out
-- differently from run to run is a relation. A round of the main loop counts as one step.
pub mod Peers
pub mod Cycles
pub mod Download
use simple_torrent_client.Common.{
  ℕ, zero, suc, ◌+◌, ◌*◌, ◌/◌, Bool, true, false, not, ◌&&◌, ◌||◌, Option, none, some, List, [],
  ◌∷◌, ◌++◌, map, ◌≡◌, ltb, leb, ◌==◌, if◌then◌else◌, length, Result, ok,
}
use simple_torrent_client.Common.Order.{sort, unique}
use simple_torrent_client.ByteTools.{Bytes}
use simple_torrent_client.Bencode.{Run, ends, ◌>>=◌}
use simple_torrent_client.Net.Peer.{Peer}
use simple_torrent_client.Net.PeerConnect.{make}
use simple_torrent_client.Net.PeerConnect.Swarm.{Worker, Swarm, Reach}
use simple_torrent_client.Core.TorrentFile.{TorrentFile, blank, load_torrent_file}
use simple_torrent_client.Core.PieceStorage.{
  PieceStorage, init, queue_is_empty, is_download_complete, get_missing_pieces,
  force_requeue_missing_pieces, pieces_saved_to_disc_count, close_output_file,
}
use simple_torrent_client.Core.TorrentTracker.{TorrentTracker, Tried, Network}
use simple_torrent_client.Core.TorrentTracker.Http.{HttpResponse}
use simple_torrent_client.Core.TorrentTracker.Update.{Context, update_peers, is_nonempty}
use simple_torrent_client.Core.PeerOrder.{bytes_order, peer_order}

-- The loop of `GenerateRandomSuffix`, with `n` rounds left; `letter` is what the distribution gives.
unfoldable pub random_suffix : (ℕ → ℕ) → ℕ → ℕ → Bytes
random_suffix letter zero i = []
random_suffix letter (suc n) i = letter i ∷ random_suffix letter n (i + 1)

-- The default argument of the constructor, and the constructor.
abbrev pub default_peer_id : Bytes
default_peer_id =
    b'T' ∷ b'E' ∷ b'S' ∷ b'T' ∷ b'A' ∷ b'P' ∷ b'P' ∷ b'D' ∷ b'O' ∷ b'N' ∷ b'T' ∷ b'W' ∷ b'O' ∷ b'R'
    ∷ b'R' ∷ b'Y' ∷ []

unfoldable pub init_peer_id : (ℕ → ℕ) → Bytes → Bytes
unfolding random_suffix
init_peer_id letter peer_id = peer_id ++ random_suffix letter 4 0

abbrev pub known_trackers : List Bytes
known_trackers =
    (b'u' ∷ b'd' ∷ b'p' ∷ b':' ∷ b'/' ∷ b'/' ∷ b't' ∷ b'r' ∷ b'a' ∷ b'c' ∷ b'k' ∷ b'e' ∷ b'r' ∷ b'.'
      ∷ b'o' ∷ b'p' ∷ b'e' ∷ b'n' ∷ b't' ∷ b'r' ∷ b'a' ∷ b'c' ∷ b'k' ∷ b'r' ∷ b'.' ∷ b'o' ∷ b'r'
      ∷ b'g' ∷ b':' ∷ b'1' ∷ b'3' ∷ b'3' ∷ b'7' ∷ b'/' ∷ b'a' ∷ b'n' ∷ b'n' ∷ b'o' ∷ b'u' ∷ b'n'
      ∷ b'c' ∷ b'e' ∷ [])
    ∷ (b'u' ∷ b'd' ∷ b'p' ∷ b':' ∷ b'/' ∷ b'/' ∷ b'o' ∷ b'p' ∷ b'e' ∷ b'n' ∷ b'.' ∷ b's' ∷ b't'
        ∷ b'e' ∷ b'a' ∷ b'l' ∷ b't' ∷ b'h' ∷ b'.' ∷ b's' ∷ b'i' ∷ b':' ∷ b'8' ∷ b'0' ∷ b'/' ∷ b'a'
        ∷ b'n' ∷ b'n' ∷ b'o' ∷ b'u' ∷ b'n' ∷ b'c' ∷ b'e' ∷ [])
    ∷ (b'u' ∷ b'd' ∷ b'p' ∷ b':' ∷ b'/' ∷ b'/' ∷ b'e' ∷ b'x' ∷ b'o' ∷ b'd' ∷ b'u' ∷ b's' ∷ b'.'
        ∷ b'd' ∷ b'e' ∷ b's' ∷ b'y' ∷ b'n' ∷ b'c' ∷ b'.' ∷ b'c' ∷ b'o' ∷ b'm' ∷ b':' ∷ b'6' ∷ b'9'
        ∷ b'6' ∷ b'9' ∷ b'/' ∷ b'a' ∷ b'n' ∷ b'n' ∷ b'o' ∷ b'u' ∷ b'n' ∷ b'c' ∷ b'e' ∷ [])
    ∷ (b'u' ∷ b'd' ∷ b'p' ∷ b':' ∷ b'/' ∷ b'/' ∷ b't' ∷ b'r' ∷ b'a' ∷ b'c' ∷ b'k' ∷ b'e' ∷ b'r'
        ∷ b'.' ∷ b't' ∷ b'o' ∷ b'r' ∷ b'r' ∷ b'e' ∷ b'n' ∷ b't' ∷ b'.' ∷ b'e' ∷ b'u' ∷ b'.' ∷ b'o'
        ∷ b'r' ∷ b'g' ∷ b':' ∷ b'4' ∷ b'5' ∷ b'1' ∷ b'/' ∷ b'a' ∷ b'n' ∷ b'n' ∷ b'o' ∷ b'u' ∷ b'n'
        ∷ b'c' ∷ b'e' ∷ [])
    ∷ []

unfoldable pub unique_trackers : Bytes → List Bytes
unique_trackers announce = unique bytes_order (sort bytes_order (announce ∷ known_trackers))

-- The loop over the trackers: one that throws is passed over.
unfoldable pub gather : Context → List Bytes → List Peer → Run (List Peer)
gather c [] all_peers = ends all_peers
gather c (url ∷ rest) all_peers = do
  r ← update_peers c (record { tracker_url = url; peers = [] })
  gather c rest (elim r.thrown [ none ↦ all_peers ++ r.tracker.peers | some e ↦ all_peers ])

unfoldable pub unique_peers : List Peer → List Peer
unique_peers all_peers = unique peer_order (sort peer_order all_peers)

-- The variables of the main loop. Time is in milliseconds.
pub record MainLoop : Type 0 where
  pub endgame_mode : Bool
  pub last_requeue_time : ℕ

abbrev pub requeue_interval : ℕ
requeue_interval = 10000

unfoldable pub download_round : ℕ → MainLoop → PieceStorage → MainLoop × PieceStorage
download_round now m pieces =
    let endgame = m.endgame_mode || leb (length (get_missing_pieces pieces)) 10 in
    if endgame && queue_is_empty pieces && ltb (m.last_requeue_time + requeue_interval) now
    then (
      record { endgame_mode = endgame; last_requeue_time = now },
      force_requeue_missing_pieces pieces,
    )
    else (record { endgame_mode = endgame; last_requeue_time = m.last_requeue_time }, pieces)

abbrev pub connections : TorrentFile → Bytes → List Peer → List Worker
connections t peer_id peers =
    map (λ peer. record { connection = make peer.ip peer.port t peer_id; in_hand = none }) peers

-- The main loop, with the threads running between its rounds.
pub data RunsMainLoop (sha1 : Bytes → Bytes) (t : TorrentFile) (is_terminated : Bool)
    : MainLoop → Swarm → Swarm → Type 0 where
  leaves_loop :
      {m : MainLoop} {x : Swarm}
      → (is_terminated || is_download_complete x.storage) ≡ true
      → RunsMainLoop sha1 t is_terminated m x x
  goes_round :
      {m : MainLoop} {x y z : Swarm} (now : ℕ)
      → (is_terminated || is_download_complete x.storage) ≡ false
      → Reach sha1 t (record x { storage = (download_round now m x.storage).1 }) y
      → RunsMainLoop sha1 t is_terminated (download_round now m x.storage).0 y z
      → RunsMainLoop sha1 t is_terminated m x z

-- `DownloadFromTracker` keeps these.
pub record Cycle : Type 0 where
  pub storage : PieceStorage
  pub is_terminated : Bool
  pub retry_count : ℕ

-- `RunDownloadMultithread`: before the main loop, and behind it until all threads are joined, the threads
-- run as well.
pub data RunsDownload (sha1 : Bytes → Bytes) (t : TorrentFile) (peer_id : Bytes) (peers : List Peer)
    (x : Cycle) : Cycle → Type 0 where
  no_connections : peers ≡ [] → RunsDownload sha1 t peer_id peers x x
  downloads :
      {u v w : Swarm} (now : ℕ)
      → is_nonempty peers ≡ true
      → Reach sha1 t (record { storage = x.storage; workers = connections t peer_id peers }) u
      → RunsMainLoop sha1 t x.is_terminated
          (record { endgame_mode = false; last_requeue_time = now })
          u
          v
      → Reach sha1 t v w
      → RunsDownload sha1 t peer_id peers x (record x { storage = w.storage; is_terminated = true })

-- What a cycle does before its download.
unfoldable pub prepare : Cycle → Cycle
prepare x =
    if queue_is_empty x.storage && not (is_download_complete x.storage)
    then record x {
      storage = force_requeue_missing_pieces x.storage;
      retry_count = x.retry_count + 1;
    }
    else x

abbrev pub max_retries : ℕ
max_retries = 10

abbrev pub may_go_on : Cycle → Bool
may_go_on x = not x.is_terminated && not (is_download_complete x.storage)

-- What a client goes by: SHA-1, the fuel of the parser, the torrent and our identifier.
pub record Setting : Type 0 where
  pub sha1 : Bytes → Bytes
  pub fuel : ℕ
  pub torrent_file : TorrentFile
  pub peer_id : Bytes

-- The cycle's trackers, asked over the network as it then is.
abbrev pub asks :
    Setting → Network → (Bytes → List (Bytes × Bytes) → HttpResponse) → Run (List Peer)
asks c net get =
    gather
      (record {
        sha1 = c.sha1;
        fuel = c.fuel;
        network = net;
        get = get;
        torrent_file = c.torrent_file;
        peer_id = c.peer_id;
        port = 12345;
      })
      (unique_trackers c.torrent_file.announce) []

-- The loop of `DownloadFromTracker`, from a state to the one that it leaves.
pub data DownloadsFromTracker (c : Setting) : Cycle → Cycle → Type 0 where
  is_done : {x : Cycle} → may_go_on x ≡ false → DownloadsFromTracker c x x
  waits :
      {x z : Cycle} (net : Network) (get : Bytes → List (Bytes × Bytes) → HttpResponse)
      → may_go_on x ≡ true
      → asks c net get ≡ ends []
      → DownloadsFromTracker c x z
      → DownloadsFromTracker c x z
  gives_up :
      {x y : Cycle} (net : Network) (get : Bytes → List (Bytes × Bytes) → HttpResponse)
      (all_peers : List Peer)
      → may_go_on x ≡ true
      → asks c net get ≡ ends all_peers
      → is_nonempty all_peers ≡ true
      → RunsDownload c.sha1 c.torrent_file c.peer_id (unique_peers all_peers) (prepare x) y
      → (not (is_download_complete y.storage) && leb max_retries y.retry_count) ≡ true
      → DownloadsFromTracker c x y
  tries_again :
      {x y z : Cycle} (net : Network) (get : Bytes → List (Bytes × Bytes) → HttpResponse)
      (all_peers : List Peer)
      → may_go_on x ≡ true
      → asks c net get ≡ ends all_peers
      → is_nonempty all_peers ≡ true
      → RunsDownload c.sha1 c.torrent_file c.peer_id (unique_peers all_peers) (prepare x) y
      → (not (is_download_complete y.storage) && leb max_retries y.retry_count) ≡ false
      → DownloadsFromTracker c y z
      → DownloadsFromTracker c x z

-- The percentage that is printed; with no pieces it is a division by zero.
unfoldable pub completion : PieceStorage → ℕ → Option ℕ
completion pieces total_count =
    if total_count == 0 then none else some (pieces_saved_to_disc_count pieces * 100 / total_count)

-- `DownloadTorrent`, from the contents of the torrent file to the storage when it returns. `a` and `b` are
-- what two members of `TorrentFile` hold before they are written.
pub data DownloadsTorrent (sha1 : Bytes → Bytes) (fuel : ℕ) (peer_id contents : Bytes)
    (saved : PieceStorage) : Type 0 where
  returns :
      (a b n : ℕ) (t : TorrentFile) (s : PieceStorage) (y : Cycle)
      → load_torrent_file sha1 fuel (blank a b) contents ≡ ends t
      → init true t ≡ ok s
      → DownloadsFromTracker
          (record { sha1 = sha1; fuel = fuel; torrent_file = t; peer_id = peer_id })
          (record { storage = s; is_terminated = false; retry_count = 0 })
          y
      → saved ≡ close_output_file y.storage
      → completion saved (length t.piece_hashes) ≡ some n
      → DownloadsTorrent sha1 fuel peer_id contents saved
