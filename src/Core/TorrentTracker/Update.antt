-- ===== src/Core/TorrentTracker/Update.antt =====
-- UpdatePeers: the tracker's own URL is tried, then, for a UDP tracker, the backups, until one names peers.
use simple_torrent_client.Common.{
  ℕ, Bool, true, false, none, some, List, [], ◌∷◌, bytes_eq, if◌then◌else◌, all_trackers_failed,
}
use simple_torrent_client.ByteTools.{Bytes}
use simple_torrent_client.Bencode.{Run, ends, ◌>>=◌}
use simple_torrent_client.Net.Peer.{Peer}
use simple_torrent_client.Core.TorrentFile.{TorrentFile}
use simple_torrent_client.Core.TorrentTracker.{
  TorrentTracker, Tried, Network, is_udp_tracker, update_peers_udp,
}
use simple_torrent_client.Core.TorrentTracker.Http.{HttpResponse, update_peers_http}

abbrev pub backup_udp_trackers : List Bytes
backup_udp_trackers =
    (b'u' ∷ b'd' ∷ b'p' ∷ b':' ∷ b'/' ∷ b'/' ∷ b't' ∷ b'r' ∷ b'a' ∷ b'c' ∷ b'k' ∷ b'e' ∷ b'r' ∷ b'.'
      ∷ b'o' ∷ b'p' ∷ b'e' ∷ b'n' ∷ b'b' ∷ b'i' ∷ b't' ∷ b't' ∷ b'o' ∷ b'r' ∷ b'r' ∷ b'e' ∷ b'n'
      ∷ b't' ∷ b'.' ∷ b'c' ∷ b'o' ∷ b'm' ∷ b':' ∷ b'8' ∷ b'0' ∷ [])
    ∷ (b'u' ∷ b'd' ∷ b'p' ∷ b':' ∷ b'/' ∷ b'/' ∷ b't' ∷ b'r' ∷ b'a' ∷ b'c' ∷ b'k' ∷ b'e' ∷ b'r'
        ∷ b'.' ∷ b'i' ∷ b'n' ∷ b't' ∷ b'e' ∷ b'r' ∷ b'n' ∷ b'e' ∷ b't' ∷ b'w' ∷ b'a' ∷ b'r' ∷ b'r'
        ∷ b'i' ∷ b'o' ∷ b'r' ∷ b's' ∷ b'.' ∷ b'n' ∷ b'e' ∷ b't' ∷ b':' ∷ b'1' ∷ b'3' ∷ b'3' ∷ b'7'
        ∷ [])
    ∷ (b'u' ∷ b'd' ∷ b'p' ∷ b':' ∷ b'/' ∷ b'/' ∷ b't' ∷ b'r' ∷ b'a' ∷ b'c' ∷ b'k' ∷ b'e' ∷ b'r'
        ∷ b'.' ∷ b'l' ∷ b'e' ∷ b'e' ∷ b'c' ∷ b'h' ∷ b'e' ∷ b'r' ∷ b's' ∷ b'-' ∷ b'p' ∷ b'a' ∷ b'r'
        ∷ b'a' ∷ b'd' ∷ b'i' ∷ b's' ∷ b'e' ∷ b'.' ∷ b'o' ∷ b'r' ∷ b'g' ∷ b':' ∷ b'6' ∷ b'9' ∷ b'6'
        ∷ b'9' ∷ [])
    ∷ (b'u' ∷ b'd' ∷ b'p' ∷ b':' ∷ b'/' ∷ b'/' ∷ b't' ∷ b'r' ∷ b'a' ∷ b'c' ∷ b'k' ∷ b'e' ∷ b'r'
        ∷ b'.' ∷ b'c' ∷ b'o' ∷ b'p' ∷ b'p' ∷ b'e' ∷ b'r' ∷ b's' ∷ b'u' ∷ b'r' ∷ b'f' ∷ b'e' ∷ b'r'
        ∷ b'.' ∷ b't' ∷ b'k' ∷ b':' ∷ b'6' ∷ b'9' ∷ b'6' ∷ b'9' ∷ [])
    ∷ (b'u' ∷ b'd' ∷ b'p' ∷ b':' ∷ b'/' ∷ b'/' ∷ b'o' ∷ b'p' ∷ b'e' ∷ b'n' ∷ b'.' ∷ b's' ∷ b't'
        ∷ b'e' ∷ b'a' ∷ b'l' ∷ b't' ∷ b'h' ∷ b'.' ∷ b's' ∷ b'i' ∷ b':' ∷ b'8' ∷ b'0' ∷ [])
    ∷ (b'u' ∷ b'd' ∷ b'p' ∷ b':' ∷ b'/' ∷ b'/' ∷ b'e' ∷ b'x' ∷ b'o' ∷ b'd' ∷ b'u' ∷ b's' ∷ b'.'
        ∷ b'd' ∷ b'e' ∷ b's' ∷ b'y' ∷ b'n' ∷ b'c' ∷ b'.' ∷ b'c' ∷ b'o' ∷ b'm' ∷ b':' ∷ b'6' ∷ b'9'
        ∷ b'6' ∷ b'9' ∷ [])
    ∷ (b'u' ∷ b'd' ∷ b'p' ∷ b':' ∷ b'/' ∷ b'/' ∷ b't' ∷ b'r' ∷ b'a' ∷ b'c' ∷ b'k' ∷ b'e' ∷ b'r'
        ∷ b'.' ∷ b't' ∷ b'o' ∷ b'r' ∷ b'r' ∷ b'e' ∷ b'n' ∷ b't' ∷ b'.' ∷ b'e' ∷ b'u' ∷ b'.' ∷ b'o'
        ∷ b'r' ∷ b'g' ∷ b':' ∷ b'4' ∷ b'5' ∷ b'1' ∷ [])
    ∷ []

-- The backups that are not the tracker's own URL.
unfoldable pub others : Bytes → List Bytes → List Bytes
others url [] = []
others url (backup ∷ rest) =
    if bytes_eq backup url then others url rest else backup ∷ others url rest

unfoldable pub all_trackers : Bytes → List Bytes
unfolding others
all_trackers url = url ∷ (if is_udp_tracker url then others url backup_udp_trackers else [])

abbrev pub is_nonempty : List Peer → Bool
is_nonempty [] = false
is_nonempty (p ∷ ps) = true

-- What an update goes by: SHA-1 and fuel for the parser, the network, the torrent, our identifier and port.
pub record Context : Type 0 where
  pub sha1 : Bytes → Bytes
  pub fuel : ℕ
  pub network : Network
  pub get : Bytes → List (Bytes × Bytes) → HttpResponse
  pub torrent_file : TorrentFile
  pub peer_id : Bytes
  pub port : ℕ

unfoldable pub update_from : Context → Bytes → TorrentTracker → Run Tried
update_from c url t = elim (is_udp_tracker url) [
  | true ↦ ends (update_peers_udp c.network c.torrent_file c.peer_id c.port url t)
  | false ↦ update_peers_http c.sha1 c.fuel c.get c.torrent_file c.peer_id c.port url t
]

-- The loop: an exception leads to the next tracker, as an empty list does.
unfoldable pub try_trackers : Context → List Bytes → TorrentTracker → Run TorrentTracker
unfolding update_from
try_trackers c [] t = ends t
try_trackers c (url ∷ rest) t = elim (is_nonempty t.peers) [
  | true ↦ ends t
  | false ↦ update_from c url t >>= λ r. try_trackers c rest r.tracker
]

unfoldable pub update_peers : Context → TorrentTracker → Run Tried
unfolding try_trackers all_trackers
update_peers c t = do
  t' ← try_trackers c (all_trackers t.tracker_url) t
  ends (record {
    tracker = t';
    thrown = if is_nonempty t'.peers then none else some all_trackers_failed;
  })
