-- ===== src/Core/TorrentTracker.antt =====
-- include/core/TorrentTracker.hpp and src/core/TorrentTracker.cpp: the peers that a tracker names, over UDP
-- or HTTP. What the network gives, and `rand()`, are arguments; the HTTP library is one of them. A call
-- that throws keeps what it has done to the object.
pub mod Http
pub mod Update
pub mod Url
pub mod Peers
pub mod Response
pub mod Choice
pub mod Udp
use simple_torrent_client.Common.{
  ℕ, ◌-◌, ◌^◌, ◌%◌, ◌<<◌, ◌>>◌, bit_and, bit_or, u16, Bool, true, false, not, ◌&&◌, Option, none,
  some, List, [], ◌∷◌, ◌++◌, map, ◌==◌, bytes_eq, if◌then◌else◌, length, take, drop, Error, Result,
  ok, err, ◌>>=◌, invalid_udp_url, http_error, tracker_failure, no_peers_data,
  peer_format_not_supported, all_trackers_failed,
}
use simple_torrent_client.ByteTools.{Bytes}
use simple_torrent_client.Decimal.{to_string, stoi}
use simple_torrent_client.Bencode.{
  Run, ends, throws, strays, goes_on, is_empty, Parser, parse_from_string,
}
use simple_torrent_client.Net.Peer.{Peer}
use simple_torrent_client.Net.UdpClient.{Setup, Sent, Received, UdpClient, init, send_receive}
use simple_torrent_client.Core.TorrentFile.{TorrentFile}
use simple_torrent_client.Core.UdpTracker.{TrackerPeer, TrackerResponse, Announcement, announce}

abbrev pub udp_scheme : Bytes
udp_scheme = b'u' ∷ b'd' ∷ b'p' ∷ b':' ∷ b'/' ∷ b'/' ∷ []

unfoldable pub is_udp_tracker : Bytes → Bool
is_udp_tracker url = bytes_eq (take 6 url) udp_scheme

-- `text.find(c)`, as what stands before it and behind it.
unfoldable pub split_at : ℕ → Bytes → Option (Bytes × Bytes)
split_at c [] = none
split_at c (x ∷ rest) = elim (x == c) [
  | true ↦ some ([], rest)
  | false ↦ elim (split_at c rest) [ none ↦ none | some r ↦ some (x ∷ r.0, r.1) ]
]

unfoldable pub before : ℕ → Bytes → Bytes
unfolding split_at
before c text = elim (split_at c text) [ none ↦ text | some r ↦ r.0 ]

unfoldable pub host_and_port : Bytes → Result (Bytes × ℕ)
unfolding split_at
host_and_port host_port = elim (split_at b':' host_port) [
  | some r ↦ stoi r.1 >>= λ port. ok (r.0, port)
  | none ↦ ok (host_port, 80)
]

unfoldable pub parse_udp_url : Bytes → Result (Bytes × ℕ)
unfolding before host_and_port
parse_udp_url url =
    if not (bytes_eq (take 6 url) udp_scheme)
    then err invalid_udp_url
    else host_and_port (before b'/' (drop 6 url))

-- Four numbers with dots between them.
abbrev pub dotted : ℕ → ℕ → ℕ → ℕ → Bytes
dotted a b c d = to_string a ++ b'.' ∷ (to_string b ++ b'.' ∷ (to_string c ++ b'.' ∷ to_string d))

unfoldable pub convert_tracker_peer : TrackerPeer → Peer
convert_tracker_peer p = record {
  ip =
      dotted (bit_and (p.ip >> 24) 0xff) (bit_and (p.ip >> 16) 0xff) (bit_and (p.ip >> 8) 0xff)
        (bit_and p.ip 0xff);
  port = p.port;
}

pub record TorrentTracker : Type 0 where
  pub tracker_url : Bytes
  pub peers : List Peer

-- The object after a call, and what the call threw.
pub record Tried : Type 0 where
  pub tracker : TorrentTracker
  pub thrown : Option Error

-- What the network gives, by the host and port that a call is about; `rand()` by the tracker's URL.
pub record Network : Type 0 where
  pub setup : Bytes → ℕ → Setup
  pub sends : Bytes → ℕ → Bytes → Sent
  pub receives : Bytes → ℕ → Bytes → Received
  pub rands : Bytes → ℕ × ℕ × ℕ

-- `UdpTracker udp_tracker(host, port, 8)` and `Announce`.
unfoldable pub ask : Network → Bytes → Bytes → ℕ → Announcement → Result TrackerResponse
ask net url host port a = do
  client ← init (net.setup host port) host port 8
  let answer = λ (request : Bytes).
      send_receive (net.sends client.host client.port request)
        (net.receives client.host client.port request) request
  let r = net.rands url
  announce answer r.0 r.1 r.2 a

-- `event` 2 and `num_want` -1. `Announce` takes the port as 16 bits.
abbrev pub started : TorrentFile → Bytes → ℕ → Announcement
started torrent_file peer_id port = record {
  info_hash = torrent_file.info_hash;
  peer_id = peer_id;
  downloaded = 0;
  left = torrent_file.length;
  uploaded = 0;
  event = 2;
  num_want = 2 ^ 32 - 1;
  port = u16 port;
}

abbrev pub after_udp : TorrentTracker → Result (List Peer) → Tried
after_udp t (ok peers) = record { tracker = record t { peers = peers }; thrown = none }
after_udp t (err e) = record { tracker = t; thrown = some e }

unfoldable pub udp_peers : Network → TorrentFile → Bytes → ℕ → Bytes → Result (List Peer)
unfolding parse_udp_url ask
udp_peers net torrent_file peer_id port url = do
  (host, tracker_port) ← parse_udp_url url
  response ← ask net url host tracker_port (started torrent_file peer_id port)
  ok (map convert_tracker_peer response.peers)

unfoldable pub update_peers_udp : Network → TorrentFile → Bytes → ℕ → Bytes → TorrentTracker → Tried
unfolding udp_peers
update_peers_udp net torrent_file peer_id port url t =
    after_udp t (udp_peers net torrent_file peer_id port url)
