-- ===== src/Tests/Peers.antt =====
-- Peers that trackers name.
use simple_torrent_client.Common.{
  ℕ, ◌+◌, ◌*◌, true, false, none, some, List, [], ◌∷◌, ◌++◌, map, ◌≡◌, ◌↔◌, refl, arith, length,
  if◌then◌else◌, ◌==◌, bytes_eq, all_trackers_failed, ok, All,
}
use simple_torrent_client.Common.Order.{IsIncreasing}
use simple_torrent_client.ByteTools.{Bytes, int_to_bytes, int64_to_bytes}
use simple_torrent_client.Common.{tracker_failure}
use simple_torrent_client.Core.TorrentTracker.Response.{
  failure_value, parse_tracker_response-failure_value,
}
use simple_torrent_client.Core.TorrentTracker.Http.{failed}
use simple_torrent_client.Decimal.{to_string}
use simple_torrent_client.Bencode.{ends}
use simple_torrent_client.Bencode.Values.{encode}
use simple_torrent_client.Net.Peer.{Peer}
use simple_torrent_client.Net.UdpClient.{would_block, datagram, sent}
use simple_torrent_client.Core.UdpTracker.{
  TrackerPeer, TrackerResponse, compact_peers, connect_request, announce_request,
}
use simple_torrent_client.Core.UdpTracker.Announce.{compact, announce_response}
use simple_torrent_client.Core.PeerOrder.{peer_order}
use simple_torrent_client.Core.TorrentTracker.{
  TorrentTracker, Network, udp_scheme, parse_udp_url, host_and_port, split_at, is_udp_tracker,
  convert_tracker_peer, started, update_peers_udp,
}
use simple_torrent_client.Core.TorrentTracker.Http.{
  HttpResponse, update_peers_http, parse_compact_peers, parse_tracker_response, returns,
}
use simple_torrent_client.Core.TorrentTracker.Update.{
  Context, all_trackers, is_nonempty, update_from, update_peers,
}
use simple_torrent_client.Core.TorrentTracker.Url.{parse_udp_url-written}
use simple_torrent_client.Core.TorrentTracker.Peers.{parse_compact_peers-compact_peers}
use simple_torrent_client.Core.TorrentTracker.Response.{
  response_value, parse_tracker_response-response_value,
}
use simple_torrent_client.Core.TorrentTracker.Choice.{
  first_nonempty, Names, update_peers-first_nonempty,
}
use simple_torrent_client.Core.TorrentTracker.Udp.{Serves, update_peers_udp-Serves}
use simple_torrent_client.Core.TorrentClient.{unique_peers}
use simple_torrent_client.Core.TorrentClient.Peers.{SamePeers, unique_peers-SamePeers}
use simple_torrent_client.Tests.Encoded.{torrent, constant, one_hash, published}

-- udp://h:80/announce, and udp://h/announce
parse_udp_url-written_example :
    (parse_udp_url (udp_scheme ++ (b'h' ∷ [] ++ b':' ∷ (to_string 6969 ++ b'/' ∷ b'a' ∷ [])))
      ≡ ok (b'h' ∷ [], 6969))
    × (parse_udp_url (udp_scheme ++ (b'h' ∷ [] ++ b'/' ∷ b'a' ∷ [])) ≡ ok (b'h' ∷ [], 80))
parse_udp_url-written_example =
    parse_udp_url-written (b'h' ∷ []) 6969 (b'/' ∷ b'a' ∷ [])
      (((λ e. omega arith), (λ e. omega arith)), tt) (omega arith) refl

abbrev pub unasked : TorrentTracker
unasked = record { tracker_url = b'h' ∷ []; peers = [] }

parse_compact_peers-compact_peers_example :
    (ps : List TrackerPeer) × ((compact_peers (127 ∷ 0 ∷ 0 ∷ 1 ∷ 26 ∷ 225 ∷ []) ≡ ok ps)
      × (parse_compact_peers unasked (127 ∷ 0 ∷ 0 ∷ 1 ∷ 26 ∷ 225 ∷ [])
          ≡ returns (record unasked { peers = map convert_tracker_peer ps })))
parse_compact_peers-compact_peers_example =
    parse_compact_peers-compact_peers unasked 0 (127 ∷ 0 ∷ 0 ∷ 1 ∷ 26 ∷ 225 ∷ [])
      (omega arith, (omega arith, (omega arith, (omega arith, (omega arith, (omega arith, tt))))))
      refl

abbrev pub one_peer : TrackerPeer
one_peer = record { ip = 2130706433; port = 6881 }

abbrev pub response_text : Bytes
response_text = encode (response_value 1800 (compact (one_peer ∷ [])))

abbrev pub response_fuel : ℕ
response_fuel = 2 * length response_text + 2 * length (encode torrent)

parse_tracker_response-response_value_example :
    parse_tracker_response constant response_fuel unasked (response_text ++ [])
    ≡ returns (record unasked { peers = map convert_tracker_peer (one_peer ∷ []) })
parse_tracker_response-response_value_example =
    parse_tracker_response-response_value constant response_fuel unasked [] 1800 one_peer []
      ((omega arith, omega arith), tt) (omega arith) (omega arith)

abbrev reason : Bytes
reason = b'n' ∷ b'o' ∷ []

abbrev failure_text : Bytes
failure_text = encode (failure_value reason)

parse_tracker_response-failure_value_example :
    parse_tracker_response constant (2 * length failure_text) unasked (failure_text ++ [])
    ≡ failed unasked (tracker_failure reason)
parse_tracker_response-failure_value_example =
    parse_tracker_response-failure_value constant (2 * length failure_text) unasked [] b'n'
      (b'o' ∷ []) (omega arith) (omega arith)

-- No socket is created, so that no UDP tracker is reached.
abbrev pub no_network : Network
no_network = record {
  setup =
      λ host port. record { socket_created = false; timeout_set = false; host_resolved = false };
  sends = λ host port request. sent 0;
  receives = λ host port request. would_block;
  rands = λ url. (0, 0, 0);
}

-- Every HTTP tracker names the one peer.
abbrev pub get : Bytes → List (Bytes × Bytes) → HttpResponse
get url parameters = record { status_code = 200; text = response_text ++ [] }

abbrev pub context : Context
context = record {
  sha1 = constant;
  fuel = response_fuel;
  network = no_network;
  get = get;
  torrent_file = record published { info_hash = one_hash };
  peer_id = one_hash;
  port = 12345;
}

abbrev named : Bytes → List Peer
named url = map convert_tracker_peer (one_peer ∷ [])

names : Names context unasked (b'h' ∷ []) (named (b'h' ∷ []))
unfolding update_from update_peers_http is_udp_tracker bytes_eq
names = (
  none,
  parse_tracker_response-response_value constant response_fuel unasked [] 1800 one_peer []
      ((omega arith, omega arith), tt) (omega arith) (omega arith),
)

every_tracker :
    All (λ url. Names context unasked url (named url)) (all_trackers unasked.tracker_url)
unfolding all_trackers is_udp_tracker bytes_eq
every_tracker = (names, tt)

-- The tracker names the peer.
pub asked_http :
    update_peers context unasked
    ≡ ends (record {
      tracker = record unasked { peers = map convert_tracker_peer (one_peer ∷ []) };
      thrown = none;
    })
unfolding all_trackers is_udp_tracker bytes_eq
asked_http = update_peers-first_nonempty context named unasked refl every_tracker

update_peers-first_nonempty_example :
    update_peers context unasked
    ≡ ends (record {
      tracker = record unasked { peers = first_nonempty named (all_trackers unasked.tracker_url) };
      thrown =
          if is_nonempty (first_nonempty named (all_trackers unasked.tracker_url))
          then none
          else some all_trackers_failed;
    })
update_peers-first_nonempty_example =
    update_peers-first_nonempty context named unasked refl every_tracker

-- A UDP tracker that answers the two requests by the protocol.
abbrev reply : TrackerResponse
reply = record { interval = 1800; leechers = 0; seeders = 1; peers = one_peer ∷ [] }

abbrev udp_network : Network
udp_network = record {
  setup = λ host port. record { socket_created = true; timeout_set = true; host_resolved = true };
  sends = λ host port request. sent (length request);
  receives = λ host port request.
      if length request == 16
      then datagram (int_to_bytes 0 ++ (int_to_bytes 77 ++ (int64_to_bytes 12 ++ [])))
      else datagram (announce_response 78 reply []);
  rands = λ url. (77, 78, 79);
}

serves :
    Serves udp_network
      (udp_scheme ++ b'h' ∷ [])
      (b'h' ∷ [])
      80
      (started (record published { info_hash = one_hash }) one_hash 12345)
      reply
unfolding connect_request announce_request int_to_bytes int64_to_bytes compact
serves = record {
  connection_id = 12;
  set_up = refl;
  sends_whole = λ request. refl;
  connects = refl;
  announces = refl;
  fits = omega arith;
  id_bound = omega arith;
  rand_bound = omega arith;
  rand'_bound = omega arith;
  interval_bound = omega arith;
  leechers_bound = omega arith;
  seeders_bound = omega arith;
  peers_bound = ((omega arith, omega arith), tt);
}

address : parse_udp_url (udp_scheme ++ b'h' ∷ []) ≡ ok (b'h' ∷ [], 80)
unfolding parse_udp_url bytes_eq host_and_port split_at
address = refl

update_peers_udp-Serves_example :
    update_peers_udp udp_network
      (record published { info_hash = one_hash })
      one_hash
      12345
      (udp_scheme ++ b'h' ∷ [])
      unasked
    ≡ record {
      tracker = record unasked { peers = map convert_tracker_peer (one_peer ∷ []) };
      thrown = none;
    }
update_peers_udp-Serves_example =
    update_peers_udp-Serves udp_network (record published { info_hash = one_hash }) one_hash 12345
      (udp_scheme ++ b'h' ∷ []) (b'h' ∷ []) 80 reply unasked address refl refl serves

abbrev peer_a : Peer
peer_a = record { ip = b'1' ∷ []; port = 6881 }

abbrev peer_b : Peer
peer_b = record { ip = b'1' ∷ []; port = 80 }

unique_peers-SamePeers_example :
    IsIncreasing peer_order (unique_peers (peer_a ∷ peer_b ∷ peer_a ∷ []))
    × SamePeers (unique_peers (peer_a ∷ peer_b ∷ peer_a ∷ [])) (peer_a ∷ peer_b ∷ peer_a ∷ [])
    × ((unique_peers (peer_a ∷ peer_b ∷ peer_a ∷ []) ≡ unique_peers (peer_b ∷ peer_a ∷ []))
        ↔ SamePeers (peer_a ∷ peer_b ∷ peer_a ∷ []) (peer_b ∷ peer_a ∷ []))
unique_peers-SamePeers_example =
    unique_peers-SamePeers (peer_a ∷ peer_b ∷ peer_a ∷ []) (peer_b ∷ peer_a ∷ [])
