-- ===== src/Tests/Trackers.antt =====
-- Answers of a UDP tracker.
use simple_torrent_client.Common.{[], ◌∷◌, ◌≡◌, refl, arith, length, replicate, ok}
use simple_torrent_client.ByteTools.{int_to_bytes, int64_to_bytes}
use simple_torrent_client.Core.UdpTracker.{TrackerResponse, accept_announce, announce_request}
use simple_torrent_client.Core.UdpTracker.Announce.{
  announce_response, accept_announce-announce_response, IsAnnounced, accept_announce-IsAnnounced,
}

abbrev reply : TrackerResponse
reply = record {
  interval = 1800;
  leechers = 3;
  seeders = 5;
  peers = record { ip = 2130706433; port = 6881 } ∷ record { ip = 1; port = 80 } ∷ [];
}

accept_announce-announce_response_example :
    accept_announce 77 (announce_response 77 reply (9 ∷ [])) ≡ ok reply
accept_announce-announce_response_example =
    accept_announce-announce_response 77 reply (9 ∷ []) (omega arith) (omega arith) (omega arith)
      (omega arith) (omega arith) (omega arith)

accept_announce-IsAnnounced_example : IsAnnounced 77 (announce_response 77 reply (9 ∷ [])) reply
accept_announce-IsAnnounced_example =
    accept_announce-IsAnnounced 77 (announce_response 77 reply (9 ∷ [])) reply
      accept_announce-announce_response_example

-- An announce request is 100 bytes long, as the port is written in four bytes.
request_size :
    length (
      announce_request 12 77 5 (record {
        info_hash = replicate 20 0;
        peer_id = replicate 20 1;
        downloaded = 0;
        left = 1000;
        uploaded = 0;
        event = 2;
        num_want = 4294967295;
        port = 6881;
      }))
    ≡ 100
unfolding announce_request int_to_bytes int64_to_bytes
request_size = refl
