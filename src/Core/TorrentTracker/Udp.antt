-- ===== src/Core/TorrentTracker/Udp.antt =====
-- UpdatePeersUdp against a tracker that keeps to the protocol, over a network that loses nothing.
use simple_torrent_client.Common.{
  ℕ, ◌^◌, ◌≤◌, ◌<◌, true, false, not, none, [], ◌++◌, map, ◌≡◌, ap, ◌∙◌, arith, ◌==◌, if_false,
  length, length-append, take_all, All, Result, ok, ◌>>=◌, >>=-ok,
}
use simple_torrent_client.ByteTools.{Bytes, int_to_bytes, int64_to_bytes}
use simple_torrent_client.ByteTools.RoundTrip.{length-int64_to_bytes}
use simple_torrent_client.Net.UdpClient.{
  Setup, Sent, sent, Received, datagram, init, buffer_size, accept_datagram, send_receive,
}
use simple_torrent_client.Core.TorrentFile.{TorrentFile}
use simple_torrent_client.Core.UdpTracker.{
  TrackerResponse, Announcement, connect_request, announce_request, announce_with_connection,
  announce,
}
use simple_torrent_client.Core.UdpTracker.Announce.{
  word, IsPeer, announce_response, accept_announce-announce_response, connect_lem,
}
use simple_torrent_client.Core.TorrentTracker.{
  TorrentTracker, Network, ask, started, after_udp, parse_udp_url, convert_tracker_peer, udp_peers,
  update_peers_udp,
}

-- A datagram that goes out whole is answered by the first bytes of one that comes in.
send_receive-datagram :
    (s : Sent) (r : Received) (request response : Bytes)
    → s ≡ sent (length request)
    → r ≡ datagram response
    → length response ≤ buffer_size
    → send_receive s r request ≡ ok response
unfolding send_receive accept_datagram
send_receive-datagram s r request response e g h =
    let same : not (length request == length request) ≡ false = ground arith in
    ap (λ (x : Sent). send_receive x r request) e
    ∙ (if_false _ _ _ same ∙ (ap accept_datagram g ∙ ap ok (take_all buffer_size response h)))

-- The tracker's answers to the two requests of an announcement, and the bounds of their numbers.
pub record Serves (net : Network) (url host : Bytes) (port : ℕ) (a : Announcement)
    (r : TrackerResponse) : Type 0 where
  pub connection_id : ℕ
  pub set_up :
      net.setup host port
      ≡ record { socket_created = true; timeout_set = true; host_resolved = true }
  pub sends_whole : (request : Bytes) → net.sends host port request ≡ sent (length request)
  pub connects :
      net.receives host port (connect_request (net.rands url).0)
      ≡ datagram (
          int_to_bytes 0
          ++ (int_to_bytes (net.rands url).0 ++ (int64_to_bytes connection_id ++ [])))
  pub announces :
      net.receives host port (announce_request connection_id (net.rands url).1 (net.rands url).2 a)
      ≡ datagram (announce_response (net.rands url).1 r [])
  pub fits : length (announce_response (net.rands url).1 r []) ≤ buffer_size
  pub id_bound : connection_id < 2 ^ 64
  pub rand_bound : (net.rands url).0 < 2 ^ 32
  pub rand'_bound : (net.rands url).1 < 2 ^ 32
  pub interval_bound : r.interval < 2 ^ 32
  pub leechers_bound : r.leechers < 2 ^ 32
  pub seeders_bound : r.seeders < 2 ^ 32
  pub peers_bound : All IsPeer r.peers

announce_with_connection_lem :
    (answer : Bytes → Result Bytes) (rand key id : ℕ) (a : Announcement) (r : TrackerResponse)
    → length a.info_hash ≡ 20
    → length a.peer_id ≡ 20
    → rand < 2 ^ 32
    → answer (announce_request id rand key a) ≡ ok (announce_response rand r [])
    → (r.interval < 2 ^ 32) × (r.leechers < 2 ^ 32) × (r.seeders < 2 ^ 32)
    → All IsPeer r.peers
    → announce_with_connection answer rand key id a ≡ ok r
unfolding announce_with_connection
announce_with_connection_lem answer rand key id a r h p b e n ps =
    let hash_size : not (length a.info_hash == 20) ≡ false = ground arith in
    let peer_size : not (length a.peer_id == 20) ≡ false = ground arith in
    if_false _ _ _ hash_size
    ∙ (if_false _ _ _ peer_size
        ∙ (>>=-ok _ (word rand b)
            ∙ (>>=-ok _ e
                ∙ accept_announce-announce_response rand r [] b n.0 n.1 n.2 ps (omega arith))))

ask-Serves :
    (net : Network) (url host : Bytes) (port : ℕ) (a : Announcement) (r : TrackerResponse)
    → length a.info_hash ≡ 20
    → length a.peer_id ≡ 20
    → Serves net url host port a r
    → ask net url host port a ≡ ok r
unfolding ask init announce int_to_bytes
ask-Serves net url host port a r h p s =
    let id = s.connection_id in
    let answer = λ (request : Bytes).
      send_receive (net.sends host port request) (net.receives host port request) request in
    let small : length (int64_to_bytes id ++ []) ≡ 8 =
      omega (arith, length-append {0} (int64_to_bytes id) [], length-int64_to_bytes id) in
    let connected =
      connect_lem answer (net.rands url).0 id [] s.rand_bound s.id_bound
        (send_receive-datagram _ _ _ _ (s.sends_whole _) s.connects (omega (arith, small))) in
    let announced =
      announce_with_connection_lem answer (net.rands url).1 (net.rands url).2 id a r h p
        s.rand'_bound (send_receive-datagram _ _ _ _ (s.sends_whole _) s.announces s.fits)
        (s.interval_bound, s.leechers_bound, s.seeders_bound) s.peers_bound in
    ap
      (λ (x : Setup). init x host port 8 >>= λ client.
        announce
          (λ (request : Bytes).
            send_receive (net.sends client.host client.port request)
              (net.receives client.host client.port request) request)
          (net.rands url).0 (net.rands url).1 (net.rands url).2 a)
      s.set_up
    ∙ (>>=-ok _ connected ∙ announced)

-- UpdatePeersUdp, over a socket that is set up and sends whole datagrams, with an info hash and a
-- peer identifier of 20 bytes and a URL that ParseUdpUrl reads, against a tracker at that host and
-- port which answers the connect and the announce request by the protocol, in datagrams that the
-- buffer holds and with numbers in their ranges: the peers that the tracker names become the peers
-- of the object, and nothing is thrown.
pub update_peers_udp-Serves :
    (net : Network) (torrent_file : TorrentFile) (peer_id : Bytes) (port : ℕ) (url host : Bytes)
    (tracker_port : ℕ) (r : TrackerResponse) (t : TorrentTracker)
    → parse_udp_url url ≡ ok (host, tracker_port)
    → length torrent_file.info_hash ≡ 20
    → length peer_id ≡ 20
    → Serves net url host tracker_port (started torrent_file peer_id port) r
    → update_peers_udp net torrent_file peer_id port url t
      ≡ record { tracker = record t { peers = map convert_tracker_peer r.peers }; thrown = none }
unfolding update_peers_udp udp_peers
update_peers_udp-Serves net torrent_file peer_id port url host tracker_port r t e h p s =
    ap (after_udp t) (
      >>=-ok _ e
      ∙ >>=-ok _ (ask-Serves net url host tracker_port (started torrent_file peer_id port) r h p s))
