-- ===== src/Core/TorrentTracker/Response.antt =====
-- The response of an HTTP tracker, with an interval and compact peers, is read as what it says.
use simple_torrent_client.Common.{
  ℕ, ◌*◌, ◌^◌, ◌≤◌, ◌<◌, ◌%◌, List, [], ◌∷◌, ◌++◌, map, ◌≡◌, refl, sym, ap, ◌∙◌, arith, bytes_eq,
  if_false, length, All, IsBytes, tracker_failure, ok-injective, All-append, length-append, ◌/◌,
}
use simple_torrent_client.ByteTools.{Bytes}
use simple_torrent_client.Decimal.{to_string}
use simple_torrent_client.Decimal.RoundTrip.{to_string-All, to_string-differs}
use simple_torrent_client.ByteTools.{int_to_bytes}
use simple_torrent_client.ByteTools.RoundTrip.{int_to_bytes-IsBytes, length-int_to_bytes}
use simple_torrent_client.Core.UdpTracker.Announce.{compact, IsPeer, compact_peers-compact}
use simple_torrent_client.Bencode.Values.{
  Value, text, integer, dict, no_entries, entry, encode, leaves, IsValue,
}
use simple_torrent_client.Bencode.RoundTrip.{parse_from_string-write}
use simple_torrent_client.Core.UdpTracker.{TrackerPeer}
use simple_torrent_client.Core.TorrentTracker.{TorrentTracker, convert_tracker_peer}
use simple_torrent_client.Core.TorrentTracker.Http.{
  parsed_by, returns, failed, peers_key, failure_key, Answer, search_answer, accept_answer,
  parse_tracker_response,
}
use simple_torrent_client.Core.TorrentTracker.Peers.{parse_compact_peers-compact_peers}
use simple_torrent_client.Core.TorrentFile.Written.{digits-All}

abbrev pub interval_key : Bytes
interval_key = b'i' ∷ b'n' ∷ b't' ∷ b'e' ∷ b'r' ∷ b'v' ∷ b'a' ∷ b'l' ∷ []

abbrev pub response_value : ℕ → Bytes → Value
response_value interval peers_data = dict (
    entry interval_key (integer (to_string interval))
      (entry peers_key (text peers_data) no_entries))

abbrev pub failure_value : Bytes → Value
failure_value reason = dict (entry failure_key (text reason) no_entries)

search_answer_lem :
    (interval : ℕ) (peers_data : Bytes)
    → search_answer
        (leaves (response_value interval peers_data))
        (record { peers_data = []; failure_reason = [] })
      ≡ record { peers_data = peers_data; failure_reason = [] }
unfolding search_answer leaves bytes_eq
search_answer_lem interval peers_data =
    ap (λ (s : Bytes). record { peers_data = peers_data; failure_reason = s })
      (if_false _ _ _ (to_string-differs interval b'f' _ (omega arith)))

compact-IsBytes : (ps : List TrackerPeer) → All IsPeer ps → IsBytes (compact ps)
unfolding compact
compact-IsBytes [] h = tt
compact-IsBytes (p ∷ ps) h =
    All-append (λ b. b < 256) (int_to_bytes p.ip) (p.port / 256 ∷ p.port % 256 ∷ compact ps)
      (int_to_bytes-IsBytes p.ip) (omega (arith, h.0.1), (omega arith, compact-IsBytes ps h.1))

length-compact : (ps : List TrackerPeer) → length (compact ps) ≡ 6 * length ps
unfolding compact
length-compact [] = omega arith
length-compact (p ∷ ps) = omega (
  arith,
  length-append {0} (int_to_bytes p.ip) (p.port / 256 ∷ p.port % 256 ∷ compact ps),
  length-int_to_bytes p.ip,
  length-compact ps,
)

accept_answer_lem :
    (t : TorrentTracker) (p : TrackerPeer) (ps : List TrackerPeer)
    → All IsPeer (p ∷ ps)
    → accept_answer t (record { peers_data = compact (p ∷ ps); failure_reason = [] })
      ≡ returns (record t { peers = map convert_tracker_peer (p ∷ ps) })
unfolding compact int_to_bytes
accept_answer_lem t p ps h =
    let r =
      parse_compact_peers-compact_peers t (length ps) (compact (p ∷ ps))
        (compact-IsBytes (p ∷ ps) h) (length-compact (p ∷ ps)) in
    let same : r.0 ≡ p ∷ ps = ok-injective (sym r.1.0 ∙ compact_peers-compact (p ∷ ps) h) in
    r.1.1
    ∙ ap (λ (qs : List TrackerPeer). returns (record t { peers = map convert_tracker_peer qs }))
        same

module _ (sha1 : Bytes → Bytes) (fuel : ℕ) (t : TorrentTracker) (rest : Bytes) where
  -- The value is written, parsed, and its strings are searched.
  parse_tracker_response_lem :
      (v : Value) (a : Answer)
      → IsValue v
      → 2 * length (encode v) ≤ fuel
      → search_answer (leaves v) (record { peers_data = []; failure_reason = [] }) ≡ a
      → parse_tracker_response sha1 fuel t (encode v ++ rest) ≡ accept_answer t a
  unfolding parse_tracker_response
  parse_tracker_response_lem v a h k e =
      ap
        (λ r. parsed_by t r (λ p.
          accept_answer t
            (search_answer p.parsed (record { peers_data = []; failure_reason = [] }))))
        (parse_from_string-write sha1 v rest fuel h k)
      ∙ ap (accept_answer t) e

  -- The response of an HTTP tracker with an interval and one or more compact peers, whose addresses
  -- and ports are in their ranges and which have fewer than 2 ^ 31 bytes, is read as these peers,
  -- converted one by one, whatever follows it. The fuel is twice the size of the response at least.
  pub parse_tracker_response-response_value :
      (interval : ℕ) (p : TrackerPeer) (ps : List TrackerPeer)
      → All IsPeer (p ∷ ps)
      → 6 * length (p ∷ ps) < 2 ^ 31
      → 2 * length (encode (response_value interval (compact (p ∷ ps)))) ≤ fuel
      → parse_tracker_response sha1 fuel t
          (encode (response_value interval (compact (p ∷ ps))) ++ rest)
        ≡ returns (record t { peers = map convert_tracker_peer (p ∷ ps) })
  unfolding IsValue
  parse_tracker_response-response_value interval p ps h b k =
      let d = compact (p ∷ ps) in
      let size = length-compact (p ∷ ps) in
      let digits = digits-All (to_string interval) (to_string-All interval) in
      parse_tracker_response_lem (response_value interval d) _
        (refl, omega arith, digits, (refl, omega arith, omega (arith, size), tt)) k
        (search_answer_lem interval d)
      ∙ accept_answer_lem t p ps h

  -- The response of an HTTP tracker that is a failure reason, not empty and of fewer than 2 ^ 31
  -- bytes: ParseTrackerResponse throws an exception with the reason and leaves the peers as they
  -- were, whatever follows the response. The fuel is twice its size at least.
  pub parse_tracker_response-failure_value :
      (c : ℕ) (reason : Bytes)
      → length (c ∷ reason) < 2 ^ 31
      → 2 * length (encode (failure_value (c ∷ reason))) ≤ fuel
      → parse_tracker_response sha1 fuel t (encode (failure_value (c ∷ reason)) ++ rest)
        ≡ failed t (tracker_failure (c ∷ reason))
  unfolding IsValue search_answer leaves bytes_eq
  parse_tracker_response-failure_value c reason b k =
      parse_tracker_response_lem (failure_value (c ∷ reason))
        (record { peers_data = []; failure_reason = c ∷ reason }) (refl, omega arith, b, tt) k refl
