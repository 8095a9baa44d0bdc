-- ===== src/Core/TorrentTracker/Http.antt =====
-- HTTP trackers: the request, and the bencoded response (UpdatePeersHttp, ParseTrackerResponse,
-- ParseCompactPeers). The parser may not end, so that a call is a run of it.
use simple_torrent_client.Common.{
  ℕ, ◌%◌, ◌<<◌, bit_or, true, false, not, ◌&&◌, none, some, List, [], ◌∷◌, ◌==◌, bytes_eq,
  if◌then◌else◌, length, Error, http_error, tracker_failure, no_peers_data,
  peer_format_not_supported,
}
use simple_torrent_client.ByteTools.{Bytes}
use simple_torrent_client.Decimal.{to_string}
use simple_torrent_client.Bencode.{
  Run, ends, throws, strays, goes_on, ◌>>=◌, is_empty, parse_from_string,
}
use simple_torrent_client.Net.Peer.{Peer}
use simple_torrent_client.Core.TorrentFile.{TorrentFile}
use simple_torrent_client.Core.TorrentTracker.{TorrentTracker, Tried, dotted}

abbrev pub returns : TorrentTracker → Run Tried
returns t = ends (record { tracker = t; thrown = none })

abbrev pub failed : TorrentTracker → Error → Run Tried
failed t e = ends (record { tracker = t; thrown = some e })

-- An exception of the parser passes through, with the object as it was.
abbrev pub parsed_by {ℓ} : {A : Type ℓ} → TorrentTracker → Run A → (A → Run Tried) → Run Tried
parsed_by t (ends a) k = k a
parsed_by t (throws e) k = failed t e
parsed_by t strays k = strays
parsed_by t goes_on k = goes_on

-- The rounds of `ParseCompactBinaryPeers`, over what stands at `i` and behind it.
unfoldable pub binary_peers : Bytes → Run (List Peer)
binary_peers (a ∷ b ∷ c ∷ d ∷ e ∷ f ∷ rest) = do
  others ← binary_peers rest
  ends (record { ip = dotted a b c d; port = bit_or (e << 8) f } ∷ others)
binary_peers [] = ends []
binary_peers _ = strays

unfoldable pub parse_compact_peers : TorrentTracker → Bytes → Run Tried
unfolding binary_peers
parse_compact_peers t peers_data =
    let cleared = record t { peers = [] } in
    elim (length peers_data % 6 == 0 && not (is_empty peers_data)) [
      | true ↦ binary_peers peers_data >>= λ peers. returns (record cleared { peers = peers })
      | false ↦ failed cleared peer_format_not_supported
    ]

abbrev pub peers_key : Bytes
peers_key = b'p' ∷ b'e' ∷ b'e' ∷ b'r' ∷ b's' ∷ []

abbrev pub failure_key : Bytes
failure_key =
    b'f' ∷ b'a' ∷ b'i' ∷ b'l' ∷ b'u' ∷ b'r' ∷ b'e' ∷ b' ' ∷ b'r' ∷ b'e' ∷ b'a' ∷ b's' ∷ b'o' ∷ b'n'
    ∷ []

-- What the loop over the parsed strings keeps.
pub record Answer : Type 0 where
  pub peers_data : Bytes
  pub failure_reason : Bytes

unfoldable pub search_answer : List Bytes → Answer → Answer
search_answer [] a = a
search_answer (x ∷ []) a = a
search_answer (x ∷ y ∷ rest) a = search_answer (y ∷ rest) (record {
  peers_data = if bytes_eq x peers_key then y else a.peers_data;
  failure_reason = if bytes_eq x failure_key then y else a.failure_reason;
})

abbrev pub accept_answer : TorrentTracker → Answer → Run Tried
accept_answer t a = elim (is_empty a.failure_reason) [
  | false ↦ failed t (tracker_failure a.failure_reason)
  | true ↦ elim (is_empty a.peers_data) [
    | true ↦ failed t no_peers_data
    | false ↦ parse_compact_peers t a.peers_data
  ]
]

unfoldable pub parse_tracker_response : (Bytes → Bytes) → ℕ → TorrentTracker → Bytes → Run Tried
unfolding search_answer
parse_tracker_response sha1 fuel t response =
    parsed_by t (parse_from_string sha1 fuel response) (λ p.
      accept_answer t (search_answer p.parsed (record { peers_data = []; failure_reason = [] })))

-- `cpr::Get`: the response to a URL and its parameters.
pub record HttpResponse : Type 0 where
  pub status_code : ℕ
  pub text : Bytes

abbrev pub request_parameters : TorrentFile → Bytes → ℕ → List (Bytes × Bytes)
request_parameters torrent_file peer_id port =
    (b'i' ∷ b'n' ∷ b'f' ∷ b'o' ∷ b'_' ∷ b'h' ∷ b'a' ∷ b's' ∷ b'h' ∷ [], torrent_file.info_hash)
    ∷ (b'p' ∷ b'e' ∷ b'e' ∷ b'r' ∷ b'_' ∷ b'i' ∷ b'd' ∷ [], peer_id)
    ∷ (b'p' ∷ b'o' ∷ b'r' ∷ b't' ∷ [], to_string port)
    ∷ (b'u' ∷ b'p' ∷ b'l' ∷ b'o' ∷ b'a' ∷ b'd' ∷ b'e' ∷ b'd' ∷ [], b'0' ∷ [])
    ∷ (b'd' ∷ b'o' ∷ b'w' ∷ b'n' ∷ b'l' ∷ b'o' ∷ b'a' ∷ b'd' ∷ b'e' ∷ b'd' ∷ [], b'0' ∷ [])
    ∷ (b'l' ∷ b'e' ∷ b'f' ∷ b't' ∷ [], to_string torrent_file.length)
    ∷ (b'c' ∷ b'o' ∷ b'm' ∷ b'p' ∷ b'a' ∷ b'c' ∷ b't' ∷ [], b'1' ∷ [])
    ∷ []

unfoldable pub update_peers_http :
    (Bytes → Bytes)
    → ℕ
    → (Bytes → List (Bytes × Bytes) → HttpResponse)
    → TorrentFile
    → Bytes
    → ℕ
    → Bytes
    → TorrentTracker
    → Run Tried
unfolding parse_tracker_response
update_peers_http sha1 fuel get torrent_file peer_id port url t =
    let response = get url (request_parameters torrent_file peer_id port) in
    elim (response.status_code == 200) [
      | false ↦ failed t (http_error response.status_code)
      | true ↦ parse_tracker_response sha1 fuel t response.text
    ]
