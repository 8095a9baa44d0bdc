-- ===== src/Core/UdpTracker.antt =====
-- include/core/UdpTracker.hpp and src/core/UdpTracker.cpp: the UDP tracker protocol. What `rand()`
-- gives and what `UdpClient::SendReceive` gives, an answer or an exception, are arguments: `answer`
-- is a function of the request.
pub mod Announce
use simple_torrent_client.Common.{
  ℕ, ◌+◌, ◌%◌, ◌^◌, bit_and, bit_or, Bool, not, List, [], ◌∷◌, ◌++◌, ltb, ◌==◌, if◌then◌else◌,
  length, drop, ◌<<◌, u16, u32, Error, Result, ok, err, ◌>>=◌, connect_too_small, connect_failed,
  connect_mismatch, wrong_info_hash_size, wrong_peer_id_size, announce_too_small, tracker_error,
  announce_failed, announce_mismatch,
}
use simple_torrent_client.ByteTools.{
  Bytes, substr, bytes_to_int, int_to_bytes, bytes_to_int64, int64_to_bytes,
}

pub record TrackerPeer : Type 0 where
  pub ip : ℕ
  pub port : ℕ

pub record TrackerResponse : Type 0 where
  pub interval : ℕ
  pub leechers : ℕ
  pub seeders : ℕ
  pub peers : List TrackerPeer

-- The arguments of `Announce`.
pub record Announcement : Type 0 where
  pub info_hash : Bytes
  pub peer_id : Bytes
  pub downloaded : ℕ
  pub left : ℕ
  pub uploaded : ℕ
  pub event : ℕ
  pub num_want : ℕ
  pub port : ℕ

abbrev pub protocol_id : ℕ
protocol_id = 0x41727101980

unfoldable pub connect_request : ℕ → Bytes
connect_request transaction_id =
    int64_to_bytes protocol_id ++ (int_to_bytes 0 ++ int_to_bytes transaction_id)

-- `Connect` from the response on.
unfoldable pub accept_connect : ℕ → Bytes → Result ℕ
accept_connect transaction_id response =
    if ltb (length response) 16 then err connect_too_small else do
      resp_action ← bytes_to_int (substr 0 4 response)
      resp_trans ← bytes_to_int (substr 4 4 response)
      if not (resp_action == 0)
          then err connect_failed
          else if not (resp_trans == transaction_id)
          then err connect_mismatch
          else bytes_to_int64 (substr 8 8 response)

unfoldable pub connect : (Bytes → Result Bytes) → ℕ → Result ℕ
connect answer rand = do
  transaction_id ← bytes_to_int (int_to_bytes rand)
  response ← answer (connect_request transaction_id)
  accept_connect transaction_id response

-- The last four bytes are the port twice.
unfoldable pub announce_request : ℕ → ℕ → ℕ → Announcement → Bytes
announce_request connection_id transaction_id key a =
    int64_to_bytes connection_id
    ++ (int_to_bytes 1
        ++ (int_to_bytes transaction_id
            ++ (a.info_hash
                ++ (a.peer_id
                    ++ (int64_to_bytes a.downloaded
                        ++ (int64_to_bytes a.left
                            ++ (int64_to_bytes a.uploaded
                                ++ (int_to_bytes a.event
                                    ++ (int_to_bytes 0
                                        ++ (int_to_bytes key
                                            ++ (int_to_bytes a.num_want
                                                ++ int_to_bytes (
                                                    u32 (
                                                      bit_or (a.port << 16)
                                                        (bit_and a.port 0xffff))))))))))))))

-- `while (offset + 6 <= response.size())`, over what stands at `offset` and behind it.
unfoldable pub compact_peers : Bytes → Result (List TrackerPeer)
compact_peers (a ∷ b ∷ c ∷ d ∷ e ∷ f ∷ rest) = do
  ip ← bytes_to_int (a ∷ b ∷ c ∷ d ∷ [])
  others ← compact_peers rest
  ok (record { ip = ip; port = u16 (bit_or (e << 8) f) } ∷ others)
compact_peers _ = ok []

-- What an announce response says, once it is accepted.
unfoldable pub read_response : Bytes → Result TrackerResponse
unfolding compact_peers
read_response response = do
  interval ← bytes_to_int (substr 8 4 response)
  leechers ← bytes_to_int (substr 12 4 response)
  seeders ← bytes_to_int (substr 16 4 response)
  peers ← compact_peers (drop 20 response)
  ok (record { interval = interval; leechers = leechers; seeders = seeders; peers = peers })

-- `AnnounceWithConnection` from the response on.
unfoldable pub accept_announce : ℕ → Bytes → Result TrackerResponse
unfolding read_response
accept_announce transaction_id response =
    if ltb (length response) 20 then err announce_too_small else do
      resp_action ← bytes_to_int (substr 0 4 response)
      resp_trans ← bytes_to_int (substr 4 4 response)
      if resp_action == 3
          then err (tracker_error (drop 8 response))
          else if not (resp_action == 1)
          then err announce_failed
          else if not (resp_trans == transaction_id)
          then err announce_mismatch
          else read_response response

unfoldable pub announce_with_connection :
    (Bytes → Result Bytes) → ℕ → ℕ → ℕ → Announcement → Result TrackerResponse
announce_with_connection answer rand key connection_id a =
    if not (length a.info_hash == 20)
    then err wrong_info_hash_size
    else if not (length a.peer_id == 20)
    then err wrong_peer_id_size
    else do
      transaction_id ← bytes_to_int (int_to_bytes rand)
      response ← answer (announce_request connection_id transaction_id key a)
      accept_announce transaction_id response

-- `Announce`: the three calls of `rand()` give `rand`, `rand'` and `key`.
unfoldable pub announce : (Bytes → Result Bytes) → ℕ → ℕ → ℕ → Announcement → Result TrackerResponse
announce answer rand rand' key a = do
  connection_id ← connect answer rand
  announce_with_connection answer rand' key connection_id a
