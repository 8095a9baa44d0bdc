-- ===== src/Core/TorrentTracker/Peers.antt =====
-- The compact peers of an HTTP response and of a UDP response are read alike.
use simple_torrent_client.Common.{
  ℕ, zero, suc, ◌*◌, ◌%◌, bit_and, bit_or, true, List, [], ◌∷◌, map, ◌≡◌, refl, sym, ap, ◌∙◌, arith,
  ◌==◌, length, ◌<<◌, ◌>>◌, u16, or_fields, and_byte, IsBytes, ok, >>=-ok,
}
use simple_torrent_client.ByteTools.{Bytes}
use simple_torrent_client.ByteTools.RoundTrip.{big_endian, bytes_to_int-big_endian}
use simple_torrent_client.Bencode.{ends}
use simple_torrent_client.Bencode.Steps.{>>=-ends}
use simple_torrent_client.Net.Peer.{Peer}
use simple_torrent_client.Core.UdpTracker.{TrackerPeer, compact_peers}
use simple_torrent_client.Core.TorrentTracker.{TorrentTracker, dotted, convert_tracker_peer}
use simple_torrent_client.Core.TorrentTracker.Http.{binary_peers, parse_compact_peers, returns}

-- The address and the port of a peer whose six bytes are given.
convert_tracker_peer-big_endian :
    (a b c d e f : ℕ)
    → IsBytes (a ∷ b ∷ c ∷ d ∷ e ∷ f ∷ [])
    → convert_tracker_peer (record { ip = big_endian a b c d; port = u16 (bit_or (e << 8) f) })
      ≡ record { ip = dotted a b c d; port = bit_or (e << 8) f }
unfolding convert_tracker_peer
convert_tracker_peer-big_endian a b c d e f h =
    let v = big_endian a b c d in
    let first : bit_and (v >> 24) 0xff ≡ a = omega (arith, and_byte (v >> 24)) in
    let second : bit_and (v >> 16) 0xff ≡ b = omega (arith, and_byte (v >> 16)) in
    let third : bit_and (v >> 8) 0xff ≡ c = omega (arith, and_byte (v >> 8)) in
    let last : bit_and v 0xff ≡ d = omega (arith, and_byte v) in
    let port : u16 (bit_or (e << 8) f) ≡ bit_or (e << 8) f =
      omega (arith, or_fields 8 e f (omega arith)) in
    λ i. record { ip = dotted (first i) (second i) (third i) (last i); port = port i }

-- Both readers return on whole peers.
record Agrees (data_left : Bytes) : Type 0 where
  over_udp : List TrackerPeer
  udp_reads : compact_peers data_left ≡ ok over_udp
  http_reads : binary_peers data_left ≡ ends (map convert_tracker_peer over_udp)

agree : (n : ℕ) (s : Bytes) → IsBytes s → length s ≡ 6 * n → Agrees s
unfolding compact_peers binary_peers
agree n [] h e = record { over_udp = []; udp_reads = refl; http_reads = refl }
agree n (a ∷ []) h e = absurd (omega arith)
agree n (a ∷ b ∷ []) h e = absurd (omega arith)
agree n (a ∷ b ∷ c ∷ []) h e = absurd (omega arith)
agree n (a ∷ b ∷ c ∷ d ∷ []) h e = absurd (omega arith)
agree n (a ∷ b ∷ c ∷ d ∷ x ∷ []) h e = absurd (omega arith)
agree zero (a ∷ b ∷ c ∷ d ∷ x ∷ y ∷ s) h e = absurd (omega arith)
agree (suc n) (a ∷ b ∷ c ∷ d ∷ x ∷ y ∷ s) h e =
    let r = agree n s h.1.1.1.1.1.1 (omega arith) in
    let p : TrackerPeer = record { ip = big_endian a b c d; port = u16 (bit_or (x << 8) y) } in
    record {
      over_udp = p ∷ r.over_udp;
      udp_reads =
          >>=-ok _ (bytes_to_int-big_endian a b c d [] (h.0, (h.1.0, (h.1.1.0, (h.1.1.1.0, tt)))))
          ∙ >>=-ok _ r.udp_reads;
      http_reads =
          >>=-ends _ r.http_reads
          ∙ ap (λ (q : Peer). ends (q ∷ map convert_tracker_peer r.over_udp))
              (sym (
                convert_tracker_peer-big_endian a b c d x y
                  (h.0, (h.1.0, (h.1.1.0, (h.1.1.1.0, (h.1.1.1.1.0, (h.1.1.1.1.1.0, tt))))))));
    }

-- On bytes of one or more whole peers, six for each, the compact peers of an HTTP response are the
-- peers that the UDP tracker reads from the same bytes, converted one by one; neither reader
-- throws.
pub parse_compact_peers-compact_peers :
    (t : TorrentTracker) (n : ℕ) (peers_data : Bytes)
    → IsBytes peers_data
    → length peers_data ≡ 6 * suc n
    → (ps : List TrackerPeer) × ((compact_peers peers_data ≡ ok ps)
        × (parse_compact_peers t peers_data
            ≡ returns (record t { peers = map convert_tracker_peer ps })))
unfolding parse_compact_peers
parse_compact_peers-compact_peers t n [] h e = absurd (omega arith)
parse_compact_peers-compact_peers t n (b ∷ s) h e =
    let r = agree (suc n) (b ∷ s) h e in
    let whole : (suc (length s) % 6 == 0) ≡ true = ground arith in
    (r.over_udp, (r.udp_reads, rw (parse_compact_peers, whole) (>>=-ends _ r.http_reads)))
