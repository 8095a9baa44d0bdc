-- ===== src/Core/UdpTracker/Announce.antt =====
-- What the client reads from a tracker's answers.
use simple_torrent_client.Common.{
  ℕ, ◌+◌, ◌*◌, ◌/◌, ◌%◌, ◌^◌, ◌≤◌, ◌<◌, bit_or, false, not, List, [], ◌∷◌, ◌++◌, ltb, ◌==◌, ◌≡◌,
  refl, sym, ap, ◌∙◌, arith, if◌then◌else◌, if_true, if_false, Bool-cases, inl, inr, length,
  length-append, drop, take, ◌<<◌, u16, or_fields, Result, ok, err, >>=-ok, both_return,
  take-append, append-nil, length-drop, tracker_error, announce_failed, announce_mismatch, ok≢err,
  ok-injective, All,
}
use simple_torrent_client.ByteTools.{
  Bytes, substr, bytes_to_int, int_to_bytes, bytes_to_int64, int64_to_bytes,
}
use simple_torrent_client.ByteTools.RoundTrip.{
  bytes_to_int-int_to_bytes, bytes_to_int64-int64_to_bytes, length-int64_to_bytes,
}
use simple_torrent_client.Core.UdpTracker.{
  TrackerPeer, TrackerResponse, compact_peers, read_response, accept_announce, connect_request,
  accept_connect, connect,
}

pub word : (v : ℕ) → v < 2 ^ 32 → bytes_to_int (int_to_bytes v) ≡ ok v
unfolding int_to_bytes
word v h = bytes_to_int-int_to_bytes v [] ∙ ap ok (omega arith)

-- A peer as the protocol writes it: its address and then its port, the highest byte first.
unfoldable pub compact : List TrackerPeer → Bytes
compact [] = []
compact (p ∷ ps) = int_to_bytes p.ip ++ p.port / 256 ∷ p.port % 256 ∷ compact ps

abbrev pub IsPeer : TrackerPeer → Type 0
IsPeer p = (p.ip < 2 ^ 32) × (p.port < 2 ^ 16)

port_lem : (p : ℕ) → p < 2 ^ 16 → u16 (bit_or ((p / 256) << 8) (p % 256)) ≡ p
port_lem p h = ground (arith, or_fields 8 (p / 256) (p % 256))

compact_peers_rest : (rest : Bytes) → length rest < 6 → compact_peers rest ≡ ok []
unfolding compact_peers
compact_peers_rest [] h = refl
compact_peers_rest (a ∷ []) h = refl
compact_peers_rest (a ∷ b ∷ []) h = refl
compact_peers_rest (a ∷ b ∷ c ∷ []) h = refl
compact_peers_rest (a ∷ b ∷ c ∷ d ∷ []) h = refl
compact_peers_rest (a ∷ b ∷ c ∷ d ∷ e ∷ []) h = refl
compact_peers_rest (a ∷ b ∷ c ∷ d ∷ e ∷ f ∷ rest) h = absurd (omega arith)

compact_peers-compact_rest :
    (ps : List TrackerPeer) (rest : Bytes)
    → All IsPeer ps
    → length rest < 6
    → compact_peers (compact ps ++ rest) ≡ ok ps
unfolding compact_peers compact int_to_bytes
compact_peers-compact_rest [] rest h k = compact_peers_rest rest k
compact_peers-compact_rest (p ∷ ps) rest h k =
    >>=-ok _ (word p.ip h.0.0)
    ∙ (>>=-ok _ (compact_peers-compact_rest ps rest h.1 k)
        ∙ ap (λ (q : ℕ). ok (record { ip = p.ip; port = q } ∷ ps)) (port_lem p.port h.0.1))

pub compact_peers-compact :
    (ps : List TrackerPeer) → All IsPeer ps → compact_peers (compact ps) ≡ ok ps
compact_peers-compact ps h =
    ap compact_peers (sym (append-nil (compact ps)))
    ∙ compact_peers-compact_rest ps [] h (omega arith)

-- An announce response of the protocol.
abbrev pub announce_response : ℕ → TrackerResponse → Bytes → Bytes
announce_response transaction_id r rest =
    int_to_bytes 1
    ++ (int_to_bytes transaction_id
        ++ (int_to_bytes r.interval
            ++ (int_to_bytes r.leechers ++ (int_to_bytes r.seeders ++ (compact r.peers ++ rest)))))

-- An announce response of the protocol, with the transaction identifier that was sent, numbers
-- below 2 ^ 32 and ports below 2 ^ 16, is read as what it says, peers included; a rest of fewer
-- than six bytes is not looked at.
pub accept_announce-announce_response :
    (transaction_id : ℕ) (r : TrackerResponse) (rest : Bytes)
    → transaction_id < 2 ^ 32
    → r.interval < 2 ^ 32
    → r.leechers < 2 ^ 32
    → r.seeders < 2 ^ 32
    → All IsPeer r.peers
    → length rest < 6
    → accept_announce transaction_id (announce_response transaction_id r rest) ≡ ok r
unfolding accept_announce read_response int_to_bytes
accept_announce-announce_response transaction_id r rest ht hi hl hs hp hr =
    let size : ltb (length (announce_response transaction_id r rest)) 20 ≡ false = ground arith in
    let same : not (transaction_id == transaction_id) ≡ false = ground arith in
    if_false _ _ _ size
    ∙ (>>=-ok _ (word 1 (omega arith))
        ∙ (>>=-ok _ (word transaction_id ht)
            ∙ (if_false _ _ _ same
                ∙ (>>=-ok _ (word r.interval hi)
                    ∙ (>>=-ok _ (word r.leechers hl)
                        ∙ (>>=-ok _ (word r.seeders hs)
                            ∙ >>=-ok _ (compact_peers-compact_rest r.peers rest hp hr)))))))

compact_peers-length :
    (bytes : Bytes) (ps : List TrackerPeer)
    → compact_peers bytes ≡ ok ps
    → (6 * length ps ≤ length bytes) × (length bytes < 6 * length ps + 6)
unfolding compact_peers
compact_peers-length [] ps e = rw (← ok-injective e) (omega arith)
compact_peers-length (a ∷ []) ps e = rw (← ok-injective e) (omega arith)
compact_peers-length (a ∷ b ∷ []) ps e = rw (← ok-injective e) (omega arith)
compact_peers-length (a ∷ b ∷ c ∷ []) ps e = rw (← ok-injective e) (omega arith)
compact_peers-length (a ∷ b ∷ c ∷ d ∷ []) ps e = rw (← ok-injective e) (omega arith)
compact_peers-length (a ∷ b ∷ c ∷ d ∷ e ∷ []) ps h = rw (← ok-injective h) (omega arith)
compact_peers-length (a ∷ b ∷ c ∷ d ∷ e ∷ f ∷ rest) ps h =
    let ip = both_return _ (bytes_to_int (a ∷ b ∷ c ∷ d ∷ [])) h in
    let others = both_return _ (compact_peers rest) ip.1.1 in
    let n = compact_peers-length rest others.0 others.1.0 in
    rw (← ok-injective others.1.1) (omega (arith, n))

read_response-length :
    (response : Bytes) (r : TrackerResponse)
    → read_response response ≡ ok r
    → compact_peers (drop 20 response) ≡ ok r.peers
unfolding read_response
read_response-length response r h =
    let x = both_return _ (bytes_to_int (substr 8 4 response)) h in
    let y = both_return _ (bytes_to_int (substr 12 4 response)) x.1.1 in
    let z = both_return _ (bytes_to_int (substr 16 4 response)) y.1.1 in
    let p = both_return _ (compact_peers (drop 20 response)) z.1.1 in
    p.1.0 ∙ ap (λ (q : TrackerResponse). ok q.peers) (ok-injective p.1.1)

-- What an accepted response has: 20 bytes at least, the action of an announcement, the transaction
-- identifier that was sent, and one peer for every six bytes behind the first 20.
pub record IsAnnounced (transaction_id : ℕ) (response : Bytes) (r : TrackerResponse) : Type 0 where
  pub enough : 20 ≤ length response
  pub action : bytes_to_int (substr 0 4 response) ≡ ok 1
  pub transaction : bytes_to_int (substr 4 4 response) ≡ ok transaction_id
  pub counted :
      (20 + 6 * length r.peers ≤ length response) × (length response < 26 + 6 * length r.peers)

-- A response that is accepted, whatever bytes it has, is one of at least 20 bytes with the action
-- of an announcement and the transaction identifier that was sent, and gives one peer for every six
-- bytes behind the first 20.
pub accept_announce-IsAnnounced :
    (transaction_id : ℕ) (response : Bytes) (r : TrackerResponse)
    → accept_announce transaction_id response ≡ ok r
    → IsAnnounced transaction_id response r
unfolding accept_announce
accept_announce-IsAnnounced transaction_id response r h =
    elim (Bool-cases (ltb (length response) 20)) [
      | inl e ↦ absurd (ok≢err (sym h ∙ if_true _ _ _ e))
      | inr e ↦
          let x = both_return _ (bytes_to_int (substr 0 4 response)) (sym (if_false _ _ _ e) ∙ h) in
          let y = both_return _ (bytes_to_int (substr 4 4 response)) x.1.1 in
          let s = split x.0 y.0 y.1.1 in
          let n =
            compact_peers-length (drop 20 response) r.peers (read_response-length response r s.2) in
          record {
            enough = ground arith;
            action = x.1.0 ∙ ap ok s.0;
            transaction = y.1.0 ∙ ap ok s.1;
            counted = ground (arith, n, length-drop {0} 20 response);
          }
    ]
  where
    split :
        (a b : ℕ)
        → (if a == 3
            then err (tracker_error (drop 8 response))
            else if not (a == 1)
            then err announce_failed
            else if not (b == transaction_id)
            then err announce_mismatch
            else read_response response)
          ≡ ok r
        → (a ≡ 1) × (b ≡ transaction_id) × (read_response response ≡ ok r)
    split a b k = ground arith

-- Connect, with a number from rand() below 2 ^ 32, against a tracker that answers its request by
-- the protocol, with any connection identifier below 2 ^ 64 and any bytes behind it, gives that
-- identifier.
pub connect_lem :
    (answer : Bytes → Result Bytes) (rand id : ℕ) (rest : Bytes)
    → rand < 2 ^ 32
    → id < 2 ^ 64
    → answer (connect_request rand)
      ≡ ok (int_to_bytes 0 ++ (int_to_bytes rand ++ (int64_to_bytes id ++ rest)))
    → connect answer rand ≡ ok id
unfolding connect accept_connect int_to_bytes
connect_lem answer rand id rest hr hi e =
    let response = int_to_bytes 0 ++ (int_to_bytes rand ++ (int64_to_bytes id ++ rest)) in
    let size : ltb (length response) 16 ≡ false =
      ground (arith, length-append {0} (int64_to_bytes id) rest, length-int64_to_bytes id) in
    let same : not (rand == rand) ≡ false = ground arith in
    let field : take 8 (int64_to_bytes id ++ rest) ≡ int64_to_bytes id =
      take-append (int64_to_bytes id) rest 8 (sym (length-int64_to_bytes id)) in
    >>=-ok _ (word rand hr)
    ∙ (>>=-ok _ e
        ∙ (if_false _ _ _ size
            ∙ (>>=-ok _ (word 0 (omega arith))
                ∙ (>>=-ok _ (word rand hr)
                    ∙ (if_false _ _ _ same
                        ∙ (ap bytes_to_int64 (field ∙ sym (append-nil (int64_to_bytes id)))
                            ∙ bytes_to_int64-int64_to_bytes id [] hi))))))
