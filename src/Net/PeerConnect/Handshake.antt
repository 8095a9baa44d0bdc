-- ===== src/Net/PeerConnect/Handshake.antt =====
-- The handshake: what two clients of one torrent send each other they accept.
use simple_torrent_client.Common.{
  ◌+◌, ◌≤◌, true, false, not, ltb, ◌≡◌, ◌↔◌, inl, inr, ap, ◌∙◌, sym, arith, bytes_eq, bytes_eq_refl,
  bytes_eq_sound, ok≢err, if_true, if_false, drop-append, length, length-append, take, take-append,
  take_all, ok, Bool-cases,
}
use simple_torrent_client.ByteTools.{Bytes, substr}
use simple_torrent_client.Net.PeerConnect.{PeerConnect, handshake_message, accept_handshake}

pub length-handshake_message :
    (c : PeerConnect)
    → length (handshake_message c) ≡ 28 + length c.torrent_file.info_hash + length c.self_peer_id
unfolding handshake_message
length-handshake_message c =
    omega (arith, length-append {0} c.torrent_file.info_hash c.self_peer_id)

-- The fields of the handshake of a client `d`: the info hash from byte 28 on, then its identifier.
info_hash_field :
    (d : PeerConnect)
    → length d.torrent_file.info_hash ≡ 20
    → substr 28 20 (handshake_message d) ≡ d.torrent_file.info_hash
unfolding handshake_message
info_hash_field d h = take-append d.torrent_file.info_hash d.self_peer_id 20 (sym h)

id_field :
    (d : PeerConnect)
    → length d.torrent_file.info_hash ≡ 20
    → length d.self_peer_id ≡ 20
    → substr 48 20 (handshake_message d) ≡ d.self_peer_id
unfolding handshake_message
id_field d h k =
    ap (take 20) (drop-append d.torrent_file.info_hash d.self_peer_id 20 (sym h))
    ∙ take_all 20 d.self_peer_id (omega arith)

-- The handshake message of another client of the same torrent, with an info hash and a peer
-- identifier of 20 bytes: the connection accepts it and learns the identifier of the other.
pub accept_handshake-handshake_message :
    (c d : PeerConnect)
    → c.torrent_file.info_hash ≡ d.torrent_file.info_hash
    → length d.torrent_file.info_hash ≡ 20
    → length d.self_peer_id ≡ 20
    → accept_handshake c (handshake_message d) ≡ ok (record c { peer_id = d.self_peer_id })
unfolding accept_handshake
accept_handshake-handshake_message c d e h k =
    let size : ltb (length (handshake_message d)) 68 ≡ false =
      ground (arith, length-handshake_message d) in
    let hash : bytes_eq (substr 28 20 (handshake_message d)) c.torrent_file.info_hash ≡ true =
      rw (info_hash_field d h) (rw e (bytes_eq_refl d.torrent_file.info_hash)) in
    if_false _ _ _ size
    ∙ (if_false _ _ _ (ap not hash) ∙ ap (λ i. ok (record c { peer_id = i })) (id_field d h k))

-- The outcome of a handshake: the connection accepts an answer exactly if it has 68 bytes at least
-- and the info hash of the torrent in its place.
pub accept_handshake_iff :
    (c : PeerConnect) (response : Bytes)
    → ((d : PeerConnect) × (accept_handshake c response ≡ ok d))
      ↔ ((68 ≤ length response) × (substr 28 20 response ≡ c.torrent_file.info_hash))
unfolding accept_handshake
accept_handshake_iff c response = (accepted, accepts)
  where
    accepted :
        ((d : PeerConnect) × (accept_handshake c response ≡ ok d))
        → (68 ≤ length response) × (substr 28 20 response ≡ c.torrent_file.info_hash)
    accepted (d, e) = elim (Bool-cases (ltb (length response) 68)) [
      | inl h ↦ absurd (ok≢err (sym e ∙ if_true _ _ _ h))
      | inr h ↦ elim (Bool-cases (bytes_eq (substr 28 20 response) c.torrent_file.info_hash)) [
        | inl k ↦ (ground arith, bytes_eq_sound _ _ k)
        | inr k ↦ absurd (ok≢err (sym e ∙ (if_false _ _ _ h ∙ if_true _ _ _ (ap not k))))
      ]
    ]

    accepts :
        (68 ≤ length response) × (substr 28 20 response ≡ c.torrent_file.info_hash)
        → (d : PeerConnect) × (accept_handshake c response ≡ ok d)
    accepts (h, k) =
        let size : ltb (length response) 68 ≡ false = ground arith in
        let hash : bytes_eq (substr 28 20 response) c.torrent_file.info_hash ≡ true =
          rw k (bytes_eq_refl c.torrent_file.info_hash) in
        (_, if_false _ _ _ size ∙ if_false _ _ _ (ap not hash))
