-- ===== src/Core/PeerOrder.antt =====
-- The orders that src/core/TorrentClient.cpp (DownloadFromTracker) sorts by: strings by their bytes, peers
-- by address and then port.
use simple_torrent_client.Common.{
  ◌<◌, ◌⊎◌, inl, inr, sym, subst, Bool-cases, Bool, true, false, ◌&&◌, ◌||◌, [], ◌∷◌, ◌≡◌, refl, ap,
  ◌∙◌, arith, ltb, ◌==◌, bytes_eq, bytes_eq_sound, bytes_eq_refl,
}
use simple_torrent_client.Common.Order.{StrictOrder}
use simple_torrent_client.ByteTools.{Bytes}
use simple_torrent_client.Net.Peer.{Peer}

-- `std::string::operator<`
unfoldable pub bytes_lt : Bytes → Bytes → Bool
bytes_lt [] [] = false
bytes_lt [] (y ∷ ys) = true
bytes_lt (x ∷ xs) [] = false
bytes_lt (x ∷ xs) (y ∷ ys) = ltb x y || (x == y && bytes_lt xs ys)

pub bytes_lt_irreflexive : (xs : Bytes) → bytes_lt xs xs ≡ false
unfolding bytes_lt
bytes_lt_irreflexive [] = refl
bytes_lt_irreflexive (x ∷ xs) = ground (arith, bytes_lt_irreflexive xs)

pub bytes_lt_transitive :
    (xs ys zs : Bytes) → bytes_lt xs ys ≡ true → bytes_lt ys zs ≡ true → bytes_lt xs zs ≡ true
unfolding bytes_lt
bytes_lt_transitive [] [] zs h k = cc
bytes_lt_transitive [] (y ∷ ys) [] h k = cc
bytes_lt_transitive [] (y ∷ ys) (z ∷ zs) h k = refl
bytes_lt_transitive (x ∷ xs) [] zs h k = cc
bytes_lt_transitive (x ∷ xs) (y ∷ ys) [] h k = cc
bytes_lt_transitive (x ∷ xs) (y ∷ ys) (z ∷ zs) h k = ground (arith, bytes_lt_transitive xs ys zs)

pub bytes_lt_connected :
    (xs ys : Bytes) → bytes_lt xs ys ≡ false → bytes_lt ys xs ≡ false → bytes_eq xs ys ≡ true
unfolding bytes_lt bytes_eq
bytes_lt_connected [] [] h k = refl
bytes_lt_connected [] (y ∷ ys) h k = cc
bytes_lt_connected (x ∷ xs) [] h k = cc
bytes_lt_connected (x ∷ xs) (y ∷ ys) h k = ground (arith, bytes_lt_connected xs ys)

abbrev pub bytes_order : StrictOrder Bytes
bytes_order = record {
  lt = bytes_lt;
  same = bytes_eq;
  same_sound = bytes_eq_sound;
  same_refl = bytes_eq_refl;
  irreflexive = bytes_lt_irreflexive;
  transitive = bytes_lt_transitive;
  connected = bytes_lt_connected;
}

-- The two functions that are passed to `std::sort` and `std::unique`.
unfoldable pub peer_lt : Peer → Peer → Bool
peer_lt a b = bytes_lt a.ip b.ip || (bytes_eq a.ip b.ip && ltb a.port b.port)

unfoldable pub peer_eq : Peer → Peer → Bool
peer_eq a b = bytes_eq a.ip b.ip && a.port == b.port

pub peer_eq_sound : (a b : Peer) → peer_eq a b ≡ true → a ≡ b
unfolding peer_eq
peer_eq_sound a b h =
    let ip : a.ip ≡ b.ip = bytes_eq_sound a.ip b.ip (ground arith) in
    let port : a.port ≡ b.port = ground arith in λ i. record { ip = ip i; port = port i }

-- A peer is below another by its address, or by its port at the same address.
peer_lt-cases :
    (a b : Peer)
    → peer_lt a b ≡ true
    → (bytes_lt a.ip b.ip ≡ true) ⊎ ((a.ip ≡ b.ip) × (a.port < b.port))
unfolding peer_lt
peer_lt-cases a b h = elim (Bool-cases (bytes_lt a.ip b.ip)) [
  | inl e ↦ inl e
  | inr e ↦
      let same : bytes_eq a.ip b.ip ≡ true = ground arith in
      inr (bytes_eq_sound a.ip b.ip same, ground arith)
]

peer_lt_ip : (a b : Peer) → bytes_lt a.ip b.ip ≡ true → peer_lt a b ≡ true
unfolding peer_lt
peer_lt_ip a b h = ground arith

peer_lt_port : (a b : Peer) → a.ip ≡ b.ip → a.port < b.port → peer_lt a b ≡ true
unfolding peer_lt
peer_lt_port a b e h =
    let same : bytes_eq a.ip b.ip ≡ true = ap (bytes_eq a.ip) (sym e) ∙ bytes_eq_refl a.ip in
    ground arith

pub peer_lt_transitive :
    (a b c : Peer) → peer_lt a b ≡ true → peer_lt b c ≡ true → peer_lt a c ≡ true
peer_lt_transitive a b c h k = elim (peer_lt-cases a b h) [
  | inl e ↦ elim (peer_lt-cases b c k) [
    | inl f ↦ peer_lt_ip a c (bytes_lt_transitive a.ip b.ip c.ip e f)
    | inr f ↦ peer_lt_ip a c (subst (λ (s : Bytes). bytes_lt a.ip s ≡ true) f.0 e)
  ]
  | inr e ↦ elim (peer_lt-cases b c k) [
    | inl f ↦ peer_lt_ip a c (subst (λ (s : Bytes). bytes_lt s c.ip ≡ true) (sym e.0) f)
    | inr f ↦ peer_lt_port a c (e.0 ∙ f.0) (omega (arith, e.1, f.1))
  ]
]

pub peer_eq_refl : (a : Peer) → peer_eq a a ≡ true
unfolding peer_eq
peer_eq_refl a = ground (arith, bytes_eq_refl a.ip)

pub peer_lt_irreflexive : (a : Peer) → peer_lt a a ≡ false
unfolding peer_lt
peer_lt_irreflexive a = ground (arith, bytes_lt_irreflexive a.ip)

pub peer_lt_connected :
    (a b : Peer) → peer_lt a b ≡ false → peer_lt b a ≡ false → peer_eq a b ≡ true
unfolding peer_lt peer_eq
peer_lt_connected a b h k =
    let below : bytes_lt a.ip b.ip ≡ false = ground arith in
    let above : bytes_lt b.ip a.ip ≡ false = ground arith in
    let same : bytes_eq a.ip b.ip ≡ true = bytes_lt_connected a.ip b.ip below above in
    let same' : bytes_eq b.ip a.ip ≡ true =
      ap (bytes_eq b.ip) (bytes_eq_sound a.ip b.ip same) ∙ bytes_eq_refl b.ip in
    ground arith

abbrev pub peer_order : StrictOrder Peer
peer_order = record {
  lt = peer_lt;
  same = peer_eq;
  same_sound = peer_eq_sound;
  same_refl = peer_eq_refl;
  irreflexive = peer_lt_irreflexive;
  transitive = peer_lt_transitive;
  connected = peer_lt_connected;
}
