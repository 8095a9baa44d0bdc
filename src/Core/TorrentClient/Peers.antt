-- ===== src/Core/TorrentClient/Peers.antt =====
-- The peers of a cycle are a set: sorted, without doubles, whatever the order in which the trackers answer.
use simple_torrent_client.Common.{Bool, true, ◌||◌, List, [], ◌∷◌, ◌≡◌, ◌↔◌, refl, sym, ap, ◌∙◌}
use simple_torrent_client.Common.Order.{has, IsIncreasing}
use simple_torrent_client.Common.Order.Members.{has-unique-sort}
use simple_torrent_client.Common.Order.Sorted.{unique-sort-IsIncreasing}
use simple_torrent_client.Common.Order.Listing.{IsIncreasing-unique}
use simple_torrent_client.Net.Peer.{Peer}
use simple_torrent_client.Core.PeerOrder.{peer_order}
use simple_torrent_client.Core.TorrentTracker.Update.{is_nonempty}
use simple_torrent_client.Core.TorrentClient.{unique_peers}

abbrev pub SamePeers : List Peer → List Peer → Type 0
SamePeers xs ys = (p : Peer) → has peer_order p xs ≡ has peer_order p ys

-- The peers of a cycle are a set: the list that is left is strictly increasing by address and port,
-- so that no peer stands twice, it has the peers that the trackers named, and two lists of named
-- peers leave the same list exactly if they have the same peers.
pub unique_peers-SamePeers :
    (xs ys : List Peer)
    → IsIncreasing peer_order (unique_peers xs)
      × SamePeers (unique_peers xs) xs
      × ((unique_peers xs ≡ unique_peers ys) ↔ SamePeers xs ys)
unfolding unique_peers
unique_peers-SamePeers xs ys =
    let kept = λ (zs : List Peer) (p : Peer). has-unique-sort peer_order p zs in
    (
      unique-sort-IsIncreasing peer_order xs,
      kept xs,
      (
        (λ e p. sym (kept xs p) ∙ (ap (has peer_order p) e ∙ kept ys p)),
        (λ h.
            IsIncreasing-unique peer_order (unique_peers xs) (unique_peers ys)
              (unique-sort-IsIncreasing peer_order xs) (unique-sort-IsIncreasing peer_order ys)
              (λ p. kept xs p ∙ (h p ∙ sym (kept ys p)))),
      ),
    )

has_nonempty : (xs : List Peer) (p : Peer) → has peer_order p xs ≡ true → is_nonempty xs ≡ true
unfolding has
has_nonempty [] p h = absurd (cc)
has_nonempty (x ∷ xs) p h = refl

-- Where some tracker names a peer, a peer is left.
pub unique_peers-nonempty :
    (ps : List Peer) → is_nonempty ps ≡ true → is_nonempty (unique_peers ps) ≡ true
unfolding has unique_peers
unique_peers-nonempty [] h = absurd (cc)
unique_peers-nonempty (p ∷ ps) h = has_nonempty (unique_peers (p ∷ ps)) p (
    has-unique-sort peer_order p (p ∷ ps)
    ∙ ap (λ (b : Bool). b || has peer_order p ps) (peer_order.same_refl p))
