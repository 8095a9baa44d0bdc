-- ===== src/Core/TorrentTracker/Choice.antt =====
-- Which tracker the peers of UpdatePeers come from.
use simple_torrent_client.Common.{
  Bool, true, false, Option, none, some, List, [], ◌∷◌, ◌≡◌, refl, sym, ap, ◌∙◌, inl, inr,
  if◌then◌else◌, Bool-cases, All, Error, all_trackers_failed,
}
use simple_torrent_client.ByteTools.{Bytes}
use simple_torrent_client.Bencode.{ends}
use simple_torrent_client.Bencode.Steps.{>>=-ends}
use simple_torrent_client.Net.Peer.{Peer}
use simple_torrent_client.Core.TorrentTracker.{TorrentTracker}
use simple_torrent_client.Core.TorrentTracker.Update.{
  all_trackers, is_nonempty, Context, update_from, try_trackers, update_peers,
}

-- The peers of the first tracker that names any.
abbrev pub first_nonempty : (Bytes → List Peer) → List Bytes → List Peer
first_nonempty named [] = []
first_nonempty named (url ∷ rest) = elim (is_nonempty (named url)) [
  | true ↦ named url
  | false ↦ first_nonempty named rest
]

-- What a tracker comes to that is tried without peers: `peers`, with or without an exception.
abbrev pub Names : Context → TorrentTracker → Bytes → List Peer → Type 0
Names c t url peers =
    (e : Option Error) × (update_from c url (record t { peers = [] })
      ≡ ends (record { tracker = record t { peers = peers }; thrown = e }))

is_nonempty-empty : (ps : List Peer) → is_nonempty ps ≡ false → ps ≡ []
is_nonempty-empty [] e = refl
is_nonempty-empty (p ∷ ps) e = cc

try_trackers-found :
    (c : Context) (urls : List Bytes) (t : TorrentTracker)
    → is_nonempty t.peers ≡ true
    → try_trackers c urls t ≡ ends t
unfolding try_trackers
try_trackers-found c [] t e = refl
try_trackers-found c (url ∷ rest) t e = rw (try_trackers, e) refl

try_trackers_lem :
    (c : Context) (named : Bytes → List Peer) (urls : List Bytes) (t : TorrentTracker)
    → All (λ url. Names c t url (named url)) urls
    → try_trackers c urls (record t { peers = [] })
      ≡ ends (record t { peers = first_nonempty named urls })
unfolding try_trackers
try_trackers_lem c named [] t h = refl
try_trackers_lem c named (url ∷ rest) t h =
    >>=-ends (λ r. try_trackers c rest r.tracker) h.0.1
    ∙ elim (Bool-cases (is_nonempty (named url))) [
      | inl e ↦
          try_trackers-found c rest (record t { peers = named url }) e
          ∙ ap
              (λ (b : Bool). ends (record t {
                peers = elim b [ true ↦ named url | false ↦ first_nonempty named rest ];
              }))
              (sym e)
      | inr e ↦
          ap (λ (ps : List Peer). try_trackers c rest (record t { peers = ps }))
            (is_nonempty-empty (named url) e)
          ∙ (try_trackers_lem c named rest t h.1
              ∙ ap
                  (λ (b : Bool). ends (record t {
                    peers = elim b [ true ↦ named url | false ↦ first_nonempty named rest ];
                  }))
                  (sym e))
    ]

-- UpdatePeers of a tracker without peers, where each of the trackers that may be tried comes to an
-- end, by itself with certain peers, with or without an exception: it takes the peers of the first
-- one that names any, in the order of the list, and throws exactly if none does.
pub update_peers-first_nonempty :
    (c : Context) (named : Bytes → List Peer) (t : TorrentTracker)
    → t.peers ≡ []
    → All (λ url. Names c t url (named url)) (all_trackers t.tracker_url)
    → update_peers c t
      ≡ ends (record {
        tracker = record t { peers = first_nonempty named (all_trackers t.tracker_url) };
        thrown =
            if is_nonempty (first_nonempty named (all_trackers t.tracker_url))
            then none
            else some all_trackers_failed;
      })
unfolding update_peers
update_peers-first_nonempty c named t e h =
    let urls = all_trackers t.tracker_url in
    let cleared : try_trackers c urls t ≡ try_trackers c urls (record t { peers = [] }) =
      ap (λ (ps : List Peer). try_trackers c urls (record t { peers = ps })) e in
    >>=-ends _ (cleared ∙ try_trackers_lem c named urls t h)
