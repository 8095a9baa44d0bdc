-- ===== src/Core/TorrentClient/Cycles.antt =====
-- DownloadFromTracker returns only once the download is complete, and what DownloadTorrent has then saved.
use simple_torrent_client.Common.{
  ◌<◌, ℕ, ◌+◌, Bool, true, false, not, ◌&&◌, ◌||◌, List, [], ◌∷◌, ◌≡◌, refl, ◌∙◌, arith, inl, inr,
  Bool-cases, length, leb, ltb, All,
}
use simple_torrent_client.ByteTools.{Bytes}
use simple_torrent_client.Net.Peer.{Peer}
use simple_torrent_client.Net.PeerConnect.{make}
use simple_torrent_client.Net.PeerConnect.Swarm.{Swarm, requeues, Reach, here, next}
use simple_torrent_client.Net.PeerConnect.Swarm.Safety.{Holds, IsSound, Reach-IsSound}
use simple_torrent_client.Net.PeerConnect.Swarm.Growing.{Reach-Grows}
use simple_torrent_client.Core.TorrentFile.{TorrentFile}
use simple_torrent_client.Core.PieceStorage.{
  PieceStorage, queue_is_empty, is_download_complete, get_missing_pieces,
}
use simple_torrent_client.Core.PieceStorage.Invariant.{IsTorrent, total_of, StoredIn}
use simple_torrent_client.Core.PieceStorage.Invariant
use simple_torrent_client.Core.PieceStorage.Growing.{is_download_complete-Grows}
use simple_torrent_client.Core.PieceStorage.Integrity.{
  force_requeue_missing_pieces-IsValid, is_download_complete-StoredIn,
}
use simple_torrent_client.Core.TorrentTracker.Update.{is_nonempty}
use simple_torrent_client.Core.TorrentClient.{
  MainLoop, download_round, requeue_interval, connections, RunsMainLoop, leaves_loop, goes_round,
  Cycle, RunsDownload, no_connections, downloads, prepare, may_go_on, DownloadsFromTracker, is_done,
  waits, gives_up, tries_again, unique_peers,
}
use simple_torrent_client.Core.TorrentClient.Peers.{unique_peers-nonempty}

module _ (sha1 : Bytes → Bytes) (t : TorrentFile) where
  Reach-append : {x y z : Swarm} → Reach sha1 t x y → Reach sha1 t y z → Reach sha1 t x z
  Reach-append r here = r
  Reach-append r (next q s) = next (Reach-append r q) s

  -- A round of the main loop is a forced requeue, or nothing.
  download_round-Reach :
      (now : ℕ) (m : MainLoop) (x : Swarm)
      → Reach sha1 t x (record x { storage = (download_round now m x.storage).1 })
  unfolding download_round
  download_round-Reach now m x =
      elim (Bool-cases (
        (m.endgame_mode || leb (length (get_missing_pieces x.storage)) 10)
        && queue_is_empty x.storage
        && ltb (m.last_requeue_time + requeue_interval) now)) [
          | inl e ↦ rw e (next here (requeues refl))
          | inr e ↦ rw e here
        ]

  pub RunsMainLoop-Reach :
      {is_terminated : Bool} {m : MainLoop} {x z : Swarm}
      → RunsMainLoop sha1 t is_terminated m x z
      → Reach sha1 t x z × ((is_terminated || is_download_complete z.storage) ≡ true)
  RunsMainLoop-Reach (leaves_loop e) = (here, e)
  RunsMainLoop-Reach {m = m} {x} (goes_round now e r l) =
      let rest = RunsMainLoop-Reach l in
      (Reach-append (download_round-Reach now m x) (Reach-append r rest.0), rest.1)

  module _ (w : IsTorrent t) where
    connections-Holds :
        (peer_id : Bytes) (peers : List Peer) → All (Holds sha1 t w) (connections t peer_id peers)
    unfolding make
    connections-Holds peer_id [] = tt
    connections-Holds peer_id (p ∷ ps) =
        (record { in_progress = tt; in_hand = tt }, connections-Holds peer_id ps)

    -- A valid storage with a complete download, the other storage of a cycle being valid.
    abbrev IsComplete : PieceStorage → Type 0
    IsComplete s = Invariant.IsValid sha1 t s × (is_download_complete s ≡ true)

    RunsDownload-IsComplete :
        (peer_id : Bytes) (peers : List Peer) {x y : Cycle}
        → is_nonempty peers ≡ true
        → Invariant.IsValid sha1 t x.storage
        → x.is_terminated ≡ false
        → RunsDownload sha1 t peer_id peers x y
        → IsComplete y.storage
    RunsDownload-IsComplete peer_id peers n v f (no_connections e) = absurd (nobody e)
      where
        nobody : peers ≡ [] → ⊥
        nobody e' = let k = rw e' at n in cc
    RunsDownload-IsComplete peer_id peers {x} n v f (downloads now k before loop behind) =
        let main = RunsMainLoop-Reach loop in
        let at_start : IsSound sha1 t w
            (record { storage = x.storage; workers = connections t peer_id peers }) =
          record { storage = v; held = connections-Holds peer_id peers } in
        let sound =
          Reach-IsSound sha1 t w
            (Reach-IsSound sha1 t w (Reach-IsSound sha1 t w at_start before) main.0) behind in
        (
          sound.storage,
          is_download_complete-Grows sha1 t sound.storage (Reach-Grows behind)
              (ground (arith, main.1, f)),
        )

    prepare-IsValid :
        (x : Cycle)
        → Invariant.IsValid sha1 t x.storage
        → Invariant.IsValid sha1 t (prepare x).storage
    unfolding prepare
    prepare-IsValid x v =
        elim (Bool-cases (queue_is_empty x.storage && not (is_download_complete x.storage))) [
          | inl e ↦ rw e (force_requeue_missing_pieces-IsValid sha1 t x.storage v)
          | inr e ↦ rw e v
        ]

    prepare_is_terminated : (x : Cycle) → (prepare x).is_terminated ≡ x.is_terminated
    unfolding prepare
    prepare_is_terminated x = ground arith

    going_on : (x : Cycle) → may_go_on x ≡ true → x.is_terminated ≡ false
    going_on x h = ground arith

    cycle-IsComplete :
        (peer_id : Bytes) (all_peers : List Peer) (x : Cycle) {y : Cycle}
        → may_go_on x ≡ true
        → is_nonempty all_peers ≡ true
        → Invariant.IsValid sha1 t x.storage
        → RunsDownload sha1 t peer_id (unique_peers all_peers) (prepare x) y
        → IsComplete y.storage
    cycle-IsComplete peer_id all_peers x g n v r =
        RunsDownload-IsComplete peer_id (unique_peers all_peers) (unique_peers-nonempty all_peers n)
          (prepare-IsValid x v) (prepare_is_terminated x ∙ going_on x g) r

    cycles-IsComplete :
        (fuel : ℕ) (peer_id : Bytes) {x z : Cycle}
        → Invariant.IsValid sha1 t x.storage
        → (x.is_terminated && not (is_download_complete x.storage)) ≡ false
        → DownloadsFromTracker
            (record { sha1 = sha1; fuel = fuel; torrent_file = t; peer_id = peer_id })
            x
            z
        → IsComplete z.storage
    cycles-IsComplete fuel peer_id v k (is_done e) = (v, ground arith)
    cycles-IsComplete fuel peer_id v k (waits net get g e d) = cycles-IsComplete fuel peer_id v k d
    cycles-IsComplete fuel peer_id v k (gives_up net get ps g e n r f) =
        let c = cycle-IsComplete peer_id ps _ g n v r in absurd (ground (arith, c.1))
    cycles-IsComplete fuel peer_id v k (tries_again net get ps g e n r f d) =
        let c = cycle-IsComplete peer_id ps _ g n v r in
        cycles-IsComplete fuel peer_id c.0 (ground (arith, c.1)) d

    -- For a torrent whose pieces have at least one byte and whose number of pieces times piece
    -- length is below 2 ^ 63, from a valid storage, and not terminated unless the download is
    -- complete: when DownloadFromTracker returns, however many cycles it takes and whatever the
    -- trackers and threads do, the download counts as complete, so that it never gives up, and the
    -- output file holds every piece of the torrent in full with its SHA-1.
    pub DownloadsFromTracker-StoredIn :
        (fuel : ℕ) (peer_id : Bytes) {x z : Cycle} (i : ℕ)
        → Invariant.IsValid sha1 t x.storage
        → (x.is_terminated && not (is_download_complete x.storage)) ≡ false
        → DownloadsFromTracker
            (record { sha1 = sha1; fuel = fuel; torrent_file = t; peer_id = peer_id })
            x
            z
        → i < total_of t
        → (is_download_complete z.storage ≡ true) × StoredIn sha1 t z.storage.file.contents i
    DownloadsFromTracker-StoredIn fuel peer_id {z = z} i v k d h =
        let c = cycles-IsComplete fuel peer_id v k d in
        (c.1, is_download_complete-StoredIn sha1 t z.storage c.0 c.1 i h)
