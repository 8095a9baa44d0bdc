-- ===== src/Core/TorrentClient/Download.antt =====
-- DownloadTorrent on a torrent file of the common form: what it has saved when it returns.
use simple_torrent_client.Common.{◌^◌, 
  ℕ, ◌*◌, ◌≤◌, ◌<◌, true, false, ◌++◌, ◌≡◌, refl, sym, subst, ◌∙◌, length, ok, ok-injective,
}
use simple_torrent_client.ByteTools.{Bytes}
use simple_torrent_client.Bencode.{ends}
use simple_torrent_client.Bencode.Values.{Entries, encode}
use simple_torrent_client.Core.TorrentFile.{TorrentFile}
use simple_torrent_client.Core.TorrentFile.Written.{
  AreOthers, IsPublished, torrent_value, info_value,
}
use simple_torrent_client.Core.TorrentFile.Load.{load_torrent_file-torrent_value}
use simple_torrent_client.Core.PieceStorage.{PieceStorage, init, close_output_file}
use simple_torrent_client.Core.PieceStorage.Invariant.{IsTorrent, total_of, StoredIn}
use simple_torrent_client.Core.PieceStorage.Invariant
use simple_torrent_client.Core.PieceStorage.Integrity.{
  initial, initial-IsValid, init_lem, close_output_file-contents,
}
use simple_torrent_client.Core.TorrentClient.{
  Cycle, DownloadsFromTracker, DownloadsTorrent, returns,
}
use simple_torrent_client.Core.TorrentClient.Cycles.{DownloadsFromTracker-StoredIn}

ends-injective : {A : Type 0} {a b : A} → ends a ≡ ends b → a ≡ b
ends-injective h = cc

-- The torrent, with the hash of its `info`.
abbrev pub hashed : (Bytes → Bytes) → TorrentFile → TorrentFile
hashed sha1 m = record m { info_hash = sha1 (encode (info_value m)) }

hashed-IsTorrent :
    (sha1 : Bytes → Bytes) (m : TorrentFile) → IsTorrent m → IsTorrent (hashed sha1 m)
hashed-IsTorrent sha1 m w = record { positive = w.positive; small = w.small }

-- Whatever the cycles came to, the storage is that of a complete download.
module _ (sha1 : Bytes → Bytes) (fuel : ℕ) (peer_id : Bytes) (t : TorrentFile)
    (w : IsTorrent t) where
  from_tracker-StoredIn :
      (s : PieceStorage) (y : Cycle)
      → t.length < 2 ^ 63
      → init true t ≡ ok s
      → DownloadsFromTracker
          (record { sha1 = sha1; fuel = fuel; torrent_file = t; peer_id = peer_id })
          (record { storage = s; is_terminated = false; retry_count = 0 })
          y
      → (i : ℕ) → i < total_of t
      → StoredIn sha1 t (close_output_file y.storage).file.contents i
  from_tracker-StoredIn s y b e d i h =
      let start : s ≡ initial t = ok-injective (sym e ∙ init_lem t w.positive b) in
      let valid : Invariant.IsValid sha1 t s =
        subst (Invariant.IsValid sha1 t) (sym start) (initial-IsValid sha1 t) in
      let complete = DownloadsFromTracker-StoredIn sha1 t w fuel peer_id i valid refl d h in
      subst (λ (c : Bytes). StoredIn sha1 t c i) (sym (close_output_file-contents y.storage).0)
        complete.1

-- DownloadTorrent on a torrent file for one file: announce, comment and info with length, name,
-- piece length and pieces, in this order, and in front of comment and of info any entries in whose
-- strings none of the words stands that the client looks for; whose texts, numbers and hashes fit
-- the format, in which announce, comment and name are not the word pieces, and whose pieces have at
-- least one byte, with their number times the piece length below 2 ^ 63. Whenever it returns,
-- whatever the trackers, the peers and the threads have done, the output file holds every piece of
-- the torrent in full, with the SHA-1 that the torrent file states for it. The fuel of the parser
-- is twice the size of the file at least.
pub DownloadsTorrent-StoredIn :
    (sha1 : Bytes → Bytes) (fuel : ℕ) (peer_id : Bytes) (xs ys : Entries) (m : TorrentFile)
    (rest : Bytes) (saved : PieceStorage)
    → AreOthers xs
    → AreOthers ys
    → IsPublished m
    → IsTorrent m
    → 2 * length (encode (torrent_value xs ys m)) ≤ fuel
    → DownloadsTorrent sha1 fuel peer_id (encode (torrent_value xs ys m) ++ rest) saved
    → (i : ℕ) → i < total_of m
    → StoredIn sha1 (hashed sha1 m) saved.file.contents i
DownloadsTorrent-StoredIn sha1 fuel peer_id xs ys m rest saved ox oy p w k
      (returns a b n t s y e f d c g) i h =
    let loaded : t ≡ hashed sha1 m =
      ends-injective
        (sym e ∙ load_torrent_file-torrent_value xs ys m ox oy p sha1 fuel a b rest k) in
    let w' : IsTorrent t = subst IsTorrent (sym loaded) (hashed-IsTorrent sha1 m w) in
    let small : t.length < 2 ^ 63 =
      subst (λ (q : TorrentFile). q.length < 2 ^ 63) (sym loaded) p.length_bound in
    let inside : i < total_of t = subst (λ (q : TorrentFile). i < total_of q) (sym loaded) h in
    subst (λ (q : TorrentFile). StoredIn sha1 q saved.file.contents i) loaded
      (subst (λ (z : PieceStorage). StoredIn sha1 t z.file.contents i) (sym c)
        (from_tracker-StoredIn sha1 fuel peer_id t w' s y small f d i inside))
