-- ===== src/Core/PieceStorage/Missing.antt =====
-- `GetMissingPieces`: the indices that are not recorded as saved, and how many there are.
use simple_torrent_client.Common.{
  ℕ, zero, suc, ◌+◌, ◌-◌, ◌≤◌, ◌<◌, Bool, true, false, not, ◌&&◌, ◌||◌, List, [], ◌∷◌, ltb, ◌≡◌,
  ◌≢◌, refl, ◌∙◌, arith, if◌then◌else◌, length, get_or, set, replicate, length-replicate,
  length-set, get_or-set, contains, All, All-map, All-map_ne, dec_lt, IsDistinct,
}
use simple_torrent_client.ByteTools.{Bytes}
use simple_torrent_client.Core.TorrentFile.{TorrentFile}
use simple_torrent_client.Core.PieceStorage.{
  PieceStorage, pieces_saved_to_disc_count, is_download_complete, mark_saved, unmarked,
  get_missing_pieces,
}
use simple_torrent_client.Core.PieceStorage.Invariant.{total_of, IsValid}

get_or-replicate : (n i : ℕ) (d : Bool) → i < n → get_or (replicate n false) i d ≡ false
get_or-replicate zero i d h = absurd (omega arith)
get_or-replicate (suc n) zero d h = refl
get_or-replicate (suc n) (suc i) d h = get_or-replicate n i d (omega arith)

get_or_end : (bs : List Bool) (i : ℕ) (d : Bool) → length bs ≤ i → get_or bs i d ≡ d
get_or_end [] i d h = refl
get_or_end (b ∷ bs) zero d h = absurd (omega arith)
get_or_end (b ∷ bs) (suc i) d h = get_or_end bs i d (omega arith)

pub length-mark_saved :
    (total : ℕ) (xs : List ℕ) (bs : List Bool) → length (mark_saved total xs bs) ≡ length bs
unfolding mark_saved
length-mark_saved total [] bs = refl
length-mark_saved total (x ∷ xs) bs = ground (
  arith,
  length-set bs x true,
  length-mark_saved total xs (set bs x true),
  length-mark_saved total xs bs,
)

-- The first loop marks the saved indices.
get_or-mark_saved :
    (total : ℕ) (xs : List ℕ) (bs : List Bool) (i : ℕ)
    → length bs ≡ total
    → i < total
    → get_or (mark_saved total xs bs) i true ≡ (contains i xs || get_or bs i true)
unfolding mark_saved contains
get_or-mark_saved total [] bs i e h = refl
get_or-mark_saved total (x ∷ xs) bs i e h = elim (dec_lt x total) [
  | yes lt ↦ ground (
    arith,
    get_or-set bs x i true true,
    length-set bs x true,
    get_or-mark_saved total xs (set bs x true) i,
  )
  | no ge ↦ ground (arith, get_or-mark_saved total xs bs i)
]

-- The second loop collects what is not marked.
contains-unmarked :
    (bs : List Bool) (k i : ℕ)
    → contains i (unmarked k bs) ≡ (if ltb i k then false else not (get_or bs (i - k) true))
unfolding unmarked contains
contains-unmarked [] k i = ground arith
contains-unmarked (b ∷ bs) k i = elim (dec_lt k i) [
  | yes lt ↦
      let e : i - k ≡ suc (i - (k + 1)) = omega arith in
      rw e (ground (arith, contains-unmarked bs (k + 1) i))
  | no ge ↦ let e : i - k ≡ 0 = omega arith in rw e (ground (arith, contains-unmarked bs (k + 1) i))
]

-- A piece is missing exactly if it is a piece of the torrent that is not recorded as saved.
pub contains-get_missing_pieces :
    (s : PieceStorage) (i : ℕ)
    → contains i (get_missing_pieces s)
      ≡ (ltb i s.total_piece_count && not (contains i s.indices_of_pieces_saved_to_disk))
unfolding get_missing_pieces
contains-get_missing_pieces s i =
    let n = s.total_piece_count in
    let saved = s.indices_of_pieces_saved_to_disk in
    let blank = replicate n false in
    let marks = mark_saved n saved blank in
    let size : length blank ≡ n = length-replicate n false in
    elim (dec_lt i n) [
      | yes lt ↦ ground (
        arith,
        contains-unmarked marks 0 i,
        get_or-mark_saved n saved blank i size lt,
        get_or-replicate n i true lt,
      )
      | no ge ↦ ground (
        arith,
        contains-unmarked marks 0 i,
        get_or_end marks i true,
        length-mark_saved n saved blank,
        size,
      )
    ]

-- How many pieces are marked.
abbrev marked : List Bool → ℕ
marked [] = 0
marked (b ∷ bs) = (if b then 1 else 0) + marked bs

length-unmarked : (k : ℕ) (bs : List Bool) → length (unmarked k bs) + marked bs ≡ length bs
unfolding unmarked
length-unmarked k [] = refl
length-unmarked k (b ∷ bs) = ground (arith, length-unmarked (k + 1) bs)

marked-set :
    (bs : List Bool) (i : ℕ) → get_or bs i true ≡ false → marked (set bs i true) ≡ marked bs + 1
marked-set [] i h = cc
marked-set (b ∷ bs) zero h = ground arith
marked-set (b ∷ bs) (suc i) h = ground (arith, marked-set bs i)

marked-replicate : (n : ℕ) → marked (replicate n false) ≡ 0
marked-replicate zero = refl
marked-replicate (suc n) = omega (arith, marked-replicate n)

-- Distinct indices that are not marked yet are marked one by one.
marked-mark_saved :
    (total : ℕ) (xs : List ℕ) (bs : List Bool)
    → length bs ≡ total
    → IsDistinct xs
    → All (λ i. i < total) xs
    → All (λ i. get_or bs i true ≡ false) xs
    → marked (mark_saved total xs bs) ≡ length xs + marked bs
unfolding mark_saved
marked-mark_saved total [] bs e d k u = omega arith
marked-mark_saved total (x ∷ xs) bs e d k u =
    let lt : ltb x total ≡ true = ground (arith, k.0) in
    let rest = marked-mark_saved total xs (set bs x true) (length-set bs x true ∙ e) d.1 k.1 (
      All-map_ne x
        (λ (i : ℕ) (ne : i ≢ x) (h : get_or bs i true ≡ false).
          ground (arith, h, get_or-set bs x i true true (omega arith)))
        xs d.0 u.1) in
    rw lt (rest ∙ omega (arith, marked-set bs x u.0))

-- In a valid storage the number of missing pieces and the number of saved pieces add up to the
-- number of pieces of the torrent.
pub length-get_missing_pieces :
    (sha1 : Bytes → Bytes) (t : TorrentFile) (s : PieceStorage)
    → IsValid sha1 t s
    → length (get_missing_pieces s) + pieces_saved_to_disc_count s ≡ s.total_piece_count
unfolding get_missing_pieces pieces_saved_to_disc_count
length-get_missing_pieces sha1 t s v =
    let n = s.total_piece_count in
    let saved = s.indices_of_pieces_saved_to_disk in
    let blank = replicate n false in
    let marks = mark_saved n saved blank in
    let known : All (λ i. i < n) saved = rw v.total v.known in
    let unset = All-map (λ (i : ℕ) (h : i < n). get_or-replicate n i true h) saved known in
    omega (
      arith,
      length-unmarked 0 marks,
      marked-mark_saved n saved blank (length-replicate n false) v.distinct known unset,
      marked-replicate n,
      length-mark_saved n saved blank,
      length-replicate {0} n false,
    )

not-contains-nil : (xs : List ℕ) (i : ℕ) → length xs ≡ 0 → contains i xs ≡ false
unfolding contains
not-contains-nil [] i h = refl
not-contains-nil (x ∷ xs) i h = absurd (omega arith)

-- A complete download has every piece recorded as saved.
pub is_download_complete-contains :
    (sha1 : Bytes → Bytes) (t : TorrentFile) (s : PieceStorage)
    → IsValid sha1 t s
    → is_download_complete s ≡ true
    → (i : ℕ) → i < total_of t
    → contains i s.indices_of_pieces_saved_to_disk ≡ true
unfolding is_download_complete pieces_saved_to_disc_count
is_download_complete-contains sha1 t s v c i h =
    let counted = length-get_missing_pieces sha1 t s v in
    let all_saved : length s.indices_of_pieces_saved_to_disk ≡ s.total_piece_count = ground arith in
    let gone = not-contains-nil (get_missing_pieces s) i (omega arith) in
    let member = contains-get_missing_pieces s i in
    let inside : ltb i s.total_piece_count ≡ true = ground (arith, v.total) in ground arith
