-- ===== src/Core/Piece/Blocks.antt =====
-- What `GetFirstMissingBlock` and `SaveBlock` do, on every branch, seen through a lookup of blocks.
use simple_torrent_client.Common.{
  ℕ, ◌+◌, Bool, true, false, Option, none, some, List, [], ◌∷◌, ◌++◌, ◌==◌, ◌≡◌, inl, inr, refl, ap,
  arith, if◌then◌else◌, length, u64, Result, ok, err, ◌>>=◌, err-injective, Error,
  block_not_pending, block_not_found, All, Bool-cases,
}
use simple_torrent_client.ByteTools.{Bytes}
use simple_torrent_client.Core.Piece.{
  missing, pending, Block, Piece, is_missing, is_pending, take_missing, get_first_missing_block,
  save_in, save_block,
}
use simple_torrent_client.Core.Piece.Invariant.{saved}

-- The first block at an offset.
abbrev pub block_at : ℕ → List Block → Option Block
block_at o [] = none
block_at o (b ∷ bs) = if b.offset == o then some b else block_at o bs

-- The outcome of a save of `d` at offset `o`: `found` is the block there.
abbrev pub SaveOutcome : ℕ → Bytes → List Block → Option Block → Result (List Block) → Type 0
SaveOutcome o d bs none r = r ≡ err block_not_found
SaveOutcome o d bs (some b) (err e) = (e ≡ block_not_pending) × (is_pending b.status ≡ false)
SaveOutcome o d bs (some b) (ok bs') =
    (b.status ≡ pending)
    × ((k : ℕ) → block_at k bs' ≡ (if k == o then some (saved b d) else block_at k bs))

save_in-SaveOutcome :
    (o : ℕ) (d : Bytes) (bs : List Block) → SaveOutcome o d bs (block_at o bs) (save_in o d bs)
unfolding save_in
save_in-SaveOutcome o d [] = refl
save_in-SaveOutcome o d (b ∷ bs) = elim (Bool-cases (b.offset == o)) [
  | inl h ↦ rw h (here (is_pending b.status) refl h)
  | inr h ↦ rw h (there (block_at o bs) (save_in o d bs) (save_in-SaveOutcome o d bs) h)
]
  where
    here :
        (t : Bool)
        → is_pending b.status ≡ t
        → (b.offset == o) ≡ true
        → SaveOutcome o d
            (b ∷ bs)
            (some b)
            (if t then ok (saved b d ∷ bs) else err block_not_pending)
    here true e h = (ground arith, λ k. ground arith)
    here false e h = (refl, e)

    there :
        (found : Option Block) (r : Result (List Block))
        → SaveOutcome o d bs found r
        → (b.offset == o) ≡ false
        → SaveOutcome o d (b ∷ bs) found (r >>= λ bs'. ok (b ∷ bs'))
    there none (ok bs') w h = cc
    there none (err e) w h = cc
    there (some c) (ok bs') w h = (w.0, λ k. ground (arith, w.1 k))
    there (some c) (err e) w h = w

-- The outcome of `SaveBlock` on a piece.
abbrev pub PieceSaveOutcome : Piece → ℕ → Bytes → Option Block → Result Piece → Type 0
PieceSaveOutcome p o d none r = r ≡ err block_not_found
PieceSaveOutcome p o d (some b) (err e) = (e ≡ block_not_pending) × (is_pending b.status ≡ false)
PieceSaveOutcome p o d (some b) (ok p') =
    (b.status ≡ pending)
    × ((k : ℕ) → block_at k p'.blocks ≡ (if k == o then some (saved b d) else block_at k p.blocks))
    × (p'.bytes_downloaded ≡ u64 (p.bytes_downloaded + length d))
    × (p'.index ≡ p.index)
    × (p'.length ≡ p.length)
    × (p'.hash ≡ p.hash)

-- SaveBlock throws "not found" where no block has the offset, throws "not pending" where the first
-- block at the offset was not requested, and otherwise changes that block alone and adds the size
-- of the data to the counter, modulo 2 ^ 64.
pub save_block-PieceSaveOutcome :
    (p : Piece) (o : ℕ) (d : Bytes)
    → PieceSaveOutcome p o d (block_at o p.blocks) (save_block p o d)
unfolding save_block
save_block-PieceSaveOutcome p o d =
    lift (block_at o p.blocks) (save_in o d p.blocks) (save_in-SaveOutcome o d p.blocks)
  where
    lift :
        (found : Option Block) (r : Result (List Block))
        → SaveOutcome o d p.blocks found r
        → PieceSaveOutcome p o d found (
            r >>= λ bs.
            ok (record p { blocks = bs; bytes_downloaded = u64 (p.bytes_downloaded + length d) }))
    lift none (ok bs') w = cc
    lift none (err e) w = ap (λ (x : Error). err x) (err-injective w)
    lift (some b) (ok bs') w = (w.0, w.1, refl, refl, refl, refl)
    lift (some b) (err e) w = w

-- The outcome of the search for a missing block.
abbrev pub TakeOutcome : List Block → List Block → Option Block → Type 0
TakeOutcome bs bs' none = (bs' ≡ bs) × All (λ b. is_missing b.status ≡ false) bs
TakeOutcome bs bs' (some t) =
    (before : List Block) × (b : Block) × (after : List Block) × (bs ≡ before ++ b ∷ after)
    × All (λ c. is_missing c.status ≡ false) before
    × (b.status ≡ missing)
    × (t ≡ record b { status = pending })
    × (bs' ≡ before ++ t ∷ after)

take_missing-TakeOutcome :
    (bs : List Block) → TakeOutcome bs (take_missing bs).0 (take_missing bs).1
unfolding take_missing
take_missing-TakeOutcome [] = (refl, tt)
take_missing-TakeOutcome (b ∷ bs) = elim (Bool-cases (is_missing b.status)) [
  | inl h ↦ rw h ([], b, bs, refl, tt, ground arith, refl, refl)
  | inr h ↦ rw h (later (take_missing bs).0 (take_missing bs).1 (take_missing-TakeOutcome bs) h)
]
  where
    later :
        (bs' : List Block) (found : Option Block)
        → TakeOutcome bs bs' found
        → is_missing b.status ≡ false
        → TakeOutcome (b ∷ bs) (b ∷ bs') found
    later bs' none w h = (ap (◌∷◌ b) w.0, (h, w.1))
    later bs' (some t) w h = (b ∷ w.0, w.1, w.2, ap (◌∷◌ b) w.3, (h, w.4), w.5, w.6, ap (◌∷◌ b) w.7)

-- GetFirstMissingBlock marks the first missing block as requested and returns it, and touches no
-- other block; with no missing block it returns null and changes nothing.
pub get_first_missing_block-TakeOutcome :
    (p : Piece)
    → TakeOutcome p.blocks (get_first_missing_block p).0.blocks (get_first_missing_block p).1
unfolding get_first_missing_block
get_first_missing_block-TakeOutcome p = take_missing-TakeOutcome p.blocks

-- A successful save keeps the piece's index, length and hash.
pub save_block_same :
    (p p' : Piece) (o : ℕ) (d : Bytes)
    → save_block p o d ≡ ok p'
    → (p'.index ≡ p.index) × (p'.length ≡ p.length) × (p'.hash ≡ p.hash)
unfolding save_block
save_block_same p p' o d e = ground arith
