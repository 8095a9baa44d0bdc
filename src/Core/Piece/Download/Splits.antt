-- ===== src/Core/Piece/Download/Splits.antt =====
-- The calls on a piece, and its tiling, at the first block that is not retrieved.
use simple_torrent_client.Common.{
  ℕ, ◌+◌, ◌≤◌, ◌<◌, false, none, some, List, [], ◌∷◌, ◌++◌, ◌==◌, ◌≡◌, refl, arith, ok, All,
  All-map,
}
use simple_torrent_client.ByteTools.{Bytes}
use simple_torrent_client.Core.Piece.{missing, pending, Block, is_missing, take_missing, save_in}
use simple_torrent_client.Core.Piece.Layout.{Tiles, Tiles-offset}
use simple_torrent_client.Core.Piece.Invariant.{saved}

pub take_missing-append :
    (before after : List Block) (b : Block)
    → All (λ c. is_missing c.status ≡ false) before
    → b.status ≡ missing
    → take_missing (before ++ b ∷ after)
      ≡ (before ++ record b { status = pending } ∷ after, some (record b { status = pending }))
unfolding take_missing
take_missing-append [] after b h m = rw m
take_missing-append (c ∷ before) after b h m = rw (h.0, take_missing-append before after b h.1 m)

pub take_missing-none :
    (bs : List Block) → All (λ c. is_missing c.status ≡ false) bs → take_missing bs ≡ (bs, none)
unfolding take_missing
take_missing-none [] h = refl
take_missing-none (c ∷ bs) h = rw (h.0, take_missing-none bs h.1)

pub save_in-append :
    (before after : List Block) (b : Block) (d : Bytes)
    → All (λ c. c.offset < b.offset) before
    → b.status ≡ pending
    → save_in b.offset d (before ++ b ∷ after) ≡ ok (before ++ saved b d ∷ after)
unfolding save_in
save_in-append [] after b d h m = ground arith
save_in-append (c ∷ before) after b d h m =
    let e : (c.offset == b.offset) ≡ false = ground (arith, h.0) in
    rw (e, save_in-append before after b d h.1 m)

All-last {κ} :
    (P : Block → Type κ) (before after : List Block) (b : Block) → All P (before ++ b ∷ after) → P b
All-last P [] after b h = h.0
All-last P (c ∷ before) after b h = All-last P before after b h.1

-- In a tiling the blocks before a block have lower offsets.
pub Tiles-before :
    (index offset size : ℕ) (before after : List Block) (b : Block)
    → Tiles index offset size (before ++ b ∷ after)
    → All (λ c. c.offset < b.offset) before
Tiles-before index offset size [] after b t = tt
Tiles-before index offset size (c ∷ before) after b t = (
  omega (arith, t.1, t.2, t.3, start),
  Tiles-before index (offset + c.length) size before after b t.4,
)
  where
    start : offset + c.length ≤ b.offset
    start =
        All-last (λ x. offset + c.length ≤ x.offset) before after b
          (All-map
            (λ (x : Block) (h : (offset + c.length ≤ x.offset) × (x.offset + x.length ≤ size)). h.0)
            (before ++ b ∷ after)
            (Tiles-offset index (offset + c.length) size (before ++ b ∷ after) t.4))

-- A tiling looks at a block's number, offset and length only.
pub Tiles-replace :
    (index offset size : ℕ) (before after : List Block) (b : Block) (d : Bytes)
    → Tiles index offset size (before ++ b ∷ after)
    → Tiles index offset size (before ++ saved b d ∷ after)
Tiles-replace index offset size [] after b d t = t
Tiles-replace index offset size (c ∷ before) after b d t =
    (t.0, t.1, t.2, t.3, Tiles-replace index (offset + c.length) size before after b d t.4)
