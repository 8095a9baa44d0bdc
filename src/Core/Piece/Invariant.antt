-- ===== src/Core/Piece/Invariant.antt =====
-- What holds of a piece from its construction on, whatever calls are made.
use simple_torrent_client.Common.{
  false, some, ℕ, zero, suc, ◌+◌, ◌-◌, min, List, [], ◌∷◌, ◌≡◌, ◌≢◌, inl, inr, refl, arith, length,
  u64, ok, both_return, ok-injective, Result-cases, ℕ_discrete, All,
}
use simple_torrent_client.ByteTools.{Bytes}
use simple_torrent_client.Core.Piece.{
  all_retrieved, all_blocks_retrieved, block_size, Status, missing, pending, retrieved, Block,
  Piece, block_loop, make, take_missing, get_first_missing_block, save_in, save_block, reset,
}
use simple_torrent_client.Core.Piece.Layout.{Tiles, block_loop-Tiles, clear_blocks-block_loop}

-- A block holds data only once it is retrieved.
abbrev pub CleanAs : Status → Bytes → Type 0
CleanAs retrieved bytes = Unit {0}
CleanAs missing bytes = bytes ≡ []
CleanAs pending bytes = bytes ≡ []

abbrev pub IsClean : Block → Type 0
IsClean b = CleanAs b.status b.bytes

-- The bytes that the blocks hold.
abbrev pub held_bytes : List Block → ℕ
held_bytes [] = 0
held_bytes (b ∷ bs) = length b.bytes + held_bytes bs

pub record IsValid (p : Piece) : Type 0 where
  pub tiles : Tiles p.index 0 p.length p.blocks
  pub clean : All IsClean p.blocks
  pub counted : p.bytes_downloaded ≡ u64 (held_bytes p.blocks)

block_loop-IsClean :
    (fuel index offset size : ℕ)
    → All IsClean (block_loop fuel index offset size)
      × (held_bytes (block_loop fuel index offset size) ≡ 0)
unfolding block_loop
block_loop-IsClean zero index offset size = (tt, refl)
block_loop-IsClean (suc fuel) index offset size =
    ground (arith, block_loop-IsClean fuel index (offset + min block_size (size - offset)) size)

-- The constructor of Piece gives a valid piece: its blocks cover [0, length) in order and without a
-- gap, each 2 ^ 14 bytes long but for the last, none of them holds data, and the counter is 0.
pub make-IsValid : (index size : ℕ) (hash : Bytes) → IsValid (make index size hash)
unfolding make
make-IsValid index size hash = record {
  tiles = block_loop-Tiles size index 0 size (omega arith) (omega arith);
  clean = (block_loop-IsClean size index 0 size).0;
  counted = omega (arith, (block_loop-IsClean size index 0 size).1);
}

take_missing-tiling :
    (bs : List Block) (index offset size : ℕ)
    → Tiles index offset size bs
    → Tiles index offset size (take_missing bs).0
unfolding take_missing
take_missing-tiling [] index offset size t = t
take_missing-tiling (b ∷ bs) index offset size t =
    ground (arith, take_missing-tiling bs index (offset + b.length) size t.4)

take_missing-IsClean :
    (bs : List Block)
    → All IsClean bs
    → All IsClean (take_missing bs).0 × (held_bytes (take_missing bs).0 ≡ held_bytes bs)
unfolding take_missing
take_missing-IsClean [] c = (tt, refl)
take_missing-IsClean (b ∷ bs) c = ground (arith, take_missing-IsClean bs c.1)

-- Marking a block as requested keeps the piece valid.
pub get_first_missing_block-IsValid :
    (p : Piece) → IsValid p → IsValid (get_first_missing_block p).0
unfolding get_first_missing_block
get_first_missing_block-IsValid p v = record {
  tiles = take_missing-tiling p.blocks p.index 0 p.length v.tiles;
  clean = (take_missing-IsClean p.blocks v.clean).0;
  counted = omega (arith, v.counted, (take_missing-IsClean p.blocks v.clean).1);
}

abbrev pub saved : Block → Bytes → Block
saved b d = record b { bytes = d; status = retrieved }

-- A save fills the first block at the offset, which was requested, and leaves the others alone.
pub data Saved (o : ℕ) (d : Bytes) : List Block → List Block → Type 0 where
  here :
      {b : Block} {bs : List Block}
      → b.offset ≡ o
      → b.status ≡ pending
      → Saved o d (b ∷ bs) (saved b d ∷ bs)
  there :
      {b : Block} {bs bs' : List Block}
      → b.offset ≢ o
      → Saved o d bs bs'
      → Saved o d (b ∷ bs) (b ∷ bs')

save_here :
    (o : ℕ) (d : Bytes) (b : Block) (bs bs' : List Block)
    → b.offset ≡ o
    → save_in o d (b ∷ bs) ≡ ok bs'
    → (b.status ≡ pending) × (bs' ≡ saved b d ∷ bs)
unfolding save_in
save_here o d b bs bs' h e = ground arith

save_there :
    (o : ℕ) (d : Bytes) (b : Block) (bs bs' : List Block)
    → b.offset ≢ o
    → save_in o d (b ∷ bs) ≡ ok bs'
    → (rest : List Block) × (save_in o d bs ≡ ok rest) × (bs' ≡ b ∷ rest)
unfolding save_in
save_there o d b bs bs' h e = elim (Result-cases (save_in o d bs)) [
  | inl (rest, r) ↦ (rest, r, ground arith)
  | inr (x, r) ↦ absurd (ground arith)
]

pub save_in-Saved :
    (o : ℕ) (d : Bytes) (bs bs' : List Block) → save_in o d bs ≡ ok bs' → Saved o d bs bs'
unfolding save_in
save_in-Saved o d [] bs' e = cc
save_in-Saved o d (b ∷ bs) bs' e = elim (ℕ_discrete b.offset o) [
  | yes p ↦ let h = save_here o d b bs bs' p (unfold save_in in e) in rw (h.1) (here p h.0)
  | no p ↦ let h = save_there o d b bs bs' p e in rw (h.2) (there p (save_in-Saved o d bs h.0 h.1))
]

Saved-tiling :
    {o : ℕ} {d : Bytes} {bs bs' : List Block}
    → Saved o d bs bs'
    → (index offset size : ℕ) → Tiles index offset size bs
    → Tiles index offset size bs'
Saved-tiling (here p q) index offset size t = t
Saved-tiling (there {b} n s) index offset size t =
    (t.0, t.1, t.2, t.3, Saved-tiling s index (offset + b.length) size t.4)

-- A save adds exactly the bytes saved.
Saved-IsClean :
    {o : ℕ} {d : Bytes} {bs bs' : List Block}
    → Saved o d bs bs'
    → All IsClean bs
    → All IsClean bs' × (held_bytes bs' ≡ held_bytes bs + length d)
Saved-IsClean (here {b} p q) c = ((tt, c.1), ground arith)
Saved-IsClean (there n s) c = let h = Saved-IsClean s c.1 in ((c.0, h.0), omega arith)

take_missing_unfinished :
    (bs : List Block) (b : Block)
    → (take_missing bs).1 ≡ some b
    → all_retrieved (take_missing bs).0 ≡ false
unfolding take_missing all_retrieved
take_missing_unfinished [] b e = cc
take_missing_unfinished (c ∷ bs) b e = ground (arith, take_missing_unfinished bs b)

-- A piece with a block just marked as requested is not complete.
pub get_first_missing_block_unfinished :
    (p : Piece) (b : Block)
    → (get_first_missing_block p).1 ≡ some b
    → all_blocks_retrieved (get_first_missing_block p).0 ≡ false
unfolding get_first_missing_block all_blocks_retrieved
get_first_missing_block_unfinished p b e = take_missing_unfinished p.blocks b e

-- SaveBlock, where it returns, keeps a valid piece valid: its blocks cover it without a gap, blocks
-- that are not retrieved hold no data, and the counter is the number of bytes held, modulo 2 ^ 64.
pub save_block-IsValid :
    (p p' : Piece) (o : ℕ) (d : Bytes) → IsValid p → save_block p o d ≡ ok p' → IsValid p'
unfolding save_block
save_block-IsValid p p' o d v e =
    let h =
      both_return
        (λ bs.
          ok (record p { blocks = bs; bytes_downloaded = u64 (p.bytes_downloaded + length d) }))
        (save_in o d p.blocks) e in
    let s = save_in-Saved o d p.blocks h.0 (h.1).0 in
    rw (← ok-injective (h.1).1) (record {
      tiles = Saved-tiling s p.index 0 p.length v.tiles;
      clean = (Saved-IsClean s v.clean).0;
      counted = omega (arith, v.counted, (Saved-IsClean s v.clean).1);
    })

-- Reset takes a valid piece back to the piece as it was constructed.
pub reset-eq-make : (p : Piece) → IsValid p → reset p ≡ make p.index p.length p.hash
unfolding reset make
reset-eq-make p v = λ i. record {
  index = p.index;
  length = p.length;
  hash = p.hash;
  blocks = clear_blocks-block_loop p.length p.index 0 p.length p.blocks (omega arith) v.tiles i;
  bytes_downloaded = 0;
}
