-- ===== src/Core/Piece/Layout.antt =====
-- How the blocks of a piece lie: they cover it from 0 to its length, in order and with no gap.
use simple_torrent_client.Common.{
  ℕ, zero, suc, ◌+◌, ◌-◌, ◌≤◌, ◌<◌, min, true, List, [], ◌∷◌, ltb, ◌≡◌, inl, inr, refl, ap, arith,
  length, length-append, length-replicate, All, All-map, Bool-cases,
}
use simple_torrent_client.Core.Piece.{
  block_size, missing, Block, Piece, block_loop, all_retrieved, block_data, blocks_data,
  clear_blocks, reset,
}

-- Blocks of piece `index` that cover [offset, size), each as long as a block can be.
abbrev pub Tiles : ℕ → ℕ → ℕ → List Block → Type 0
Tiles index offset size [] = offset ≡ size
Tiles index offset size (b ∷ bs) =
    (b.piece ≡ index)
    × (b.offset ≡ offset)
    × (b.length ≡ min block_size (size - offset))
    × (offset < size)
    × Tiles index (offset + b.length) size bs

pub block_loop-Tiles :
    (fuel index offset size : ℕ)
    → offset ≤ size
    → size ≤ offset + fuel
    → Tiles index offset size (block_loop fuel index offset size)
unfolding block_loop
block_loop-Tiles zero index offset size h k = omega arith
block_loop-Tiles (suc fuel) index offset size h k = elim (Bool-cases (ltb offset size)) [
  | inl lt ↦ rw lt (
    refl,
    refl,
    refl,
    ground arith,
    block_loop-Tiles fuel index (offset + min block_size (size - offset)) size (ground arith)
        (ground arith),
  )
  | inr ge ↦ rw ge (ground arith)
]

-- Clearing the blocks of a tiling gives what the loop of the constructor builds.
pub clear_blocks-block_loop :
    (fuel index offset size : ℕ) (bs : List Block)
    → size ≤ offset + fuel
    → Tiles index offset size bs
    → clear_blocks bs ≡ block_loop fuel index offset size
unfolding clear_blocks block_loop
clear_blocks-block_loop zero index offset size [] k t = refl
clear_blocks-block_loop zero index offset size (b ∷ bs) k t = absurd (omega arith)
clear_blocks-block_loop (suc fuel) index offset size [] k t = ground arith
clear_blocks-block_loop (suc fuel) index offset size (b ∷ bs) k t =
    ground (arith, clear_blocks-block_loop fuel index (offset + b.length) size bs)

-- Offsets in a tiling are not below its start.
pub Tiles-offset :
    (index offset size : ℕ) (bs : List Block)
    → Tiles index offset size bs
    → All (λ b. (offset ≤ b.offset) × (b.offset + b.length ≤ size)) bs
Tiles-offset index offset size [] t = tt
Tiles-offset index offset size (b ∷ bs) t = (
  omega arith,
  All-map
      (λ (c : Block) (h : (offset + b.length ≤ c.offset) × (c.offset + c.length ≤ size)).
        omega arith)
      bs (Tiles-offset index (offset + b.length) size bs t.4),
)

-- Every block is between 1 byte and `block_size` bytes long.
pub Tiles-length :
    (index offset size : ℕ) (bs : List Block)
    → Tiles index offset size bs
    → All (λ b. (0 < b.length) × (b.length ≤ block_size)) bs
Tiles-length index offset size [] t = tt
Tiles-length index offset size (b ∷ bs) t =
    (omega arith, Tiles-length index (offset + b.length) size bs t.4)

abbrev pub Fits : Block → Type 0
Fits b = length b.bytes ≡ b.length

block_data-length : (b : Block) → Fits b → length (block_data b) ≡ b.length
unfolding block_data
block_data-length b h = ground (arith, length-replicate {A = ℕ} b.length 0)

-- Blocks that cover a range, are all retrieved and hold data of their own lengths give as many
-- bytes as the range has.
pub Tiles-length-blocks_data :
    (index offset size : ℕ) (bs : List Block)
    → Tiles index offset size bs
    → all_retrieved bs ≡ true
    → All Fits bs
    → offset + length (blocks_data bs) ≡ size
unfolding blocks_data all_retrieved
Tiles-length-blocks_data index offset size [] t r f = omega arith
Tiles-length-blocks_data index offset size (b ∷ bs) t r f = ground (
  arith,
  length-append (block_data b) (blocks_data bs),
  block_data-length b,
  Tiles-length-blocks_data index (offset + b.length) size bs t.4,
)

clear_blocks-clear_blocks : (bs : List Block) → clear_blocks (clear_blocks bs) ≡ clear_blocks bs
unfolding clear_blocks
clear_blocks-clear_blocks [] = refl
clear_blocks-clear_blocks (b ∷ bs) =
    ap (◌∷◌ (record b { status = missing; bytes = [] })) (clear_blocks-clear_blocks bs)

-- A second `Reset` changes nothing.
pub reset-reset : (p : Piece) → reset (reset p) ≡ reset p
unfolding reset
reset-reset p =
    ap (λ (bs : List Block). record p { blocks = bs; bytes_downloaded = 0 })
      (clear_blocks-clear_blocks p.blocks)
