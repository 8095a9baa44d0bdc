-- ===== src/Core/Piece.antt =====
-- include/core/Piece.hpp and src/core/Piece.cpp: a piece and its blocks. A method that changes the
-- piece returns the new one. SHA-1 is OpenSSL's, so it is an argument, `sha1`.
pub mod Layout
pub mod Invariant
pub mod Blocks
pub mod Download
use simple_torrent_client.Common.{
  ℕ, zero, suc, ◌+◌, ◌-◌, ◌%◌, ◌^◌, min, Bool, true, false, ◌&&◌, ◌||◌, Option, none, some, List,
  [], ◌∷◌, ◌++◌, ltb, ◌==◌, if◌then◌else◌, bytes_eq, length, replicate, u64, Result, ok, err, ◌>>=◌,
  block_not_pending, block_not_found,
}
use simple_torrent_client.ByteTools.{Bytes}

abbrev pub block_size : ℕ
block_size = 2 ^ 14

pub data Status : Type 0 where
  missing : Status
  pending : Status
  retrieved : Status

pub record Block : Type 0 where
  pub piece : ℕ
  pub offset : ℕ
  pub length : ℕ
  pub status : Status
  pub bytes : Bytes

pub record Piece : Type 0 where
  pub index : ℕ
  pub length : ℕ
  pub hash : Bytes
  pub blocks : List Block
  pub bytes_downloaded : ℕ

abbrev pub is_missing : Status → Bool
is_missing missing = true
is_missing _ = false

abbrev pub is_pending : Status → Bool
is_pending pending = true
is_pending _ = false

abbrev pub is_retrieved : Status → Bool
is_retrieved retrieved = true
is_retrieved _ = false

abbrev pub new_block : ℕ → ℕ → ℕ → Block
new_block index offset block_length = record {
  piece = index;
  offset = offset;
  length = block_length;
  status = missing;
  bytes = [];
}

-- The loop of the constructor, `while (offset < length)`. Each round adds at least 1 to `offset`,
-- so `length` rounds are enough.
pub block_loop : ℕ → ℕ → ℕ → ℕ → List Block
block_loop zero index offset size = []
block_loop (suc fuel) index offset size =
    let block_length = min block_size (size - offset) in
    let rest =
      new_block index offset block_length ∷ block_loop fuel index (offset + block_length) size in
    if ltb offset size then rest else []

unfoldable pub make : ℕ → ℕ → Bytes → Piece
unfolding block_loop
make index size hash = record {
  index = index;
  length = size;
  hash = hash;
  blocks = block_loop size index 0 size;
  bytes_downloaded = 0;
}

unfoldable pub all_retrieved : List Block → Bool
all_retrieved [] = true
all_retrieved (b ∷ bs) = is_retrieved b.status && all_retrieved bs

unfoldable pub all_blocks_retrieved : Piece → Bool
unfolding all_retrieved
all_blocks_retrieved p = all_retrieved p.blocks

pub any_pending : List Block → Bool
any_pending [] = false
any_pending (b ∷ bs) = is_pending b.status || any_pending bs

unfoldable pub is_downloading : Piece → Bool
unfolding any_pending
is_downloading p = any_pending p.blocks

-- What one block adds to `GetData`.
pub block_data : Block → Bytes
block_data b = if is_retrieved b.status then b.bytes else replicate b.length 0

pub blocks_data : List Block → Bytes
unfolding block_data
blocks_data [] = []
blocks_data (b ∷ bs) = block_data b ++ blocks_data bs

unfoldable pub get_data : Piece → Bytes
unfolding blocks_data
get_data p = blocks_data p.blocks

unfoldable pub get_data_hash : (Bytes → Bytes) → Piece → Bytes
unfolding get_data
get_data_hash sha1 p = sha1 (get_data p)

unfoldable pub hash_matches : (Bytes → Bytes) → Piece → Bool
unfolding all_blocks_retrieved get_data bytes_eq
hash_matches sha1 p = if all_blocks_retrieved p then bytes_eq (sha1 (get_data p)) p.hash else false

-- The loop of `GetFirstMissingBlock`: the blocks afterwards, and the block that is returned.
pub take_missing : List Block → List Block × Option Block
take_missing [] = ([], none)
take_missing (b ∷ bs) =
    let taken = record b { status = pending } in
    let (bs', found) = take_missing bs in
    if is_missing b.status then (taken ∷ bs, some taken) else (b ∷ bs', found)

unfoldable pub get_first_missing_block : Piece → Piece × Option Block
unfolding take_missing
get_first_missing_block p =
    let (bs, found) = take_missing p.blocks in (record p { blocks = bs }, found)

-- The loop of `SaveBlock`: the first block at the offset decides.
pub save_in : ℕ → Bytes → List Block → Result (List Block)
save_in block_offset block_data [] = err block_not_found
save_in block_offset block_data (b ∷ bs) =
    let saved = record b { bytes = block_data; status = retrieved } in
    if b.offset == block_offset
    then (if is_pending b.status then ok (saved ∷ bs) else err block_not_pending)
    else save_in block_offset block_data bs >>= λ bs'. ok (b ∷ bs')

unfoldable pub save_block : Piece → ℕ → Bytes → Result Piece
unfolding save_in
save_block p block_offset block_data = do
  bs ← save_in block_offset block_data p.blocks
  ok (record p { blocks = bs; bytes_downloaded = u64 (p.bytes_downloaded + length block_data) })

pub clear_blocks : List Block → List Block
clear_blocks [] = []
clear_blocks (b ∷ bs) = record b { status = missing; bytes = [] } ∷ clear_blocks bs

unfoldable pub reset : Piece → Piece
unfolding clear_blocks
reset p = record p { blocks = clear_blocks p.blocks; bytes_downloaded = 0 }

abbrev pub is_complete : Piece → Bool
is_complete = all_blocks_retrieved
