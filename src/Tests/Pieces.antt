-- ===== src/Tests/Pieces.antt =====
-- Pieces: one of a single block, and one of three blocks.
use simple_torrent_client.Common.{ℕ, true, [], ◌∷◌, ◌≡◌, refl, length, bytes_eq, ok}
use simple_torrent_client.Core.Piece.{
  Piece, make, all_blocks_retrieved, get_data, hash_matches, get_first_missing_block, save_block,
  reset, retrieved,
}
use simple_torrent_client.Core.Piece.Invariant.{
  IsValid, make-IsValid, get_first_missing_block-IsValid, save_block-IsValid, reset-eq-make,
}
use simple_torrent_client.Core.Piece.Blocks.{
  PieceSaveOutcome, save_block-PieceSaveOutcome, block_at,
}
use simple_torrent_client.Core.Piece.Download.{fetch, fetch-make}
use simple_torrent_client.Tests.Torrents.{plain}

abbrev fresh : Piece
fresh = make 4 3 (1 ∷ 2 ∷ 3 ∷ [])

abbrev pub asked : Piece
asked = (get_first_missing_block fresh).0

asked-IsValid : IsValid asked
asked-IsValid = get_first_missing_block-IsValid fresh (make-IsValid 4 3 (1 ∷ 2 ∷ 3 ∷ []))

abbrev answered : Piece
answered = record asked {
  blocks =
      record { piece = 4; offset = 0; length = 3; status = retrieved; bytes = 1 ∷ 2 ∷ 3 ∷ [] } ∷ [];
  bytes_downloaded = 3;
}

answer : save_block asked 0 (1 ∷ 2 ∷ 3 ∷ []) ≡ ok answered
unfolding save_block get_first_missing_block make
answer = refl

three_blocks : length (make 0 40000 []).blocks ≡ 3
unfolding make
three_blocks = refl

fetch-make_example :
    (p : Piece) × (fetch
        (length {A = ℕ} (1 ∷ 2 ∷ 3 ∷ []))
        (1 ∷ 2 ∷ 3 ∷ [])
        (make 4 (length {A = ℕ} (1 ∷ 2 ∷ 3 ∷ [])) (1 ∷ 2 ∷ 3 ∷ []))
      ≡ ok p)
    × (all_blocks_retrieved p ≡ true)
    × (get_data p ≡ 1 ∷ 2 ∷ 3 ∷ [])
    × (hash_matches plain p ≡ bytes_eq (1 ∷ 2 ∷ 3 ∷ []) (1 ∷ 2 ∷ 3 ∷ []))
fetch-make_example = fetch-make plain 4 (1 ∷ 2 ∷ 3 ∷ []) (1 ∷ 2 ∷ 3 ∷ [])

save_block-PieceSaveOutcome_example :
    PieceSaveOutcome asked 0
      (1 ∷ 2 ∷ 3 ∷ [])
      (block_at 0 asked.blocks)
      (save_block asked 0 (1 ∷ 2 ∷ 3 ∷ []))
save_block-PieceSaveOutcome_example = save_block-PieceSaveOutcome asked 0 (1 ∷ 2 ∷ 3 ∷ [])

save_block-IsValid_example : IsValid answered
save_block-IsValid_example =
    save_block-IsValid asked answered 0 (1 ∷ 2 ∷ 3 ∷ []) asked-IsValid answer

reset-eq-make_example : reset asked ≡ make asked.index asked.length asked.hash
reset-eq-make_example = reset-eq-make asked asked-IsValid
