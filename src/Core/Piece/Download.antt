-- ===== src/Core/Piece/Download.antt =====
-- The data of a piece that is downloaded block by block.
mod Splits
use simple_torrent_client.Common.{
  ℕ, zero, suc, ◌+◌, ◌-◌, ◌≤◌, ◌<◌, min, true, false, Option, none, some, List, [], ◌∷◌, ◌++◌,
  append-nil, append_assoc, ◌==◌, ◌≡◌, refl, sym, subst, ap, ap₂, ◌∙◌, arith, bytes_eq, length,
  take, drop, drop_all, take-append-drop, drop-drop, u64, Result, ok, ◌>>=◌, All, All-append,
  All-map,
}
use simple_torrent_client.ByteTools.{Bytes}
use simple_torrent_client.Core.Piece.{
  block_size, missing, pending, retrieved, Block, Piece, is_missing, block_loop, make,
  all_retrieved, all_blocks_retrieved, block_data, blocks_data, get_data, hash_matches,
  take_missing, get_first_missing_block, save_in, save_block,
}
use simple_torrent_client.Core.Piece.Layout.{Tiles, Tiles-offset}
use simple_torrent_client.Core.Piece.Invariant.{saved, make-IsValid}
use simple_torrent_client.Core.Piece.Download.Splits.{
  take_missing-append, take_missing-none, save_in-append, Tiles-before, Tiles-replace,
}

-- The part of `content` that a block stands for.
abbrev pub block_slice : Bytes → Block → Bytes
block_slice content b = take b.length (drop b.offset content)

abbrev pub Holds : Bytes → Block → Type 0
Holds content b = (b.status ≡ retrieved) × (b.bytes ≡ block_slice content b)

-- The requests of the main loop against a peer that answers each with its part of `content`.
pub fetch : ℕ → Bytes → Piece → Result Piece
fetch zero content p = ok p
fetch (suc n) content p =
    let (p', found) = get_first_missing_block p in
    elim found [
      | none ↦ ok p'
      | some b ↦ save_block p' b.offset (block_slice content b) >>= fetch n content
    ]

-- A round of `fetch`, from what `GetFirstMissingBlock` gave.
abbrev fetch_from : ℕ → Bytes → Piece × Option Block → Result Piece
fetch_from n content r = elim r.1 [
  | none ↦ ok r.0
  | some b ↦ save_block r.0 b.offset (block_slice content b) >>= fetch n content
]

fetch_round :
    (n : ℕ) (content : Bytes) (p : Piece) (r : Piece × Option Block)
    → get_first_missing_block p ≡ r
    → fetch (suc n) content p ≡ fetch_from n content r
unfolding fetch
fetch_round n content p r s = ap (fetch_from n content) s

blocks_data-Holds :
    (content : Bytes) (index offset size : ℕ) (bs : List Block)
    → size ≡ length content
    → Tiles index offset size bs
    → All (Holds content) bs
    → blocks_data bs ≡ drop offset content
unfolding blocks_data block_data
blocks_data-Holds content index offset size [] e t h = sym (drop_all offset content (omega arith))
blocks_data-Holds content index offset size (b ∷ bs) e t h =
    ap₂ ◌++◌ (ground arith) (
      blocks_data-Holds content index (offset + b.length) size bs e t.4 h.1
      ∙ sym (drop-drop b.length offset (offset + b.length) content refl))
    ∙ take-append-drop b.length (drop offset content)

abbrev with_blocks : Piece → List Block → Piece
with_blocks p bs = record p { blocks = bs }

abbrev requested : Block → Block
requested b = record b { status = pending }

take_step :
    (p : Piece) (bs bs' : List Block) (found : Option Block)
    → p.blocks ≡ bs
    → take_missing bs ≡ (bs', found)
    → get_first_missing_block p ≡ (with_blocks p bs', found)
unfolding get_first_missing_block
take_step p bs bs' found e t =
    ap
      (λ (r : List Block × Option Block).
        let q : Piece × Option Block = (with_blocks p r.0, r.1) in q)
      (ap take_missing e ∙ t)

abbrev filled : Piece → List Block → Bytes → Piece
filled p bs d = record p { blocks = bs; bytes_downloaded = u64 (p.bytes_downloaded + length d) }

save_step :
    (p : Piece) (o : ℕ) (bs bs' : List Block) (d : Bytes)
    → save_in o d bs ≡ ok bs'
    → save_block (with_blocks p bs) o d ≡ ok (filled p bs' d)
unfolding save_block
save_step p o bs bs' d e = rw e

missing-not-retrieved : (b : Block) → b.status ≡ retrieved → is_missing b.status ≡ false
missing-not-retrieved b e = ground arith

module _ (content : Bytes) where
  fetch_blocks :
      (n : ℕ) (p : Piece) (done todo : List Block)
      → p.blocks ≡ done ++ todo
      → Tiles p.index 0 p.length p.blocks
      → All (Holds content) done
      → All (λ b. b.status ≡ missing) todo
      → length todo ≤ n
      → (p' : Piece) × (fetch n content p ≡ ok p')
        × All (Holds content) p'.blocks
        × Tiles p.index 0 p.length p'.blocks
        × (p'.index ≡ p.index)
        × (p'.length ≡ p.length)
        × (p'.hash ≡ p.hash)
  unfolding fetch
  fetch_blocks zero p done [] e t h m k = (p, refl, rw (e ∙ append-nil done) h, t, refl, refl, refl)
  fetch_blocks zero p done (b ∷ todo) e t h m k = absurd (omega arith)
  fetch_blocks (suc n) p done [] e t h m k =
      let s = take_step p done done none (e ∙ append-nil done) (
        take_missing-none done
          (All-map (λ (c : Block) (x : Holds content c). missing-not-retrieved c x.0) done h)) in
      (
        with_blocks p done,
        fetch_round n content p (with_blocks p done, none) s,
        h,
        rw (e ∙ append-nil done) at t,
        refl,
        refl,
        refl,
      )
  fetch_blocks (suc n) p done (b ∷ todo) e t h m k =
      let d = block_slice content b in
      let before =
        All-map (λ (c : Block) (x : Holds content c). missing-not-retrieved c x.0) done h in
      let tiles : Tiles p.index 0 p.length (done ++ b ∷ todo) =
        subst (Tiles p.index 0 p.length) e t in
      let s =
        take_step p (done ++ b ∷ todo) (done ++ requested b ∷ todo) (some (requested b)) e
          (take_missing-append done todo b before m.0) in
      let w = save_step p b.offset (done ++ requested b ∷ todo) (done ++ saved b d ∷ todo) d (
        save_in-append done todo (requested b) d (Tiles-before p.index 0 p.length done todo b tiles)
          refl) in
      let all_done = All-append (Holds content) done (saved b d ∷ []) h ((refl, refl), tt) in
      let rest =
        fetch_blocks n (filled p (done ++ saved b d ∷ todo) d) (done ++ saved b d ∷ []) todo
          (sym (append_assoc done (saved b d ∷ []) todo))
          (Tiles-replace p.index 0 p.length done todo b d tiles) all_done m.1 (omega arith) in
      (
        rest.0,
        fetch_round n content p (with_blocks p (done ++ requested b ∷ todo), some (requested b)) s
            ∙ (rw w rest.1),
        rest.2,
        rest.3,
        rest.4,
        rest.5,
        rest.6,
      )

  all_retrieved-Holds : (bs : List Block) → All (Holds content) bs → all_retrieved bs ≡ true
  unfolding all_retrieved
  all_retrieved-Holds [] h = refl
  all_retrieved-Holds (b ∷ bs) h = ground (arith, h.0.0, all_retrieved-Holds bs h.1)

block_loop-missing :
    (fuel index offset size : ℕ)
    → All (λ b. b.status ≡ missing) (block_loop fuel index offset size)
      × (length (block_loop fuel index offset size) ≤ fuel)
unfolding block_loop
block_loop-missing zero index offset size = (tt, omega arith)
block_loop-missing (suc fuel) index offset size =
    ground (arith, block_loop-missing fuel index (offset + min block_size (size - offset)) size)

-- A new piece whose missing blocks are requested one by one, and whose requests are answered with
-- the parts of a content, ends complete with the content as its data, and its hash check compares
-- the SHA-1 of the content with the hash; as many rounds as the content has bytes are enough.
pub fetch-make :
    (sha1 : Bytes → Bytes) (index : ℕ) (hash content : Bytes)
    → (p : Piece) × (fetch (length content) content (make index (length content) hash) ≡ ok p)
      × (all_blocks_retrieved p ≡ true)
      × (get_data p ≡ content)
      × (hash_matches sha1 p ≡ bytes_eq (sha1 content) hash)
unfolding make all_blocks_retrieved get_data hash_matches
fetch-make sha1 index hash content =
    let p = make index (length content) hash in
    let fresh = block_loop-missing (length content) index 0 (length content) in
    let h =
      fetch_blocks content (length content) p [] p.blocks refl
        (make-IsValid index (length content) hash).tiles tt fresh.0 fresh.1 in
    let r = all_retrieved-Holds content h.0.blocks h.2 in
    let g : blocks_data h.0.blocks ≡ content =
      blocks_data-Holds content index 0 (length content) h.0.blocks refl h.3 h.2 in
    (h.0, h.1, r, g, rw (r, g, h.6))
