-- ===== src/Bencode/Pieces.antt =====
-- GetPieceHashes cuts the value of `pieces` into hashes of 20 bytes.
use simple_torrent_client.Common.{
  ℕ, zero, suc, ◌*◌, ◌≤◌, ◌<◌, true, false, Option, some, List, [], ◌∷◌, ◌++◌, append_assoc, ◌≡◌,
  refl, sym, ap, ◌∙◌, arith, leb, if_true, if_false, length, length-append, take, drop, take-append,
  drop-append, All,
}
use simple_torrent_client.ByteTools.{Bytes}
use simple_torrent_client.Bencode.{Parser, pieces_of, pieces_data, push_pieces, get_piece_hashes}

-- The hashes one behind the other.
abbrev pub joined : List Bytes → Bytes
joined [] = []
joined (h ∷ hs) = h ++ joined hs

abbrev pub IsHash : Bytes → Type 0
IsHash h = length h ≡ 20

pub length-joined : (hs : List Bytes) → All IsHash hs → length (joined hs) ≡ 20 * length hs
length-joined [] a = omega arith
length-joined (h ∷ hs) a = omega (arith, length-append {0} h (joined hs), length-joined hs a.1, a.0)

-- Each hash costs a round; an end of fewer than 20 bytes is not looked at.
pieces_of-joined :
    (hs : List Bytes) (rest : Bytes) (fuel : ℕ)
    → All IsHash hs
    → length rest < 20
    → length hs ≤ fuel
    → pieces_of fuel (joined hs ++ rest) ≡ hs
unfolding pieces_of
pieces_of-joined [] rest zero a r f = refl
pieces_of-joined [] rest (suc fuel) a r f =
    let short : leb 20 (length rest) ≡ false = ground arith in if_false _ _ _ short
pieces_of-joined (h ∷ hs) rest zero a r f = absurd (omega arith)
pieces_of-joined (h ∷ hs) rest (suc fuel) a r f =
    let tail = joined hs ++ rest in
    let split : h ++ joined hs ++ rest ≡ h ++ tail = append_assoc h (joined hs) rest in
    let long : leb 20 (length (h ++ joined hs ++ rest)) ≡ true =
      ground (arith, a.0, ap length split, length-append {0} h tail) in
    if_true _ _ _ long
    ∙ (ap (λ (d : Bytes). take 20 d ∷ pieces_of fuel (drop 20 d)) split
        ∙ (ap (λ (x : Bytes). x ∷ pieces_of fuel (drop 20 (h ++ tail)))
              (take-append h tail 20 (sym a.0))
            ∙ ap (h ∷◌) (
                ap (pieces_of fuel) (drop-append h tail 20 (sym a.0))
                ∙ pieces_of-joined hs rest fuel a.1 r (omega arith))))

pub get_piece_hashes-joined :
    (p : Parser) (hs : List Bytes) (rest : Bytes)
    → pieces_data p.parsed ≡ some (joined hs ++ rest)
    → All IsHash hs
    → length rest < 20
    → (get_piece_hashes p).pieces_hashes ≡ p.pieces_hashes ++ hs
unfolding get_piece_hashes push_pieces
get_piece_hashes-joined p hs rest e a r =
    ap (λ (o : Option Bytes). (push_pieces p o).pieces_hashes) e
    ∙ ap (λ (xs : List Bytes). p.pieces_hashes ++ xs)
        (pieces_of-joined hs rest (length (joined hs ++ rest)) a r
          (omega (arith, length-joined hs a, length-append {0} (joined hs) rest)))
