-- ===== src/Net/PeerConnect/Search/Finds.antt =====
-- The search for a piece ends where the queue holds a piece that the peer has.
use simple_torrent_client.Common.{
  ℕ, zero, suc, ◌<◌, true, false, some, List, [], ◌∷◌, ◌++◌, append_assoc, append-nil, ◌≡◌, inl,
  inr, refl, sym, ap, ◌∙◌, arith, length, Bool-cases, All, All-map,
}
use simple_torrent_client.Core.Piece.{Piece, reset}
use simple_torrent_client.Core.PieceStorage.{
  PieceStorage, enqueue, take_front, get_missing_pieces, get_next_piece_to_download,
  is_piece_already_saved,
}
use simple_torrent_client.Net.PiecesAvailability.{PeerPiecesAvailability}
use simple_torrent_client.Net.PeerConnect.{PeerConnect}
use simple_torrent_client.Net.PeerConnect.Search.{
  Search, found, searching, is_wanted, judge, search_round, search_from, get_next_available_piece,
}

abbrev with_queue : PieceStorage → List Piece → PieceStorage
with_queue s q = record s { remaining_pieces_queue = q }

-- What is wanted does not depend on the queue.
is_wanted-with_queue :
    (a : PeerPiecesAvailability) (s : PieceStorage) (q : List Piece) (p : Piece)
    → is_wanted a (with_queue s q) p ≡ is_wanted a s p
unfolding is_wanted get_missing_pieces
is_wanted-with_queue a s q p = refl

round_lem :
    (c : PeerConnect) (s : PieceStorage) (x : Piece) (q : List Piece)
    → c.is_terminated ≡ false
    → s.remaining_pieces_queue ≡ x ∷ q
    → search_round c s ≡ judge c.pieces_availability (with_queue s q) (some x)
unfolding search_round get_next_piece_to_download
round_lem c s x q n e =
    rw n
      (ap (λ (l : List Piece). judge c.pieces_availability (take_front s l).0 (take_front s l).1) e)

-- A piece that is put back stands behind the others, or is dropped if it is saved.
enqueue_lem :
    (s : PieceStorage) (x : Piece) (q : List Piece)
    → (tail : List Piece) × (enqueue (with_queue s q) (some x) ≡ with_queue s (q ++ tail))
unfolding enqueue
enqueue_lem s x q = elim (Bool-cases (is_piece_already_saved (with_queue s q) x.index)) [
  | inl e ↦ ([], rw e (ap (with_queue s) (sym (append-nil q))))
  | inr e ↦ (reset x ∷ [], rw e)
]

judge_wanted :
    (a : PeerPiecesAvailability) (s : PieceStorage) (x : Piece)
    → is_wanted a s x ≡ true
    → judge a s (some x) ≡ (s, found x)
unfolding judge
judge_wanted a s x e = rw e

judge_unwanted :
    (a : PeerPiecesAvailability) (s : PieceStorage) (x : Piece)
    → is_wanted a s x ≡ false
    → judge a s (some x) ≡ (enqueue s (some x), searching)
unfolding judge
judge_unwanted a s x e = rw e

-- What a search gives, from the outcome of its first round.
abbrev result_from : ℕ → PeerConnect → PieceStorage × Search → Search
result_from rounds c r = (search_from (get_next_available_piece rounds c) r.0 r.1).1

-- The search of a connection that is not terminated gives the first piece of the queue that is
-- wanted: one that the peer has, or any piece once at most ten are missing. It takes one round for
-- each piece in front of it and one more.
pub get_next_available_piece-found :
    (rounds : ℕ) (c : PeerConnect) (s : PieceStorage) (before after : List Piece) (p : Piece)
    → c.is_terminated ≡ false
    → s.remaining_pieces_queue ≡ before ++ p ∷ after
    → All (λ x. is_wanted c.pieces_availability s x ≡ false) before
    → is_wanted c.pieces_availability s p ≡ true
    → length before < rounds
    → (get_next_available_piece rounds c s).1 ≡ found p
unfolding get_next_available_piece
get_next_available_piece-found zero c s before after p n e b w h = absurd (omega arith)
get_next_available_piece-found (suc rounds) c s [] after p n e b w h = ap (result_from rounds c) (
    round_lem c s p after n e
    ∙ judge_wanted c.pieces_availability (with_queue s after) p
        (is_wanted-with_queue c.pieces_availability s after p ∙ w))
get_next_available_piece-found (suc rounds) c s (x ∷ before) after p n e b w h =
    let a = c.pieces_availability in
    let q : List Piece = before ++ p ∷ after in
    let put_back = enqueue_lem s x q in
    let s' = with_queue s (q ++ put_back.0) in
    let first : search_round c s ≡ (s', searching) =
      round_lem c s x q n e
      ∙ judge_unwanted a (with_queue s q) x (is_wanted-with_queue a s q x ∙ b.0)
      ∙ ap (λ (r : PieceStorage). let pair : PieceStorage × Search = (r, searching) in pair)
          put_back.1 in
    ap (result_from rounds c) first
    ∙ get_next_available_piece-found rounds c s' before (after ++ put_back.0) p n
        (append_assoc before (p ∷ after) put_back.0)
        (All-map
          (λ (y : Piece) (u : is_wanted a s y ≡ false).
            is_wanted-with_queue a s (q ++ put_back.0) y ∙ u)
          before b.1)
        (is_wanted-with_queue a s (q ++ put_back.0) p ∙ w) (omega arith)
