-- ===== src/Core/PieceStorage/Queued.antt =====
-- What the constructor of the storage leaves: the queue against the torrent, piece by piece.
use native.Mathlib.Nat.{zero-add, mod-eq_of_lt, mod_self, mul-add-mod_self_right}
use simple_torrent_client.Common.{
  ℕ, zero, suc, ◌+◌, ◌-◌, ◌*◌, ◌%◌, ◌^◌, ◌≤◌, ◌<◌, min, true, false, some, [], ◌≡◌, refl, ap, ◌∙◌,
  arith, length, get_elem?, get_or, replicate, ok, err, output_file_not_open, ◌==◌, if_true,
  if_false, dec_lt, ℕ_discrete, not, ◌&&◌, if◌then◌else◌,
}
use simple_torrent_client.Core.TorrentFile.{TorrentFile}
use simple_torrent_client.Core.Piece.{make}
use simple_torrent_client.Core.PieceStorage.{
  PieceStorage, piece_length_at, new_piece, new_pieces, initialize_output_file, construct, init,
}
use simple_torrent_client.Core.PieceStorage.Invariant.{total_of}
use simple_torrent_client.Core.PieceStorage.Integrity.{initial, init_lem}

-- The pieces cover the torrent, the last one not in vain.
pub record Covers (t : TorrentFile) : Type 0 where
  pub all : t.length ≤ total_of t * t.piece_length
  pub no_more : total_of t * t.piece_length < t.length + t.piece_length

-- A storage that waits for every piece: piece `i` is queued in place `i`, with the bytes of the
-- torrent from `i` piece lengths on, at most a piece length of them, and none of them there yet.
pub record WaitsForAll (t : TorrentFile) (s : PieceStorage) : Type 0 where
  pub size : length s.remaining_pieces_queue ≡ total_of t
  pub queued :
      (i : ℕ)
      → i < total_of t
      → get_elem? s.remaining_pieces_queue i
        ≡ some (
            make i
              (min t.piece_length (t.length - i * t.piece_length))
              (get_or t.piece_hashes i []))
  pub zeros : s.file.contents ≡ replicate t.length 0
  pub opened : s.file.is_open ≡ true
  pub saved : s.indices_of_pieces_saved_to_disk ≡ []

-- What is left behind `q` whole pieces.
rest_mod : (n l q r : ℕ) → n ≡ q * l + r → n % l ≡ r % l
rest_mod n l q r e = ap (λ (k : ℕ). k % l) e ∙ mul-add-mod_self_right q l r

rest_mod-full : (n l q r : ℕ) → n ≡ q * l + r → r ≡ l → n % l ≡ 0
rest_mod-full n l q r e f = rest_mod n l q r e ∙ ap (λ (k : ℕ). k % l) f ∙ mod_self l

rest_mod-part : (n l q r : ℕ) → n ≡ q * l + r → r < l → n % l ≡ r
rest_mod-part n l q r e f = rest_mod n l q r e ∙ mod-eq_of_lt f

earlier : (i j l : ℕ) → i < j → i * l + l ≤ j * l
earlier i j l h = grind arith

suc_times : (i l : ℕ) → (i + 1) * l ≡ i * l + l
suc_times i l = grind arith

times_eq : (n i l : ℕ) → n ≡ i + 1 → n * l ≡ i * l + l
times_eq n i l e = ap (λ (k : ℕ). k * l) e ∙ suc_times i l

last-length : (n l q r : ℕ) → n ≡ q * l + r → 0 < r → r ≤ l → (if n % l == 0 then l else n % l) ≡ r
last-length n l q r e h k = elim (dec_lt r l) [
  | yes lt ↦
      if_false (n % l == 0) l (n % l) (ground (arith, rest_mod-part n l q r e lt))
      ∙ rest_mod-part n l q r e lt
  | no ge ↦ if_true (n % l == 0) l (n % l) (ground (arith, rest_mod-full n l q r e)) ∙ omega arith
]

piece_length_at_lem :
    (t : TorrentFile) (i : ℕ)
    → 0 < t.piece_length
    → Covers t
    → i < total_of t
    → piece_length_at t (total_of t) i ≡ min t.piece_length (t.length - i * t.piece_length)
unfolding piece_length_at
piece_length_at_lem t i h c k = elim (ℕ_discrete i (total_of t - 1)) [
  | yes e ↦
      let whole = times_eq (total_of t) i t.piece_length (omega arith) in
      if_true (i == total_of t - 1) _ _ (ground arith)
      ∙ last-length t.length t.piece_length i (t.length - i * t.piece_length)
          (omega (arith, whole, c.all, c.no_more)) (omega (arith, whole, c.no_more))
          (omega (arith, whole, c.all))
      ∙ omega (arith, whole, c.all)
  | no ne ↦
      let before = earlier (i + 1) (total_of t) t.piece_length (omega arith) in
      if_false (i == total_of t - 1) _ _ (ground arith)
      ∙ omega (arith, before, suc_times i t.piece_length, c.no_more)
]

length-new_pieces : (t : TorrentFile) (total n i : ℕ) → length (new_pieces t total n i) ≡ n
unfolding new_pieces
length-new_pieces t total zero i = refl
length-new_pieces t total (suc n) i = ap suc (length-new_pieces t total n (i + 1))

get_elem?-new_pieces :
    (t : TorrentFile) (total n i k : ℕ)
    → k < n
    → get_elem? (new_pieces t total n i) k ≡ some (new_piece t total (i + k))
unfolding new_pieces
get_elem?-new_pieces t total zero i k h = absurd (omega arith)
get_elem?-new_pieces t total (suc n) i zero h =
    ap (λ (j : ℕ). some (new_piece t total j)) (omega arith)
get_elem?-new_pieces t total (suc n) i (suc k) h =
    get_elem?-new_pieces t total n (i + 1) k (omega arith)
    ∙ ap (λ (j : ℕ). some (new_piece t total j)) (omega arith)

initial-WaitsForAll : (t : TorrentFile) → 0 < t.piece_length → Covers t → WaitsForAll t (initial t)
unfolding new_piece
initial-WaitsForAll t h c = record {
  size = length-new_pieces t (total_of t) (total_of t) 0;
  queued = λ i k.
      get_elem?-new_pieces t (total_of t) (total_of t) 0 i k
      ∙ ap (λ (j : ℕ). some (new_piece t (total_of t) j)) (zero-add i)
      ∙ ap (λ (n : ℕ). some (make i n (get_or t.piece_hashes i [])))
          (piece_length_at_lem t i h c k);
  zeros = refl;
  opened = refl;
  saved = refl;
}

-- For a torrent.
pub init-WaitsForAll :
    (t : TorrentFile)
    → 0 < t.piece_length
    → t.length < 2 ^ 63
    → Covers t
    → ((s : PieceStorage) × (init true t ≡ ok s) × WaitsForAll t s)
      × (init false t ≡ err output_file_not_open)
unfolding init construct initialize_output_file
init-WaitsForAll t h b c = (
  (initial t, init_lem t h b, initial-WaitsForAll t h c),
  if_false (t.piece_length == 0 && not (length t.piece_hashes == 0)) _ _ (ground arith),
)
