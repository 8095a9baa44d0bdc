-- ===== src/Bencode/Entry.antt =====
-- A round of the dictionary's loop for a key and one for its value, the end mark, and the info hash.
use simple_torrent_client.Common.{
  ℕ, suc, ◌+◌, ◌^◌, ◌<◌, Bool, true, false, Option, none, some, List, [], ◌∷◌, ◌++◌, append-nil,
  ◌≡◌, refl, sym, ap, ◌∙◌, arith, bytes_eq, if◌then◌else◌, if_false, length, length-append,
}
use simple_torrent_client.ByteTools.{Bytes}
use simple_torrent_client.Bencode.{
  ends, Parser, advance, process, process_dict, DictState, is_empty, set_info_hash, between,
  info_key,
}
use simple_torrent_client.Bencode.Values.{
  Value, text, write_text, write, write_text-append, write-append, leaves, hash_after, chosen,
}
use simple_torrent_client.Bencode.Sizes.{size, write_text-Begins, IsDigit-ne-e, write-Begins}
use simple_torrent_client.Bencode.Steps.{
  >>=-ends, At, moved, At-moved, process_string_lem, process_digit, dict_next,
}

-- What a call of `Process` returns on a value.
abbrev pub returned : Value → Bytes
returned (text s) = s
returned _ = []

-- The marks of the value of `info` in the text: none yet, or both with the bytes between them.
abbrev pub Marks : Bytes → Option ℕ → Option ℕ → Option Bytes → Type 0
Marks t none none none = Unit {0}
Marks t (some i) (some j) (some s) = between i j t ≡ s
Marks t _ _ _ = ⊥

pub Marks-if :
    (t : Bytes) (b : Bool) (i j : ℕ) (s : Bytes) (start end : Option ℕ) (o : Option Bytes)
    → between i j t ≡ s
    → Marks t start end o
    → Marks t
        (if b then some i else start)
        (if (if b then true else false) then some j else end)
        (if b then some s else o)
Marks-if t true i j s start end o e m = e
Marks-if t false i j s start end o e m = m

pub moved_none : (p : Parser) (n : ℕ) → moved p n [] p.info_hash ≡ advance p n
moved_none p n =
    ap (λ (xs : List Bytes). record p { index = p.index + n; parsed = xs }) (append-nil p.parsed)

module _ (sha1 : Bytes → Bytes) where
  pub set_info_hash_lem :
      (p : Parser) (start end : Option ℕ) (o : Option Bytes)
      → Marks p.to_decode start end o
      → set_info_hash sha1 start end (advance p 1) ≡ moved p 1 [] (chosen p.info_hash o sha1)
  unfolding set_info_hash
  set_info_hash_lem p none none none m = sym (moved_none p 1)
  set_info_hash_lem p none none (some s) m = absurd m
  set_info_hash_lem p none (some j) o m = absurd m
  set_info_hash_lem p (some i) none o m = absurd m
  set_info_hash_lem p (some i) (some j) none m = absurd m
  set_info_hash_lem p (some i) (some j) (some s) m =
      ap (λ (h : Bytes). record p { index = p.index + 1; info_hash = sha1 h }) m
      ∙ ap (λ (xs : List Bytes). record p { index = p.index + 1; info_hash = sha1 s; parsed = xs })
          (sym (append-nil p.parsed))

  -- The end mark of a list or a dictionary, behind its content.
  pub closed :
      (p : Parser) (xs : List Bytes) (h : Bytes) (inner outer : Bytes)
      → outer ≡ inner ++ b'e' ∷ []
      → moved (advance p 1) (length inner + 1) xs h ≡ moved p (suc (length outer)) xs h
  closed p xs h inner outer e =
      let total : p.index + 1 + (length inner + 1) ≡ p.index + suc (length outer) =
        omega (arith, ap length e, length-append {0} inner (b'e' ∷ [])) in
      ap (λ (i : ℕ). record p { index = i; parsed = p.parsed ++ xs; info_hash = h }) total

  pub text_lem :
      (s : Bytes) (f : ℕ) (p : Parser) (rest : Bytes)
      → length s < 2 ^ 31
      → At p (write_text s rest)
      → process sha1 (suc f) p ≡ ends (s, moved p (length (write_text s [])) (s ∷ []) p.info_hash)
  text_lem s f p rest h a =
      let b = write_text-Begins s rest in
      process_digit sha1 f p b.first b.rest b.holds (a ∙ b.splits) ∙ process_string_lem p s rest h a

  -- The parser behind a key, and behind its value.
  abbrev pub keyed_at : Parser → Bytes → Parser
  keyed_at p k = moved p (length (write_text k [])) (k ∷ []) p.info_hash

  abbrev pub valued_at : Parser → Bytes → Value → Parser
  valued_at p k v = moved (keyed_at p k) (size v) (leaves v) (hash_after sha1 p.info_hash v)

  pub At-keyed :
      (p : Parser) (k behind : Bytes) → At p (write_text k behind) → At (keyed_at p k) behind
  At-keyed p k behind a =
      At-moved p (write_text k []) behind (length (write_text k []))
        (a ∙ write_text-append k [] behind) refl

  pub At-valued :
      (p : Parser) (k : Bytes) (v : Value) (more : Bytes)
      → At p (write_text k (write v more))
      → At (valued_at p k v) more
  At-valued p k v more a =
      At-moved (keyed_at p k) (write v []) more (size v)
        (At-keyed p k (write v more) a ∙ write-append v more) refl

  -- A round of the dictionary's loop for the key, and one for the value.
  pub entry_lem :
      (k : Bytes) (v : Value) (f : ℕ) (p : Parser) (start end : Option ℕ) (more : Bytes)
      → is_empty k ≡ false
      → length k < 2 ^ 31
      → At p (write_text k (write v more))
      → process sha1 f (keyed_at p k) ≡ ends (returned v, valued_at p k v)
      → process_dict sha1
          (suc (suc f))
          (record { key_name = []; start_index = start; end_index = end; flag = false })
          p
        ≡ process_dict sha1 f
            (record {
              key_name = [];
              start_index = if bytes_eq k info_key then some (keyed_at p k).index else start;
              end_index =
                  if (if bytes_eq k info_key then true else false)
                  then some (valued_at p k v).index
                  else end;
              flag = false;
            })
            (valued_at p k v)
  entry_lem k v f p start end more h g a e =
      let b = write_text-Begins k (write v more) in
      let b' = write-Begins v more in
      dict_next sha1 (suc f) p _ b.first b.rest (IsDigit-ne-e b.first b.holds) (a ∙ b.splits)
      ∙ (>>=-ends _ (text_lem k f p (write v more) g a)
          ∙ (dict_next sha1 f (keyed_at p k) _ b'.first b'.rest b'.holds
                (At-keyed p k (write v more) a ∙ b'.splits)
              ∙ (>>=-ends _ e
                  ∙ ap (λ (d : DictState). process_dict sha1 f d (valued_at p k v))
                      (if_false _ _ _ h))))
