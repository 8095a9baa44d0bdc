-- ===== src/Bencode/Endless.antt =====
-- Texts on which the parser does not end.
use simple_torrent_client.Common.{
  ℕ, zero, suc, ◌+◌, ◌≤◌, true, false, Option, none, [], ◌∷◌, ◌≡◌, refl, ap, ◌∙◌, arith, ltb,
  if_true, if_false, length, length-drop, get_or,
}
use simple_torrent_client.ByteTools.{Bytes}
use simple_torrent_client.Bencode.Entry.{keyed_at, valued_at, At-keyed, At-valued, entry_lem}
use simple_torrent_client.Bencode.Fuel.{goes_on-less}
use simple_torrent_client.Bencode.{
  Run, ends, goes_on, ◌>>=◌, Parser, advance, current, process, process_dict, process_list,
  DictState, with_key, is_empty, fresh, parse_from_string,
}
use simple_torrent_client.Bencode.Values.{
  Items, no_items, item, Entries, no_entries, entry, write_text, write, write_items, write_entries,
  write-append, leaves, hash_after, IsValue, IsItems, IsEntries,
}
use simple_torrent_client.Bencode.Sizes.{
  cost, cost_items, cost_entries, size, length-write, length-write_text, write-Begins,
}
use simple_torrent_client.Bencode.Steps.{
  >>=-ends, At, moved, At-moved, process_d, process_l, list_next,
}
use simple_torrent_client.Bencode.RoundTrip.{process_lem}

get_or-end : (xs : Bytes) → get_or xs (length xs) 0 ≡ 0
get_or-end [] = refl
get_or-end (x ∷ xs) = get_or-end xs

-- A string may be read at its end.
end_of_text : (p : Parser) → p.index ≡ length p.to_decode → current p ≡ ends 0
unfolding current
end_of_text p e =
    let inside : ltb (length p.to_decode) p.index ≡ false = ground arith in
    if_false _ _ _ inside
    ∙ ap ends (ap (λ (i : ℕ). get_or p.to_decode i 0) e ∙ get_or-end p.to_decode)

At-end : (p : Parser) → p.index ≤ length p.to_decode → At p [] → p.index ≡ length p.to_decode
At-end p h a = omega (arith, ap length a, length-drop {0} p.index p.to_decode)

At-inside :
    (p : Parser) (n : ℕ) (s : Bytes)
    → p.index ≤ length p.to_decode
    → At p s
    → n ≤ length s
    → p.index + n ≤ length p.to_decode
At-inside p n s h a k = omega (arith, ap length a, length-drop {0} p.index p.to_decode)

module _ (sha1 : Bytes → Bytes) where
  process_at_end :
      (f : ℕ) (p : Parser) → p.index ≡ length p.to_decode → process sha1 (suc f) p ≡ ends ([], p)
  unfolding process
  process_at_end f p e = >>=-ends _ (end_of_text p e)

  -- At the end of the text a list waits for its end mark.
  process_list_at_end :
      (f : ℕ) (p : Parser) → p.index ≡ length p.to_decode → process_list sha1 f p ≡ goes_on
  unfolding process
  process_list_at_end zero p e = refl
  process_list_at_end (suc zero) p e = >>=-ends _ (end_of_text p e)
  process_list_at_end (suc (suc f)) p e =
      >>=-ends _ (end_of_text p e)
      ∙ (>>=-ends _ (process_at_end f p e) ∙ process_list_at_end (suc f) p e)

  -- And so does a dictionary: what it reads there is the empty key, which counts as none.
  process_dict_at_end :
      (f : ℕ) (d : DictState) (p : Parser)
      → p.index ≡ length p.to_decode
      → is_empty d.key_name ≡ true
      → process_dict sha1 f d p ≡ goes_on
  unfolding process
  process_dict_at_end zero d p e h = refl
  process_dict_at_end (suc zero) d p e h = >>=-ends _ (end_of_text p e)
  process_dict_at_end (suc (suc f)) d p e h =
      >>=-ends _ (end_of_text p e)
      ∙ (>>=-ends _ (process_at_end f p e)
          ∙ (ap (λ (d' : DictState). process_dict sha1 (suc f) d' p) (if_true _ _ _ h)
              ∙ process_dict_at_end (suc f) (with_key d [] p.index) p e refl))

  process_list-cut :
      (xs : Items) (f : ℕ) (p : Parser)
      → IsItems xs
      → cost_items xs ≤ f
      → At p (write_items xs [])
      → p.index ≤ length p.to_decode
      → process_list sha1 f p ≡ goes_on
  unfolding write IsValue cost
  process_list-cut no_items f p h c a k = process_list_at_end f p (At-end p k a)
  process_list-cut (item v xs) zero p h c a k = absurd (omega arith)
  process_list-cut (item v xs) (suc f) p h c a k =
      let more = write_items xs [] in
      let b = write-Begins v more in
      let p₁ = moved p (size v) (leaves v) (hash_after sha1 p.info_hash v) in
      list_next sha1 f p b.first b.rest b.holds (a ∙ b.splits)
      ∙ (>>=-ends _ (process_lem sha1 v f p more h.0 (omega arith) a)
          ∙ process_list-cut xs f p₁ h.1 (omega arith)
              (At-moved p (write v []) more (size v) (a ∙ write-append v more) refl)
              (At-inside p (size v) (write v more) k a (omega (arith, length-write v more))))

  process_dict-cut :
      (es : Entries) (f : ℕ) (p : Parser) (start end : Option ℕ)
      → IsEntries es
      → cost_entries es ≤ f
      → At p (write_entries es [])
      → p.index ≤ length p.to_decode
      → process_dict sha1 f
          (record { key_name = []; start_index = start; end_index = end; flag = false })
          p
        ≡ goes_on
  unfolding write IsValue cost
  process_dict-cut no_entries f p start end h c a k = process_dict_at_end f _ p (At-end p k a) refl
  process_dict-cut (entry key v es) zero p start end h c a k = absurd (omega arith)
  process_dict-cut (entry key v es) (suc zero) p start end h c a k = absurd (omega arith)
  process_dict-cut (entry key v es) (suc (suc f)) p start end h c a k =
      let more = write_entries es [] in
      let p₁ = keyed_at sha1 p key in
      let at = At-keyed sha1 p key (write v more) a in
      let inside =
        At-inside p (length (write_text key [])) (write_text key (write v more)) k a
          (omega (arith, length-write_text key (write v more))) in
      entry_lem sha1 key v f p start end more h.0 h.1 a
        (process_lem sha1 v f p₁ more h.2 (omega arith) at)
      ∙ process_dict-cut es f (valued_at sha1 p key v) _ _ h.3 (omega arith)
          (At-valued sha1 p key v more a)
          (At-inside p₁ (size v) (write v more) inside at (omega (arith, length-write v more)))

  process-cut_dict :
      (es : Entries) (f : ℕ)
      → IsEntries es
      → cost_entries es ≤ f
      → process sha1 (suc f) (fresh (b'd' ∷ write_entries es [])) ≡ goes_on
  process-cut_dict es f h c =
      let p = fresh (b'd' ∷ write_entries es []) in
      process_d sha1 f p (write_entries es []) refl
      ∙ ap (λ (r : Run Parser). r >>= λ q. ends ([], q))
          (process_dict-cut es f (advance p 1) none none h c
            (At-moved p (b'd' ∷ []) (write_entries es []) 1 refl refl) (omega arith))

  process-cut_list :
      (xs : Items) (f : ℕ)
      → IsItems xs
      → cost_items xs ≤ f
      → process sha1 (suc f) (fresh (b'l' ∷ write_items xs [])) ≡ goes_on
  process-cut_list xs f h c =
      let p = fresh (b'l' ∷ write_items xs []) in
      process_l sha1 f p (write_items xs []) refl
      ∙ ap (λ (r : Run Parser). r >>= λ q. ends ([], q))
          (process_list-cut xs f (advance p 1) h c
            (At-moved p (b'l' ∷ []) (write_items xs []) 1 refl refl) (omega arith))

  -- A list or a dictionary, of any values that are valid, whose text ends in front of its end mark:
  -- parsing it does not end, with no amount of fuel.
  pub parse_from_string-cut :
      (xs : Items) (es : Entries) (fuel : ℕ)
      → IsItems xs
      → IsEntries es
      → (parse_from_string sha1 fuel (b'l' ∷ write_items xs []) ≡ goes_on)
        × (parse_from_string sha1 fuel (b'd' ∷ write_entries es []) ≡ goes_on)
  unfolding parse_from_string
  parse_from_string-cut xs es fuel h k =
      let l = cost_items xs + fuel in
      let d = cost_entries es + fuel in
      let at_list =
        goes_on-less sha1 fuel (suc l) _ (omega arith) (process-cut_list xs l h (omega arith)) in
      let at_dict =
        goes_on-less sha1 fuel (suc d) _ (omega arith) (process-cut_dict es d k (omega arith)) in
      let dropped = λ (r : Run (Bytes × Parser)). r >>= λ q. ends q.1 in
      (ap dropped at_list, ap dropped at_dict)
