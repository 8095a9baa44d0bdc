-- ===== src/Bencode/RoundTrip.antt =====
-- The parser reads a written value: what it parses, where it stops, and the info hash.
use simple_torrent_client.Common.{
  ℕ, zero, suc, ◌+◌, ◌-◌, ◌*◌, ◌≤◌, true, false, Option, none, some, [], ◌∷◌, ◌++◌, ◌≡◌, refl, sym,
  ap, ◌∙◌, arith, bytes_eq, if◌then◌else◌, length, length-append, take, drop, take-append,
}
use simple_torrent_client.ByteTools.{Bytes}
use simple_torrent_client.Bencode.Entry.{
  returned, Marks, Marks-if, moved_none, set_info_hash_lem, closed, text_lem, keyed_at, valued_at,
  At-keyed, At-valued, entry_lem,
}
use simple_torrent_client.Bencode.{
  ends, Parser, advance, process, process_dict, process_list, between, info_key, fresh,
  parse_from_string,
}
use simple_torrent_client.Bencode.Values.{
  Value, text, integer, list, dict, Items, no_items, item, Entries, no_entries, entry, write_text,
  write, write_items, write_entries, write-append, write_items-append, write_entries-append, encode,
  leaves, leaves_items, leaves_entries, hash_after, hash_after_items, hash_after_entries, IsValue,
  IsItems, IsEntries,
}
use simple_torrent_client.Bencode.Sizes.{
  cost, cost_items, cost_entries, size, length-write_text, length-write, write-Begins, cost-size,
}
use simple_torrent_client.Bencode.Steps.{
  >>=-ends, At, moved, moved-moved, At-moved, process_integer_lem, process_i, process_d, process_l,
  list_end, list_next, dict_end,
}

module _ (sha1 : Bytes → Bytes) where
  mutual
    unfolding write leaves hash_after IsValue cost

    pub process_lem :
        (v : Value) (f : ℕ) (p : Parser) (rest : Bytes)
        → IsValue v
        → cost v ≤ f
        → At p (write v rest)
        → process sha1 f p
          ≡ ends
              (returned v, moved p (length (write v [])) (leaves v) (hash_after sha1 p.info_hash v))
    process_lem (text s) zero p rest h k a = absurd (omega arith)
    process_lem (integer t) zero p rest h k a = absurd (omega arith)
    process_lem (list xs) zero p rest h k a = absurd (omega arith)
    process_lem (dict es) zero p rest h k a = absurd (omega arith)
    process_lem (text s) (suc f) p rest h k a = text_lem sha1 s f p rest h a
    process_lem (integer t) (suc f) p rest h k a =
        process_i sha1 f p (t ++ b'e' ∷ rest) a
        ∙ (process_integer_lem p t rest h a
            ∙ ap (λ (n : ℕ). ends ([], moved p n (t ∷ []) p.info_hash))
                (omega (arith, length-append {0} t (b'e' ∷ []))))
    process_lem (list xs) (suc f) p rest h k a =
        process_l sha1 f p (write_items xs (b'e' ∷ rest)) a
        ∙ (>>=-ends _ (
              list_lem xs f (advance p 1) rest h (omega arith)
                (At-moved p (b'l' ∷ []) (write_items xs (b'e' ∷ rest)) 1 a refl))
            ∙ ap (λ (q : Parser). ends ([], q))
                (closed sha1 p (leaves_items xs) (hash_after_items sha1 p.info_hash xs)
                  (write_items xs []) (write_items xs (b'e' ∷ []))
                  (write_items-append xs (b'e' ∷ []))))
    process_lem (dict es) (suc f) p rest h k a =
        process_d sha1 f p (write_entries es (b'e' ∷ rest)) a
        ∙ (>>=-ends _ (
              dict_lem es f (advance p 1) none none none rest h (omega arith)
                (At-moved p (b'd' ∷ []) (write_entries es (b'e' ∷ rest)) 1 a refl) tt)
            ∙ ap (λ (q : Parser). ends ([], q))
                (closed sha1 p (leaves_entries es) (hash_after_entries sha1 p.info_hash none es)
                  (write_entries es []) (write_entries es (b'e' ∷ []))
                  (write_entries-append es (b'e' ∷ []))))

    list_lem :
        (xs : Items) (f : ℕ) (p : Parser) (rest : Bytes)
        → IsItems xs
        → cost_items xs ≤ f
        → At p (write_items xs (b'e' ∷ rest))
        → process_list sha1 f p
          ≡ ends (
              moved p
                (length (write_items xs []) + 1)
                (leaves_items xs)
                (hash_after_items sha1 p.info_hash xs))
    list_lem no_items zero p rest h k a = absurd (omega arith)
    list_lem no_items (suc f) p rest h k a =
        list_end sha1 f p rest a ∙ ap ends (sym (moved_none p 1))
    list_lem (item v xs) zero p rest h k a = absurd (omega arith)
    list_lem (item v xs) (suc f) p rest h k a =
        let more = write_items xs (b'e' ∷ rest) in
        let b = write-Begins v more in
        let p₁ = moved p (size v) (leaves v) (hash_after sha1 p.info_hash v) in
        let at = At-moved p (write v []) more (size v) (a ∙ write-append v more) refl in
        list_next sha1 f p b.first b.rest b.holds (a ∙ b.splits)
        ∙ (>>=-ends _ (process_lem v f p more h.0 (omega arith) a)
            ∙ (list_lem xs f p₁ rest h.1 (omega arith) at
                ∙ ap ends (
                    moved-moved p (size v) (length (write_items xs []) + 1) _ (leaves v)
                      (leaves_items xs) (hash_after sha1 p.info_hash v)
                      (hash_after_items sha1 (hash_after sha1 p.info_hash v) xs)
                      (omega (arith, length-write v (write_items xs []))))))

    dict_lem :
        (es : Entries) (f : ℕ) (p : Parser) (start end : Option ℕ) (o : Option Bytes) (rest : Bytes)
        → IsEntries es
        → cost_entries es ≤ f
        → At p (write_entries es (b'e' ∷ rest))
        → Marks p.to_decode start end o
        → process_dict sha1 f
            (record { key_name = []; start_index = start; end_index = end; flag = false })
            p
          ≡ ends (
              moved p
                (length (write_entries es []) + 1)
                (leaves_entries es)
                (hash_after_entries sha1 p.info_hash o es))
    dict_lem no_entries zero p start end o rest h k a m = absurd (omega arith)
    dict_lem no_entries (suc f) p start end o rest h k a m =
        dict_end sha1 f p _ rest a ∙ ap ends (set_info_hash_lem sha1 p start end o m)
    dict_lem (entry k v es) zero p start end o rest h c a m = absurd (omega arith)
    dict_lem (entry k v es) (suc zero) p start end o rest h c a m = absurd (omega arith)
    dict_lem (entry k v es) (suc (suc f)) p start end o rest h c a m =
        let more = write_entries es (b'e' ∷ rest) in
        let behind = write v more in
        let keyed = length (write_text k []) in
        let is_info = bytes_eq k info_key in
        let end_hash =
          hash_after_entries sha1 (hash_after sha1 p.info_hash v)
            (if is_info then some (write v []) else o) es in
        let p₁ = keyed_at sha1 p k in
        let p₂ = valued_at sha1 p k v in
        let at₁ : At p₁ (write v [] ++ more) = At-keyed sha1 p k behind a ∙ write-append v more in
        let at₂ = At-valued sha1 p k v more a in
        let value_bytes : between p₁.index p₂.index p.to_decode ≡ write v [] =
          ap (λ (n : ℕ). take n (drop p₁.index p.to_decode))
            (let e : p₂.index - p₁.index ≡ size v = omega arith in e)
          ∙ (ap (take (size v)) at₁ ∙ take-append (write v []) more (size v) refl) in
        entry_lem sha1 k v f p start end more h.0 h.1 a
          (process_lem v f p₁ more h.2 (omega arith) (At-keyed sha1 p k behind a))
        ∙ (dict_lem es f p₂ (if is_info then some p₁.index else start)
              (if (if is_info then true else false) then some p₂.index else end)
              (if is_info then some (write v []) else o) rest h.3 (omega arith) at₂
              (Marks-if p.to_decode is_info p₁.index p₂.index (write v []) start end o value_bytes
                m)
            ∙ ap ends (
                moved-moved p₁ (size v) (length (write_entries es []) + 1) _ (leaves v)
                  (leaves_entries es) (hash_after sha1 p.info_hash v) end_hash refl
                ∙ moved-moved p keyed (size v + (length (write_entries es []) + 1)) _ (k ∷ [])
                    (leaves v ++ leaves_entries es) p.info_hash end_hash
                    (omega (
                      arith,
                      length-write_text k (write v (write_entries es [])),
                      length-write v (write_entries es []),
                    ))))

-- A bencoded value (strings, numbers, lists and dictionaries in any nesting, with lengths below 2 ^
-- 31, numbers written without the letter e, and keys that are not empty) is parsed with whatever
-- follows it left alone: the strings and numbers come out in their order, and the info hash is the
-- SHA-1 of the bytes of the value of info, that of the last info of the outermost dictionary that
-- has one. As much fuel as twice the length of the text is enough.
pub parse_from_string-write :
    (sha1 : Bytes → Bytes) (v : Value) (rest : Bytes) (fuel : ℕ)
    → IsValue v
    → 2 * length (encode v) ≤ fuel
    → parse_from_string sha1 fuel (encode v ++ rest)
      ≡ ends (record {
        to_decode = encode v ++ rest;
        info_hash = hash_after sha1 [] v;
        parsed = leaves v;
        pieces_hashes = [];
        index = length (encode v);
      })
unfolding parse_from_string
parse_from_string-write sha1 v rest fuel h k =
    >>=-ends _ (
      process_lem sha1 v fuel (fresh (encode v ++ rest)) rest h (omega (arith, cost-size v))
        (sym (write-append v rest)))
    ∙ ap
        (λ (i : ℕ). ends (record {
          to_decode = encode v ++ rest;
          info_hash = hash_after sha1 [] v;
          parsed = leaves v;
          pieces_hashes = [];
          index = i;
        }))
        (let e : 0 + length (encode v) ≡ length (encode v) = omega arith in e)
