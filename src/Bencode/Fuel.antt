-- ===== src/Bencode/Fuel.antt =====
-- More fuel never changes what a call of the parser comes to, once it comes to anything.
use simple_torrent_client.Common.{
  ℕ, zero, suc, ◌≤◌, Bool, true, false, [], ◌≡◌, ◌⊎◌, refl, ap, ◌∙◌, arith, inl, inr, ◌==◌,
  if◌then◌else◌, ℕ_discrete,
}
use simple_torrent_client.ByteTools.{Bytes}
use simple_torrent_client.Decimal.{is_digit}
use simple_torrent_client.Bencode.{
  Run, ends, throws, strays, goes_on, ◌>>=◌, Parser, advance, current, process, process_dict,
  process_list, DictState, dict_start, with_key, with_value, is_empty, process_string,
  process_integer, set_info_hash,
}

-- A call that ran out of fuel may come to anything with more; any other outcome stands.
abbrev pub ◌⊑◌ {ℓ} : {A : Type ℓ} → Run A → Run A → Type ℓ
r ⊑ s = (r ≡ goes_on) ⊎ (r ≡ s)

infix 3 ◌⊑◌
-- The same call twice, followed by calls of which the second has more fuel.
then-mono {ℓ κ} :
    {A : Type ℓ} {B : Type κ} (r : Run A) (f g : A → Run B)
    → ((a : A) → f a ⊑ g a)
    → (r >>= f) ⊑ (r >>= g)
then-mono (ends a) f g h = h a
then-mono (throws e) f g h = inr refl
then-mono strays f g h = inr refl
then-mono goes_on f g h = inl refl

>>=-mono {ℓ κ} :
    {A : Type ℓ} {B : Type κ} {r s : Run A} (f g : A → Run B)
    → r ⊑ s
    → ((a : A) → f a ⊑ g a)
    → (r >>= f) ⊑ (s >>= g)
>>=-mono f g (inl e) h = inl (ap (λ r. r >>= f) e)
>>=-mono {s = s} f g (inr e) h = elim (then-mono s f g h) [
  | inl x ↦ inl (ap (λ r. r >>= f) e ∙ x)
  | inr x ↦ inr (ap (λ r. r >>= f) e ∙ x)
]

elim-mono {ℓ} :
    {A : Type ℓ} {s s' : Run A} (b : Bool) (r r' : Run A)
    → r ⊑ r'
    → s ⊑ s'
    → (elim b [ true ↦ r | false ↦ s ]) ⊑ (elim b [ true ↦ r' | false ↦ s' ])
elim-mono true r r' h k = h
elim-mono false r r' h k = k

module _ (sha1 : Bytes → Bytes) where
  mutual
    unfolding process

    process-mono : (f : ℕ) (p : Parser) → process sha1 f p ⊑ process sha1 (suc f) p
    process-mono zero p = inl refl
    process-mono (suc f) p = then-mono (current p) _ _ (λ c.
        elim-mono (is_digit c) (process_string p) _ (inr refl) (
          elim-mono (c == b'i') (process_integer p) _ (inr refl) (
            elim-mono (c == b'd') _ _
              (>>=-mono _ (λ q. ends ([], q)) (process_dict-mono f dict_start (advance p 1))
                (λ q. inr refl))
              (elim-mono {s = ends ([], p)} (c == b'l') _ _
                (>>=-mono _ (λ q. ends ([], q)) (process_list-mono f (advance p 1)) (λ q. inr refl))
                (inr refl)))))

    process_dict-mono :
        (f : ℕ) (d : DictState) (p : Parser)
        → process_dict sha1 f d p ⊑ process_dict sha1 (suc f) d p
    process_dict-mono zero d p = inl refl
    process_dict-mono (suc f) d p = then-mono (current p) _ _ (λ c.
        elim-mono (c == b'e') (ends (set_info_hash sha1 d.start_index d.end_index (advance p 1))) _
          (inr refl)
          (>>=-mono _ _ (process-mono f p) (λ r.
            process_dict-mono f
              (if is_empty d.key_name then with_key d r.0 r.1.index else with_value d r.1.index)
              r.1)))

    process_list-mono : (f : ℕ) (p : Parser) → process_list sha1 f p ⊑ process_list sha1 (suc f) p
    process_list-mono zero p = inl refl
    process_list-mono (suc f) p = then-mono (current p) _ _ (λ c.
        elim-mono (c == b'e') (ends (advance p 1)) _ (inr refl)
          (>>=-mono _ _ (process-mono f p) (λ r. process_list-mono f r.1)))

  process-more : (f g : ℕ) (p : Parser) → f ≤ g → process sha1 f p ⊑ process sha1 g p
  process-more f zero p h = inr (ap (λ (n : ℕ). process sha1 n p) (omega arith))
  process-more f (suc g) p h = elim (ℕ_discrete f (suc g)) [
    | yes e ↦ inr (ap (λ (n : ℕ). process sha1 n p) e)
    | no n ↦ elim (process-more f g p (omega arith)) [
      | inl e ↦ inl e
      | inr e ↦ elim (process-mono g p) [ inl e' ↦ inl (e ∙ e') | inr e' ↦ inr (e ∙ e') ]
    ]
  ]

  -- Once a call does not end with much fuel, it does with none less.
  pub goes_on-less :
      (f g : ℕ) (p : Parser) → f ≤ g → process sha1 g p ≡ goes_on → process sha1 f p ≡ goes_on
  goes_on-less f g p h e = elim (process-more f g p h) [ inl x ↦ x | inr x ↦ x ∙ e ]
