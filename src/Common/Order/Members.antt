-- ===== src/Common/Order/Members.antt =====
-- Sorting and removing doubles keep the items; laws of the Boolean tests.
use mathlib.Core.Path.{◌≡◌, refl, ap, ◌∙◌}
use mathlib.Core.Logic.{inl, inr}
use mathlib.Core.Bool.{Bool, true, false, ◌||◌}
use mathlib.Core.List.{List, [], ◌∷◌}
use simple_torrent_client.Common.Tests.{if_true, if_false, Bool-cases}
use simple_torrent_client.Common.Order.{StrictOrder, insert, sort, unique_from, unique, has}

pub true_or_false : (b : Bool) → b ≡ true → b ≡ false → ⊥
true_or_false true h k = cc
true_or_false false h k = cc

pub false-unless : (b : Bool) → (b ≡ true → ⊥) → b ≡ false
false-unless true h = absurd (h refl)
false-unless false h = refl

pub or_swap : (a b c : Bool) → (a || (b || c)) ≡ (b || (a || c))
or_swap true true c = refl
or_swap true false c = refl
or_swap false true c = refl
or_swap false false c = refl

pub or_twice : (a c : Bool) → (a || c) ≡ (a || (a || c))
or_twice true c = refl
or_twice false c = refl

pub or-false : (a c : Bool) → (a || c) ≡ true → a ≡ false → c ≡ true
or-false true c h k = cc
or-false false c h k = h

pub or_rest : (a c d : Bool) → a ≡ false → (a || c) ≡ (a || d) → c ≡ d
or_rest true c d h e = cc
or_rest false c d h e = e

module _ {ℓ} {A : Type ℓ} (o : StrictOrder A) where
  has-insert : (a b : A) (xs : List A) → has o a (insert o b xs) ≡ has o a (b ∷ xs)
  unfolding has insert
  has-insert a b [] = refl
  has-insert a b (x ∷ xs) = elim (Bool-cases (o.lt b x)) [
    | inl e ↦ ap (has o a) (if_true _ _ _ e)
    | inr e ↦
        ap (has o a) (if_false _ _ _ e)
        ∙ (ap (λ (c : Bool). o.same a x || c) (has-insert a b xs)
            ∙ or_swap (o.same a x) (o.same a b) (has o a xs))
  ]

  has-sort : (a : A) (xs : List A) → has o a (sort o xs) ≡ has o a xs
  unfolding has sort
  has-sort a [] = refl
  has-sort a (x ∷ xs) =
      has-insert a x (sort o xs) ∙ ap (λ (c : Bool). o.same a x || c) (has-sort a xs)

  has-unique_from :
      (a x : A) (ys : List A) → has o a (unique_from o x ys) ≡ (o.same a x || has o a ys)
  unfolding has unique_from
  has-unique_from a x [] = refl
  has-unique_from a x (y ∷ ys) = elim (Bool-cases (o.same x y)) [
    | inl e ↦
        ap (has o a) (if_true _ _ _ e)
        ∙ (has-unique_from a x ys
            ∙ (or_twice (o.same a x) (has o a ys)
                ∙ ap (λ (z : A). o.same a x || (o.same a z || has o a ys)) (o.same_sound x y e)))
    | inr e ↦
        ap (has o a) (if_false _ _ _ e)
        ∙ ap (λ (c : Bool). o.same a x || c) (has-unique_from a y ys)
  ]

  has-unique : (a : A) (ys : List A) → has o a (unique o ys) ≡ has o a ys
  unfolding unique has
  has-unique a [] = refl
  has-unique a (y ∷ ys) = has-unique_from a y ys

  pub has-unique-sort : (a : A) (xs : List A) → has o a (unique o (sort o xs)) ≡ has o a xs
  has-unique-sort a xs = has-unique a (sort o xs) ∙ has-sort a xs
