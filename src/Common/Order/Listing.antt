-- ===== src/Common/Order/Listing.antt =====
-- An increasing list is determined by its items.
use mathlib.Core.Path.{◌≡◌, refl, sym, ap, ◌∙◌, subst}
use mathlib.Core.Logic.{inl, inr}
use mathlib.Core.Bool.{Bool, true, false, ◌||◌}
use mathlib.Core.List.{List, [], ◌∷◌}
use simple_torrent_client.Common.Tests.{Bool-cases}
use simple_torrent_client.Common.Predicates.{All}
use simple_torrent_client.Common.Order.{StrictOrder, has, IsIncreasing}
use simple_torrent_client.Common.Order.Members.{true_or_false, false-unless, or-false, or_rest}

module _ {ℓ} {A : Type ℓ} (o : StrictOrder A) where
  has-above :
      (x a : A) (xs : List A)
      → All (λ y. o.lt x y ≡ true) xs
      → o.lt x a ≡ false
      → has o a xs ≡ false
  unfolding has
  has-above x a [] h k = refl
  has-above x a (y ∷ ys) h k =
      let differ : o.same a y ≡ false = false-unless (o.same a y) (λ e.
        true_or_false (o.lt x y) h.0
          (subst (λ (z : A). o.lt x z ≡ false) (o.same_sound a y e) k)) in
      ap (λ (b : Bool). b || has o a ys) differ ∙ has-above x a ys h.1 k

  has-here : (x : A) (xs : List A) → has o x (x ∷ xs) ≡ true
  unfolding has
  has-here x xs = ap (λ (b : Bool). b || has o x xs) (o.same_refl x)

  -- The first items of two listings of the same set are not below one another.
  not_smaller :
      (x y : A) (xs ys : List A)
      → IsIncreasing o (y ∷ ys)
      → ((a : A) → has o a (x ∷ xs) ≡ has o a (y ∷ ys))
      → o.lt x y ≡ false
  unfolding has
  not_smaller x y xs ys i h = false-unless (o.lt x y) (λ e.
      let back : o.lt y x ≡ false =
        false-unless (o.lt y x)
          (λ f. true_or_false (o.lt x x) (o.transitive x y x e f) (o.irreflexive x)) in
      let differ : o.same x y ≡ false = false-unless (o.same x y) (λ f.
        true_or_false (o.lt x y) e
          (subst (λ (z : A). o.lt x z ≡ false) (o.same_sound x y f) (o.irreflexive x))) in
      let found = or-false (o.same x y) (has o x ys) (sym (h x) ∙ has-here x xs) differ in
      true_or_false (has o x ys) found (has-above y x ys i.0 back))

  -- An increasing list is determined by its items.
  pub IsIncreasing-unique :
      (xs ys : List A)
      → IsIncreasing o xs
      → IsIncreasing o ys
      → ((a : A) → has o a xs ≡ has o a ys)
      → xs ≡ ys
  unfolding has
  IsIncreasing-unique [] [] i j h = refl
  IsIncreasing-unique [] (y ∷ ys) i j h = absurd (true_or_false _ (has-here y ys) (sym (h y)))
  IsIncreasing-unique (x ∷ xs) [] i j h = absurd (true_or_false _ (has-here x xs) (h x))
  IsIncreasing-unique (x ∷ xs) (y ∷ ys) i j h =
      let e : x ≡ y =
        o.same_sound x y (
          o.connected x y (not_smaller x y xs ys j h) (not_smaller y x ys xs i (λ a. sym (h a)))) in
      let later : All (λ z. o.lt x z ≡ true) ys =
        subst (λ (w : A). All (λ z. o.lt w z ≡ true) ys) (sym e) j.0 in
      let rest : (a : A) → has o a xs ≡ has o a ys = λ a. elim (Bool-cases (o.same a x)) [
        | inl s ↦
            let below : o.lt x a ≡ false =
              subst (λ (z : A). o.lt x z ≡ false) (sym (o.same_sound a x s)) (o.irreflexive x) in
            has-above x a xs i.0 below ∙ sym (has-above x a ys later below)
        | inr s ↦
            or_rest (o.same a x) (has o a xs) (has o a ys) s
              (h a ∙ ap (λ (z : A). o.same a z || has o a ys) (sym e))
      ] in
      ap (λ (z : A). z ∷ xs) e
      ∙ ap (λ (zs : List A). y ∷ zs) (IsIncreasing-unique xs ys i.1 j.1 rest)
