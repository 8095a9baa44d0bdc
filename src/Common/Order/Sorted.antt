-- ===== src/Common/Order/Sorted.antt =====
-- Sorting puts the items in order, and without doubles they increase.
use mathlib.Core.Path.{◌≡◌, sym, subst}
use mathlib.Core.Logic.{inl, inr}
use mathlib.Core.Bool.{true, false}
use mathlib.Core.List.{List, [], ◌∷◌}
use simple_torrent_client.Common.Tests.{if_true, if_false, Bool-cases}
use simple_torrent_client.Common.Predicates.{All, All-map}
use simple_torrent_client.Common.Order.{
  StrictOrder, insert, sort, unique_from, unique, IsSorted, IsIncreasing,
}
use simple_torrent_client.Common.Order.Members.{true_or_false, false-unless}

module _ {ℓ} {A : Type ℓ} (o : StrictOrder A) where
  insert-All : (P : A → Type 0) (b : A) (xs : List A) → P b → All P xs → All P (insert o b xs)
  unfolding insert
  insert-All P b [] p h = (p, tt)
  insert-All P b (x ∷ xs) p h = elim (Bool-cases (o.lt b x)) [
    | inl e ↦ subst (All P) (sym (if_true _ _ _ e)) (p, h)
    | inr e ↦ subst (All P) (sym (if_false _ _ _ e)) (h.0, insert-All P b xs p h.1)
  ]

  -- What is not below `x` is not below what is below `x`.
  not_below : (b x y : A) → o.lt b x ≡ true → o.lt y x ≡ false → o.lt y b ≡ false
  not_below b x y h k =
      false-unless (o.lt y b) (λ e. true_or_false (o.lt y x) (o.transitive y b x e h) k)

  insert-IsSorted : (b : A) (xs : List A) → IsSorted o xs → IsSorted o (insert o b xs)
  unfolding insert
  insert-IsSorted b [] h = (tt, tt)
  insert-IsSorted b (x ∷ xs) h = elim (Bool-cases (o.lt b x)) [
    | inl e ↦
        let later =
          All-map {P = λ y. o.lt y x ≡ false} {Q = λ y. o.lt y b ≡ false}
            (λ y k. not_below b x y e k) xs h.0 in
        subst (IsSorted o) (sym (if_true _ _ _ e)) ((not_below b x x e (o.irreflexive x), later), h)
    | inr e ↦
        subst (IsSorted o) (sym (if_false _ _ _ e))
          (insert-All (λ y. o.lt y x ≡ false) b xs e h.0, insert-IsSorted b xs h.1)
  ]

  sort-IsSorted : (xs : List A) → IsSorted o (sort o xs)
  unfolding sort
  sort-IsSorted [] = tt
  sort-IsSorted (x ∷ xs) = insert-IsSorted x (sort o xs) (sort-IsSorted xs)

  -- In a sorted list what differs from the first item is above it.
  above : (x y : A) → o.lt y x ≡ false → o.same x y ≡ false → o.lt x y ≡ true
  above x y h k = elim (Bool-cases (o.lt x y)) [
    | inl e ↦ e
    | inr e ↦ absurd (true_or_false (o.same x y) (o.connected x y e h) k)
  ]

  unique_from-All :
      (w x : A) (ys : List A)
      → o.lt w x ≡ true
      → IsSorted o (x ∷ ys)
      → All (λ z. o.lt w z ≡ true) (unique_from o x ys)
  unfolding unique_from
  unique_from-All w x [] e h = (e, tt)
  unique_from-All w x (y ∷ ys) e h = elim (Bool-cases (o.same x y)) [
    | inl k ↦
        subst (All (λ z. o.lt w z ≡ true)) (sym (if_true _ _ _ k))
          (unique_from-All w x ys e (h.0.1, h.1.1))
    | inr k ↦
        subst (All (λ z. o.lt w z ≡ true)) (sym (if_false _ _ _ k))
          (e, unique_from-All w y ys (o.transitive w x y e (above x y h.0.0 k)) h.1)
  ]

  unique_from-IsIncreasing :
      (x : A) (ys : List A) → IsSorted o (x ∷ ys) → IsIncreasing o (unique_from o x ys)
  unfolding unique_from
  unique_from-IsIncreasing x [] h = (tt, tt)
  unique_from-IsIncreasing x (y ∷ ys) h = elim (Bool-cases (o.same x y)) [
    | inl k ↦
        subst (IsIncreasing o) (sym (if_true _ _ _ k))
          (unique_from-IsIncreasing x ys (h.0.1, h.1.1))
    | inr k ↦
        subst (IsIncreasing o) (sym (if_false _ _ _ k))
          (unique_from-All x y ys (above x y h.0.0 k) h.1, unique_from-IsIncreasing y ys h.1)
  ]

  unique-IsIncreasing : (ys : List A) → IsSorted o ys → IsIncreasing o (unique o ys)
  unfolding unique
  unique-IsIncreasing [] h = tt
  unique-IsIncreasing (y ∷ ys) h = unique_from-IsIncreasing y ys h

  pub unique-sort-IsIncreasing : (xs : List A) → IsIncreasing o (unique o (sort o xs))
  unique-sort-IsIncreasing xs = unique-IsIncreasing (sort o xs) (sort-IsSorted xs)
