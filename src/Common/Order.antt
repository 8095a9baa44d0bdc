-- ===== src/Common/Order.antt =====
-- `std::sort` and then `std::unique` over a strict total order: what a set of items is listed as.
pub mod Members
pub mod Sorted
pub mod Listing
use mathlib.Core.Path.{◌≡◌, refl, sym, ap, ◌∙◌, subst}
use mathlib.Core.Logic.{inl, inr}
use mathlib.Core.Bool.{Bool, true, false, ◌||◌}
use mathlib.Core.List.{List, [], ◌∷◌}
use simple_torrent_client.Common.Tests.{if◌then◌else◌, if_true, if_false, Bool-cases}
use simple_torrent_client.Common.Predicates.{All, All-map}

-- The tests that the code passes to the two algorithms, with their laws.
pub record StrictOrder {ℓ} (A : Type ℓ) : Type ℓ where
  pub lt : A → A → Bool
  pub same : A → A → Bool
  pub same_sound : (a b : A) → same a b ≡ true → a ≡ b
  pub same_refl : (a : A) → same a a ≡ true
  pub irreflexive : (a : A) → lt a a ≡ false
  pub transitive : (a b c : A) → lt a b ≡ true → lt b c ≡ true → lt a c ≡ true
  pub connected : (a b : A) → lt a b ≡ false → lt b a ≡ false → same a b ≡ true

module _ {ℓ} {A : Type ℓ} (o : StrictOrder A) where
  unfoldable pub insert : A → List A → List A
  insert a [] = a ∷ []
  insert a (x ∷ xs) = if o.lt a x then a ∷ x ∷ xs else x ∷ insert a xs

  unfoldable pub sort : List A → List A
  sort [] = []
  sort (x ∷ xs) = insert x (sort xs)

  -- `x` is the last item kept.
  unfoldable pub unique_from : A → List A → List A
  unique_from x [] = x ∷ []
  unique_from x (y ∷ ys) = if o.same x y then unique_from x ys else x ∷ unique_from y ys

  unfoldable pub unique : List A → List A
  unique [] = []
  unique (x ∷ xs) = unique_from x xs

  -- Whether an item stands in a list.
  unfoldable pub has : A → List A → Bool
  has a [] = false
  has a (x ∷ xs) = o.same a x || has a xs

  abbrev pub IsSorted : List A → Type 0
  IsSorted [] = Unit {0}
  IsSorted (x ∷ xs) = All (λ y. o.lt y x ≡ false) xs × IsSorted xs

  -- No item stands twice, and they stand in order.
  abbrev pub IsIncreasing : List A → Type 0
  IsIncreasing [] = Unit {0}
  IsIncreasing (x ∷ xs) = All (λ y. o.lt x y ≡ true) xs × IsIncreasing xs
