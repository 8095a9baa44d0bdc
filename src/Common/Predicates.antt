-- ===== src/Common/Predicates.antt =====
-- Predicates on lists by recursion: they compute to tuples, which the tactics read and build.
use Prim.Native.Nat.{ℕ, ◌<◌}
use mathlib.Core.Path.{◌≡◌, refl}
use mathlib.Core.Bool.{Bool, true, false, ◌||◌}
use mathlib.Core.Logic.{◌≢◌, ◌⊎◌, inl, inr}
use mathlib.Core.List.{List, [], ◌∷◌, ◌++◌}
use native.Mathlib.Omega.{arith}
use simple_torrent_client.Common.Tests.{◌==◌}

module _ {ℓ κ} {A : Type ℓ} (P : A → Type κ) where
  abbrev pub All : List A → Type κ
  All [] = Unit
  All (a ∷ rest) = P a × All rest

  pub All-append : (front back : List A) → All front → All back → All (front ++ back)
  All-append [] back f g = g
  All-append (a ∷ front) back f g = (f.0, All-append front back f.1 g)

pub All-map {ℓ κ μ} :
    {A : Type ℓ} {P : A → Type κ} {Q : A → Type μ}
    → ((a : A) → P a → Q a)
    → (xs : List A) → All P xs
    → All Q xs
All-map f [] h = tt
All-map f (x ∷ xs) h = (f x h.0, All-map f xs h.1)

-- Every number of the list is a byte.
abbrev pub IsBytes : List ℕ → Type 0
IsBytes = All (λ b. b < 256)

-- `std::find(xs.begin(), xs.end(), a) != xs.end()`.
unfoldable pub contains : ℕ → List ℕ → Bool
contains a [] = false
contains a (x ∷ xs) = x == a || contains a xs

-- No number stands in the list twice.
abbrev pub IsDistinct : List ℕ → Type 0
IsDistinct [] = Unit {0}
IsDistinct (x ∷ xs) = (contains x xs ≡ false) × IsDistinct xs

pub contains-append :
    (a : ℕ) (xs ys : List ℕ) → contains a (xs ++ ys) ≡ (contains a xs || contains a ys)
unfolding contains
contains-append a [] ys = refl
contains-append a (x ∷ xs) ys = ground (arith, contains-append a xs ys)

pub All-contains {κ} :
    (P : ℕ → Type κ) (xs : List ℕ) (a : ℕ) → All P xs → contains a xs ≡ true → P a
unfolding contains
All-contains P [] a h e = cc
All-contains P (x ∷ xs) a h e = elim (cases (x == a) refl) [
  | inl p ↦ subst_eq (ground arith) h.0
  | inr p ↦ All-contains P xs a h.1 (ground arith)
]
  where
    cases : (b : Bool) → (x == a) ≡ b → ((x == a) ≡ true) ⊎ ((x == a) ≡ false)
    cases true e = inl e
    cases false e = inr e

    subst_eq : x ≡ a → P x → P a
    subst_eq e p = rw e at p

pub IsDistinct-append :
    (xs : List ℕ) (a : ℕ) → IsDistinct xs → contains a xs ≡ false → IsDistinct (xs ++ a ∷ [])
unfolding contains
IsDistinct-append [] a d h = (refl, tt)
IsDistinct-append (x ∷ xs) a d h =
    (ground (arith, contains-append x xs (a ∷ [])), IsDistinct-append xs a d.1 (ground arith))

pub All-map_ne {κ μ} :
    {P : ℕ → Type κ} {Q : ℕ → Type μ} (a : ℕ)
    → ((x : ℕ) → x ≢ a → P x → Q x)
    → (xs : List ℕ) → contains a xs ≡ false
    → All P xs
    → All Q xs
unfolding contains
All-map_ne a f [] h p = tt
All-map_ne a f (x ∷ xs) h p = (f x (ground arith) p.0, All-map_ne a f xs (ground arith) p.1)
