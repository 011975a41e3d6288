-- ===== src/Base/Lists.antt =====
-- Lists counted by native numbers, membership as a test, and predicates on every element.
use Prim.Native.Nat.{ℕ, suc, ◌+◌, ◌<◌}
use mathlib.Core.Path.{◌≡◌, refl}
use mathlib.Core.Bool.{Bool, true, false, ◌||◌}
use mathlib.Core.List.{List, [], ◌∷◌, ◌++◌}
use native.Mathlib.Omega.{arith}
use previewctl.Base.Tests.{if◌then◌else◌}
use previewctl.Base.Texts.{Text, ◌==◌, eq_iff}

module _ {ℓ} {A : Type ℓ} where
  abbrev pub length : List A → ℕ
  length [] = 0
  length (x ∷ xs) = suc (length xs)

  pub length-append : (xs ys : List A) → length (xs ++ ys) ≡ length xs + length ys
  length-append [] ys = omega arith
  length-append (x ∷ xs) ys = omega (arith, length-append xs ys)

  abbrev pub All {κ} : (A → Type κ) → List A → Type κ
  All Holds [] = Unit
  All Holds (first ∷ rest) = Holds first × All Holds rest

-- The loop `for _, s := range xs { if s == a { return true } }`.
unfoldable pub elem : Text → List Text → Bool
elem a [] = false
elem a (x ∷ xs) = (x == a) || elem a xs

unfoldable pub count : Text → List Text → ℕ
count a [] = 0
count a (x ∷ xs) = (if x == a then 1 else 0) + count a xs

pub elem-append : (a : Text) (xs ys : List Text) → elem a (xs ++ ys) ≡ (elem a xs || elem a ys)
unfolding elem
elem-append a [] ys = refl
elem-append a (x ∷ xs) ys = ground (arith, elem-append a xs ys)

pub count-append : (a : Text) (xs ys : List Text) → count a (xs ++ ys) ≡ count a xs + count a ys
unfolding count
count-append a [] ys = omega arith
count-append a (x ∷ xs) ys = omega (arith, count-append a xs ys)

pub elem-count : (a : Text) (xs : List Text) → elem a xs ≡ true → 0 < count a xs
unfolding elem count
elem-count a [] h = ground arith
elem-count a (x ∷ xs) h = ground (arith, elem-count a xs)

pub not-elem-count : (a : Text) (xs : List Text) → elem a xs ≡ false → count a xs ≡ 0
unfolding elem count
not-elem-count a [] h = refl
not-elem-count a (x ∷ xs) h = ground (arith, not-elem-count a xs)

pub count-elem : (a : Text) (xs : List Text) → 0 < count a xs → elem a xs ≡ true
unfolding elem count
count-elem a [] h = absurd (omega arith)
count-elem a (x ∷ xs) h = ground (arith, count-elem a xs)

-- What holds of every element holds of a member.
pub All-elem {κ} :
    (P : Text → Type κ) (a : Text) (xs : List Text) → All P xs → elem a xs ≡ true → P a
unfolding elem
All-elem P a [] h m = ground arith
All-elem P a (x ∷ xs) h m = ground (arith, eq_iff x a, All-elem P a xs h.1)
