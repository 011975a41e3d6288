-- ===== src/Base/Counting.antt =====
-- Counting the elements of a list by the names that they can have.
use Prim.Native.Nat.{ℕ, ◌+◌, ◌≤◌}
use mathlib.Core.Path.{◌≡◌, refl}
use mathlib.Core.Bool.{true}
use mathlib.Core.List.{List, [], ◌∷◌}
use native.Mathlib.Omega.{arith}
use previewctl.Base.Texts.{Text, eq_iff}
use previewctl.Base.Lists.{elem, count, length}

-- How many elements of `xs` have a name in `ks`, each as often as its name is there.
total : List Text → List Text → ℕ
total [] xs = 0
total (k ∷ ks) xs = count k xs + total ks xs

total-cons :
    (ks : List Text) (x : Text) (xs : List Text) → total ks (x ∷ xs) ≡ count x ks + total ks xs
unfolding total count
total-cons [] x xs = refl
total-cons (k ∷ ks) x xs = ground (arith, eq_iff x k, eq_iff k x, total-cons ks x xs)

total-nil : (ks : List Text) → total ks [] ≡ 0
unfolding total count
total-nil [] = refl
total-nil (k ∷ ks) = omega (arith, total-nil ks)

total-eq-length :
    (ks xs : List Text) → ((x : Text) → elem x xs ≡ true → count x ks ≡ 1) → total ks xs ≡ length xs
unfolding elem count
total-eq-length ks [] h = total-nil ks
total-eq-length ks (x ∷ xs) h =
    ground (
      arith,
      total-cons ks x xs,
      h x,
      eq_iff x x,
      total-eq-length ks xs (λ y m. ground (arith, h y)),
    )

total-le : (ks xs : List Text) → ((k : Text) → count k xs ≤ 1) → total ks xs ≤ length ks
unfolding total
total-le [] xs h = omega arith
total-le (k ∷ ks) xs h = omega (arith, h k, total-le ks xs h)

total_full :
    (ks xs : List Text) (k : Text)
    → ((k : Text) → count k xs ≤ 1)
    → total ks xs ≡ length ks
    → elem k ks ≡ true
    → count k xs ≡ 1
unfolding total elem
total_full [] xs k h e m = ground arith
total_full (j ∷ ks) xs k h e m =
    ground (arith, eq_iff j k, h j, total-le ks xs h, total_full ks xs k h)

total_of_full :
    (ks xs : List Text) → ((k : Text) → elem k ks ≡ true → count k xs ≡ 1) → total ks xs ≡ length ks
unfolding total elem
total_of_full [] xs h = refl
total_of_full (k ∷ ks) xs h =
    ground (arith, eq_iff k k, h k, total_of_full ks xs (λ j m. ground (arith, h j)))

-- A list of names that are all in `ks`, none of them twice.
module _ (ks xs : List Text) (known : (x : Text) → elem x xs ≡ true → count x ks ≡ 1)
    (once : (k : Text) → count k xs ≤ 1) where
  pub length-le_of_known : length xs ≤ length ks
  length-le_of_known = omega (arith, total-le ks xs once, total-eq-length ks xs known)

  pub count_of_length : length xs ≡ length ks → (k : Text) → elem k ks ≡ true → count k xs ≡ 1
  count_of_length e k = total_full ks xs k once (omega (arith, total-eq-length ks xs known))

  pub length_of_count : ((k : Text) → elem k ks ≡ true → count k xs ≡ 1) → length xs ≡ length ks
  length_of_count full = omega (arith, total_of_full ks xs full, total-eq-length ks xs known)
