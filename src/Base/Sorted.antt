-- ===== src/Base/Sorted.antt =====
-- Sorted lists of texts, and `sort.Strings` of the standard library.
use Prim.Native.Nat.{suc, ◌<◌}
use mathlib.Core.Path.{◌≡◌, refl, ◌∙◌, ap, sym}
use mathlib.Core.Bool.{false}
use mathlib.Core.List.{List, [], ◌∷◌}
use native.Mathlib.Omega.{arith}
use previewctl.Base.Tests.{if◌then◌else◌}
use previewctl.Base.Texts.{Text, text_ltb, text_ltb_trans, text_ltb_asymm, text_ltb_irrefl, eq_iff}
use previewctl.Base.Lists.{
  All-elem, count-elem, All, count, elem, elem-count, not-elem-count, length,
}

-- Each text is not greater than any text behind it.
abbrev pub IsSorted : List Text → Type 0
IsSorted [] = Unit
IsSorted (x ∷ xs) = All (λ y. text_ltb y x ≡ false) xs × IsSorted xs

-- Put `a` before the first text that is not less.
unfoldable pub place : Text → List Text → List Text
place a [] = a ∷ []
place a (x ∷ xs) = if text_ltb x a then x ∷ place a xs else a ∷ x ∷ xs

unfoldable pub sort : List Text → List Text
unfolding place
sort [] = []
sort (x ∷ xs) = place x (sort xs)

pub count-place : (b a : Text) (xs : List Text) → count b (place a xs) ≡ count b (a ∷ xs)
unfolding count place
count-place b a [] = refl
count-place b a (x ∷ xs) = ground (arith, count-place b a xs)

All-ltb_trans :
    (a x : Text) (xs : List Text)
    → text_ltb x a ≡ false
    → All (λ y. text_ltb y x ≡ false) xs
    → All (λ y. text_ltb y a ≡ false) xs
All-ltb_trans a x [] h k = tt
All-ltb_trans a x (y ∷ ys) h k = (text_ltb_trans a x y h k.0, All-ltb_trans a x ys h k.1)

All-place :
    (b a : Text) (xs : List Text)
    → text_ltb a b ≡ false
    → All (λ y. text_ltb y b ≡ false) xs
    → All (λ y. text_ltb y b ≡ false) (place a xs)
unfolding place
All-place b a [] h k = (h, tt)
All-place b a (x ∷ xs) h k = ground (arith, All-place b a xs)

pub place-IsSorted : (a : Text) (xs : List Text) → IsSorted xs → IsSorted (place a xs)
unfolding place
place-IsSorted a [] h = (tt, tt)
place-IsSorted a (x ∷ xs) h =
    ground (arith, place-IsSorted a xs, All-place x a xs, All-ltb_trans a x xs, text_ltb_asymm x a)

pub sort-IsSorted : (xs : List Text) → IsSorted (sort xs)
unfolding sort
sort-IsSorted [] = tt
sort-IsSorted (x ∷ xs) = place-IsSorted x (sort xs) (sort-IsSorted xs)

pub count-sort : (a : Text) (xs : List Text) → count a (sort xs) ≡ count a xs
unfolding sort count
count-sort a [] = refl
count-sort a (x ∷ xs) = ground (arith, count-sort a xs, count-place a x (sort xs))

pub elem-sort : (a : Text) (xs : List Text) → elem a (sort xs) ≡ elem a xs
elem-sort a xs = ground (
  arith,
  count-sort a xs,
  elem-count a xs,
  not-elem-count a xs,
  elem-count a (sort xs),
  not-elem-count a (sort xs),
)

length-place : (a : Text) (xs : List Text) → length (place a xs) ≡ suc (length xs)
unfolding place
length-place a [] = refl
length-place a (x ∷ xs) = ground (arith, length-place a xs)

pub length-sort : (xs : List Text) → length (sort xs) ≡ length xs
unfolding sort
length-sort [] = refl
length-sort (x ∷ xs) = omega (arith, length-sort xs, length-place x (sort xs))

text_ltb_total : (a b : Text) → text_ltb a b ≡ false → text_ltb b a ≡ false → a ≡ b
unfolding text_ltb
text_ltb_total [] [] h k = refl
text_ltb_total [] (y ∷ ys) h k = absurd (cc (h))
text_ltb_total (x ∷ xs) [] h k = absurd (cc (k))
text_ltb_total (x ∷ xs) (y ∷ ys) h k = ground (arith, text_ltb_total xs ys)

head-le :
    (a x : Text) (xs : List Text) → IsSorted (x ∷ xs) → 0 < count a (x ∷ xs) → text_ltb a x ≡ false
unfolding count
head-le a x xs s h = ground (
  arith,
  eq_iff x a,
  text_ltb_irrefl x,
  count-elem a xs,
  All-elem (λ y. text_ltb y x ≡ false) a xs s.0,
)

count-head : (x : Text) (xs : List Text) → 0 < count x (x ∷ xs)
unfolding count
count-head x xs = ground (arith, eq_iff x x)

count-tail :
    (a x : Text) (xs ys : List Text) → count a (x ∷ xs) ≡ count a (x ∷ ys) → count a xs ≡ count a ys
unfolding count
count-tail a x xs ys h = omega (arith, h)

-- Sorted lists with the same elements, as often each, are equal.
pub IsSorted-unique :
    (xs ys : List Text)
    → IsSorted xs
    → IsSorted ys
    → ((a : Text) → count a xs ≡ count a ys)
    → xs ≡ ys
IsSorted-unique [] [] sx sy h = refl
IsSorted-unique [] (y ∷ ys) sx sy h = absurd (unfold count in omega (arith, count-head y ys, h y))
IsSorted-unique (x ∷ xs) [] sx sy h = absurd (unfold count in omega (arith, count-head x xs, h x))
IsSorted-unique (x ∷ xs) (y ∷ ys) sx sy h =
    let e : x ≡ y =
      text_ltb_total x y (head-le x y ys sy (omega (arith, count-head x xs, h x)))
        (head-le y x xs sx (omega (arith, count-head y ys, h y))) in
    let tails =
      λ (a : Text). count-tail a x xs ys (h a ∙ ap (λ (t : Text). count a (t ∷ ys)) (sym e)) in
    ground (arith, e, IsSorted-unique xs ys sx.1 sy.1 tails)
