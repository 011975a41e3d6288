-- ===== src/Base/Texts.antt =====
-- A Go string is a sequence of bytes: a list of numbers. `==` and `text_ltb` are Go's `==` and `<`.
use Prim.Native.Nat.{ℕ, ◌+◌, ◌/◌, ◌%◌}
use Prim.Native.Char.{code}
use Prim.Native.String.{String}
use mathlib.Core.Path.{◌≡◌, refl}
use mathlib.Core.Logic.{◌↔◌, ◌⊎◌, ◌≢◌, inl, inr}
use mathlib.Core.Bool.{Bool, true, false, ◌&&◌, ◌||◌}
use mathlib.Core.List.{List, [], ◌∷◌, ◌++◌}
use native.Mathlib.Omega.{arith}
use previewctl.Base.Tests.{ltb, eqb, if◌then◌else◌, Bool-cases}

abbrev pub Text : Type 0
Text = List ℕ

-- The UTF-8 bytes of a code point.
abbrev utf8 : ℕ → Text
utf8 c =
    if ltb c 0x80
    then c ∷ []
    else if ltb c 0x800
    then (0xc0 + c / 64) ∷ (0x80 + c % 64) ∷ []
    else if ltb c 0x10000
    then (0xe0 + c / 4096) ∷ (0x80 + c / 64 % 64) ∷ (0x80 + c % 64) ∷ []
    else (0xf0 + c / 262144) ∷ (0x80 + c / 4096 % 64) ∷ (0x80 + c / 64 % 64) ∷ (0x80 + c % 64) ∷ []

-- A string literal of the source.
unfoldable pub bytes : String → Text
bytes String.[] = []
bytes (String.◌∷◌ c s) = utf8 (code c) ++ bytes s

infix 50 ◌==◌
unfoldable pub ◌==◌ : Text → Text → Bool
[] == [] = true
[] == (y ∷ ys) = false
(x ∷ xs) == [] = false
(x ∷ xs) == (y ∷ ys) = eqb x y && (xs == ys)

pub eq_iff : (a b : Text) → ((a == b) ≡ true) ↔ (a ≡ b)
unfolding ◌==◌
eq_iff [] [] = ground arith
eq_iff [] (y ∷ ys) = ground arith
eq_iff (x ∷ xs) [] = ground arith
eq_iff (x ∷ xs) (y ∷ ys) = ground (arith, eq_iff xs ys)

pub eq_refl : (a : Text) → (a == a) ≡ true
eq_refl a = (eq_iff a a).1 refl

pub eq_of_eq : (a b : Text) → (a == b) ≡ true → a ≡ b
eq_of_eq a b = (eq_iff a b).0

-- Every two texts are equal or not.
pub Text-cases : (a b : Text) → (a ≡ b) ⊎ ((a == b) ≡ false)
Text-cases a b = elim (Bool-cases (a == b)) [ inl e ↦ inl (eq_of_eq a b e) | inr n ↦ inr n ]

pub ne_of_eq-false : (a b : Text) → (a == b) ≡ false → a ≢ b
ne_of_eq-false a b h e = ground (arith, eq_iff a b)

unfoldable pub text_ltb : Text → Text → Bool
text_ltb [] [] = false
text_ltb [] (y ∷ ys) = true
text_ltb (x ∷ xs) [] = false
text_ltb (x ∷ xs) (y ∷ ys) = ltb x y || (eqb x y && text_ltb xs ys)

-- "Not greater" is transitive and total, and "less" gives "not greater".
pub text_ltb_trans :
    (a b c : Text) → text_ltb b a ≡ false → text_ltb c b ≡ false → text_ltb c a ≡ false
unfolding text_ltb
text_ltb_trans a b [] h k = lemma a b h k
  where
    lemma : (a b : Text) → text_ltb b a ≡ false → text_ltb [] b ≡ false → text_ltb [] a ≡ false
    lemma [] [] h k = refl
    lemma (x ∷ a) [] h k = ground arith
    lemma [] (y ∷ b) h k = refl
    lemma (x ∷ a) (y ∷ b) h k = ground arith
text_ltb_trans [] b (z ∷ c) h k = refl
text_ltb_trans (x ∷ a) [] (z ∷ c) h k = ground arith
text_ltb_trans (x ∷ a) (y ∷ b) (z ∷ c) h k = ground (arith, text_ltb_trans a b c)

pub text_ltb_asymm : (a b : Text) → text_ltb a b ≡ true → text_ltb b a ≡ false
unfolding text_ltb
text_ltb_asymm [] [] h = refl
text_ltb_asymm [] (y ∷ b) h = refl
text_ltb_asymm (x ∷ a) [] h = ground arith
text_ltb_asymm (x ∷ a) (y ∷ b) h = ground (arith, text_ltb_asymm a b)

pub text_ltb_irrefl : (a : Text) → text_ltb a a ≡ false
unfolding text_ltb
text_ltb_irrefl [] = refl
text_ltb_irrefl (x ∷ a) = ground (arith, text_ltb_irrefl a)
