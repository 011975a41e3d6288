-- ===== src/Base/Cutting.antt =====
-- Where `cut` finds a byte.
use Prim.Native.Nat.{ℕ, ◌<◌}
use mathlib.Core.Path.{◌≡◌, refl}
use mathlib.Core.Bool.{false}
use mathlib.Core.Logic.{inl, inr}
use mathlib.Core.Option.{some}
use mathlib.Core.List.{List, [], ◌∷◌, ◌++◌}
use native.Mathlib.Omega.{arith}
use previewctl.Base.Tests.{eqb, Option-cases, Bool-cases}
use previewctl.Base.Lists.{length}
use previewctl.Base.Texts.{Text}
use previewctl.Base.Split.{cut, split}

-- No byte of the text is `c`.
abbrev pub Lacks : ℕ → Text → Type 0
Lacks c [] = Unit {0}
Lacks c (x ∷ xs) = (eqb x c ≡ false) × Lacks c xs

pub cut-append : (c : ℕ) (a b : Text) → Lacks c a → cut c (a ++ c ∷ b) ≡ some (a, b)
unfolding cut
cut-append c [] b h = ground arith
cut-append c (x ∷ a) b h = ground (arith, cut-append c a b h.1)

pub cut-more : (c : ℕ) (a q l r : Text) → cut c a ≡ some (l, r) → cut c (a ++ q) ≡ some (l, r ++ q)
unfolding cut
cut-more c [] q l r h = ground arith
cut-more c (x ∷ a) q l r h = elim (Option-cases (cut c a)) [
  | inl n ↦ ground arith
  | inr s ↦ ground (arith, cut-more c a q s.0.0 s.0.1)
]

pub length-cut : (c : ℕ) (a l r : Text) → cut c a ≡ some (l, r) → length r < length a
unfolding cut
length-cut c [] l r h = ground arith
length-cut c (x ∷ a) l r h = elim (Option-cases (cut c a)) [
  | inl n ↦ ground arith
  | inr s ↦ ground (arith, length-cut c a s.0.0 s.0.1)
]

-- `strings.Split` gives at least one part.
pub split-cons : (c : ℕ) (xs : Text) → (w : Text) × (ws : List Text) × (split c xs ≡ w ∷ ws)
unfolding split
split-cons c [] = ([], [], refl)
split-cons c (x ∷ xs) =
    let rest : (w : Text) × (ws : List Text) × (split c xs ≡ w ∷ ws) = split-cons c xs in
    elim (Bool-cases (eqb x c)) [
      | inl e ↦ ([], split c xs, ground arith)
      | inr e ↦ (x ∷ rest.0, rest.1, ground (arith, rest.2))
    ]
