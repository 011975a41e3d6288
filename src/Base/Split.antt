-- ===== src/Base/Split.antt =====
-- The functions of Go's `strings` that the program uses.
use Prim.Native.Nat.{ℕ, zero, suc, ◌-◌}
use mathlib.Core.Bool.{Bool, true, false, ◌&&◌, ◌||◌}
use mathlib.Core.Option.{Option, none, some}
use mathlib.Core.List.{List, [], ◌∷◌, ◌++◌, reverse}
use previewctl.Base.Tests.{leb, eqb, if◌then◌else◌}
use previewctl.Base.Texts.{Text}

-- `strings.HasPrefix(s, p)`
unfoldable pub has_prefix : Text → Text → Bool
has_prefix s [] = true
has_prefix [] (y ∷ ys) = false
has_prefix (x ∷ xs) (y ∷ ys) = eqb x y && has_prefix xs ys

-- `strings.TrimPrefix(s, p)` once the prefix is known to be there.
unfoldable pub drop_prefix : Text → Text → Text
drop_prefix s [] = s
drop_prefix [] (y ∷ ys) = []
drop_prefix (x ∷ xs) (y ∷ ys) = drop_prefix xs ys

-- `strings.Contains(s, p)`
unfoldable pub contains : Text → Text → Bool
unfolding has_prefix
contains [] p = has_prefix [] p
contains (x ∷ xs) p = has_prefix (x ∷ xs) p || contains xs p

-- `strings.Cut(s, sep)` at a separator of one byte; `none` if it is not found.
unfoldable pub cut : ℕ → Text → Option (Text × Text)
cut c [] = none
cut c (x ∷ xs) =
    if eqb x c
    then some ([], xs)
    else elim (cut c xs) [ none ↦ none | some (a, b) ↦ some (x ∷ a, b) ]

abbrev onto_first : ℕ → List Text → List Text
onto_first x [] = (x ∷ []) ∷ []
onto_first x (w ∷ ws) = (x ∷ w) ∷ ws

-- `strings.Split(s, sep)` at a separator of one byte.
unfoldable pub split : ℕ → Text → List Text
split c [] = [] ∷ []
split c (x ∷ xs) = let rest = split c xs in if eqb x c then [] ∷ rest else onto_first x rest

-- `strings.Join(parts, sep)`
unfoldable pub join : Text → List Text → Text
join sep [] = []
join sep (w ∷ []) = w
join sep (w ∷ v ∷ ws) = w ++ (sep ++ join sep (v ∷ ws))

unfoldable pub is_ascii_space : ℕ → Bool
is_ascii_space c = eqb c 0x20 || (leb 0x09 c && leb c 0x0d)

-- How many bytes the white space that opens a text takes, from its first three bytes (0 where it
-- ends): ASCII, U+0085, U+00A0, U+1680, U+2000-200A, U+2028, U+2029, U+202F, U+205F, U+3000.
unfoldable pub space_width : ℕ → ℕ → ℕ → ℕ
unfolding is_ascii_space
space_width a b c =
    if is_ascii_space a
    then 1
    else if eqb a 0xc2 && (eqb b 0x85 || eqb b 0xa0)
    then 2
    else if (eqb a 0xe1 && (eqb b 0x9a && eqb c 0x80))
        || ((eqb a 0xe2
              && (eqb b 0x80
                  && ((leb 0x80 c && leb c 0x8a) || (leb 0xa8 c && leb c 0xa9) || eqb c 0xaf)))
            || ((eqb a 0xe2 && (eqb b 0x81 && eqb c 0x9f))
                || (eqb a 0xe3 && (eqb b 0x80 && eqb c 0x80))))
    then 3
    else 0

-- The same for the white space that closes a text, from its last three bytes, the last one first.
unfoldable pub last_space_width : ℕ → ℕ → ℕ → ℕ
unfolding is_ascii_space space_width
last_space_width a b c =
    if is_ascii_space a
    then 1
    else if eqb (space_width b a 0) 2
    then 2
    else if eqb (space_width c b a) 3
    then 3
    else 0

abbrev pub first_byte : Text → ℕ
first_byte [] = 0
first_byte (x ∷ xs) = x

abbrev pub second_byte : Text → ℕ
second_byte [] = 0
second_byte (x ∷ xs) = first_byte xs

-- Drops `k` bytes, and then white space as long as there is some.
unfoldable pub drop_spaces : (ℕ → ℕ → ℕ → ℕ) → ℕ → Text → Text
drop_spaces width k [] = []
drop_spaces width (suc k) (x ∷ xs) = drop_spaces width k xs
drop_spaces width zero (x ∷ xs) =
    let w = width x (first_byte xs) (second_byte xs) in
    let rest = drop_spaces width (w - 1) xs in if eqb w 0 then x ∷ xs else rest

-- `strings.TrimSpace(s)`
unfoldable pub trim_space : Text → Text
unfolding drop_spaces space_width last_space_width
trim_space s = reverse (drop_spaces last_space_width 0 (reverse (drop_spaces space_width 0 s)))
