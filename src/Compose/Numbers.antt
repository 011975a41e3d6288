-- ===== src/Compose/Numbers.antt =====
-- `%d` and the `strconv.Atoi` of src/domain/compose.go.
use previewctl.Base.{
  ℕ, zero, suc, ◌+◌, ◌-◌, ◌*◌, ◌/◌, ◌%◌, ◌^◌, ◌<◌, Bool, true, false, ◌&&◌, [], ◌∷◌, ◌++◌, reverse,
  ◌≡◌, refl, inl, inr, arith, Text, if◌then◌else◌, ltb, Bool-cases, reverse-append,
}
use previewctl.Template.{}
use previewctl.Ports.{digits_reversed}
use previewctl.Ports.{decimal}
use previewctl.Config.{is_empty}
use previewctl.Compose.{is_digit, all_bytes, is_number, number_from, atoi, is_empty}

all_bytes-append :
    (p : ℕ → Bool) (a b : Text) → all_bytes p (a ++ b) ≡ (all_bytes p a && all_bytes p b)
unfolding all_bytes
all_bytes-append p [] b = refl
all_bytes-append p (x ∷ a) b = ground (arith, all_bytes-append p a b)

all_bytes-reverse : (p : ℕ → Bool) (a : Text) → all_bytes p (reverse a) ≡ all_bytes p a
unfolding all_bytes
all_bytes-reverse p [] = refl
all_bytes-reverse p (x ∷ a) =
    rw (reverse-append (x ∷ []) a)
      (ground (arith, all_bytes-append p (reverse a) (x ∷ []), all_bytes-reverse p a))

digits-all_bytes : (fuel n : ℕ) → all_bytes is_digit (digits_reversed fuel n) ≡ true
unfolding all_bytes digits_reversed
digits-all_bytes zero n = refl
digits-all_bytes (suc fuel) n = ground (arith, digits-all_bytes fuel (n / 10))

-- The number of digits, the last one first.
value : Text → ℕ
value [] = 0
value (d ∷ ds) = (d - b'0') + value ds * 10

value-digits_reversed : (fuel n : ℕ) → n < fuel → value (digits_reversed fuel n) ≡ n
unfolding value digits_reversed
value-digits_reversed zero n h = absurd (omega (arith, h))
value-digits_reversed (suc fuel) n h = elim (Bool-cases (ltb n 10)) [
  | inl s ↦ ground (arith, s)
  | inr s ↦ ground (arith, s, value-digits_reversed fuel (n / 10))
]

number_from-append : (n : ℕ) (a b : Text) → number_from n (a ++ b) ≡ number_from (number_from n a) b
unfolding number_from
number_from-append n [] b = refl
number_from-append n (x ∷ a) b = number_from-append (n * 10 + (x - b'0')) a b

number_from-reverse : (ds : Text) → number_from 0 (reverse ds) ≡ value ds
unfolding value number_from
number_from-reverse [] = refl
number_from-reverse (d ∷ ds) =
    rw (reverse-append (d ∷ []) ds)
      (ground (arith, number_from-append 0 (reverse ds) (d ∷ []), number_from-reverse ds))

pub atoi-decimal : (n : ℕ) → n < 2 ^ 63 → atoi (decimal n) ≡ n
unfolding atoi decimal
atoi-decimal n h =
    ground
      (arith, number_from-reverse (digits_reversed (suc n) n), value-digits_reversed (suc n) n, h)

not_empty-reverse : (x : ℕ) (xs : Text) → is_empty (reverse (x ∷ xs)) ≡ false
not_empty-reverse x xs = rw (reverse-append (x ∷ []) xs) (not_empty-snoc (reverse xs))
  where
    not_empty-snoc : (ys : Text) → is_empty (ys ++ x ∷ []) ≡ false
    not_empty-snoc [] = refl
    not_empty-snoc (y ∷ ys) = refl

is_number-reverse :
    (x : ℕ) (xs : Text) → all_bytes is_digit (x ∷ xs) ≡ true → is_number (reverse (x ∷ xs)) ≡ true
unfolding is_number
is_number-reverse x xs h =
    ground (arith, not_empty-reverse x xs, all_bytes-reverse is_digit (x ∷ xs), h)

pub is_number-decimal : (n : ℕ) → is_number (decimal n) ≡ true
unfolding decimal digits_reversed
is_number-decimal n =
    is_number-reverse (b'0' + n % 10) (if ltb n 10 then [] else digits_reversed n (n / 10))
      (digits-all_bytes (suc n) n)
