-- ===== src/Hooks/Redaction.antt =====
-- What `sanitizeOutputLine` of src/domain/hook_executor.go shows of a `KEY=VALUE` line.
use previewctl.Base.{
  append_assoc, reverse-append, reverse-reverse, cut-append, Lacks, space_width, last_space_width,
  drop_spaces, is_ascii_space, has_prefix, first_byte, second_byte, ℕ, zero, suc, ◌-◌, ◌≤◌, ◌<◌,
  Bool, false, [], ◌∷◌, ◌++◌, reverse, ◌≡◌, refl, sym, ◌∙◌, subst, inl, inr, arith, Text, bytes,
  if◌then◌else◌, eqb, Bool-cases, length, space_width, last_space_width, drop_spaces,
  is_ascii_space, Lacks, first_byte, second_byte, trim_space, has_prefix,
}
use previewctl.Hooks.{sanitize_output_line, is_skipped, is_empty}

-- White space does not reach over an `=`.
record StopsAtEquals (width : ℕ → ℕ → ℕ → ℕ) : Type 0 where
  here : (y z : ℕ) → width b'=' y z ≡ 0
  second : (x z : ℕ) → width x b'=' z ≤ 1
  third : (x y : ℕ) → width x y b'=' ≤ 2
  bound : (x y z : ℕ) → width x y z ≤ 3
  same : (x z z' : ℕ) → width x b'=' z ≡ width x b'=' z'

space_width-StopsAtEquals : StopsAtEquals space_width
unfolding space_width is_ascii_space
space_width-StopsAtEquals = record {
  here = λ y z. ground arith;
  second = λ x z. ground arith;
  third = λ x y. ground arith;
  bound = λ x y z. ground arith;
  same = λ x z z'. ground arith;
}

eqb-of_lt : (w n : ℕ) → w < n → eqb w n ≡ false
eqb-of_lt w n h = ground arith

choice-le : (p q r : Bool) → (if p then 1 else if q then 2 else if r then 3 else 0) ≤ 3
choice-le p q r = ground arith

choice-zero :
    (q r : Bool) → q ≡ false → r ≡ false → ◌≡◌ {A = ℕ} (if q then 2 else if r then 3 else 0) 0
choice-zero q r hq hr = ground arith

last_space_width-here : (y z : ℕ) → last_space_width b'=' y z ≡ 0
unfolding last_space_width is_ascii_space
last_space_width-here y z =
    choice-zero (eqb (space_width y b'=' 0) 2) (eqb (space_width z y b'=') 3)
      (eqb-of_lt (space_width y b'=' 0) 2 (omega (arith, space_width-StopsAtEquals.second y 0)))
      (eqb-of_lt (space_width z y b'=') 3 (omega (arith, space_width-StopsAtEquals.third z y)))

last_space_width-bound : (x y z : ℕ) → last_space_width x y z ≤ 3
unfolding last_space_width
last_space_width-bound x y z =
    choice-le (is_ascii_space x) (eqb (space_width y x 0) 2) (eqb (space_width z y x) 3)

last_space_width-StopsAtEquals : StopsAtEquals last_space_width
unfolding last_space_width space_width is_ascii_space
last_space_width-StopsAtEquals = record {
  here = last_space_width-here;
  second = λ x z. ground arith;
  third = λ x y. ground arith;
  bound = last_space_width-bound;
  same = λ x z z'. ground arith;
}

-- What is left in front of an `=` depends on what stands in front of it only.
record Kept (width : ℕ → ℕ → ℕ → ℕ) (n : ℕ) (k : Text) : Type 0 where
  front : Text
  kept : (v : Text) → drop_spaces width n (k ++ (b'=' ∷ v)) ≡ front ++ (b'=' ∷ v)
  lacks : Lacks b'=' k → Lacks b'=' front

module _ (width : ℕ → ℕ → ℕ → ℕ) (stops : StopsAtEquals width) where
  front-Kept : (n : ℕ) (k : Text) → n ≤ length k → Kept width n k
  unfolding drop_spaces
  front-Kept (suc n) [] h = absurd (omega (arith, h))
  front-Kept zero [] h = record {
    front = [];
    kept = λ v. ground (arith, stops.here (first_byte v) (second_byte v));
    lacks = λ l. l;
  }
  front-Kept (suc n) (x ∷ k) h =
      let r = front-Kept n k (omega (arith, h)) in
      record { front = r.front; kept = r.kept; lacks = λ l. r.lacks l.1 }
  front-Kept zero (x ∷ []) h = elim (Bool-cases (eqb (width x b'=' 0) 0)) [
    | inl e ↦ record {
      front = x ∷ [];
      kept = λ v. ground (arith, e, stops.same x 0 (first_byte v));
      lacks = λ l. l;
    }
    | inr e ↦
        let r = front-Kept 0 [] (omega arith) in
        record {
          front = r.front;
          kept = λ v.
              ground
                (arith, e, stops.same x 0 (first_byte v), stops.second x (first_byte v), r.kept v);
          lacks = λ l. r.lacks l.1;
        }
  ]
  front-Kept zero (x ∷ y ∷ []) h = elim (Bool-cases (eqb (width x y b'=') 0)) [
    | inl e ↦ record { front = x ∷ y ∷ []; kept = λ v. ground (arith, e); lacks = λ l. l }
    | inr e ↦
        let r = front-Kept (width x y b'=' - 1) (y ∷ []) (omega (arith, stops.third x y)) in
        record {
          front = r.front;
          kept = λ v. ground (arith, e, r.kept v);
          lacks = λ l. r.lacks l.1;
        }
  ]
  front-Kept zero (x ∷ y ∷ z ∷ k) h = elim (Bool-cases (eqb (width x y z) 0)) [
    | inl e ↦ record { front = x ∷ y ∷ z ∷ k; kept = λ v. ground (arith, e); lacks = λ l. l }
    | inr e ↦
        let r = front-Kept (width x y z - 1) (y ∷ z ∷ k) (omega (arith, stops.bound x y z)) in
        record {
          front = r.front;
          kept = λ v. ground (arith, e, r.kept v);
          lacks = λ l. r.lacks l.1;
        }
  ]

reverse-cons : (x : ℕ) (xs : Text) → reverse (x ∷ xs) ≡ reverse xs ++ x ∷ []
reverse-cons x xs = reverse-append (x ∷ []) xs

is_skipped-equals :
    (front u u' : Text) → is_skipped (front ++ (b'=' ∷ u)) ≡ is_skipped (front ++ (b'=' ∷ u'))
unfolding has_prefix bytes
is_skipped-equals [] u u' = refl
is_skipped-equals (x ∷ front) u u' = ground arith

-- What trimming leaves of a line with an `=`.
trim_space-equals :
    (front t : Text) (k v : Text)
    → drop_spaces space_width 0 (k ++ (b'=' ∷ v)) ≡ front ++ (b'=' ∷ v)
    → drop_spaces last_space_width 0 (reverse v ++ (b'=' ∷ reverse front))
      ≡ t ++ (b'=' ∷ reverse front)
    → trim_space (k ++ (b'=' ∷ v)) ≡ front ++ (b'=' ∷ reverse t)
unfolding trim_space
trim_space-equals front t k v h g =
    rw
      (
        h,
        reverse-append front (b'=' ∷ v),
        reverse-cons b'=' v,
        append_assoc (reverse v) (b'=' ∷ []) (reverse front),
        g,
        reverse-append t (b'=' ∷ reverse front),
        reverse-cons b'=' (reverse front),
        reverse-reverse front,
        append_assoc front (b'=' ∷ []) (reverse t),
      )
      refl

not_empty : (front u : Text) → is_empty (front ++ (b'=' ∷ u)) ≡ false
not_empty [] u = refl
not_empty (x ∷ front) u = refl

sanitized :
    (front k v u u' : Text)
    → trim_space (k ++ (b'=' ∷ v)) ≡ front ++ (b'=' ∷ u)
    → trim_space (k ++ (b'=' ∷ [])) ≡ front ++ (b'=' ∷ u')
    → Lacks b'=' front
    → has_prefix (trim_space (k ++ (b'=' ∷ []))) (bytes "#") ≡ false
    → sanitize_output_line (k ++ (b'=' ∷ v)) ≡ trim_space front ++ bytes "=********"
unfolding sanitize_output_line
sanitized front k v u u' e e' l h =
    rw (e, cut-append b'=' front u l)
      (ground (
        arith,
        not_empty front u,
        not_empty front u',
        is_skipped-equals front u u',
        subst (λ (s : Text). has_prefix s (bytes "#") ≡ false) e' h,
      ))

-- Two lines `KEY=VALUE` with the same key are shown as the same text, whatever the values are, unless
-- they are comments, which begin with a `#` behind white space.
pub sanitize_output_line-redacts :
    (k v v' : Text)
    → Lacks b'=' k
    → has_prefix (trim_space (k ++ (b'=' ∷ []))) (bytes "#") ≡ false
    → sanitize_output_line (k ++ (b'=' ∷ v)) ≡ sanitize_output_line (k ++ (b'=' ∷ v'))
sanitize_output_line-redacts k v v' l h =
    let f = front-Kept space_width space_width-StopsAtEquals 0 k (omega arith) in
    let back = λ (v : Text).
      front-Kept last_space_width last_space_width-StopsAtEquals 0 (reverse v) (omega arith) in
    let trimmed = λ (v : Text).
      trim_space-equals f.front (back v).front k v (f.kept v) ((back v).kept (reverse f.front)) in
    let shown = λ (v : Text).
      sanitized f.front k v (reverse (back v).front) (reverse (back []).front) (trimmed v)
        (trimmed []) (f.lacks l) h in
    shown v ∙ sym (shown v')
