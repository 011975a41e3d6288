-- ===== src/Propagate/Within.antt =====
-- Parts of a text: what trimming, splitting and the search for placeholders take from it.
use previewctl.Base.{
  ℕ, zero, suc, ◌+◌, ◌-◌, true, none, some, List, [], ◌∷◌, ◌++◌, reverse, ◌≡◌, refl, sym, ap, ◌∙◌,
  subst, inl, inr, arith, Text, bytes, eqb, Bool-cases, Option-cases, length, append_assoc,
  has_prefix, contains, drop_spaces, trim_space, cut, join, first_byte, space_width, split,
  second_byte, last_space_width, reverse-reverse, reverse-append, split-cons, append-nil,
}
use previewctl.Template.{Segment, literal, placeholder, submatch, scan, segments}

-- `part` stands somewhere in `s`.
pub record Within (part s : Text) : Type 0 where
  pub before : Text
  pub after : Text
  pub whole : s ≡ before ++ (part ++ after)

associate : (x y z u v : Text) → x ++ ((y ++ (z ++ u)) ++ v) ≡ (x ++ y) ++ (z ++ (u ++ v))
associate x y z u v = simp (append_assoc) refl

pub Within-trans : (a b c : Text) → Within a b → Within b c → Within a c
Within-trans a b c p q = record {
  before = q.before ++ p.before;
  after = p.after ++ q.after;
  whole = rw (q.whole, p.whole) (associate q.before p.before a p.after q.after);
}

has_prefix-nil : (r : Text) → has_prefix r [] ≡ true
unfolding has_prefix
has_prefix-nil [] = refl
has_prefix-nil (x ∷ r) = refl

has_prefix-append : (p r : Text) → has_prefix (p ++ r) p ≡ true
unfolding has_prefix
has_prefix-append [] r = has_prefix-nil r
has_prefix-append (x ∷ p) r = ground (arith, has_prefix-append p r)

contains-append : (a p r : Text) → contains (a ++ (p ++ r)) p ≡ true
unfolding contains
contains-append [] [] [] = has_prefix-append [] []
contains-append [] [] (x ∷ r) = ground (arith, has_prefix-append [] (x ∷ r))
contains-append [] (y ∷ p) r = ground (arith, has_prefix-append (y ∷ p) r)
contains-append (x ∷ a) p r = ground (arith, contains-append a p r)

pub contains-Within : (p s : Text) → Within p s → contains s p ≡ true
contains-Within p s w =
    subst (λ (t : Text). contains t p ≡ true) (sym w.whole) (contains-append w.before p w.after)

-- Trimming.
dropped : (width : ℕ → ℕ → ℕ → ℕ) (n : ℕ) (s : Text) → (a : Text) × (s ≡ a ++ drop_spaces width n s)
unfolding drop_spaces
dropped width n [] = ([], refl)
dropped width (suc n) (x ∷ s) = let r = dropped width n s in (x ∷ r.0, ap (λ (t : Text). x ∷ t) r.1)
dropped width zero (x ∷ s) =
    let w = width x (first_byte s) (second_byte s) in
    let r = dropped width (w - 1) s in
    elim (Bool-cases (eqb w 0)) [
      | inl e ↦ ([], ground (arith, e))
      | inr e ↦ (x ∷ r.0, ground (arith, e, r.1))
    ]

pub trim_space-Within : (s : Text) → Within (trim_space s) s
unfolding trim_space
trim_space-Within s =
    let u = drop_spaces space_width 0 s in
    let front = dropped space_width 0 s in
    let back = dropped last_space_width 0 (reverse u) in
    let d = drop_spaces last_space_width 0 (reverse u) in
    record {
      before = front.0;
      after = reverse back.0;
      whole =
          front.1
          ∙ ap (λ (t : Text). front.0 ++ t)
              (sym (reverse-reverse u) ∙ (ap reverse back.1 ∙ reverse-append back.0 d));
    }

-- Splitting.
cut-whole : (c : ℕ) (s l r : Text) → cut c s ≡ some (l, r) → s ≡ l ++ c ∷ r
unfolding cut
cut-whole c [] l r h = ground arith
cut-whole c (x ∷ s) l r h = elim (Option-cases (cut c s)) [
  | inl n ↦ ground arith
  | inr t ↦ ground (arith, cut-whole c s t.0.0 t.0.1)
]

join-onto_first :
    (x : ℕ) (sep : Text) (parts : List Text) (w : Text) (ws : List Text)
    → parts ≡ w ∷ ws
    → join sep (elim parts [ [] ↦ (x ∷ []) ∷ [] | v ∷ vs ↦ (x ∷ v) ∷ vs ]) ≡ x ∷ join sep parts
unfolding join
join-onto_first x sep [] w ws e = absurd (cc (e))
join-onto_first x sep (v ∷ []) w ws e = refl
join-onto_first x sep (v ∷ u ∷ vs) w ws e = refl

join-nil :
    (sep : Text) (parts : List Text) (w : Text) (ws : List Text)
    → parts ≡ w ∷ ws
    → join sep ([] ∷ parts) ≡ sep ++ join sep parts
unfolding join
join-nil sep [] w ws e = absurd (cc (e))
join-nil sep (v ∷ vs) w ws e = refl

-- `strings.Split` is undone by `strings.Join`.
pub join-split : (s : Text) → join (bytes ".") (split b'.' s) ≡ s
unfolding split bytes
join-split [] = unfold join in refl
join-split (x ∷ s) =
    let p = split-cons b'.' s in
    ground (
      arith,
      join-onto_first x (bytes ".") (split b'.' s) p.0 p.1 p.2,
      join-nil (bytes ".") (split b'.' s) p.0 p.1 p.2,
      join-split s,
    )

submatch-Within : (s v : Text) → submatch s ≡ some v → Within v s
unfolding submatch
submatch-Within [] v h = absurd (cc (h))
submatch-Within (a ∷ []) v h = absurd (cc (h))
submatch-Within (a ∷ b ∷ s) v h = elim (Option-cases (cut b'}' s)) [
  | inl n ↦ absurd (ground arith)
  | inr t ↦ record {
    before = a ∷ b ∷ [];
    after = b'}' ∷ t.0.1;
    whole = ground (arith, cut-whole b'}' s t.0.0 t.0.1);
  }
]

-- What holds of each placeholder.
abbrev pub Each : (Text → Type 0) → List Segment → Type 0
Each P [] = Unit {0}
Each P (literal c ∷ ss) = Each P ss
Each P (placeholder v ∷ ss) = P v × Each P ss

Each-longer :
    (s t : Text) (ss : List Segment)
    → Within s t
    → Each (λ (v : Text). Within v s) ss
    → Each (λ (v : Text). Within v t) ss
Each-longer s t [] w h = tt
Each-longer s t (literal c ∷ ss) w h = Each-longer s t ss w h
Each-longer s t (placeholder v ∷ ss) w h = (Within-trans v s t h.0 w, Each-longer s t ss w h.1)

behind : (x : ℕ) (s : Text) → Within s (x ∷ s)
behind x s = record {
  before = x ∷ [];
  after = [];
  whole = ap (λ (t : Text). x ∷ t) (sym (append-nil s));
}

scan-none : (x : ℕ) (s : Text) → submatch (x ∷ s) ≡ none → scan 0 (x ∷ s) ≡ literal x ∷ scan 0 s
unfolding scan
scan-none x s e = ground (arith, e)

scan-some :
    (x : ℕ) (s v : Text)
    → submatch (x ∷ s) ≡ some v
    → scan 0 (x ∷ s) ≡ placeholder v ∷ scan (length v + 3) s
unfolding scan
scan-some x s v e = ground (arith, e)

Each-in_scan : (n : ℕ) (s : Text) → Each (λ (v : Text). Within v s) (scan n s)
unfolding scan
Each-in_scan zero [] = tt
Each-in_scan (suc n) [] = tt
Each-in_scan (suc n) (x ∷ s) = Each-longer s (x ∷ s) (scan n s) (behind x s) (Each-in_scan n s)
Each-in_scan zero (x ∷ s) =
    let here = λ (n : ℕ). Each-longer s (x ∷ s) (scan n s) (behind x s) (Each-in_scan n s) in
    elim (Option-cases (submatch (x ∷ s))) [
      | inl e ↦ subst (Each (λ (v : Text). Within v (x ∷ s))) (sym (scan-none x s e)) (here 0)
      | inr e ↦
          subst (Each (λ (v : Text). Within v (x ∷ s))) (sym (scan-some x s e.0 e.1))
            (submatch-Within (x ∷ s) e.0 e.1, here (length e.0 + 3))
    ]

-- Each placeholder of a text stands in it.
pub segments-Within : (s : Text) → Each (λ (v : Text). Within v s) (segments s)
unfolding segments
segments-Within s = Each-in_scan 0 s
