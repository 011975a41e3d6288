-- ===== src/Template/Scan.antt =====
-- Where `scan` of Template.antt finds a placeholder, and what is left of a text around it.
use previewctl.Base.{
  Lacks, cut-append, ℕ, zero, suc, ◌+◌, false, none, some, List, [], ◌∷◌, ◌++◌, ◌≡◌, refl, ap,
  arith, Text, eqb, length,
}
use previewctl.Template.{Segment, literal, placeholder, submatch, scan, segments}

-- A text as segments.
unfoldable pub literals : Text → List Segment
literals [] = []
literals (x ∷ xs) = literal x ∷ literals xs

submatch-other : (x : ℕ) (s : Text) → eqb x b'{' ≡ false → submatch (x ∷ s) ≡ none
unfolding submatch
submatch-other x [] h = refl
submatch-other x (y ∷ s) h = ground arith

submatch-placeholder :
    (x : ℕ) (v rest : Text)
    → Lacks b'}' (x ∷ v)
    → submatch (b'{' ∷ b'{' ∷ ((x ∷ v) ++ (b'}' ∷ b'}' ∷ rest))) ≡ some (x ∷ v)
unfolding submatch
submatch-placeholder x v rest h = rw (cut-append b'}' (x ∷ v) (b'}' ∷ rest) h) refl

scan-body :
    (n : ℕ) (a rest : Text) → n ≡ length a + 2 → scan n (a ++ (b'}' ∷ b'}' ∷ rest)) ≡ scan 0 rest
unfolding scan
scan-body n [] rest e = rw e refl
scan-body zero (x ∷ a) rest e = absurd (omega (arith, e))
scan-body (suc n) (x ∷ a) rest e = scan-body n a rest (omega (arith, e))

scan-suc : (n x : ℕ) (s : Text) → scan (suc n) (x ∷ s) ≡ scan n s
unfolding scan
scan-suc n x s = refl

-- A text with no opening brace in front is copied.
pub segments-append : (a b : Text) → Lacks b'{' a → segments (a ++ b) ≡ literals a ++ segments b
unfolding segments scan literals
segments-append [] b h = refl
segments-append (x ∷ a) b h =
    rw (submatch-other x (a ++ b) h.0, segments, scan, literals)
      (ap (λ (r : List Segment). literal x ∷ r) (segments-append a b h.1))

pub segments-placeholder :
    (x : ℕ) (v rest : Text)
    → Lacks b'}' (x ∷ v)
    → segments (b'{' ∷ b'{' ∷ ((x ∷ v) ++ (b'}' ∷ b'}' ∷ rest)))
      ≡ placeholder (x ∷ v) ∷ segments rest
unfolding segments scan
segments-placeholder x v rest h = ground (
  arith,
  submatch-placeholder x v rest h,
  scan-body (length v + 3) (x ∷ v) rest,
  scan-suc (length v + 3) b'{' ((x ∷ v) ++ (b'}' ∷ b'}' ∷ rest)),
)
