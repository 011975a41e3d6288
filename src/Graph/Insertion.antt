-- ===== src/Graph/Insertion.antt =====
-- The elements and the order of what `sortStrings` and `insertSorted` of
-- src/domain/dependency_graph.go give.
use previewctl.Base.{
  ◌++◌, Text, ◌+◌, List, [], ◌∷◌, count, count-append, place, count-place, reverse, ◌≡◌, refl,
  arith, ap, reverse-append, ◌∙◌, All, text_ltb, IsSorted, false, reverse-reverse, place-IsSorted,
  append-nil, text_ltb_trans, append_assoc, Bool-cases, inl, text_ltb_asymm, inr,
}
use previewctl.Graph.{sift, insert_sorted, sort_from, sort_strings}

pub insert_sorted-eq-place : (s : List Text) (a : Text) → insert_sorted s a ≡ place a s
unfolding insert_sorted place
insert_sorted-eq-place [] a = refl
insert_sorted-eq-place (x ∷ s) a = ground (arith, insert_sorted-eq-place s a)

pub count-insert_sorted :
    (b a : Text) (s : List Text) → count b (insert_sorted s a) ≡ count b (a ∷ s)
count-insert_sorted b a s = ap (count b) (insert_sorted-eq-place s a) ∙ count-place b a s

count-reverse : (b : Text) (xs : List Text) → count b (reverse xs) ≡ count b xs
unfolding count
count-reverse b [] = refl
count-reverse b (x ∷ xs) = ground (
  arith,
  ap (count b) (reverse-append (x ∷ []) xs),
  count-append b (reverse xs) (x ∷ []),
  count-reverse b xs,
)

count-sift :
    (b x : Text) (left right : List Text)
    → count b (sift x left right) ≡ count b (reverse left) + count b (x ∷ right)
unfolding count sift
count-sift b x [] right = omega arith
count-sift b x (y ∷ left) right = ground (
  arith,
  ap (count b) (reverse-append (y ∷ []) left),
  count-append b (reverse left) (y ∷ []),
  count-append b (reverse left) (y ∷ x ∷ right),
  count-sift b x left (y ∷ right),
)

All-insert_middle :
    (P : Text → Type 0) (p : List Text) (y x : Text) (right : List Text)
    → (P y → P x)
    → All P (p ++ (y ∷ right))
    → All P (p ++ (y ∷ x ∷ right))
All-insert_middle P [] y x right f h = (h.0, (f h.0, h.1))
All-insert_middle P (q ∷ p) y x right f h = (h.0, All-insert_middle P p y x right f h.1)

All-middle :
    (P : Text → Type 0) (p : List Text) (y : Text) (right : List Text)
    → All P (p ++ (y ∷ right))
    → P y
All-middle P [] y right h = h.0
All-middle P (q ∷ p) y right h = All-middle P p y right h.1

IsSorted-insert_middle :
    (p : List Text) (y x : Text) (right : List Text)
    → text_ltb x y ≡ false
    → All (λ z. text_ltb z x ≡ false) right
    → IsSorted (p ++ (y ∷ right))
    → IsSorted (p ++ (y ∷ x ∷ right))
IsSorted-insert_middle [] y x right h k s = ((h, s.0), (k, s.1))
IsSorted-insert_middle (q ∷ p) y x right h k s = (
  All-insert_middle _ p y x right (λ below. text_ltb_trans q y x (All-middle _ p y right s.0) h)
      s.0,
  IsSorted-insert_middle p y x right h k s.1,
)

IsSorted-append_right : (p right : List Text) → IsSorted (p ++ right) → IsSorted right
IsSorted-append_right [] right s = s
IsSorted-append_right (q ∷ p) right s = IsSorted-append_right p right s.1

All-append_right : (P : Text → Type 0) (p right : List Text) → All P (p ++ right) → All P right
All-append_right P [] right s = s
All-append_right P (q ∷ p) right s = All-append_right P p right s.1

-- The element in hand goes to its place among sorted neighbours.
sift-IsSorted :
    (x : Text) (left right : List Text)
    → All (λ z. text_ltb z x ≡ false) right
    → IsSorted (reverse left ++ right)
    → IsSorted (sift x left right)
unfolding sift
sift-IsSorted x [] right h s = (h, s)
sift-IsSorted x (y ∷ left) right h s =
    let s' = split_last in
    elim (Bool-cases (text_ltb x y)) [
      | inl less ↦ rw less (sift-IsSorted x left (y ∷ right) (text_ltb_asymm x y less, h) s')
      | inr stop ↦ rw stop (IsSorted-insert_middle (reverse left) y x right stop h s')
    ]
  where
    split_last : IsSorted (reverse left ++ (y ∷ right))
    split_last = rw (reverse-append (y ∷ []) left, append_assoc (reverse left) (y ∷ []) right) at s

sort_from-IsSorted : (done rest : List Text) → IsSorted done → IsSorted (sort_from done rest)
unfolding sort_from
sort_from-IsSorted done [] s = s
sort_from-IsSorted done (x ∷ rest) s =
    sort_from-IsSorted (sift x (reverse done) []) rest
      (sift-IsSorted x (reverse done) [] tt (rw (reverse-reverse, append-nil) s))

count-sort_from :
    (b : Text) (done rest : List Text) → count b (sort_from done rest) ≡ count b done + count b rest
unfolding sort_from count
count-sort_from b done [] = omega arith
count-sort_from b done (x ∷ rest) = ground (
  arith,
  count-sort_from b (sift x (reverse done) []) rest,
  count-sift b x (reverse done) [],
  ap (count b) (reverse-reverse done),
)

pub count-sort_strings : (b : Text) (xs : List Text) → count b (sort_strings xs) ≡ count b xs
unfolding sort_strings count
count-sort_strings b [] = refl
count-sort_strings b (x ∷ rest) = omega (arith, count-sort_from b (x ∷ []) rest)

-- `sortStrings` gives a sorted slice that holds each string as often as the slice it was given.
pub sort_strings-IsSorted :
    (xs : List Text)
    → IsSorted (sort_strings xs) × ((b : Text) → count b (sort_strings xs) ≡ count b xs)
unfolding sort_strings
sort_strings-IsSorted [] = (tt, λ b. refl)
sort_strings-IsSorted (x ∷ rest) =
    (sort_from-IsSorted (x ∷ []) rest (tt, tt), λ b. count-sort_strings b (x ∷ rest))

pub insert_sorted-IsSorted :
    (s : List Text) (a : Text)
    → IsSorted s
    → IsSorted (insert_sorted s a) × ((b : Text) → count b (insert_sorted s a) ≡ count b (a ∷ s))
insert_sorted-IsSorted s a h =
    (rw (insert_sorted-eq-place s a) (place-IsSorted a s h), λ b. count-insert_sorted b a s)
