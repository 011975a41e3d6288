-- ===== src/Graph.antt =====
-- src/domain/dependency_graph.go: `TopologicalSort`, Kahn's algorithm over the `DependsOn` lists of
-- the services. Proofs stand in the modules below.
mod Insertion
mod Counts
mod Rounds
pub mod Order
mod Samples
use previewctl.Base.{
  Text, Map, lookup, insert, ℕ, zero, suc, ◌+◌, ◌-◌, Bool, true, false, Option, none, some, List,
  [], ◌∷◌, ◌++◌, bytes, text_ltb, eqb, if◌then◌else◌, is_some, get_or, length, Result, ok, err,
  reverse,
}
use previewctl.Config.{ServiceConfig}

-- The inner loop of `sortStrings`: `left` holds the elements before position `j`, the nearest first,
-- and `right` those that stand behind it. The element `x` at `j` moves left while it is less.
sift : Text → List Text → List Text → List Text
sift x [] right = x ∷ right
sift x (y ∷ left) right =
    if text_ltb x y then sift x left (y ∷ right) else reverse left ++ (y ∷ x ∷ right)

-- The outer loop: `done` is `s[:i]`, sorted, and the list that follows it is `s[i:]`.
sort_from : List Text → List Text → List Text
unfolding sift
sort_from done [] = done
sort_from done (x ∷ rest) = sort_from (sift x (reverse done) []) rest

unfoldable pub sort_strings : List Text → List Text
unfolding sort_from
sort_strings [] = []
sort_strings (x ∷ rest) = sort_from (x ∷ []) rest

unfoldable pub insert_sorted : List Text → Text → List Text
insert_sorted [] val = val ∷ []
insert_sorted (x ∷ s) val = if text_ltb x val then x ∷ insert_sorted s val else val ∷ x ∷ s

-- `inDegree` and `dependents`.
pub record Tally : Type 0 where
  pub in_degree : Map ℕ
  pub dependents : Map (List Text)

init_degrees : Map ServiceConfig → Map ℕ → Map ℕ
init_degrees [] m = m
init_degrees ((name, svc) ∷ rest) m = init_degrees rest (insert name 0 m)

add_edge : Map ServiceConfig → Text → Text → Tally → Tally
add_edge services name dep t =
    if is_some (lookup dep services)
    then record {
      in_degree = insert name (get_or (lookup name t.in_degree) 0 + 1) t.in_degree;
      dependents = insert dep (get_or (lookup dep t.dependents) [] ++ name ∷ []) t.dependents;
    }
    else t

add_edges : Map ServiceConfig → Text → List Text → Tally → Tally
add_edges services name [] t = t
add_edges services name (dep ∷ deps) t = add_edges services name deps (add_edge services name dep t)

tally_services : Map ServiceConfig → Map ServiceConfig → Tally → Tally
tally_services services [] t = t
tally_services services ((name, svc) ∷ rest) t =
    tally_services services rest (add_edges services name svc.depends_on t)

unfoldable pub build_tally : Map ServiceConfig → Tally
unfolding init_degrees add_edge add_edges tally_services
build_tally services =
    tally_services services services
      (record { in_degree = init_degrees services []; dependents = [] })

-- The names whose in-degree is 0.
pub ready : Map ℕ → List Text
ready [] = []
ready ((name, deg) ∷ rest) = if eqb deg 0 then name ∷ ready rest else ready rest

-- The loop over `dependents[node]`. An in-degree never goes below 0 (`release-Inv`), so that the
-- subtraction is exact; the test on the old value is the one on the new value.
pub release : List Text → Map ℕ → List Text → Map ℕ × List Text
release [] degrees queue = (degrees, queue)
release (dependent ∷ todo) degrees queue =
    let old = get_or (lookup dependent degrees) 0 in
    release todo (insert dependent (old - 1) degrees)
      (if eqb old 1 then insert_sorted queue dependent else queue)

-- The loop `for len(queue) > 0`; `none` means that the fuel ran out.
pub drain : ℕ → Map (List Text) → Map ℕ → List Text → List Text → Option (List Text)
drain zero dependents degrees queue result = none
drain (suc fuel) dependents degrees [] result = some result
drain (suc fuel) dependents degrees (node ∷ queue) result =
    let (degrees', queue') = release (get_or (lookup node dependents) []) degrees queue in
    drain fuel dependents degrees' queue' (result ++ node ∷ [])

pub finish : Map ServiceConfig → List Text → Result (List Text)
finish services result =
    if eqb (length result) (length services)
    then ok result
    else err (bytes "dependency cycle detected among services")

-- Each round moves one service from the queue to the result, so as many rounds as there are
-- services, and one to see that the queue is empty, are enough (`topological_sort_total`).
unfoldable pub topological_sort : Map ServiceConfig → Option (Result (List Text))
unfolding sort_strings insert_sorted build_tally ready release drain finish
topological_sort services =
    let t = build_tally services in
    elim (drain (suc (length services)) t.dependents t.in_degree (sort_strings (ready t.in_degree))
      []) [ none ↦ none | some result ↦ some (finish services result) ]
