-- ===== src/Graph/Order.antt =====
-- The outcomes of `TopologicalSort` in src/domain/dependency_graph.go: its order and its error.
use previewctl.Base.{
  Text, Map, lookup, keys, HasUniqueKeys, ℕ, zero, suc, ◌<◌, true, some, List, [], ◌∷◌, ◌++◌,
  eq_iff, eq_refl, ◌==◌, if◌then◌else◌, is_some, count, elem, elem-append, count-elem, ◌≡◌, refl,
  arith, Bool-cases, inl, inr, ◌⊎◌, eqb, length, ok, err, bytes, elem-keys, length_of_count,
  count_of_length, length-keys, subst,
}
use previewctl.Config.{ServiceConfig}
use previewctl.Graph.{topological_sort, sort_strings, ready, drain, finish, build_tally}
use previewctl.Graph.Counts.{needs, pending, count-ready, build_tally-Counted, Counted}
use previewctl.Graph.Insertion.{count-sort_strings}
use previewctl.Graph.Rounds.{Drained, drain_lem, IsOrdered, placed_once, placed_known}

pub record IsTopological (services : Map ServiceConfig) (order : List Text) : Type 0 where
  pub once : (n : Text) → count n order ≡ (if is_some (lookup n services) then 1 else 0)
  pub ordered : IsOrdered services [] order

-- A number for each service that is greater than those of the services it depends on.
abbrev pub IsRanked : Map ServiceConfig → (Text → ℕ) → Type 0
IsRanked services rank =
    (n d : Text)
    → is_some (lookup n services) ≡ true
    → is_some (lookup d services) ≡ true
    → elem d (needs services n) ≡ true
    → rank d < rank n

abbrev pub IsAcyclic : Map ServiceConfig → Type 0
IsAcyclic services = (rank : Text → ℕ) × IsRanked services rank

-- Where a name stands first.
unfoldable pub position : Text → List Text → ℕ
position n [] = 0
position n (m ∷ ns) = let rest = position n ns in if m == n then 0 else suc rest

IsOrdered-position :
    (services : Map ServiceConfig) (seen ns : List Text) (n d : Text)
    → IsOrdered services seen ns
    → elem n ns ≡ true
    → is_some (lookup d services) ≡ true
    → elem d (needs services n) ≡ true
    → (elem d seen ≡ true) ⊎ (position d ns < position n ns)
unfolding position elem
IsOrdered-position services seen [] n d o m s e = ground arith
IsOrdered-position services seen (k ∷ ns) n d o m s e = ground (
  arith,
  eq_iff k n,
  eq_iff k d,
  o.0 d,
  elem-append d seen (k ∷ []),
  IsOrdered-position services (seen ++ k ∷ []) ns n d o.1,
)

pending_all :
    (services : Map ServiceConfig) (seen deps : List Text)
    → ((d : Text) → is_some (lookup d services) ≡ true → elem d deps ≡ true → elem d seen ≡ true)
    → pending services seen deps ≡ 0
unfolding pending elem
pending_all services seen [] h = refl
pending_all services seen (e ∷ deps) h =
    ground (arith, h e, eq_refl e, pending_all services seen deps (λ d s m. h d s (ground arith)))

module _ (services : Map ServiceConfig) (unique : HasUniqueKeys services) where
  -- The loop of `topological_sort` ends with an empty queue.
  drained : Drained services (
      drain
        (suc (length services))
        (build_tally services).dependents
        (build_tally services).in_degree
        (sort_strings (ready (build_tally services).in_degree))
        [])
  unfolding count elem
  drained =
      drain_lem services unique t.dependents c.edges (suc (length services)) t.in_degree
        (sort_strings (ready t.in_degree)) []
        (record {
          degree = λ n s. ground (arith, c.degrees n);
          placed = λ n. ground (
            arith,
            count-sort_strings n (ready t.in_degree),
            count-ready n t.in_degree c.unique,
            c.names n,
          );
          known = λ n s. refl;
        })
        tt (omega arith)
    where
      t : previewctl.Graph.Tally
      t = build_tally services

      c : Counted services t
      c = build_tally-Counted services unique

  topological_sort_run : topological_sort services ≡ some (finish services drained.result)
  unfolding topological_sort
  topological_sort_run = rw (drained.returned, topological_sort)

  -- With as many names in the result as there are services, every service is there.
  full-IsTopological :
      length drained.result ≡ length services → IsTopological services drained.result
  full-IsTopological full = record {
    once = λ n. ground (
      arith,
      drained.inv.placed n,
      elem-keys n services,
      length-keys services,
      count_of_length (keys services) drained.result (placed_known services unique drained.inv)
          (placed_once services unique drained.inv) (omega (arith, length-keys services)) n,
    );
    ordered = drained.ordered;
  }

  -- In an acyclic graph no service is left with a pending dependency.
  ranked-placed :
      (rank : Text → ℕ)
      → IsRanked services rank
      → (k : ℕ) (n : Text) → rank n < k
      → is_some (lookup n services) ≡ true
      → count n drained.result ≡ 1
  unfolding count
  ranked-placed rank ranked zero n below live = absurd (omega arith)
  ranked-placed rank ranked (suc k) n below live =
      let waits_for_none : pending services drained.result (needs services n) ≡ 0 =
        pending_all services drained.result (needs services n) (λ d s m.
          count-elem d drained.result (
            omega (
              arith,
              ranked n d live s m,
              ranked-placed rank ranked k d (omega (arith, ranked n d live s m)) s,
            ))) in
      ground (arith, drained.inv.placed n, drained.inv.degree n)

  acyclic-full : IsAcyclic services → length drained.result ≡ length services
  acyclic-full (rank, ranked) =
      let full : (n : Text) → elem n (keys services) ≡ true → count n drained.result ≡ 1 = λ n m.
        ranked-placed rank ranked (suc (rank n)) n (omega arith)
          (ground (arith, elem-keys n services)) in
      omega (
        arith,
        length-keys services,
        length_of_count (keys services) drained.result (placed_known services unique drained.inv)
            (placed_once services unique drained.inv) full,
      )

  IsTopological-IsAcyclic : (order : List Text) → IsTopological services order → IsAcyclic services
  unfolding elem
  IsTopological-IsAcyclic order top = (
    (λ n. position n order),
    λ n d live s m. ground (
      arith,
      top.once n,
      count-elem n order,
      IsOrdered-position services [] order n d top.ordered,
    ),
  )

-- When `TopologicalSort` returns an order, the services are its elements, each once, and every
-- service stands behind the services it depends on. (The map has no key twice.)
pub topological_sort-IsTopological :
    (services : Map ServiceConfig) (order : List Text)
    → HasUniqueKeys services
    → topological_sort services ≡ some (ok order)
    → IsTopological services order
unfolding finish
topological_sort-IsTopological services order u h =
    elim (Bool-cases (eqb (length (drained services u).result) (length services))) [
      | inl full ↦
          subst (IsTopological services) (ground (arith, topological_sort_run services u))
            (full-IsTopological services u (ground arith))
      | inr short ↦ absurd (ground (arith, topological_sort_run services u))
    ]

-- `TopologicalSort` always ends, and decides: it returns an order if the dependencies among the
-- services can be ranked, whether or not there are others, and the cycle error if they cannot.
pub topological_sort_decides :
    (services : Map ServiceConfig)
    → HasUniqueKeys services
    → (IsAcyclic services × ((order : List Text) × (topological_sort services ≡ some (ok order))))
      ⊎ ((¬ IsAcyclic services)
          × (topological_sort services
              ≡ some (err (bytes "dependency cycle detected among services"))))
unfolding finish
topological_sort_decides services u =
    elim (Bool-cases (eqb (length (drained services u).result) (length services))) [
      | inl full ↦ inl (
        IsTopological-IsAcyclic services u (drained services u).result
            (full-IsTopological services u (ground arith)),
        ((drained services u).result, ground (arith, topological_sort_run services u)),
      )
      | inr short ↦ inr (
        (λ acyclic. ground (arith, acyclic-full services u acyclic)),
        ground (arith, topological_sort_run services u),
      )
    ]
