-- ===== src/Graph/Counts.antt =====
-- What `TopologicalSort` counts before its loop: the in-degree of a service is the number of its
-- dependencies that are services, and a service stands in `dependents[m]` once for each time that it
-- depends on `m`.
use previewctl.Base.{
  Text, Map, lookup, insert, lookup-insert, HasUniqueKeys, insert-HasUniqueKeys, ℕ, ◌+◌, true, not,
  ◌&&◌, none, some, List, [], ◌∷◌, ◌++◌, eq_iff, eq_refl, ◌==◌, if◌then◌else◌, is_some, get_or,
  count, count-append, elem, ◌≡◌, refl, arith, eqb,
}
use previewctl.Config.{ServiceConfig}
use previewctl.Graph.{Tally, init_degrees, add_edge, add_edges, tally_services, build_tally, ready}

-- The dependencies that a service of `m` declares.
unfoldable pub needs : Map ServiceConfig → Text → List Text
needs m name = elim (lookup name m) [ none ↦ [] | some svc ↦ svc.depends_on ]

-- How many of `deps` are services and not yet in `done`.
unfoldable pub pending : Map ServiceConfig → List Text → List Text → ℕ
pending services done [] = 0
pending services done (d ∷ deps) =
    (if is_some (lookup d services) && not (elem d done) then 1 else 0) + pending services done deps

lookup-init_degrees :
    (m : Map ServiceConfig) (acc : Map ℕ) (n : Text)
    → lookup n (init_degrees m acc) ≡ (if is_some (lookup n m) then some 0 else lookup n acc)
unfolding init_degrees lookup
lookup-init_degrees [] acc n = refl
lookup-init_degrees ((name, svc) ∷ m) acc n =
    ground (
      arith,
      eq_iff name n,
      lookup-init_degrees m (insert name 0 acc) n,
      lookup-insert name n 0 acc,
    )

module _ (services : Map ServiceConfig) where
  abbrev degree : Tally → Text → ℕ
  degree t n = get_or (lookup n t.in_degree) 0

  abbrev dependents_of : Tally → Text → List Text
  dependents_of t m = get_or (lookup m t.dependents) []

  degree-add_edge :
      (name d : Text) (t : Tally) (n : Text)
      → degree (add_edge services name d t) n
        ≡ degree t n + (if (name == n) && is_some (lookup d services) then 1 else 0)
  unfolding add_edge
  degree-add_edge name d t n = ground (
    arith,
    eq_iff name n,
    lookup-insert name n (get_or (lookup name t.in_degree) 0 + 1) t.in_degree,
  )

  count-add_edge :
      (name d : Text) (t : Tally) (n m : Text)
      → count n (dependents_of (add_edge services name d t) m)
        ≡ count n (dependents_of t m)
          + (if (name == n) && (is_some (lookup m services) && (d == m)) then 1 else 0)
  unfolding add_edge count
  count-add_edge name d t n m = ground (
    arith,
    eq_iff d m,
    count-append n (dependents_of t d) (name ∷ []),
    lookup-insert d m (get_or (lookup d t.dependents) [] ++ name ∷ []) t.dependents,
  )

  degree-add_edges :
      (name : Text) (deps : List Text) (t : Tally) (n : Text)
      → degree (add_edges services name deps t) n
        ≡ degree t n + (if name == n then pending services [] deps else 0)
  unfolding add_edges pending elem
  degree-add_edges name [] t n = ground arith
  degree-add_edges name (d ∷ deps) t n =
      ground (
        arith,
        degree-add_edges name deps (add_edge services name d t) n,
        degree-add_edge name d t n,
      )

  count-add_edges :
      (name : Text) (deps : List Text) (t : Tally) (n m : Text)
      → count n (dependents_of (add_edges services name deps t) m)
        ≡ count n (dependents_of t m)
          + (if (name == n) && is_some (lookup m services) then count m deps else 0)
  unfolding add_edges count
  count-add_edges name [] t n m = ground arith
  count-add_edges name (d ∷ deps) t n m = ground (
    arith,
    count-add_edges name deps (add_edge services name d t) n m,
    count-add_edge name d t n m,
  )

  degree-tally_services :
      (rest : Map ServiceConfig) (t : Tally) (n : Text)
      → HasUniqueKeys rest
      → degree (tally_services services rest t) n ≡ degree t n + pending services [] (needs rest n)
  unfolding tally_services needs pending lookup
  degree-tally_services [] t n u = omega arith
  degree-tally_services ((name, svc) ∷ rest) t n u = ground (
    arith,
    eq_iff name n,
    degree-add_edges name svc.depends_on t n,
    degree-tally_services rest (add_edges services name svc.depends_on t) n,
  )

  count-tally_services :
      (rest : Map ServiceConfig) (t : Tally) (n m : Text)
      → HasUniqueKeys rest
      → count n (dependents_of (tally_services services rest t) m)
        ≡ count n (dependents_of t m)
          + (if is_some (lookup m services) then count m (needs rest n) else 0)
  unfolding tally_services needs count lookup
  count-tally_services [] t n m u = ground arith
  count-tally_services ((name, svc) ∷ rest) t n m u = ground (
    arith,
    eq_iff name n,
    count-add_edges name svc.depends_on t n m,
    count-tally_services rest (add_edges services name svc.depends_on t) n m,
  )

-- The names that have an in-degree are those of the services, each once.
module _ (services : Map ServiceConfig) where
  add_edge_names :
      (name d : Text) (t : Tally) (n : Text)
      → (is_some (lookup name t.in_degree) ≡ true)
      → is_some (lookup n (add_edge services name d t).in_degree) ≡ is_some (lookup n t.in_degree)
  unfolding add_edge
  add_edge_names name d t n h = ground (
    arith,
    eq_iff name n,
    lookup-insert name n (get_or (lookup name t.in_degree) 0 + 1) t.in_degree,
  )

  add_edges_names :
      (name : Text) (deps : List Text) (t : Tally) (n : Text)
      → (is_some (lookup name t.in_degree) ≡ true)
      → is_some (lookup n (add_edges services name deps t).in_degree)
        ≡ is_some (lookup n t.in_degree)
  unfolding add_edges
  add_edges_names name [] t n h = refl
  add_edges_names name (d ∷ deps) t n h = ground (
    arith,
    add_edges_names name deps (add_edge services name d t) n,
    add_edge_names name d t n,
    add_edge_names name d t name,
  )

  tally_names :
      (rest : Map ServiceConfig) (t : Tally)
      → ((n : Text) → is_some (lookup n rest) ≡ true → is_some (lookup n t.in_degree) ≡ true)
      → HasUniqueKeys rest
      → (n : Text)
      → is_some (lookup n (tally_services services rest t).in_degree)
        ≡ is_some (lookup n t.in_degree)
  unfolding tally_services lookup
  tally_names [] t h u n = refl
  tally_names ((name, svc) ∷ rest) t h u n =
      let next = add_edges services name svc.depends_on t in
      let here : is_some (lookup name t.in_degree) ≡ true = ground (arith, h name, eq_refl name) in
      ground (
        arith,
        add_edges_names name svc.depends_on t n here,
        tally_names rest next
            (λ k in_rest.
              ground (arith, h k, eq_iff name k, add_edges_names name svc.depends_on t k here))
            u.1 n,
      )

  add_edges_unique :
      (name : Text) (deps : List Text) (t : Tally)
      → HasUniqueKeys t.in_degree
      → HasUniqueKeys (add_edges services name deps t).in_degree
  unfolding add_edges add_edge
  add_edges_unique name [] t u = u
  add_edges_unique name (d ∷ deps) t u = add_edges_unique name deps (add_edge services name d t) (
      ground
        (arith, insert-HasUniqueKeys name (get_or (lookup name t.in_degree) 0 + 1) t.in_degree))

  tally_unique :
      (rest : Map ServiceConfig) (t : Tally)
      → HasUniqueKeys t.in_degree
      → HasUniqueKeys (tally_services services rest t).in_degree
  unfolding tally_services
  tally_unique [] t u = u
  tally_unique ((name, svc) ∷ rest) t u =
      tally_unique rest (add_edges services name svc.depends_on t)
        (add_edges_unique name svc.depends_on t u)

init_degrees_unique :
    (m : Map ServiceConfig) (acc : Map ℕ) → HasUniqueKeys acc → HasUniqueKeys (init_degrees m acc)
unfolding init_degrees
init_degrees_unique [] acc u = u
init_degrees_unique ((name, svc) ∷ m) acc u =
    init_degrees_unique m (insert name 0 acc) (insert-HasUniqueKeys name 0 acc u)

pub count-ready :
    (n : Text) (m : Map ℕ)
    → HasUniqueKeys m
    → count n (ready m) ≡ (if is_some (lookup n m) && eqb (get_or (lookup n m) 0) 0 then 1 else 0)
unfolding ready count lookup
count-ready n [] u = refl
count-ready n ((name, deg) ∷ m) u = ground (arith, eq_iff name n, count-ready n m)

-- The tally, in one record.
pub record Counted (services : Map ServiceConfig) (t : Tally) : Type 0 where
  pub degrees :
      (n : Text) → get_or (lookup n t.in_degree) 0 ≡ pending services [] (needs services n)
  pub edges :
      (n m : Text)
      → count n (get_or (lookup m t.dependents) [])
        ≡ (if is_some (lookup m services) then count m (needs services n) else 0)
  pub names : (n : Text) → is_some (lookup n t.in_degree) ≡ is_some (lookup n services)
  pub unique : HasUniqueKeys t.in_degree

pub build_tally-Counted :
    (services : Map ServiceConfig)
    → HasUniqueKeys services
    → Counted services (build_tally services)
unfolding build_tally count lookup
build_tally-Counted services u = record {
  degrees = λ n.
      ground (
        arith,
        degree-tally_services services services start n u,
        lookup-init_degrees services [] n,
      );
  edges = λ n m. ground (arith, count-tally_services services services start n m u);
  names = λ n. ground (
    arith,
    tally_names services services start
        (λ k live. ground (arith, lookup-init_degrees services [] k)) u n,
    lookup-init_degrees services [] n,
  );
  unique = tally_unique services services start (init_degrees_unique services [] tt);
}
  where
    start : Tally
    start = record { in_degree = init_degrees services []; dependents = [] }
