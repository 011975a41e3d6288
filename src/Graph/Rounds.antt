-- ===== src/Graph/Rounds.antt =====
-- The loop of `TopologicalSort`: what holds between two rounds, and that the fuel is enough.
use previewctl.Base.{
  Text, Map, lookup, insert, lookup-insert, keys, HasUniqueKeys, ℕ, zero, suc, ◌+◌, ◌≤◌, true,
  false, ◌&&◌, Option, some, List, [], ◌∷◌, ◌++◌, eq_iff, eq_refl, if◌then◌else◌, is_some, get_or,
  count, count-append, elem, elem-append, elem-count, ◌≡◌, refl, arith, eqb, length, length-append,
  ◌-◌, append-nil, count-keys, length-le_of_known, append_assoc, length-keys,
}
use previewctl.Config.{ServiceConfig}
use previewctl.Graph.{release, drain, insert_sorted}
use previewctl.Graph.Counts.{needs, pending}
use previewctl.Graph.Insertion.{count-insert_sorted}

-- `todo` is what is left of `dependents[node]` for the last node of `result`.
pub record Inv (services : Map ServiceConfig) (degrees : Map ℕ) (todo queue result : List Text)
    : Type 0 where
  pub degree :
      (n : Text)
      → is_some (lookup n services) ≡ true
      → get_or (lookup n degrees) 0 ≡ pending services result (needs services n) + count n todo
  pub placed :
      (n : Text)
      → count n result + count n queue
        ≡ (if is_some (lookup n services) && eqb (get_or (lookup n degrees) 0) 0 then 1 else 0)
  pub known : (n : Text) → is_some (lookup n services) ≡ false → count n todo ≡ 0

-- One more service in `result` is one pending dependency less where it is depended on.
pub pending-snoc :
    (services : Map ServiceConfig) (result deps : List Text) (node : Text)
    → is_some (lookup node services) ≡ true
    → elem node result ≡ false
    → pending services (result ++ node ∷ []) deps + count node deps ≡ pending services result deps
unfolding pending count elem
pending-snoc services result [] node s e = refl
pending-snoc services result (d ∷ deps) node s e = ground (
  arith,
  eq_iff node d,
  eq_iff d node,
  elem-append d result (node ∷ []),
  pending-snoc services result deps node s e,
)

module _ (services : Map ServiceConfig) where
  release-Inv :
      (todo : List Text) (degrees : Map ℕ) (queue result : List Text)
      → Inv services degrees todo queue result
      → Inv services (release todo degrees queue).0 [] (release todo degrees queue).1 result
  unfolding release count
  release-Inv [] degrees queue result inv = inv
  release-Inv (d ∷ todo) degrees queue result inv =
      release-Inv todo degrees' queue' result (record {
        degree =
            λ n s. ground (arith, eq_iff d n, inv.degree n s, lookup-insert d n (old - 1) degrees);
        placed = λ n. ground (
          arith,
          eq_iff d n,
          inv.placed n,
          inv.degree n,
          inv.known n,
          lookup-insert d n (old - 1) degrees,
          count-insert_sorted n d queue,
        );
        known = λ n s. ground (arith, inv.known n s);
      })
    where
      old : ℕ
      old = get_or (lookup d degrees) 0

      degrees' : Map ℕ
      degrees' = insert d (old - 1) degrees

      queue' : List Text
      queue' = if eqb old 1 then insert_sorted queue d else queue

-- All dependencies of `n` that are services stand in `seen`.
abbrev pub DependenciesIn : Map ServiceConfig → List Text → Text → Type 0
DependenciesIn services seen n =
    (d : Text)
    → is_some (lookup d services) ≡ true
    → elem d (needs services n) ≡ true
    → elem d seen ≡ true

-- Each service stands behind its dependencies.
abbrev pub IsOrdered : Map ServiceConfig → List Text → List Text → Type 0
IsOrdered services seen [] = Unit
IsOrdered services seen (n ∷ ns) =
    DependenciesIn services seen n × IsOrdered services (seen ++ n ∷ []) ns

IsOrdered-snoc :
    (services : Map ServiceConfig) (seen ns : List Text) (n : Text)
    → IsOrdered services seen ns
    → DependenciesIn services (seen ++ ns) n
    → IsOrdered services seen (ns ++ n ∷ [])
IsOrdered-snoc services seen [] n h d = (rw append-nil at d, tt)
IsOrdered-snoc services seen (m ∷ ns) n h d =
    (h.0, IsOrdered-snoc services (seen ++ m ∷ []) ns n h.1 (rw append_assoc d))

pub pending_zero :
    (services : Map ServiceConfig) (seen deps : List Text) (d : Text)
    → pending services seen deps ≡ 0
    → is_some (lookup d services) ≡ true
    → elem d deps ≡ true
    → elem d seen ≡ true
unfolding pending elem
pending_zero services seen [] d z s m = ground arith
pending_zero services seen (e ∷ deps) d z s m =
    ground (arith, eq_iff e d, pending_zero services seen deps d)

-- What the loop leaves: an empty queue, under the invariant.
pub record Drained (services : Map ServiceConfig) (outcome : Option (List Text)) : Type 0 where
  pub result : List Text
  pub returned : outcome ≡ some result
  pub degrees : Map ℕ
  pub inv : Inv services degrees [] [] result
  pub ordered : IsOrdered services [] result

module _ (services : Map ServiceConfig) (unique : HasUniqueKeys services) where
  -- A name in `result` or in the queue is that of a service, and stands there once.
  module _ {degrees : Map ℕ} {queue result : List Text}
      (inv : Inv services degrees [] queue result) where
    pub placed_once : (n : Text) → count n result ≤ 1
    placed_once n = ground (arith, inv.placed n)

    pub placed_known : (n : Text) → elem n result ≡ true → count n (keys services) ≡ 1
    placed_known n m =
        ground (arith, inv.placed n, elem-count n result, count-keys n services unique)

    pub length-placed-le : length result ≤ length services
    length-placed-le = omega (
      arith,
      length-le_of_known (keys services) result placed_known placed_once,
      length-keys services,
    )

  module _ (dependents : Map (List Text))
      (edges : (n m : Text)
        → count n (get_or (lookup m dependents) [])
          ≡ (if is_some (lookup m services) then count m (needs services n) else 0)) where
    round-Inv :
        (degrees : Map ℕ) (node : Text) (queue result : List Text)
        → Inv services degrees [] (node ∷ queue) result
        → Inv services degrees (get_or (lookup node dependents) []) queue (result ++ node ∷ [])
    unfolding count needs
    round-Inv degrees node queue result inv = record {
      degree = λ n s. ground (
        arith,
        inv.degree n s,
        edges n node,
        inv.placed node,
        eq_refl node,
        elem-count node result,
        pending-snoc services result (needs services n) node,
      );
      placed = λ n. ground (arith, inv.placed n, count-append n result (node ∷ []));
      known = λ n s. ground (arith, edges n node);
    }

    pub drain_lem :
        (fuel : ℕ) (degrees : Map ℕ) (queue result : List Text)
        → Inv services degrees [] queue result
        → IsOrdered services [] result
        → fuel + length result ≡ suc (length services)
        → Drained services (drain fuel dependents degrees queue result)
    unfolding drain count
    drain_lem zero degrees queue result inv o e = absurd (omega (arith, length-placed-le inv))
    drain_lem (suc fuel) degrees [] result inv o e = record {
      result = result;
      returned = refl;
      degrees = degrees;
      inv = inv;
      ordered = o;
    }
    drain_lem (suc fuel) degrees (node ∷ queue) result inv o e =
        let todo = get_or (lookup node dependents) [] in
        drain_lem fuel (release todo degrees queue).0 (release todo degrees queue).1
          (result ++ node ∷ [])
          (release-Inv services todo degrees queue (result ++ node ∷ [])
            (round-Inv degrees node queue result inv))
          (IsOrdered-snoc services [] result node o (λ d s m.
            pending_zero services result (needs services node) d
              (ground (arith, inv.placed node, inv.degree node, eq_refl node)) s m))
          (omega (arith, length-append result (node ∷ [])))
