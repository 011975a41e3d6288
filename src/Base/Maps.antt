-- ===== src/Base/Maps.antt =====
-- Go's `map[string]V` as an association list. The order of the entries stands for the order in which
-- a `for range` visits them, which Go leaves open.
use Prim.Native.Nat.{suc}
use mathlib.Core.Path.{◌≡◌, refl, ap}
use mathlib.Core.Option.{Option, none, some}
use mathlib.Core.Bool.{false}
use mathlib.Core.List.{List, [], ◌∷◌}
use native.Mathlib.Omega.{arith}
use previewctl.Base.Tests.{if◌then◌else◌, is_some}
use previewctl.Base.Texts.{Text, ◌==◌, eq_iff}
use previewctl.Base.Lists.{elem, count, length}

abbrev pub Map {ℓ} : Type ℓ → Type ℓ
Map V = List (Text × V)

module _ {ℓ} {V : Type ℓ} where
  -- `v, ok := m[key]`
  unfoldable pub lookup : Text → Map V → Option V
  lookup key [] = none
  lookup key ((name, value) ∷ rest) = if name == key then some value else lookup key rest

  -- `m[key] = value`: a new key goes to the end.
  unfoldable pub insert : Text → V → Map V → Map V
  insert key value [] = (key, value) ∷ []
  insert key value ((name, old) ∷ rest) =
      if name == key then (name, value) ∷ rest else (name, old) ∷ insert key value rest

  -- `delete(m, k)`
  unfoldable pub erase : Text → Map V → Map V
  erase k [] = []
  erase k ((j, w) ∷ m) = let rest = erase k m in if j == k then rest else (j, w) ∷ rest

  -- The keys, in the order of iteration.
  unfoldable pub keys : Map V → List Text
  keys [] = []
  keys ((j, w) ∷ m) = j ∷ keys m

  -- No key occurs twice.
  abbrev pub HasUniqueKeys : Map V → Type 0
  HasUniqueKeys [] = Unit {0}
  HasUniqueKeys ((j, w) ∷ m) = (is_some (lookup j m) ≡ false) × HasUniqueKeys m

  pub lookup-insert :
      (key other : Text) (value : V) (m : Map V)
      → lookup other (insert key value m) ≡ (if key == other then some value else lookup other m)
  unfolding insert lookup
  lookup-insert key other value [] = refl
  lookup-insert key other value ((name, old) ∷ rest) = ground (
    arith,
    lookup-insert key other value rest,
    eq_iff name other,
    eq_iff name key,
    eq_iff key other,
  )

  pub lookup-erase :
      (k j : Text) (m : Map V) → lookup j (erase k m) ≡ (if k == j then none else lookup j m)
  unfolding lookup erase
  lookup-erase k j [] = ground arith
  lookup-erase k j ((i, w) ∷ m) =
      ground (arith, eq_iff k j, eq_iff i k, eq_iff i j, lookup-erase k j m)

  pub elem-keys : (k : Text) (m : Map V) → elem k (keys m) ≡ is_some (lookup k m)
  unfolding elem keys lookup
  elem-keys k [] = refl
  elem-keys k ((j, v) ∷ m) = ground (arith, elem-keys k m)

  pub count-keys :
      (k : Text) (m : Map V)
      → HasUniqueKeys m
      → count k (keys m) ≡ (if is_some (lookup k m) then 1 else 0)
  unfolding count keys lookup
  count-keys k [] u = refl
  count-keys k ((j, v) ∷ m) u = ground (arith, eq_iff j k, count-keys k m)

  pub length-keys : (m : Map V) → length (keys m) ≡ length m
  unfolding keys
  length-keys [] = refl
  length-keys ((j, v) ∷ m) = ap suc (length-keys m)

  pub insert-HasUniqueKeys :
      (k : Text) (v : V) (m : Map V) → HasUniqueKeys m → HasUniqueKeys (insert k v m)
  unfolding insert lookup
  insert-HasUniqueKeys k v [] u = (refl, tt)
  insert-HasUniqueKeys k v ((j, w) ∷ m) u =
      ground (arith, eq_iff k j, eq_iff j k, lookup-insert k j v m, insert-HasUniqueKeys k v m)

  -- The loop `for k, v := range overlay { base[k] = combine(base[k], v) }`, where a key that `base`
  -- does not have is set to `v`.
  unfoldable pub merge_entries : (V → V → V) → Map V → Map V → Map V
  merge_entries combine base [] = base
  merge_entries combine base ((k, v) ∷ overlay) =
      let next : V = elim (lookup k base) [ none ↦ v | some w ↦ combine w v ] in
      merge_entries combine (insert k next base) overlay

  -- What `merge_entries` leaves under a key.
  abbrev pub merged : (V → V → V) → Option V → Option V → Option V
  merged combine old none = old
  merged combine none (some v) = some v
  merged combine (some w) (some v) = some (combine w v)

  pub lookup-merge_entries :
      (combine : V → V → V) (base overlay : Map V) (j : Text)
      → HasUniqueKeys overlay
      → lookup j (merge_entries combine base overlay)
        ≡ merged combine (lookup j base) (lookup j overlay)
  unfolding merge_entries lookup
  lookup-merge_entries combine base [] j u = refl
  lookup-merge_entries combine base ((k, v) ∷ overlay) j u =
      let next : V = elim (lookup k base) [ none ↦ v | some w ↦ combine w v ] in
      ground (
        arith,
        eq_iff k j,
        lookup-merge_entries combine (insert k next base) overlay j,
        lookup-insert k j next base,
      )
