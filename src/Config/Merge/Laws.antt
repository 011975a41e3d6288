-- ===== src/Config/Merge/Laws.antt =====
-- Overlays of src/domain/config.go that came from YAML, and what `deepMergeConfig` makes of the
-- environment of a service.
use previewctl.Base.{
  Option, none, some, [], ◌∷◌, ◌≡◌, refl, subst, inl, inr, arith, Text, ◌==◌, Map, lookup,
  HasUniqueKeys, get_or, Bool-cases, lookup-merge_entries,
}
use previewctl.Config.{ServiceConfig, ProjectConfig}
use previewctl.Config.Merge.{merge_env}

-- `Q` holds of each value of the map.
abbrev pub AllValues {ℓ κ} : {V : Type ℓ} → (V → Type κ) → Map V → Type κ
AllValues Q [] = Unit
AllValues Q ((k, v) ∷ m) = Q v × AllValues Q m

-- The environment of a service of an overlay has no key twice.
abbrev pub HasUniqueEnv : ServiceConfig → Type 0
HasUniqueEnv svc = HasUniqueKeys (get_or svc.env [])

-- An overlay that came from YAML: no mapping has a key twice.
pub record IsOverlay (overlay : ProjectConfig) : Type 0 where
  pub services : HasUniqueKeys overlay.services
  pub provisioner_services : HasUniqueKeys overlay.provisioner.services
  pub envs : AllValues HasUniqueEnv overlay.services

abbrev newer : Text → Text → Text
newer old new = new

abbrev pub or_else {ℓ} : {A : Type ℓ} → Option A → Option A → Option A
or_else none b = b
or_else (some a) b = some a

pub lookup-merge_env :
    (key : Text) (base overlay : Option (Map Text))
    → HasUniqueKeys (get_or overlay [])
    → lookup key (get_or (merge_env base overlay) [])
      ≡ or_else (lookup key (get_or overlay [])) (lookup key (get_or base []))
unfolding merge_env lookup
lookup-merge_env key base none u = refl
lookup-merge_env key base (some env) u =
    ground (arith, lookup-merge_entries newer (get_or base []) env key u)

pub HasUniqueEnv-lookup :
    (k : Text) (m : Map ServiceConfig) (svc : ServiceConfig)
    → AllValues HasUniqueEnv m
    → lookup k m ≡ some svc
    → HasUniqueEnv svc
unfolding lookup
HasUniqueEnv-lookup k [] svc h e = ground arith
HasUniqueEnv-lookup k ((j, v) ∷ m) svc h e = elim (Bool-cases (j == k)) [
  | inl here ↦ subst HasUniqueEnv {x = v} {y = svc} (ground arith) h.0
  | inr later ↦ HasUniqueEnv-lookup k m svc h.1 (ground arith)
]
