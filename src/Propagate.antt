-- ===== src/Propagate.antt =====
-- src/domain/propagate.go: which services a changed output or store value concerns.
mod Changes
mod Within
mod Unmentioned
mod Affected
mod Samples
use previewctl.Config.{is_empty, ProjectConfig, ServiceConfig, resolved_env_file}
use previewctl.Ports.{PortMap}
use previewctl.Template.{TemplateContext, render_env_map}
use previewctl.Base.{
  ℕ, zero, suc, ◌+◌, ◌-◌, ◌*◌, ◌/◌, ◌%◌, ◌^◌, ◌≤◌, ◌<◌, Bool, true, false, ◌&&◌, ◌||◌, not, Option,
  none, some, List, [], ◌∷◌, ◌++◌, map, reverse, ◌≡◌, refl, sym, ap, ◌∙◌, subst, ◌≢◌, ◌↔◌, ◌⊎◌, inl,
  inr, arith, Text, bytes, ◌==◌, eq_iff, eq_refl, Map, lookup, insert, erase, keys, lookup-insert,
  lookup-erase, HasUniqueKeys, if◌then◌else◌, ltb, leb, eqb, is_some, get_or, Bool-cases,
  Option-cases, length, elem, count, All, Result, ok, err, sort, contains,
}

-- `differs`: what `before[k] != v` tests. A key that is not there reads as the empty text.
abbrev pub differs : Map Text → Text → Text → Bool
differs before k v = not (get_or (lookup k before) [] == v)

unfoldable pub changed_values : Map Text → Map Text → List Text
changed_values before [] = []
changed_values before ((k, v) ∷ after) =
    let rest = changed_values before after in if differs before k v then k ∷ rest else rest

-- The second loop; `seen` holds the keys that the first one reported.
unfoldable pub removed_keys : Map Text → List Text → Map Text → List Text
removed_keys after seen [] = []
removed_keys after seen ((k, v) ∷ before) =
    let rest = removed_keys after seen before in
    if not (is_some (lookup k after)) && not (elem k seen) then k ∷ rest else rest

unfoldable pub diff_store_keys : Map Text → Map Text → List Text
unfolding changed_values removed_keys
diff_store_keys before after =
    let changed = changed_values before after in sort (changed ++ removed_keys after changed before)

-- The texts to look for.
abbrev pub store_needles : List Text → List Text
store_needles [] = []
store_needles (k ∷ ks) = (bytes "store." ++ k) ∷ store_needles ks

unfoldable pub needles : Text → List Text → List Text
needles provisioner_name changed_store_keys =
    (if is_empty provisioner_name
      then []
      else (bytes "provisioner." ++ (provisioner_name ++ bytes ".")) ∷ [])
    ++ store_needles changed_store_keys

-- `contains` of the source.
unfoldable pub contains_any : List Text → Text → Bool
contains_any [] s = false
contains_any (n ∷ ns) s = contains s n || contains_any ns s

unfoldable pub mentions : List Text → Map Text → Bool
unfolding contains_any
mentions ns [] = false
mentions ns ((k, v) ∷ env) = contains_any ns v || mentions ns env

-- `direct`, in the order of the services, and `needsCompose`.
unfoldable pub is_direct : List Text → ServiceConfig → Bool
unfolding mentions contains_any
is_direct ns svc = mentions ns (get_or svc.env []) || contains_any ns svc.start

unfoldable pub direct_services : List Text → Map ServiceConfig → List Text
unfolding is_direct
direct_services ns [] = []
direct_services ns ((name, svc) ∷ services) =
    let rest = direct_services ns services in if is_direct ns svc then name ∷ rest else rest

unfoldable pub needs_compose : List Text → Map ServiceConfig → Bool
unfolding contains_any
needs_compose ns [] = false
needs_compose ns ((name, svc) ∷ services) = contains_any ns svc.start || needs_compose ns services

-- `affectedPaths`
unfoldable pub direct_paths : List Text → Map ServiceConfig → List Text
unfolding is_direct
direct_paths ns [] = []
direct_paths ns ((name, svc) ∷ services) =
    let rest = direct_paths ns services in if is_direct ns svc then svc.path ∷ rest else rest

unfoldable pub services_on : List Text → Map ServiceConfig → List Text
services_on paths [] = []
services_on paths ((name, svc) ∷ services) =
    let rest = services_on paths services in if elem svc.path paths then name ∷ rest else rest

-- `needsCompose`, and the set `affected` as a list of names.
unfoldable pub services_affected_by_change : Map ServiceConfig → Text → List Text → Bool × List Text
unfolding needs_compose direct_services direct_paths services_on needles
services_affected_by_change services provisioner_name changed_store_keys =
    let ns = needles provisioner_name changed_store_keys in
    (
      needs_compose ns services,
      direct_services ns services ++ services_on (direct_paths ns services) services,
    )

-- `toRestart`: the enabled services that are affected, sorted.
unfoldable pub affected_of : List Text → List Text → List Text
affected_of affected [] = []
affected_of affected (name ∷ enabled) =
    let rest = affected_of affected enabled in if elem name affected then name ∷ rest else rest

unfoldable pub to_restart : List Text → List Text → List Text
unfolding affected_of
to_restart affected enabled = sort (affected_of affected enabled)
