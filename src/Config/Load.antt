-- ===== src/Config/Load.antt =====
-- `validateConfig`, `ParseConfig` and `LoadConfigWithOverlay` of src/domain/config.go. The YAML
-- library and the file system are parameters: what reading each of the two files gives.
mod Valid
mod Samples
use previewctl.Base.{
  ℕ, zero, suc, ◌+◌, ◌-◌, ◌*◌, ◌/◌, ◌%◌, ◌^◌, ◌≤◌, ◌<◌, Bool, true, false, ◌&&◌, ◌||◌, not, Option,
  none, some, List, [], ◌∷◌, ◌++◌, map, reverse, ◌≡◌, refl, sym, ap, ◌∙◌, subst, ◌≢◌, ◌↔◌, ◌⊎◌, inl,
  inr, arith, Text, bytes, ◌==◌, eq_iff, eq_refl, Map, lookup, insert, erase, keys, lookup-insert,
  lookup-erase, HasUniqueKeys, if◌then◌else◌, ltb, leb, eqb, is_some, get_or, Bool-cases,
  Option-cases, length, elem, count, All, Result, ok, err, ◌>>=◌,
}
use previewctl.Config.{ProjectConfig, ServiceConfig, ProvisionerServiceConfig, is_empty}
use previewctl.Config.Merge.{deep_merge_config}

-- `os.ReadFile`: the bytes, a file that is not there (`os.IsNotExist`), or another error.
pub data FileRead : Type 0 where
  contents : Text → FileRead
  missing : FileRead
  unreadable : Text → FileRead

abbrev pub quoted : Text → Text
quoted name = bytes "'" ++ (name ++ bytes "'")

-- The two loops of `validateConfig`.
check_paths : Map ServiceConfig → Result (Unit {0})
check_paths [] = ok tt
check_paths ((name, svc) ∷ services) =
    if is_empty svc.path
    then err (bytes "config validation: service " ++ (quoted name ++ bytes " requires 'path'"))
    else check_paths services

check_outputs : Map ProvisionerServiceConfig → Result (Unit {0})
check_outputs [] = ok tt
check_outputs ((name, svc) ∷ services) =
    if is_empty svc.outputs
    then err (
        bytes "config validation: provisioner service "
        ++ (quoted name ++ bytes " requires 'outputs'"))
    else check_outputs services

unfoldable pub validate_config : ProjectConfig → Result (Unit {0})
unfolding check_paths check_outputs
validate_config cfg =
    if is_empty cfg.name
    then err (bytes "config validation: 'name' is required")
    else if eqb cfg.version 0
    then err (bytes "config validation: 'version' is required")
    else check_paths cfg.services >>= λ _. check_outputs cfg.provisioner.services

module _ (unmarshal : Text → Result ProjectConfig) where
  unfoldable pub parse_config : Text → Result ProjectConfig
  unfolding validate_config
  parse_config input = elim (unmarshal input) [
    | err e ↦ err (bytes "parsing config: " ++ e)
    | ok cfg ↦ validate_config cfg >>= λ _. ok cfg
  ]

  unfoldable pub load_config : FileRead → Result ProjectConfig
  unfolding parse_config
  load_config (contents input) = parse_config input
  load_config missing = err (bytes "reading config: file does not exist")
  load_config (unreadable e) = err (bytes "reading config: " ++ e)

  -- The overlay is merged over a base that is valid by itself, and is not validated.
  apply_overlay : FileRead → ProjectConfig → Result ProjectConfig
  apply_overlay missing cfg = ok cfg
  apply_overlay (unreadable e) cfg = err (bytes "reading overlay config: " ++ e)
  apply_overlay (contents input) cfg = elim (unmarshal input) [
    | err e ↦ err (bytes "parsing overlay config: " ++ e)
    | ok overlay ↦ ok (deep_merge_config cfg overlay)
  ]

  unfoldable pub load_config_with_overlay : FileRead → FileRead → Text → Result ProjectConfig
  unfolding load_config apply_overlay
  load_config_with_overlay base overlay mode =
      load_config base >>= λ cfg. apply_overlay overlay (record cfg { mode = mode })
