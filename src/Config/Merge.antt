-- ===== src/Config/Merge.antt =====
-- `deepMergeConfig` of src/domain/config.go: the overlay of a mode over the base configuration.
pub mod Laws
pub mod Fields
mod Samples
use previewctl.Base.{
  ℕ, zero, suc, ◌+◌, ◌-◌, ◌*◌, ◌/◌, ◌%◌, ◌^◌, ◌≤◌, ◌<◌, Bool, true, false, ◌&&◌, ◌||◌, not, Option,
  none, some, List, [], ◌∷◌, ◌++◌, map, reverse, ◌≡◌, refl, sym, ap, ◌∙◌, subst, ◌≢◌, ◌↔◌, ◌⊎◌, inl,
  inr, arith, Text, bytes, ◌==◌, eq_iff, eq_refl, Map, lookup, insert, erase, keys, lookup-insert,
  lookup-erase, HasUniqueKeys, if◌then◌else◌, ltb, leb, eqb, is_some, get_or, Bool-cases,
  Option-cases, length, elem, count, All, Result, ok, err, merge_entries,
}
use previewctl.Config.{
  CommandHook, RunnerConfig, ComputeHooks, ProvisionerServiceConfig, ProvisionerConfig,
  ServiceConfig, ProjectConfig, InfrastructureConfig,
}

-- `if overlay.X != "" { base.X = overlay.X }`, and the same for a slice.
abbrev pub override {ℓ} : {A : Type ℓ} → List A → List A → List A
override base [] = base
override base (x ∷ overlay) = x ∷ overlay

-- `if overlay.X != nil { base.X = overlay.X }`
abbrev pub override_some {ℓ} : {A : Type ℓ} → Option A → Option A → Option A
override_some base none = base
override_some base (some x) = some x

-- `if overlay.X != 0 { base.X = overlay.X }`
abbrev pub override_number : ℕ → ℕ → ℕ
override_number base overlay = if eqb overlay 0 then base else overlay

unfoldable pub merge_command_hook : CommandHook → CommandHook → CommandHook
merge_command_hook base overlay = record {
  command = override base.command overlay.command;
  allow_cache = override_some base.allow_cache overlay.allow_cache;
}

unfoldable pub merge_compute : Option ComputeHooks → Option ComputeHooks → Option ComputeHooks
merge_compute base none = base
merge_compute none (some overlay) = some overlay
merge_compute (some base) (some overlay) = some (record {
  create = override base.create overlay.create;
  destroy = override base.destroy overlay.destroy;
  outputs = override base.outputs overlay.outputs;
  ssh = override_some base.ssh overlay.ssh;
})

unfoldable pub merge_provisioner_service :
    ProvisionerServiceConfig → ProvisionerServiceConfig → ProvisionerServiceConfig
merge_provisioner_service base overlay = record {
  outputs = override base.outputs overlay.outputs;
  init = override base.init overlay.init;
  seed = override base.seed overlay.seed;
  reset = override base.reset overlay.reset;
  destroy = override base.destroy overlay.destroy;
}

-- `for ek, ev := range overlaySvc.Env { baseSvc.Env[ek] = ev }`
unfoldable pub merge_env : Option (Map Text) → Option (Map Text) → Option (Map Text)
merge_env base none = base
merge_env base (some overlay) = some (merge_entries (λ old new. new) (get_or base []) overlay)

unfoldable pub merge_service : ServiceConfig → ServiceConfig → ServiceConfig
unfolding merge_env
merge_service base overlay = record {
  path = override base.path overlay.path;
  port = override_number base.port overlay.port;
  command = override base.command overlay.command;
  depends_on = override base.depends_on overlay.depends_on;
  env = merge_env base.env overlay.env;
  env_file = override base.env_file overlay.env_file;
  build = override base.build overlay.build;
  start = override base.start overlay.start;
  proxy = override base.proxy overlay.proxy;
}

unfoldable pub merge_runner : Option RunnerConfig → Option RunnerConfig → Option RunnerConfig
unfolding merge_command_hook
merge_runner base none = base
merge_runner none (some overlay) = some overlay
merge_runner (some base) (some overlay) = some (record {
  before = merge_command_hook base.before overlay.before;
  build = merge_command_hook base.build overlay.build;
  deploy = merge_command_hook base.deploy overlay.deploy;
  destroy = merge_command_hook base.destroy overlay.destroy;
  after = merge_command_hook base.after overlay.after;
  compose = override_some base.compose overlay.compose;
})

unfoldable pub merge_provisioner : ProvisionerConfig → ProvisionerConfig → ProvisionerConfig
unfolding merge_compute merge_provisioner_service
merge_provisioner base overlay = record {
  before = override base.before overlay.before;
  after = override base.after overlay.after;
  compute = merge_compute base.compute overlay.compute;
  services = merge_entries merge_provisioner_service base.services overlay.services;
}

unfoldable pub deep_merge_config : ProjectConfig → ProjectConfig → ProjectConfig
unfolding merge_provisioner merge_service merge_runner
deep_merge_config base overlay = record base {
  version = override_number base.version overlay.version;
  name = override base.name overlay.name;
  provisioner = merge_provisioner base.provisioner overlay.provisioner;
  infrastructure = override_some base.infrastructure overlay.infrastructure;
  services = merge_entries merge_service base.services overlay.services;
  runner = merge_runner base.runner overlay.runner;
}
