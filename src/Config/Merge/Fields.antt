-- ===== src/Config/Merge/Fields.antt =====
-- `deepMergeConfig` of src/domain/config.go, field by field, beside a description of what each field has
-- to be.
use previewctl.Base.{
  ℕ, Bool, not, Option, none, some, List, [], ◌∷◌, ◌≡◌, refl, arith, Text, lookup, if◌then◌else◌,
  eqb, is_some, get_or, merged, lookup-merge_entries,
}
use previewctl.Config.{
  CommandHook, RunnerConfig, ComputeHooks, ProvisionerServiceConfig, ServiceConfig, ProjectConfig,
  is_empty,
}
use previewctl.Config.Merge.{
  override, override_some, override_number, merge_command_hook, merge_compute,
  merge_provisioner_service, merge_service, merge_runner, merge_provisioner, deep_merge_config,
}
use previewctl.Config.Merge.Laws.{
  IsOverlay, HasUniqueEnv, HasUniqueEnv-lookup, lookup-merge_env, or_else,
}

-- The overlay's value, or the base's where the overlay's is unset.
abbrev pub Chosen {ℓ} : {A : Type ℓ} → (A → Bool) → (base overlay result : A) → Type ℓ
Chosen unset base overlay result = result ≡ (if unset overlay then base else overlay)

-- What one side alone has is taken whole; what both have is related by `R`.
abbrev pub MergesTo {ℓ} :
    {A : Type ℓ} → (A → A → A → Type ℓ) → (base overlay result : Option A) → Type ℓ
MergesTo R base none result = result ≡ base
MergesTo R none (some overlay) result = result ≡ some overlay
MergesTo {A = A} R (some base) (some overlay) result =
    (v : A) × (result ≡ some v) × R base overlay v

abbrev pub is_none {ℓ} : {A : Type ℓ} → Option A → Bool
is_none o = not (is_some o)

pub record IsServiceMerge (base overlay result : ServiceConfig) : Type 0 where
  pub path : Chosen is_empty base.path overlay.path result.path
  pub port : Chosen (eqb 0) base.port overlay.port result.port
  pub command : Chosen is_empty base.command overlay.command result.command
  pub depends_on : Chosen is_empty base.depends_on overlay.depends_on result.depends_on
  pub env_file : Chosen is_empty base.env_file overlay.env_file result.env_file
  pub build : Chosen is_empty base.build overlay.build result.build
  pub start : Chosen is_empty base.start overlay.start result.start
  pub proxy : Chosen is_empty base.proxy overlay.proxy result.proxy
  pub env :
      (key : Text)
      → lookup key (get_or result.env [])
        ≡ or_else (lookup key (get_or overlay.env [])) (lookup key (get_or base.env []))

pub record IsHookMerge (base overlay result : CommandHook) : Type 0 where
  pub command : Chosen is_empty base.command overlay.command result.command
  pub allow_cache : Chosen is_none base.allow_cache overlay.allow_cache result.allow_cache

pub record IsRunnerMerge (base overlay result : RunnerConfig) : Type 0 where
  pub before : IsHookMerge base.before overlay.before result.before
  pub build : IsHookMerge base.build overlay.build result.build
  pub deploy : IsHookMerge base.deploy overlay.deploy result.deploy
  pub destroy : IsHookMerge base.destroy overlay.destroy result.destroy
  pub after : IsHookMerge base.after overlay.after result.after
  pub compose : Chosen is_none base.compose overlay.compose result.compose

pub record IsComputeMerge (base overlay result : ComputeHooks) : Type 0 where
  pub create : Chosen is_empty base.create overlay.create result.create
  pub destroy : Chosen is_empty base.destroy overlay.destroy result.destroy
  pub outputs : Chosen is_empty base.outputs overlay.outputs result.outputs
  pub ssh : Chosen is_none base.ssh overlay.ssh result.ssh

pub record IsProvisionerServiceMerge (base overlay result : ProvisionerServiceConfig) : Type 0 where
  pub outputs : Chosen is_empty base.outputs overlay.outputs result.outputs
  pub init : Chosen is_empty base.init overlay.init result.init
  pub seed : Chosen is_empty base.seed overlay.seed result.seed
  pub reset : Chosen is_empty base.reset overlay.reset result.reset
  pub destroy : Chosen is_empty base.destroy overlay.destroy result.destroy

-- All of a configuration but its services.
pub record IsConfigMerge (base overlay result : ProjectConfig) : Type 0 where
  pub version : Chosen (eqb 0) base.version overlay.version result.version
  pub name : Chosen is_empty base.name overlay.name result.name
  pub before :
      Chosen is_empty base.provisioner.before overlay.provisioner.before result.provisioner.before
  pub after :
      Chosen is_empty base.provisioner.after overlay.provisioner.after result.provisioner.after
  pub compute :
      MergesTo IsComputeMerge base.provisioner.compute overlay.provisioner.compute
        result.provisioner.compute
  pub provisioner_services :
      (service : Text)
      → MergesTo IsProvisionerServiceMerge
          (lookup service base.provisioner.services)
          (lookup service overlay.provisioner.services)
          (lookup service result.provisioner.services)
  pub infrastructure :
      Chosen is_none base.infrastructure overlay.infrastructure result.infrastructure
  pub runner : MergesTo IsRunnerMerge base.runner overlay.runner result.runner
  pub mode : result.mode ≡ base.mode

override-Chosen {ℓ} :
    {A : Type ℓ} (base overlay : List A) → Chosen is_empty base overlay (override base overlay)
override-Chosen base [] = refl
override-Chosen base (x ∷ overlay) = refl

override_some-Chosen {ℓ} :
    {A : Type ℓ} (base overlay : Option A)
    → Chosen is_none base overlay (override_some base overlay)
override_some-Chosen base none = refl
override_some-Chosen base (some x) = refl

override_number-Chosen :
    (base overlay : ℕ) → Chosen (eqb 0) base overlay (override_number base overlay)
override_number-Chosen base overlay = ground arith

merged-MergesTo {ℓ} :
    {A : Type ℓ} (R : A → A → A → Type ℓ) (combine : A → A → A) (base overlay : Option A)
    → ((b o : A) → overlay ≡ some o → R b o (combine b o))
    → MergesTo R base overlay (merged combine base overlay)
merged-MergesTo R combine base none h = refl
merged-MergesTo R combine none (some o) h = refl
merged-MergesTo R combine (some b) (some o) h = (combine b o, refl, h b o refl)

merge_service-IsServiceMerge :
    (base overlay : ServiceConfig)
    → HasUniqueEnv overlay
    → IsServiceMerge base overlay (merge_service base overlay)
unfolding merge_service
merge_service-IsServiceMerge base overlay u = record {
  path = override-Chosen base.path overlay.path;
  port = override_number-Chosen base.port overlay.port;
  command = override-Chosen base.command overlay.command;
  depends_on = override-Chosen base.depends_on overlay.depends_on;
  env_file = override-Chosen base.env_file overlay.env_file;
  build = override-Chosen base.build overlay.build;
  start = override-Chosen base.start overlay.start;
  proxy = override-Chosen base.proxy overlay.proxy;
  env = λ key. lookup-merge_env key base.env overlay.env u;
}

merge_command_hook-IsHookMerge :
    (base overlay : CommandHook) → IsHookMerge base overlay (merge_command_hook base overlay)
unfolding merge_command_hook
merge_command_hook-IsHookMerge base overlay = record {
  command = override-Chosen base.command overlay.command;
  allow_cache = override_some-Chosen base.allow_cache overlay.allow_cache;
}

merge_runner-MergesTo :
    (base overlay : Option RunnerConfig)
    → MergesTo IsRunnerMerge base overlay (merge_runner base overlay)
unfolding merge_runner
merge_runner-MergesTo base none = refl
merge_runner-MergesTo none (some o) = refl
merge_runner-MergesTo (some b) (some o) = (
  _,
  refl,
  record {
    before = merge_command_hook-IsHookMerge b.before o.before;
    build = merge_command_hook-IsHookMerge b.build o.build;
    deploy = merge_command_hook-IsHookMerge b.deploy o.deploy;
    destroy = merge_command_hook-IsHookMerge b.destroy o.destroy;
    after = merge_command_hook-IsHookMerge b.after o.after;
    compose = override_some-Chosen b.compose o.compose;
  },
)

merge_compute-MergesTo :
    (base overlay : Option ComputeHooks)
    → MergesTo IsComputeMerge base overlay (merge_compute base overlay)
unfolding merge_compute
merge_compute-MergesTo base none = refl
merge_compute-MergesTo none (some o) = refl
merge_compute-MergesTo (some b) (some o) = (
  _,
  refl,
  record {
    create = override-Chosen b.create o.create;
    destroy = override-Chosen b.destroy o.destroy;
    outputs = override-Chosen b.outputs o.outputs;
    ssh = override_some-Chosen b.ssh o.ssh;
  },
)

merge_provisioner_service-IsMerge :
    (base overlay : ProvisionerServiceConfig)
    → IsProvisionerServiceMerge base overlay (merge_provisioner_service base overlay)
unfolding merge_provisioner_service
merge_provisioner_service-IsMerge base overlay = record {
  outputs = override-Chosen base.outputs overlay.outputs;
  init = override-Chosen base.init overlay.init;
  seed = override-Chosen base.seed overlay.seed;
  reset = override-Chosen base.reset overlay.reset;
  destroy = override-Chosen base.destroy overlay.destroy;
}

-- What `deepMergeConfig` makes of the configuration besides its services, with an overlay that has no
-- key twice: a text, number, list or pointer is the overlay's where that is set, and else the base's;
-- the runner, its hooks, the compute hooks and the provisioner's services under each name are merged
-- by field where both sides have them, and taken whole where one has; the mode is the base's.
pub deep_merge_config-fields :
    (base overlay : ProjectConfig)
    → IsOverlay overlay
    → IsConfigMerge base overlay (deep_merge_config base overlay)
unfolding deep_merge_config merge_provisioner
deep_merge_config-fields base overlay h = record {
  version = override_number-Chosen base.version overlay.version;
  name = override-Chosen base.name overlay.name;
  before = override-Chosen base.provisioner.before overlay.provisioner.before;
  after = override-Chosen base.provisioner.after overlay.provisioner.after;
  compute = merge_compute-MergesTo base.provisioner.compute overlay.provisioner.compute;
  provisioner_services = λ service.
      rw
        (lookup-merge_entries merge_provisioner_service base.provisioner.services
          overlay.provisioner.services service h.provisioner_services)
        (merged-MergesTo IsProvisionerServiceMerge merge_provisioner_service
          (lookup service base.provisioner.services) (lookup service overlay.provisioner.services)
          (λ b o there. merge_provisioner_service-IsMerge b o));
  infrastructure = override_some-Chosen base.infrastructure overlay.infrastructure;
  runner = merge_runner-MergesTo base.runner overlay.runner;
  mode = refl;
}

-- What `deepMergeConfig` leaves of the services, with an overlay that has no key twice: a service that
-- only one side has is taken whole; of a service that both have, each field is the overlay's where
-- that is set, and else the base's; and a variable of its environment is the overlay's if that has
-- it, and else the base's.
pub deep_merge_config-services :
    (base overlay : ProjectConfig) (name : Text)
    → IsOverlay overlay
    → MergesTo IsServiceMerge
        (lookup name base.services)
        (lookup name overlay.services)
        (lookup name (deep_merge_config base overlay).services)
unfolding deep_merge_config
deep_merge_config-services base overlay name h =
    rw (lookup-merge_entries merge_service base.services overlay.services name h.services) (
      merged-MergesTo IsServiceMerge merge_service (lookup name base.services)
        (lookup name overlay.services)
        (λ b o there.
          merge_service-IsServiceMerge b o
            (HasUniqueEnv-lookup name overlay.services o h.envs there)))
