-- ===== src/Registry.antt =====
-- src/domain/step_registry.go: what the registry's steps share: the world that they work on, the
-- commands that they run, and `enabledServices`. The steps stand in the modules below this one.
pub mod Files
pub mod Containers
pub mod HookSteps
pub mod Steps
pub mod Quiet
pub mod Tame
pub mod Fits
pub mod Phase
pub mod Samples
pub mod Resumed
mod Ended
use previewctl.Base.{
  sort, join, trim_space, ◌>>=◌, ℕ, zero, suc, ◌+◌, ◌-◌, ◌*◌, ◌/◌, ◌%◌, ◌^◌, ◌≤◌, ◌<◌, Bool, true,
  false, ◌&&◌, ◌||◌, not, Option, none, some, List, [], ◌∷◌, ◌++◌, map, reverse, ◌≡◌, refl, sym, ap,
  ◌∙◌, subst, ◌≢◌, ◌↔◌, ◌⊎◌, inl, inr, arith, Text, bytes, ◌==◌, eq_iff, eq_refl, Map, lookup,
  insert, erase, keys, lookup-insert, lookup-erase, HasUniqueKeys, if◌then◌else◌, ltb, leb, eqb,
  is_some, get_or, Bool-cases, Option-cases, length, elem, count, All, Result, ok, err,
}
use previewctl.Config.{ProjectConfig}
use previewctl.Engine.{Session, Action, on_step, step_streaming}
use previewctl.Environment.{EnvironmentEntry}
use previewctl.ComputeAccess.{ComputeAccess}
use previewctl.HookEnv.{Host, build_hook_env}
use previewctl.Manifest.{Manifest}
use previewctl.Nginx.Pages.{ErrorPageData}

-- The manifest that the registry points to, the machine, and what was printed for the user.
pub record World (C : Type 0) : Type 0 where
  pub manifest : Manifest
  pub compute : C
  pub stderr : Text

-- What the registry is made of, and the library's functions: those on paths, the verb `%q`, the
-- encoding as JSON and the execution of the error page's template.
pub record Setup (C : Type 0) : Type 0 where
  pub host : Host
  pub access : ComputeAccess C
  pub cfg : ProjectConfig
  pub env_name : Text
  pub branch : Text
  pub join_path : Text → Text → Text
  pub dir_of : Text → Text
  pub quoted : Text → Text
  pub encode_manifest : Manifest → Result Text
  pub render_page : ErrorPageData → Text

-- `_, err := …`
abbrev pub discard {ℓ} : {A : Type ℓ} → Result A → Result (Unit {0})
discard (ok _) = ok tt
discard (err e) = err e

-- The end of a run that reads through a nil entry.
abbrev pub nil_dereference : Text
nil_dereference = bytes "runtime error: invalid memory address or nil pointer dereference"

-- The fallback of `enabledServices`.
unfoldable pub autostart : ProjectConfig → List Text
autostart cfg = elim cfg.runner [
  | none ↦ []
  | some runner ↦ elim runner.compose [ none ↦ [] | some compose ↦ compose.autostart ]
]

-- `enabledServices`
unfoldable pub enabled_services : ProjectConfig → Option EnvironmentEntry → List Text
unfolding autostart
enabled_services cfg none = autostart cfg
enabled_services cfg (some e) = elim e.enabled_services [
  | [] ↦ autostart cfg
  | _ ∷ _ ↦ e.enabled_services
]

module _ {S C : Type 0} where
  -- A call of the compute access inside a session. What it starts can also write the state store.
  unfoldable pub call {ℓ} :
      {A : Type ℓ}
      → (S × C → (S × C) × Result A)
      → Session S (World C)
      → Session S (World C) × Result A
  call run s =
      let ran = run (s.store, s.world.compute) in
      (record s { store = ran.0.0; world = record s.world { compute = ran.0.1 } }, ran.1)

  -- A call whose result is only whether it failed.
  unfoldable pub attempt {ℓ} : {A : Type ℓ} → (S × C → (S × C) × Result A) → Action S (World C)
  unfolding call
  attempt run s = let ran = call run s in (ran.0, discard ran.1)

  -- A user's command with the hook environment, which reads the entry's store. A nil entry ends the
  -- run of the program there.
  unfoldable pub run_hook_command : Setup (S × C) → Text → Action S (World C)
  unfolding attempt
  run_hook_command setup command s = elim s.entry [
    | none ↦ (s, err nil_dereference)
    | some e ↦
        attempt
          (setup.access.verbose_exec command (
            build_hook_env setup.host setup.cfg setup.env_name setup.access.root
              s.world.manifest.ports e.env))
          s
  ]
