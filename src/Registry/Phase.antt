-- ===== src/Registry/Phase.antt =====
-- src/domain/step_registry.go under the runner phase of src/domain/manager.go.
use previewctl.Base.{
  ℕ, true, some, [], ◌≡◌, refl, ◌⊎◌, inl, inr, arith, Text, bytes, is_some, elem, ok, Result-cases,
}
use previewctl.Engine.{StatePort, Session, Action}
use previewctl.Environment.{EnvironmentEntry, EnvironmentStatus, ComputeAccessInfo, step_completed}
use previewctl.ComputeAccess.{HasFiles}
use previewctl.ComposeFile.{generate_compose_file}
use previewctl.Manifest.{Manifest}
use previewctl.Registry.{World, Setup, attempt, call, enabled_services, autostart}
use previewctl.Registry.Files.{check_file, write_compose_file, generate_compose}
use previewctl.Registry.Containers.{seed_enabled, services_up}
use previewctl.Registry.Steps.{named}
use previewctl.Registry.Fits.{named-IsRegistry}
use previewctl.Runner.{run_runner, runner_plan}
use previewctl.Runner.Order.{planned, run_runner-running}

module _ {S C : Type 0} where
  -- The runner phase with the steps that the registry makes: where there is an entry to begin with,
  -- and the phase returns no error, the environment that it returns is running, is what the store
  -- gives for its name, and has every step of the plan completed.
  pub runner_phase-running :
      (port : StatePort S) (clock : ℕ → ℕ) (hostname : Text) (setup : Setup (S × C))
      (manifest : Manifest) (access : ComputeAccessInfo) (s : Session S (World C))
      (e : EnvironmentEntry)
      → is_some s.entry ≡ true
      → (run_runner port clock hostname setup.cfg
          (named setup)
          setup.env_name
          setup.branch
          manifest
          access
          true
          s).1
        ≡ ok (some e)
      → (e.status ≡ EnvironmentStatus.running)
        × (port.get_environment setup.env_name
              (run_runner port clock hostname setup.cfg
                (named setup)
                setup.env_name
                setup.branch
                manifest
                access
                true
                s).0.store
            ≡ ok (some e))
        × ((n : Text) → elem n (planned (runner_plan setup.cfg)) ≡ true → step_completed n e ≡ true)
  runner_phase-running port clock hostname setup manifest access s e h r =
      run_runner-running port clock hostname (named setup) (named-IsRegistry setup) setup.cfg
        setup.env_name setup.branch manifest access s e h r

  -- When the function of the step `generate_compose` has returned no error, the compose file of the
  -- manifest could be generated, the file in the environment reads as exactly that text, and the
  -- verification that the step
  -- has passes. The compute access has to read back what was written.
  pub generate_compose-verified :
      (setup : Setup (S × C)) (s : Session S (World C))
      → HasFiles setup.access
      → ((generate_compose setup).fn s).1 ≡ ok tt
      → let s' = ((generate_compose setup).fn s).0 in
        (content : Text) × (generate_compose_file setup.join_path setup.cfg s.world.manifest
          ≡ ok content)
        × ((setup.access.read_file
              (bytes ".previewctl.compose.yaml")
              (s'.store, s'.world.compute)).1
            ≡ ok content)
        × ((check : Action S (World C)) × ((generate_compose setup).verify ≡ some check)
            × ((check s').1 ≡ ok tt))
  unfolding generate_compose write_compose_file check_file attempt call
  generate_compose-verified setup s files h =
      elim (Result-cases (generate_compose_file setup.join_path setup.cfg s.world.manifest)) [
        | inr e ↦ absurd (ground (arith, e.1, h))
        | inl content ↦
            let path : Text = bytes ".previewctl.compose.yaml" in
            let written = setup.access.write_file path content.0 (s.store, s.world.compute) in
            elim (Result-cases written.1) [
              | inr e ↦ absurd (ground (arith, content.1, e.1, h))
              | inl w ↦
                  let back =
                    files.read-write path content.0 (s.store, s.world.compute)
                      (ground (arith, w.1)) in
                  (
                    content.0,
                    content.1,
                    ground (arith, content.1, back),
                    (_, refl, ground (arith, content.1, back)),
                  )
            ]
      ]

  -- The step `start_services` fixes which services the environment has without changing the answer:
  -- whether or not its command fails, `enabledServices` gives the same list before and behind it, and
  -- an entry that there is behind it holds that list itself, unless the configuration starts no
  -- service by itself.
  pub services_up-enabled_services :
      (setup : Setup (S × C)) (s : Session S (World C))
      → let s' = (services_up setup s).0 in
        (enabled_services setup.cfg s'.entry ≡ enabled_services setup.cfg s.entry)
        × ((e : EnvironmentEntry)
            → s'.entry ≡ some e
            → (autostart setup.cfg ≡ [])
              ⊎ (e.enabled_services ≡ enabled_services setup.cfg s.entry))
  unfolding services_up seed_enabled enabled_services autostart attempt call
  services_up-enabled_services setup s = (ground arith, λ e h. ground (arith, h))
