-- ===== src/Provision/Entry.antt =====
-- `runProvisioner` of src/domain/manager.go, from the entry that it begins with, and what `Provision`
-- and `ProvisionAttach` do with its result.
use previewctl.Provision.Phase.{provisioner_stages}
use previewctl.Base.{ℕ, ◌+◌, Bool, none, some, ◌++◌, Text, bytes, if◌then◌else◌, Result, ok, err}
use previewctl.ComputeAccess.Made.{compute_access_info}
use previewctl.Config.{is_empty}
use previewctl.Destroy.{run_stages}
use previewctl.Engine.{StatePort, Session, Action}
use previewctl.Environment.{EnvironmentEntry, EnvironmentStatus, invalidate_steps_from}
use previewctl.Registry.{nil_dereference}
use previewctl.Runner.{blank_entry}
use previewctl.Runner.Forced.{save_provisioned_state}
use previewctl.Provision.{Provisioner, Locals, Request, provisioner_step_order, entry_of}

module _ {S C : Type 0} (port : StatePort S) (clock : ℕ → ℕ) (hostname : Text)
    (p : Provisioner (S × C)) (request : Request) where
  -- The entry of a new environment, from two readings of the clock.
  unfoldable pub new_entry : (created updated : ℕ) → EnvironmentEntry
  new_entry created updated = record blank_entry {
    name = request.env_name;
    mode = p.cfg.mode;
    branch = request.branch;
    status = EnvironmentStatus.creating;
    created_at = created;
    updated_at = updated;
  }

  -- Saving an entry, which becomes the session's.
  unfoldable pub begin_with : (problem : Text) → EnvironmentEntry → Action S (Locals C)
  begin_with problem e s =
      let saved = port.set_environment request.env_name e s.store in
      (
        record s { entry = some e; store = saved.0 },
        elim saved.1 [ err m ↦ err (problem ++ m) | ok _ ↦ ok tt ],
      )

  -- The entry that the phase begins with: the stored one, or a new one that is saved at once.
  unfoldable pub load_or_create : Action S (Locals C)
  unfolding new_entry begin_with
  load_or_create s = elim (port.get_environment request.env_name s.store) [
    | err e ↦ (s, err (bytes "loading state: " ++ e))
    | ok (some e) ↦ (record s { entry = some e }, ok tt)
    | ok none ↦
        begin_with (bytes "saving initial state: ")
          (new_entry (clock s.ticks) (clock (s.ticks + 1))) (record s { ticks = s.ticks + 2 })
  ]

  -- The steps from the requested one on lose their records. `readings` is the clock for that.
  unfoldable pub forget_from : (readings : Text → ℕ) → Action S (Locals C)
  unfolding entry_of begin_with provisioner_step_order
  forget_from readings s =
      if is_empty request.from_step
      then (s, ok tt)
      else begin_with (bytes "saving invalidated state: ")
          (invalidate_steps_from readings hostname request.from_step (provisioner_step_order p.cfg)
            (entry_of s))
          s

  -- `runProvisioner`
  unfoldable pub run_provisioner : (readings : Text → ℕ) → Action S (Locals C)
  unfolding load_or_create forget_from provisioner_stages run_stages
  run_provisioner readings s =
      let loaded = load_or_create s in
      elim loaded.1 [
        | err e ↦ (loaded.0, err e)
        | ok _ ↦
            let ready = forget_from readings loaded.0 in
            elim ready.1 [
              | err e ↦ (ready.0, err e)
              | ok _ ↦ run_stages (provisioner_stages port clock hostname p request) ready.0
            ]
      ]

  -- `Provision`, and what `ProvisionAttach` does behind its checks. Without compute access or a
  -- manifest, the program ends here.
  unfoldable pub provision :
      (readings : Text → ℕ)
      → (managed : Bool) → Session S (Locals C)
      → Session S (Locals C) × Result EnvironmentEntry
  unfolding run_provisioner entry_of compute_access_info
  provision readings managed s =
      let ran = run_provisioner readings s in
      elim ran.1 [
        | err e ↦ (ran.0, err e)
        | ok _ ↦ elim ran.0.world.access [
          | none ↦ (ran.0, err nil_dereference)
          | some access ↦ elim ran.0.world.manifest [
            | none ↦ (ran.0, err nil_dereference)
            | some manifest ↦
                save_provisioned_state port clock hostname request.env_name request.branch manifest
                  (compute_access_info access managed) (entry_of ran.0) ran.0
          ]
        ]
      ]
