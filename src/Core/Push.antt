-- ===== src/Core/Push.antt =====
-- src/domain/propagate.go: the push of a change to a remote environment,
-- `propagateProvisionerChange` and `SyncRemote`.
use previewctl.Core.{Manager, load_manifest, load_remote}
use previewctl.Base.{
  join, sort, ℕ, Bool, false, none, some, List, [], ◌∷◌, ◌++◌, Text, bytes, ◌==◌, if◌then◌else◌, ok,
  err,
}
use previewctl.Engine.{StatePort, Action}
use previewctl.Environment.{EnvironmentEntry, compose_project_name}
use previewctl.Propagate.{services_affected_by_change, to_restart}
use previewctl.Registry.{World, Setup, attempt}
use previewctl.Registry.Steps.{named}
use previewctl.Runner.Forced.{run_steps, load_entry}

-- `entry.Compute == nil || entry.Compute.Type != "ssh"`, negated.
unfoldable pub is_remote : EnvironmentEntry → Bool
is_remote e = elim e.compute [ none ↦ false | some c ↦ c.type == bytes "ssh" ]

module _ {S C : Type 0} (port : StatePort S) (clock : ℕ → ℕ) (hostname : Text)
    (manager : Manager (S × C)) where
  -- `RunSteps` with the registry that it makes: the steps work on the manifest that was read.
  unfoldable pub run_remote_steps : Text → List Text → Action S (World C)
  unfolding load_entry load_manifest run_steps
  run_remote_steps env_name names s = elim (load_entry port clock hostname env_name s) [
    | err e ↦ (s, err e)
    | ok entry ↦ elim (load_manifest manager entry (s.store, s.world.compute)) [
      | err e ↦ (s, err e)
      | ok (access, manifest) ↦
          let setup : Setup (S × C) = record manager.base {
            access = access;
            env_name = env_name;
            branch = entry.branch;
          } in
          run_steps port clock hostname (λ e t. ok (named setup)) env_name names
            (record s { world = record s.world { manifest = manifest } })
    ]
  ]

  -- The command that brings services to their new configuration.
  unfoldable pub compose_command : (env_name verb : Text) → List Text → Text
  compose_command env_name verb names =
      bytes "docker compose -f .previewctl.compose.yaml -p "
      ++ (compose_project_name manager.base.cfg.name env_name
          ++ (bytes " " ++ (verb ++ (bytes " " ++ join (bytes " ") names))))

  -- The restart that ends both operations, of no services where there are none.
  unfoldable pub restart_services :
      (env_name verb problem : Text) → EnvironmentEntry → List Text → Action S (World C)
  unfolding compose_command attempt
  restart_services env_name verb problem entry [] s = (s, ok tt)
  restart_services env_name verb problem entry (name ∷ names) s =
      let ran =
        attempt
          ((manager.tools.ssh_access entry).verbose_exec
            (compose_command env_name verb (name ∷ names)) [])
          s in
      (ran.0, elim ran.1 [ err e ↦ err (problem ++ e) | ok _ ↦ ok tt ])

  -- The remote half of `propagateProvisionerChange`.
  unfoldable pub push_change :
      (env_name provisioner_name : Text) → List Text → EnvironmentEntry → Action S (World C)
  unfolding run_remote_steps restart_services
  push_change env_name provisioner_name changed entry s =
      let change = services_affected_by_change manager.base.cfg.services provisioner_name changed in
      let steps : List Text =
        bytes "generate_manifest"
        ∷ bytes "generate_env"
        ∷ (if change.0 then bytes "generate_compose" ∷ [] else []) in
      let ran = run_remote_steps env_name steps s in
      elim ran.1 [
        | err e ↦ (
          ran.0,
          err (
              bytes "regenerating remote config after "
              ++ (provisioner_name ++ (bytes " change: " ++ e))),
        )
        | ok _ ↦
            restart_services env_name (if change.0 then bytes "up -d" else bytes "restart")
              (bytes "restarting services after " ++ (provisioner_name ++ bytes " change: ")) entry
              (to_restart change.1 entry.enabled_services) ran.0
      ]

  -- `propagateProvisionerChange`
  unfoldable pub propagate_provisioner_change :
      (env_name provisioner_name : Text) → List Text → Action S (World C)
  unfolding load_remote is_remote push_change
  propagate_provisioner_change env_name provisioner_name changed s =
      elim (load_remote port clock hostname manager (bytes "loading environment for propagation: ")
        env_name s) [
          | err e ↦ (s, err e)
          | ok entry ↦
              if is_remote entry
              then push_change env_name provisioner_name changed entry s
              else (s, ok tt)
        ]

  -- The remote half of `SyncRemote`.
  unfoldable pub push_all : Text → EnvironmentEntry → Action S (World C)
  unfolding run_remote_steps restart_services
  push_all env_name entry s =
      let ran =
        run_remote_steps env_name
          (bytes "generate_manifest"
            ∷ bytes "generate_env"
            ∷ bytes "generate_compose"
            ∷ bytes "generate_nginx"
            ∷ [])
          s in
      elim ran.1 [
        | err e ↦ (ran.0, err (bytes "regenerating remote config: " ++ e))
        | ok _ ↦
            restart_services env_name (bytes "up -d") (bytes "restarting enabled services: ") entry
              (sort entry.enabled_services) ran.0
      ]

  -- `SyncRemote`
  unfoldable pub sync_remote : Text → Action S (World C)
  unfolding load_remote is_remote push_all
  sync_remote env_name s =
      elim (load_remote port clock hostname manager (bytes "loading environment: ") env_name s) [
        | err e ↦ (s, err e)
        | ok entry ↦ if is_remote entry then push_all env_name entry s else (s, ok tt)
      ]
