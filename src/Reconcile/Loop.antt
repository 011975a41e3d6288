-- ===== src/Reconcile/Loop.antt =====
-- `Reconcile` of src/domain/reconcile.go: its loop over the steps of the runner phase.
use previewctl.Reconcile.{
  ReconcileAction, ReconcileReport, Progress, hook_owned, result_of, pass_over, verify_step,
  empty_report,
}
use previewctl.Base.{
  ℕ, ◌+◌, Bool, false, Option, none, some, List, [], ◌∷◌, ◌++◌, Text, bytes, if◌then◌else◌, get_or,
  elem, Result, ok, err,
}
use previewctl.Config.{ProjectConfig}
use previewctl.Environment.{EnvironmentEntry, step_completed}
use previewctl.Engine.{StatePort, Session, StepOpts, on_step, step_skipped}
use previewctl.Runner.{registry_get, runner_step_order}
use previewctl.Runner.Forced.{load_entry}

module _ {S W : Type 0} (clock : ℕ → ℕ) (hostname : Text) where
  -- The body of the loop over the steps.
  unfoldable pub reconcile_step :
      Bool → (Text → StepOpts S W) → Text → Session S W → ReconcileReport → Progress S W
  unfolding verify_step registry_get
  reconcile_step dry_run named name s report =
      if elim s.entry [ none ↦ false | some e ↦ step_completed name e ]
      then if elem name hook_owned
        then pass_over clock hostname name " (hook-owned)" (bytes "hook-owned") s report
        else elim (registry_get named name) [
          | err e ↦ pass_over clock hostname name " (unknown)" (bytes "unknown: " ++ e) s report
          | ok opts ↦ elim opts.verify [
            | none ↦
                pass_over clock hostname name " (no verify)" (bytes "no verify function") s report
            | some verify ↦ verify_step clock hostname dry_run name opts verify s report
          ]
        ]
      else (
        on_step name step_skipped (name ++ bytes " (never ran)") none s,
        record report {
          results =
              report.results
              ++ result_of name ReconcileAction.not_run (bytes "never completed") 0 ∷ [];
          not_run = report.not_run + 1;
        },
      )

  unfoldable pub reconcile_steps :
      Bool → (Text → StepOpts S W) → List Text → Session S W → ReconcileReport → Progress S W
  unfolding reconcile_step
  reconcile_steps dry_run named [] s report = (s, report)
  reconcile_steps dry_run named (name ∷ names) s report =
      let next = reconcile_step dry_run named name s report in
      reconcile_steps dry_run named names next.0 next.1

-- `Reconcile`: the report, where there is one, and the error, where there is one.
module _ {S W : Type 0} (port : StatePort S) (clock : ℕ → ℕ) (hostname : Text) where
  unfoldable pub reconcile :
      ProjectConfig
      → (EnvironmentEntry → Session S W → Result (Text → StepOpts S W))
      → Text
      → Bool
      → Session S W
      → Session S W × Option ReconcileReport × Option Text
  unfolding reconcile_steps load_entry runner_step_order
  reconcile cfg registry env_name dry_run s = elim (load_entry port clock hostname env_name s) [
    | err e ↦ (s, none, some e)
    | ok entry ↦ elim (registry entry s) [
      | err e ↦ (s, none, some e)
      | ok named ↦
          let ran =
            reconcile_steps clock hostname dry_run named (runner_step_order cfg)
              (record s { entry = some entry }) empty_report in
          if dry_run
          then (ran.0, some ran.1, none)
          else let saved = port.set_environment env_name (get_or ran.0.entry entry) ran.0.store in
            (
              record ran.0 { store = saved.0 },
              some ran.1,
              elim saved.1 [ ok _ ↦ none | err m ↦ some (bytes "saving reconciled state: " ++ m) ],
            )
    ]
  ]
