-- ===== src/Reconcile.antt =====
-- src/domain/reconcile.go: the verification of the runner steps and the repair of those whose effects
-- are gone. The steps are those of the registry, by their names.
pub mod Loop
mod Report
mod DryRun
mod Samples
use previewctl.Base.{
  ℕ, zero, suc, ◌+◌, ◌-◌, ◌*◌, ◌/◌, ◌%◌, ◌^◌, ◌≤◌, ◌<◌, Bool, true, false, ◌&&◌, ◌||◌, not, Option,
  none, some, List, [], ◌∷◌, ◌++◌, map, reverse, ◌≡◌, refl, sym, ap, ◌∙◌, subst, ◌≢◌, ◌↔◌, ◌⊎◌, inl,
  inr, arith, Text, bytes, ◌==◌, eq_iff, eq_refl, Map, lookup, insert, erase, keys, lookup-insert,
  lookup-erase, HasUniqueKeys, if◌then◌else◌, ltb, leb, eqb, is_some, get_or, Bool-cases,
  Option-cases, length, elem, count, All, Result, ok, err, String,
}
use previewctl.Config.{ProjectConfig}
use previewctl.Environment.{
  EnvironmentEntry, StepRecordStatus, append_audit, set_step_record, step_completed,
}
use previewctl.Engine.{
  StatePort, Session, StepOpts, Action, on_step, step_started, step_done, step_failed, step_skipped,
}
use previewctl.Runner.{registry_get, runner_step_order}
use previewctl.Runner.Forced.{load_entry}

-- The texts "ok", "healed", "failed", "skipped", "not_run" and "broken".
pub data ReconcileAction : Type 0 where
  healthy healed heal_failed passed_over not_run broken : ReconcileAction

pub record ReconcileResult : Type 0 where
  pub step : Text
  pub action : ReconcileAction
  pub message : Text
  pub duration_ms : ℕ

pub record ReconcileReport : Type 0 where
  pub results : List ReconcileResult
  pub healed : ℕ
  pub failed : ℕ
  pub ok : ℕ
  pub skipped : ℕ
  pub not_run : ℕ

abbrev pub empty_report : ReconcileReport
empty_report = record { results = []; healed = 0; failed = 0; ok = 0; skipped = 0; not_run = 0 }

-- The steps that belong to hooks, `hookOwned`.
abbrev pub hook_owned : List Text
hook_owned =
    bytes "runner_before"
    ∷ bytes "runner_deploy"
    ∷ bytes "runner_after"
    ∷ bytes "sync_code"
    ∷ bytes "build_services"
    ∷ []

abbrev pub result_of : Text → ReconcileAction → Text → ℕ → ReconcileResult
result_of step action message duration_ms = record {
  step = step;
  action = action;
  message = message;
  duration_ms = duration_ms;
}

-- `elapsed.Milliseconds()`
abbrev pub millis : ℕ → ℕ → ℕ
millis start now = (now - start) / 1000000

abbrev pub Progress : Type 0 → Type 0 → Type 0
Progress S W = Session S W × ReconcileReport

module _ {S W : Type 0} (clock : ℕ → ℕ) (hostname : Text) where
  -- A step that is passed over, with what is said of it.
  abbrev pub pass_over : Text → String → Text → Session S W → ReconcileReport → Progress S W
  pass_over name suffix message s report = (
    on_step name step_skipped (name ++ bytes suffix) none s,
    record report {
      results = report.results ++ result_of name passed_over message 0 ∷ [];
      skipped = report.skipped + 1;
    },
  )

  -- The repair of a step, whose verification failed.
  unfoldable pub heal : Text → StepOpts S W → Session S W → ReconcileReport → Progress S W
  heal name opts s report =
      let start = clock s.ticks in
      let ran = opts.fn (
        on_step name step_started (bytes "Healing " ++ (name ++ bytes "...")) none
          (record s { ticks = s.ticks + 1 })) in
      let t = ran.0.ticks in
      let elapsed = millis start (clock t) in
      elim ran.1 [
        | err e ↦
            let s' = on_step name step_failed (bytes "Failed to heal " ++ name) (some e) ran.0 in
            (
              record s' {
                entry = elim s'.entry [
                  | none ↦ none
                  | some entry ↦ some (
                      append_audit
                        (record {
                          timestamp = clock (t + 1);
                          step = name;
                          action = bytes "reconcile_failed";
                          machine = hostname;
                          duration_ms = elapsed;
                          message = [];
                          error = e;
                        })
                        entry)
                ];
                ticks = t + 2;
              },
              record report {
                results = report.results ++ result_of name heal_failed e elapsed ∷ [];
                failed = report.failed + 1;
              },
            )
        | ok _ ↦
            let s' = on_step name step_done (bytes "Healed " ++ name) none ran.0 in
            (
              record s' {
                entry = elim s'.entry [
                  | none ↦ none
                  | some entry ↦ some (
                      append_audit
                        (record {
                          timestamp = clock (t + 2);
                          step = name;
                          action = bytes "reconciled";
                          machine = hostname;
                          duration_ms = elapsed;
                          message = [];
                          error = [];
                        })
                        (set_step_record
                          (record {
                            name = name;
                            status = StepRecordStatus.completed;
                            started_at = start;
                            finished_at = clock (t + 1);
                            duration_ms = elapsed;
                            machine = hostname;
                            error = [];
                            outputs = [];
                          })
                          entry))
                ];
                ticks = t + 3;
              },
              record report {
                results = report.results ++ result_of name ReconcileAction.healed [] elapsed ∷ [];
                healed = report.healed + 1;
              },
            )
      ]

  -- The verification of a completed step.
  unfoldable pub verify_step :
      Bool → Text → StepOpts S W → Action S W → Session S W → ReconcileReport → Progress S W
  unfolding heal
  verify_step dry_run name opts verify s report =
      let start = clock s.ticks in
      let checked =
        verify
          (record (on_step name step_started (bytes "Verifying " ++ (name ++ bytes "...")) none s) {
            ticks = s.ticks + 1;
          }) in
      elim checked.1 [
        | ok _ ↦ (
          record (on_step name step_done (name ++ bytes " healthy") none checked.0) {
            ticks = checked.0.ticks + 1;
          },
          record report {
            results =
                report.results
                ++ result_of name healthy [] (millis start (clock checked.0.ticks)) ∷ [];
            ok = report.ok + 1;
          },
        )
        | err _ ↦
            if dry_run
            then (
              on_step name step_failed (name ++ bytes " needs healing") none checked.0,
              record report {
                results = report.results ++ result_of name broken (bytes "would heal") 0 ∷ [];
                failed = report.failed + 1;
              },
            )
            else heal name opts checked.0 report
      ]
