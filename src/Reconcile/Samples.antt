-- ===== src/Reconcile/Samples.antt =====
-- A run over three steps, and the theorems at it.
use previewctl.Base.{
  ℕ, true, false, Option, none, some, List, [], ◌∷◌, ◌++◌, ◌≡◌, refl, ap, subst, arith, Text, bytes,
  ◌==◌, lookup, insert, elem, Result, ok, err,
}
use previewctl.Environment.{EnvironmentEntry, step_completed, append_audit, set_step_record}
use previewctl.Environment.Samples.{demo, done}
use previewctl.Validate.Samples.{shop}
use previewctl.Engine.{Session, StepOpts, Action}
use previewctl.Engine.Samples.{Memory, memory, clock, session, counted}
use previewctl.Reconcile.{empty_report}
use previewctl.Reconcile.Loop.{reconcile_steps, reconcile}
use previewctl.Reconcile.Report.{count_action, IsTallied, steps_of, reconcile_steps-IsTallied}
use previewctl.Reconcile.DryRun.{OnlyLooks, reconcile_dry_run}

abbrev names : List Text
names = bytes "a" ∷ bytes "runner_before" ∷ bytes "c" ∷ []

-- What a verification does to a session; `s` itself where there is none.
abbrev applied : Session Memory ℕ → Option (Action Memory ℕ) → Session Memory ℕ
applied s none = s
applied s (some check) = (check s).0

empty-IsTallied : IsTallied empty_report
unfolding count_action
empty-IsTallied = record {
  counts_healed = refl;
  counts_failed = refl;
  counts_ok = refl;
  counts_skipped = refl;
  counts_not_run = refl;
}

reconcile_steps-IsTallied_example :
    let after = (reconcile_steps clock (bytes "host") true counted names session empty_report).1 in
    IsTallied after × (steps_of after.results ≡ steps_of [] ++ names)
reconcile_steps-IsTallied_example =
    reconcile_steps-IsTallied clock (bytes "host") true counted names session empty_report
      empty-IsTallied

-- A completed step whose effects are gone.
abbrev gone : Text → StepOpts Memory ℕ
gone name = record (counted name) {
  verify = some (λ (s : Session Memory ℕ). (s, err (bytes "gone")));
}

abbrev stored : Session Memory ℕ
stored = record session {
  store =
      (
        bytes "demo",
        record demo { steps = (bytes "generate_env", done (bytes "generate_env")) ∷ [] },
      )
      ∷ [];
}

abbrev registry : EnvironmentEntry → Session Memory ℕ → Result (Text → StepOpts Memory ℕ)
registry entry s = ok gone

program : Unit {0}
unfolding reconcile reconcile_steps memory lookup elem bytes step_completed append_audit
    set_step_record insert ◌==◌
program = tt

-- The world counts the runs: none in a dry run, one else.
reconcile-dry :
    (reconcile memory clock (bytes "host") shop registry (bytes "demo") true stored).0.world ≡ 0
unfolding program
reconcile-dry = refl

reconcile-heals :
    (reconcile memory clock (bytes "host") shop registry (bytes "demo") false stored).0.world ≡ 1
unfolding program
reconcile-heals = refl

gone-OnlyLooks : (n : Text) → OnlyLooks (gone n)
gone-OnlyLooks n = record {
  same_entry = λ s check e. ground (arith, ap (applied s) e);
  same_store = λ s check e. ground (arith, ap (applied s) e);
  same_world = λ s check e. ground (arith, ap (applied s) e);
}

only_gone :
    (entry : EnvironmentEntry) (named : Text → StepOpts Memory ℕ)
    → registry entry stored ≡ ok named
    → (n : Text) → OnlyLooks (named n)
only_gone entry named e n =
    subst (λ (f : Text → StepOpts Memory ℕ). OnlyLooks (f n)) {x = gone} {y = named}
      (ground (arith, e)) (gone-OnlyLooks n)

reconcile_dry_run_example :
    let after = reconcile memory clock (bytes "host") shop registry (bytes "demo") true stored in
    (after.0.store ≡ stored.store) × (after.0.world ≡ 0)
reconcile_dry_run_example =
    reconcile_dry_run memory clock (bytes "host") shop registry (bytes "demo") stored only_gone
