-- ===== src/Reconcile/Report.antt =====
-- The report of `Reconcile` in src/domain/reconcile.go.
use previewctl.Base.{
  append-nil, append_assoc, ℕ, ◌+◌, Bool, true, false, none, List, [], ◌∷◌, ◌++◌, ◌≡◌, refl, sym,
  inl, inr, arith, Text, bytes, if◌then◌else◌, Bool-cases, Option-cases, elem, Result-cases,
}
use previewctl.Engine.{Session, StepOpts, Action}
use previewctl.Engine.Recorded.{completed_in}
use previewctl.Runner.{registry_get}
use previewctl.Engine.{on_step, step_started}
use previewctl.Reconcile.{
  millis, result_of, ReconcileAction, healthy, heal_failed, passed_over, broken, ReconcileResult,
  ReconcileReport, hook_owned, heal, verify_step,
}
use previewctl.Reconcile.Loop.{reconcile_step, reconcile_steps}

abbrev is_action : ReconcileAction → ReconcileAction → Bool
is_action healthy healthy = true
is_action ReconcileAction.healed ReconcileAction.healed = true
is_action heal_failed heal_failed = true
is_action passed_over passed_over = true
is_action ReconcileAction.not_run ReconcileAction.not_run = true
is_action broken broken = true
is_action _ _ = false

-- How many results have the action.
unfoldable pub count_action : ReconcileAction → List ReconcileResult → ℕ
count_action a [] = 0
count_action a (r ∷ rs) = (if is_action a r.action then 1 else 0) + count_action a rs

-- The steps that the results are about, in order.
unfoldable pub steps_of : List ReconcileResult → List Text
steps_of [] = []
steps_of (r ∷ rs) = r.step ∷ steps_of rs

-- The counters of a report count its results, the broken ones as failed.
pub record IsTallied (report : ReconcileReport) : Type 0 where
  pub counts_healed : report.healed ≡ count_action ReconcileAction.healed report.results
  pub counts_failed :
      report.failed ≡ count_action heal_failed report.results + count_action broken report.results
  pub counts_ok : report.ok ≡ count_action healthy report.results
  pub counts_skipped : report.skipped ≡ count_action passed_over report.results
  pub counts_not_run : report.not_run ≡ count_action ReconcileAction.not_run report.results

count_action-append :
    (a : ReconcileAction) (xs ys : List ReconcileResult)
    → count_action a (xs ++ ys) ≡ count_action a xs + count_action a ys
unfolding count_action
count_action-append a [] ys = omega arith
count_action-append a (x ∷ xs) ys = omega (arith, count_action-append a xs ys)

steps_of-append : (xs ys : List ReconcileResult) → steps_of (xs ++ ys) ≡ steps_of xs ++ steps_of ys
unfolding steps_of
steps_of-append [] ys = refl
steps_of-append (x ∷ xs) ys = ground (arith, steps_of-append xs ys)

-- One result more, which the report counts.
record Extends (name : Text) (before after : ReconcileReport) : Type 0 where
  tallied : IsTallied before → IsTallied after
  named : steps_of after.results ≡ steps_of before.results ++ name ∷ []

extend :
    (name : Text) (before after : ReconcileReport) (r : ReconcileResult)
    → r.step ≡ name
    → after.results ≡ before.results ++ r ∷ []
    → after.healed ≡ before.healed + count_action ReconcileAction.healed (r ∷ [])
    → after.failed
      ≡ before.failed + count_action heal_failed (r ∷ []) + count_action broken (r ∷ [])
    → after.ok ≡ before.ok + count_action healthy (r ∷ [])
    → after.skipped ≡ before.skipped + count_action passed_over (r ∷ [])
    → after.not_run ≡ before.not_run + count_action ReconcileAction.not_run (r ∷ [])
    → Extends name before after
unfolding steps_of
extend name before after r e a h f o s n =
    let counted = λ (k : ReconcileAction). count_action-append k before.results (r ∷ []) in
    record {
      tallied = λ t. record {
        counts_healed = ground (arith, a, h, t.counts_healed, counted ReconcileAction.healed);
        counts_failed = ground (arith, a, f, t.counts_failed, counted heal_failed, counted broken);
        counts_ok = ground (arith, a, o, t.counts_ok, counted healthy);
        counts_skipped = ground (arith, a, s, t.counts_skipped, counted passed_over);
        counts_not_run = ground (arith, a, n, t.counts_not_run, counted ReconcileAction.not_run);
      };
      named = ground (arith, a, steps_of-append before.results (r ∷ []), e);
    }

pass_over-Extends :
    (name message : Text) (report : ReconcileReport)
    → Extends name report (record report {
      results = report.results ++ result_of name passed_over message 0 ∷ [];
      skipped = report.skipped + 1;
    })
unfolding count_action
pass_over-Extends name message report =
    extend name report
      (record report {
        results = report.results ++ result_of name passed_over message 0 ∷ [];
        skipped = report.skipped + 1;
      })
      (result_of name passed_over message 0) refl refl (omega arith) (omega arith) (omega arith)
      (omega arith) (omega arith)

module _ {S W : Type 0} (clock : ℕ → ℕ) (hostname : Text) where
  heal-Extends :
      (name : Text) (opts : StepOpts S W) (s : Session S W) (report : ReconcileReport)
      → Extends name report (heal clock hostname name opts s report).1
  unfolding heal count_action
  heal-Extends name opts s report =
      let start = clock s.ticks in
      let ran = opts.fn (
        on_step name step_started (bytes "Healing " ++ (name ++ bytes "...")) none
          (record s { ticks = s.ticks + 1 })) in
      let elapsed = millis start (clock ran.0.ticks) in
      elim (Result-cases ran.1) [
        | inl e ↦
            rw (e.1, heal)
              (extend name report
                (record report {
                  results = report.results ++ result_of name ReconcileAction.healed [] elapsed ∷ [];
                  healed = report.healed + 1;
                })
                (result_of name ReconcileAction.healed [] elapsed) refl refl (omega arith)
                (omega arith) (omega arith) (omega arith) (omega arith))
        | inr e ↦
            rw (e.1, heal)
              (extend name report
                (record report {
                  results = report.results ++ result_of name heal_failed e.0 elapsed ∷ [];
                  failed = report.failed + 1;
                })
                (result_of name heal_failed e.0 elapsed) refl refl (omega arith) (omega arith)
                (omega arith) (omega arith) (omega arith))
      ]

  verify_step-Extends :
      (dry_run : Bool) (name : Text) (opts : StepOpts S W) (verify : Action S W) (s : Session S W)
      (report : ReconcileReport)
      → Extends name report (verify_step clock hostname dry_run name opts verify s report).1
  unfolding verify_step count_action
  verify_step-Extends dry_run name opts verify s report =
      let start = clock s.ticks in
      let checked =
        verify
          (record (on_step name step_started (bytes "Verifying " ++ (name ++ bytes "...")) none s) {
            ticks = s.ticks + 1;
          }) in
      elim (Result-cases checked.1) [
        | inl e ↦
            let r = result_of name healthy [] (millis start (clock checked.0.ticks)) in
            rw (e.1, verify_step)
              (extend name report
                (record report { results = report.results ++ r ∷ []; ok = report.ok + 1 }) r refl
                refl (omega arith) (omega arith) (omega arith) (omega arith) (omega arith))
        | inr e ↦ elim (Bool-cases dry_run) [
          | inl d ↦
              let r = result_of name broken (bytes "would heal") 0 in
              rw (e.1, d, verify_step)
                (extend name report
                  (record report { results = report.results ++ r ∷ []; failed = report.failed + 1 })
                  r refl refl (omega arith) (omega arith) (omega arith) (omega arith) (omega arith))
          | inr d ↦ rw (e.1, d, verify_step) (heal-Extends name opts checked.0 report)
        ]
      ]

  reconcile_step-Extends :
      (dry_run : Bool) (named : Text → StepOpts S W) (name : Text) (s : Session S W)
      (report : ReconcileReport)
      → Extends name report (reconcile_step clock hostname dry_run named name s report).1
  unfolding reconcile_step count_action
  reconcile_step-Extends dry_run named name s report = elim (Bool-cases (completed_in name s)) [
    | inr n ↦
        let r = result_of name ReconcileAction.not_run (bytes "never completed") 0 in
        rw (n, reconcile_step)
          (extend name report
            (record report { results = report.results ++ r ∷ []; not_run = report.not_run + 1 }) r
            refl refl (omega arith) (omega arith) (omega arith) (omega arith) (omega arith))
    | inl c ↦ elim (Bool-cases (elem name hook_owned)) [
      | inl o ↦ rw (c, o, reconcile_step) (pass_over-Extends name (bytes "hook-owned") report)
      | inr o ↦ elim (Result-cases (registry_get named name)) [
        | inr e ↦
            rw (c, o, e.1, reconcile_step)
              (pass_over-Extends name (bytes "unknown: " ++ e.0) report)
        | inl e ↦ elim (Option-cases e.0.verify) [
          | inl v ↦
              rw (c, o, e.1, v, reconcile_step)
                (pass_over-Extends name (bytes "no verify function") report)
          | inr v ↦
              rw (c, o, e.1, v.1, reconcile_step)
                (verify_step-Extends dry_run name e.0 v.0 s report)
        ]
      ]
    ]
  ]

  -- To a report whose counters count its results the loop adds one result for each step, in the order
  -- of the steps, and the counters count them again: each action has its counter, and "broken", which
  -- a dry run reports, counts as failed.
  pub reconcile_steps-IsTallied :
      (dry_run : Bool) (named : Text → StepOpts S W) (names : List Text) (s : Session S W)
      (report : ReconcileReport)
      → IsTallied report
      → let after = (reconcile_steps clock hostname dry_run named names s report).1 in
        IsTallied after × (steps_of after.results ≡ steps_of report.results ++ names)
  unfolding reconcile_steps
  reconcile_steps-IsTallied dry_run named [] s report t =
      (t, sym (append-nil (steps_of report.results)))
  reconcile_steps-IsTallied dry_run named (name ∷ names) s report t =
      let next = reconcile_step clock hostname dry_run named name s report in
      let one = reconcile_step-Extends dry_run named name s report in
      let rest = reconcile_steps-IsTallied dry_run named names next.0 next.1 (one.tallied t) in
      (
        rest.0,
        ground (arith, rest.1, one.named, append_assoc (steps_of report.results) (name ∷ []) names),
      )
