-- ===== src/Runner/Resume.antt =====
-- A runner plan of src/domain/manager.go that is run again.
use previewctl.Base.{
  ℕ, true, false, none, some, List, [], ◌∷◌, ◌++◌, ◌≡◌, refl, ◌∙◌, inl, inr, arith, Text, bytes,
  eq_iff, Map, is_some, Bool-cases, Option-cases, elem, ok, Result-cases, Bool, suc, ◌||◌, ◌==◌,
  if◌then◌else◌,
}
use previewctl.Environment.{StepRecord, AuditEntry, append_audit, note, step_completed}
use previewctl.Engine.{
  StatePort, Session, StepOpts, Action, has_checkpoint, step_cache_allowed, step, skip, audit,
}
use previewctl.Engine.Recorded.{completed_in}
use previewctl.Runner.Saved.{execute-no_cache}
use previewctl.Runner.{run_plan}
use previewctl.Runner.Order.{planned, IsRegistry, run_plan-completed}

module _ {S W : Type 0} where
  -- What a step has made still stands: it may be cached, and its verification, if it has one, passes
  -- wherever `Intact` holds, and leaves that so.
  pub record Stands (Intact : S → W → Type 0) (opts : StepOpts S W) : Type 0 where
    pub cacheable : step_cache_allowed opts ≡ true
    pub passes :
        (check : Action S W) (s : Session S W)
        → opts.verify ≡ some check
        → Intact s.store s.world
        → ((check s).1 ≡ ok tt) × Intact (check s).0.store (check s).0.world

  -- The records of the steps in the entry of a session.
  abbrev pub records_of : Session S W → Map StepRecord
  records_of s = elim s.entry [ none ↦ [] | some e ↦ e.steps ]

-- A line of the audit log that tells of a run of a step's function.
abbrev is_run : Text → Bool
is_run action = action == bytes "executed" || action == bytes "failed"

abbrev runs_in : List AuditEntry → ℕ
runs_in [] = 0
runs_in (line ∷ log) = let rest = runs_in log in if is_run line.action then suc rest else rest

-- How many runs of functions the audit log of a session's entry tells of.
abbrev pub runs_of : {S W : Type 0} → Session S W → ℕ
runs_of s = elim s.entry [ none ↦ 0 | some e ↦ runs_in e.audit_log ]

runs_in-append :
    (log : List AuditEntry) (line : AuditEntry)
    → is_run line.action ≡ false
    → runs_in (log ++ line ∷ []) ≡ runs_in log
runs_in-append [] line h = ground (arith, h)
runs_in-append (l ∷ log) line h = ground (arith, runs_in-append log line h)

module _ {S W : Type 0} (port : StatePort S) (clock : ℕ → ℕ) (hostname : Text)
    (named : Text → StepOpts S W) (registry : IsRegistry named) (Intact : S → W → Type 0) where
  checkpoint :
      (name : Text) (s : Session S W)
      → Stands Intact (named name)
      → s.no_cache ≡ false
      → completed_in name s ≡ true
      → has_checkpoint (named name) s ≡ true
  unfolding has_checkpoint
  checkpoint name s stands h c = elim (Option-cases s.entry) [
    | inl e ↦ absurd (ground (arith, e, c))
    | inr e ↦ ground (arith, h, c, e.1, stands.cacheable, registry.same_name name)
  ]

  -- A step with a checkpoint that stands is skipped, at most behind its verification.
  step-skips :
      (name : Text) (s : Session S W)
      → Stands Intact (named name)
      → has_checkpoint (named name) s ≡ true
      → Intact s.store s.world
      → (action : Text) × (u : Session S W) × (step port clock hostname (named name) s
          ≡ (skip port clock hostname (named name) action u, ok tt))
        × Intact u.store u.world
        × (u.entry ≡ s.entry)
        × (u.no_cache ≡ s.no_cache)
        × (is_run action ≡ false)
  unfolding step bytes ◌==◌
  step-skips name s stands c i = elim (Option-cases (named name).verify) [
    | inl n ↦ (bytes "skipped", s, ground (arith, c, n), i, refl, refl, refl)
    | inr v ↦
        let pass = stands.passes v.0 s v.1 i in
        (
          bytes "verified",
          (v.0 s).0,
          ground (arith, c, v.1, pass.0),
          pass.1,
          (registry.keeps name).by_verify s v.0 v.1,
          (registry.leaves name).verify_no_cache s v.0 v.1,
          refl,
        )
  ]

  skip-records :
      (name action : Text) (s u : Session S W)
      → u.entry ≡ s.entry
      → is_run action ≡ false
      → (records_of (skip port clock hostname (named name) action u) ≡ records_of s)
        × (runs_of (skip port clock hostname (named name) action u) ≡ runs_of s)
        × ((n : Text)
            → completed_in n (skip port clock hostname (named name) action u) ≡ completed_in n s)
  unfolding skip audit append_audit step_completed
  skip-records name action s u e quiet = elim (Option-cases s.entry) [
    | inl n ↦ (ground (arith, e, n), ground (arith, e, n), λ k. ground (arith, e, n))
    | inr r ↦ (
      ground (arith, e, r.1),
      ground (
        arith,
        e,
        r.1,
        runs_in-append r.0.audit_log (note (clock u.ticks) hostname (named name).name action [])
            quiet,
      ),
      λ k. ground (arith, e, r.1),
    )
  ]

  run_plan-after :
      (name prefix : Text) (plan : List (Text × Text)) (s t : Session S W)
      → step port clock hostname (named name) s ≡ (t, ok tt)
      → run_plan port clock hostname named ((name, prefix) ∷ plan) s
        ≡ run_plan port clock hostname named plan t
  unfolding run_plan
  run_plan-after name prefix plan s t h = ground (arith, h)

  -- The steps of a plan that are completed already.
  pub run_plan-cached :
      (plan : List (Text × Text)) (s : Session S W)
      → s.no_cache ≡ false
      → ((n : Text) → elem n (planned plan) ≡ true → Stands Intact (named n))
      → ((n : Text) → elem n (planned plan) ≡ true → completed_in n s ≡ true)
      → Intact s.store s.world
      → let r = run_plan port clock hostname named plan s in
        (r.1 ≡ ok tt)
        × (records_of r.0 ≡ records_of s)
        × (runs_of r.0 ≡ runs_of s)
        × Intact r.0.store r.0.world
  unfolding run_plan planned elem skip audit
  run_plan-cached [] s h stands c i = (refl, refl, refl, i)
  run_plan-cached ((name, prefix) ∷ plan) s h stands c i =
      let this : elem name (planned ((name, prefix) ∷ plan)) ≡ true =
        ground (arith, eq_iff name name) in
      let check = checkpoint name s (stands name this) h (c name this) in
      let done = step-skips name s (stands name this) check i in
      let t : Session S W = skip port clock hostname (named name) done.0 done.1 in
      let same = skip-records name done.0 s done.1 done.4 done.6 in
      let rest =
        run_plan-cached plan t (done.5 ∙ h) (λ n m. stands n (ground (arith, m)))
          (λ n m. same.2 n ∙ c n (ground (arith, m))) done.3 in
      rw (run_plan-after name prefix plan s t done.2)
        (rest.0, rest.1 ∙ same.0, rest.2 ∙ same.1, rest.3)

  step-no_cache :
      (name : Text) (s : Session S W)
      → (step port clock hostname (named name) s).0.no_cache ≡ s.no_cache
  unfolding step skip audit
  step-no_cache name s =
      let leaves = registry.leaves name in
      elim (Bool-cases (has_checkpoint (named name) s)) [
        | inr c ↦ ground (arith, c, execute-no_cache port clock hostname (named name) s leaves)
        | inl c ↦ elim (Option-cases (named name).verify) [
          | inl n ↦ ground (arith, c, n)
          | inr v ↦ elim (Result-cases (v.0 s).1) [
            | inl k ↦ ground (arith, c, v.1, k.1, leaves.verify_no_cache s v.0 v.1)
            | inr k ↦
                let again =
                  audit port clock hostname (named name) (bytes "verify_failed")
                    (bytes "Re-executing: " ++ k.0) (v.0 s).0 in
                ground (
                  arith,
                  c,
                  v.1,
                  k.1,
                  leaves.verify_no_cache s v.0 v.1,
                  execute-no_cache port clock hostname (named name) again leaves,
                )
          ]
        ]
      ]

  run_plan-no_cache :
      (plan : List (Text × Text)) (s : Session S W)
      → (run_plan port clock hostname named plan s).0.no_cache ≡ s.no_cache
  unfolding run_plan
  run_plan-no_cache [] s = refl
  run_plan-no_cache ((name, prefix) ∷ plan) s =
      let ran = step port clock hostname (named name) s in
      elim (Result-cases ran.1) [
        | inr e ↦ ground (arith, e.1, step-no_cache name s)
        | inl e ↦ ground (arith, e.1, step-no_cache name s, run_plan-no_cache plan ran.0)
      ]

  -- Let caching be on and let there be an entry, and let a plan have ended with no error, with what
  -- its steps made still standing: `Intact` holds of the store and the world, the steps of the plan
  -- may be cached, and where `Intact` holds their verifications pass and leave it so. When the plan
  -- is run again, it returns no error, the records of all steps are as the first run wrote them, the
  -- audit log tells of no further run of a step's function, and `Intact` holds behind it. The steps
  -- have the names that they are asked by, and their functions keep the entry and write neither step
  -- records nor `noCache`.
  pub run_plan-again :
      (plan : List (Text × Text)) (s : Session S W)
      → is_some s.entry ≡ true
      → s.no_cache ≡ false
      → (run_plan port clock hostname named plan s).1 ≡ ok tt
      → let first = run_plan port clock hostname named plan s in
        Intact first.0.store first.0.world
        → ((n : Text) → elem n (planned plan) ≡ true → Stands Intact (named n))
        → let again = run_plan port clock hostname named plan first.0 in
          (again.1 ≡ ok tt)
          × (records_of again.0 ≡ records_of first.0)
          × (runs_of again.0 ≡ runs_of first.0)
          × Intact again.0.store again.0.world
  run_plan-again plan s h c r i stands =
      run_plan-cached plan (run_plan port clock hostname named plan s).0
        (run_plan-no_cache plan s ∙ c) stands
        (λ n m.
          ground (arith, run_plan-completed port clock hostname named registry plan s n h r, m))
        i
