-- ===== src/Reconcile/DryRun.antt =====
-- The dry run of `Reconcile` in src/domain/reconcile.go.
use previewctl.Base.{
  ℕ, ◌+◌, true, none, some, List, [], ◌∷◌, ◌++◌, ◌≡◌, refl, ◌∙◌, inl, inr, arith, Text, bytes,
  Bool-cases, Option-cases, elem, Result, ok, Result-cases,
}
use previewctl.Config.{ProjectConfig}
use previewctl.Environment.{EnvironmentEntry}
use previewctl.Engine.{StatePort, Session, StepOpts, Action, on_step, step_started}
use previewctl.Engine.Recorded.{completed_in}
use previewctl.Runner.{registered, registry_get, runner_step_order}
use previewctl.Runner.Forced.{load_entry}
use previewctl.Reconcile.{ReconcileReport, empty_report, hook_owned, verify_step}
use previewctl.Reconcile.Loop.{reconcile_step, reconcile_steps, reconcile}

-- A verification only looks: the entry, the store and the world stay as they are.
module _ {S W : Type 0} where
  pub record OnlyLooks (opts : StepOpts S W) : Type 0 where
    pub same_entry :
        (s : Session S W) (check : Action S W)
        → opts.verify ≡ some check
        → (check s).0.entry ≡ s.entry
    pub same_store :
        (s : Session S W) (check : Action S W)
        → opts.verify ≡ some check
        → (check s).0.store ≡ s.store
    pub same_world :
        (s : Session S W) (check : Action S W)
        → opts.verify ≡ some check
        → (check s).0.world ≡ s.world

  -- What both sessions have in common.
  pub record IsUntouched (s t : Session S W) : Type 0 where
    pub entry_same : t.entry ≡ s.entry
    pub store_same : t.store ≡ s.store
    pub world_same : t.world ≡ s.world

module _ {S W : Type 0} (clock : ℕ → ℕ) (hostname : Text) (named : Text → StepOpts S W)
    (looks : (n : Text) → OnlyLooks (named n)) where
  verify_step-IsUntouched :
      (name : Text) (opts : StepOpts S W) (verify : Action S W) (s : Session S W)
      (report : ReconcileReport)
      → OnlyLooks opts
      → opts.verify ≡ some verify
      → IsUntouched s (verify_step clock hostname true name opts verify s report).0
  unfolding verify_step
  verify_step-IsUntouched name opts verify s report look v =
      let begun : Session S W =
        record (on_step name step_started (bytes "Verifying " ++ (name ++ bytes "...")) none s) {
          ticks = s.ticks + 1;
        } in
      elim (Result-cases (verify begun).1) [
        | inl e ↦ record {
          entry_same = ground (arith, e.1, look.same_entry begun verify v);
          store_same = ground (arith, e.1, look.same_store begun verify v);
          world_same = ground (arith, e.1, look.same_world begun verify v);
        }
        | inr e ↦ record {
          entry_same = ground (arith, e.1, look.same_entry begun verify v);
          store_same = ground (arith, e.1, look.same_store begun verify v);
          world_same = ground (arith, e.1, look.same_world begun verify v);
        }
      ]

  reconcile_step-IsUntouched :
      (name : Text) (s : Session S W) (report : ReconcileReport)
      → IsUntouched s (reconcile_step clock hostname true named name s report).0
  unfolding reconcile_step registry_get
  reconcile_step-IsUntouched name s report = elim (Bool-cases (completed_in name s)) [
    | inr n ↦
        rw (n, reconcile_step) (record { entry_same = refl; store_same = refl; world_same = refl })
    | inl c ↦ elim (Bool-cases (elem name hook_owned)) [
      | inl o ↦
          rw (c, o, reconcile_step)
            (record { entry_same = refl; store_same = refl; world_same = refl })
      | inr o ↦ elim (Bool-cases (elem name registered)) [
        | inr e ↦
            rw (c, o, e, reconcile_step)
              (record { entry_same = refl; store_same = refl; world_same = refl })
        | inl e ↦ elim (Option-cases (named name).verify) [
          | inl v ↦
              rw (c, o, e, v, reconcile_step)
                (record { entry_same = refl; store_same = refl; world_same = refl })
          | inr v ↦
              rw (c, o, e, v.1, reconcile_step)
                (verify_step-IsUntouched name (named name) v.0 s report (looks name) v.1)
        ]
      ]
    ]
  ]

  reconcile_steps-IsUntouched :
      (names : List Text) (s : Session S W) (report : ReconcileReport)
      → IsUntouched s (reconcile_steps clock hostname true named names s report).0
  unfolding reconcile_steps
  reconcile_steps-IsUntouched [] s report = record {
    entry_same = refl;
    store_same = refl;
    world_same = refl;
  }
  reconcile_steps-IsUntouched (name ∷ names) s report =
      let next = reconcile_step clock hostname true named name s report in
      let one = reconcile_step-IsUntouched name s report in
      let rest = reconcile_steps-IsUntouched names next.0 next.1 in
      record {
        entry_same = rest.entry_same ∙ one.entry_same;
        store_same = rest.store_same ∙ one.store_same;
        world_same = rest.world_same ∙ one.world_same;
      }

-- A dry run leaves the store and the world as they are, whether it ends with a report or with an
-- error, if the verifications of the steps only look: they change neither entry, store nor world.
pub reconcile_dry_run :
    {S W : Type 0} (port : StatePort S) (clock : ℕ → ℕ) (hostname : Text) (cfg : ProjectConfig)
    (registry : EnvironmentEntry → Session S W → Result (Text → StepOpts S W)) (env_name : Text)
    (s : Session S W)
    → ((entry : EnvironmentEntry) (named : Text → StepOpts S W)
        → registry entry s ≡ ok named
        → (n : Text) → OnlyLooks (named n))
    → let after = reconcile port clock hostname cfg registry env_name true s in
      (after.0.store ≡ s.store) × (after.0.world ≡ s.world)
unfolding reconcile
reconcile_dry_run port clock hostname cfg registry env_name s looks =
    elim (Result-cases (load_entry port clock hostname env_name s)) [
      | inr e ↦ (ground (arith, e.1), ground (arith, e.1))
      | inl e ↦ elim (Result-cases (registry e.0 s)) [
        | inr q ↦ (ground (arith, e.1, q.1), ground (arith, e.1, q.1))
        | inl q ↦
            let u =
              reconcile_steps-IsUntouched clock hostname q.0 (looks e.0 q.0 q.1)
                (runner_step_order cfg) (record s { entry = some e.0 }) empty_report in
            (ground (arith, e.1, q.1, u.store_same), ground (arith, e.1, q.1, u.world_same))
      ]
    ]
