-- ===== src/Engine/Recorded.antt =====
-- What the records that `step` of src/domain/manager.go writes make of a step: completed or not.
use previewctl.Base.{
  ℕ, ◌+◌, ◌-◌, ◌/◌, Bool, true, false, none, some, [], ◌++◌, ◌≡◌, refl, inl, inr, arith, Text,
  bytes, eq_refl, Map, lookup-insert, is_some, Option-cases, ok, Result-cases,
}
use previewctl.Environment.{
  is_completed, AuditEntry, Output, EnvironmentEntry, StepRecordStatus, append_audit,
  set_step_record, step_completed, note,
}
use previewctl.Engine.{
  on_step, step_started, step_done, step_skipped, StatePort, Session, StepOpts, Action,
  has_checkpoint, audit, skip, recorded, record_failure, reload_env, record_success, execute,
}

module _ {S W : Type 0} where
  -- Whether the step is completed in the entry of the session, if there is one.
  abbrev pub completed_in : Text → Session S W → Bool
  completed_in name s = elim s.entry [ none ↦ false | some e ↦ step_completed name e ]

  -- The functions of a step keep the entry that they work on: a function of the step writes through the
  -- pointer, and a verification only looks at it.
  pub record KeepsEntry (opts : StepOpts S W) : Type 0 where
    pub by_fn : (s : Session S W) → is_some s.entry ≡ true → is_some (opts.fn s).0.entry ≡ true
    pub by_verify :
        (s : Session S W) (check : Action S W)
        → opts.verify ≡ some check
        → (check s).0.entry ≡ s.entry

pub step_completed-append_audit :
    (name : Text) (a : AuditEntry) (e : EnvironmentEntry)
    → step_completed name (append_audit a e) ≡ step_completed name e
unfolding step_completed append_audit
step_completed-append_audit name a e = refl

module _ {S : Type 0} (port : StatePort S) where
  pub completed-reload_env :
      (s : S) (name : Text) (e : EnvironmentEntry)
      → step_completed name (reload_env port s e) ≡ step_completed name e
  unfolding reload_env step_completed
  completed-reload_env s name e = elim (Result-cases (port.get_environment e.name s)) [
    | inr r ↦ ground (arith, r.1)
    | inl r ↦ elim (Option-cases r.0) [
      | inl n ↦ ground (arith, r.1, n)
      | inr l ↦ ground (arith, r.1, l.1)
    ]
  ]

module _ {S W : Type 0} (port : StatePort S) (clock : ℕ → ℕ) (hostname : Text)
    (opts : StepOpts S W) where
  recorded-status :
      (status : StepRecordStatus) (action : Text) (start finished now : ℕ) (error : Text)
      (outputs : Map Output) (e : EnvironmentEntry)
      → step_completed opts.name
          (recorded port clock hostname opts status action start finished now error outputs e)
        ≡ is_completed status
  unfolding recorded append_audit set_step_record step_completed
  recorded-status status action start finished now error outputs e = ground (
    arith,
    lookup-insert opts.name opts.name
        (record {
          name = opts.name;
          status = status;
          started_at = start;
          finished_at = finished;
          duration_ms = (now - start) / 1000000;
          machine = hostname;
          error = error;
          outputs = outputs;
        })
        e.steps,
    eq_refl opts.name,
  )

  pub success-completed :
      (start : ℕ) (s : Session S W)
      → is_some s.entry ≡ true
      → completed_in opts.name (record_success port clock hostname opts start s).0 ≡ true
  unfolding record_success
  success-completed start s h = elim (Option-cases s.entry) [
    | inl n ↦ absurd (ground (arith, n, h))
    | inr r ↦
        let outputs : Map Output = elim opts.outputs [ none ↦ [] | some capture ↦ capture s ] in
        let e' =
          recorded port clock hostname opts StepRecordStatus.completed (bytes "executed") start
            (clock s.ticks) (clock (s.ticks + 1)) [] outputs r.0 in
        ground (
          arith,
          r.1,
          completed-reload_env port s.store opts.name e',
          recorded-status StepRecordStatus.completed (bytes "executed") start (clock s.ticks)
              (clock (s.ticks + 1)) [] outputs r.0,
        )
  ]

  pub failure-completed :
      (start : ℕ) (error : Text) (s : Session S W)
      → completed_in opts.name (record_failure port clock hostname opts start error s) ≡ false
  unfolding record_failure
  failure-completed start error s = elim (Option-cases s.entry) [
    | inl n ↦ ground (arith, n)
    | inr r ↦ ground (
      arith,
      r.1,
      recorded-status StepRecordStatus.failed (bytes "failed") start (clock s.ticks)
          (clock (s.ticks + 1)) error [] r.0,
    )
  ]

  -- The session in which the function of a step runs.
  abbrev pub begun : Session S W → Session S W
  begun s = on_step opts.name step_started opts.start_msg none (record s { ticks = s.ticks + 1 })

  pub execute-completed :
      (s : Session S W)
      → KeepsEntry opts
      → is_some s.entry ≡ true
      → (execute port clock hostname opts s).1 ≡ ok tt
      → completed_in opts.name (execute port clock hostname opts s).0 ≡ true
  unfolding execute
  execute-completed s keeps h r = elim (Result-cases (opts.fn (begun s)).1) [
    | inr f ↦ absurd (ground (arith, f.1, r))
    | inl f ↦ ground (
      arith,
      f.1,
      success-completed (clock s.ticks)
          (on_step opts.name step_done opts.complete_msg none (opts.fn (begun s)).0)
          (keeps.by_fn (begun s) h),
    )
  ]

  completed-audit :
      (action message : Text) (s : Session S W)
      → completed_in opts.name (audit port clock hostname opts action message s)
        ≡ completed_in opts.name s
  unfolding audit
  completed-audit action message s = elim (Option-cases s.entry) [
    | inl n ↦ ground (arith, n)
    | inr r ↦ ground (
      arith,
      r.1,
      step_completed-append_audit opts.name (note (clock s.ticks) hostname opts.name action message)
          r.0,
    )
  ]

  pub some-audit :
      (action message : Text) (s : Session S W)
      → is_some (audit port clock hostname opts action message s).entry ≡ is_some s.entry
  unfolding audit
  some-audit action message s = elim (Option-cases s.entry) [
    | inl n ↦ ground (arith, n)
    | inr r ↦ ground (arith, r.1)
  ]

  pub checkpoint-completed :
      (s : Session S W) → has_checkpoint opts s ≡ true → completed_in opts.name s ≡ true
  unfolding has_checkpoint
  checkpoint-completed s h = ground (arith, h)

  pub skip-completed :
      (action : Text) (s : Session S W)
      → completed_in opts.name (skip port clock hostname opts action s) ≡ completed_in opts.name s
  unfolding skip
  skip-completed action s =
      completed-audit action []
        (on_step opts.name step_skipped (opts.complete_msg ++ bytes " (cached)") none s)
