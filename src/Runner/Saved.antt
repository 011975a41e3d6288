-- ===== src/Runner/Saved.antt =====
-- `RunSteps`, which bypasses the checkpoints, and `SetStatus` of src/domain/manager.go.
use previewctl.Base.{
  ℕ, true, none, some, List, [], ◌∷◌, ◌++◌, ◌≡◌, refl, ◌∙◌, inl, inr, arith, Text, bytes, ◌==◌,
  if◌then◌else◌, Bool-cases, Option-cases, elem, Result, ok, err, Result-cases,
}
use previewctl.Environment.{EnvironmentEntry, EnvironmentStatus}
use previewctl.Engine.{
  StatePort, Session, StepOpts, Action, has_checkpoint, step, execute, record_failure,
  record_success,
}
use previewctl.Engine.Recorded.{begun}
use previewctl.Engine.Sequence.{LeavesRecords}
use previewctl.Runner.{registered, registry_get}
use previewctl.Runner.Forced.{run_forced, run_steps, set_status, load_entry}

module _ {S W : Type 0} (port : StatePort S) (clock : ℕ → ℕ) (hostname : Text) where
  -- The steps with no checkpoint looked at: each is executed.
  unfoldable pub run_executed : (Text → StepOpts S W) → List Text → Action S W
  run_executed named [] s = (s, ok tt)
  run_executed named (name ∷ names) s = elim (registry_get named name) [
    | err e ↦ (s, err e)
    | ok opts ↦
        let ran = execute port clock hostname opts s in
        elim ran.1 [
          | err e ↦ (ran.0, err (bytes "step " ++ (name ++ (bytes ": " ++ e))))
          | ok _ ↦ run_executed named names ran.0
        ]
  ]

  pub execute-no_cache :
      (opts : StepOpts S W) (s : Session S W)
      → LeavesRecords opts
      → (execute port clock hostname opts s).0.no_cache ≡ s.no_cache
  unfolding execute record_failure record_success
  execute-no_cache opts s leaves =
      let s' = begun port clock hostname opts s in
      elim (Result-cases (opts.fn s').1) [
        | inl f ↦ elim (Option-cases (opts.fn s').0.entry) [
          | inl n ↦ ground (arith, f.1, n, leaves.fn_no_cache s')
          | inr e ↦ ground (arith, f.1, e.1, leaves.fn_no_cache s')
        ]
        | inr f ↦ elim (Option-cases (opts.fn s').0.entry) [
          | inl n ↦ ground (arith, f.1, n, leaves.fn_no_cache s')
          | inr e ↦ ground (arith, f.1, e.1, leaves.fn_no_cache s')
        ]
      ]

  step-forced :
      (opts : StepOpts S W) (s : Session S W)
      → s.no_cache ≡ true
      → step port clock hostname opts s ≡ execute port clock hostname opts s
  unfolding step has_checkpoint
  step-forced opts s h = elim (Bool-cases (has_checkpoint opts s)) [
    | inl c ↦ absurd (ground (arith, c, h))
    | inr c ↦ ground (arith, c)
  ]

  -- With `noCache` set, the loop of `RunSteps` looks at no checkpoint.
  run_forced-executes :
      (named : Text → StepOpts S W) (names : List Text) (s : Session S W)
      → ((n : Text) → LeavesRecords (named n))
      → s.no_cache ≡ true
      → run_forced port clock hostname named names s ≡ run_executed named names s
  unfolding run_forced run_executed registry_get
  run_forced-executes named [] s leaves h = refl
  run_forced-executes named (name ∷ names) s leaves h =
      let ran = execute port clock hostname (named name) s in
      elim (Bool-cases (elem name registered)) [
        | inr u ↦ ground (arith, u)
        | inl k ↦ elim (Result-cases ran.1) [
          | inr e ↦ ground (arith, k, step-forced (named name) s h, e.1)
          | inl e ↦ ground (
            arith,
            k,
            step-forced (named name) s h,
            e.1,
            run_forced-executes named names ran.0 leaves
                (execute-no_cache (named name) s (leaves name) ∙ h),
          )
        ]
      ]

  -- What `RunSteps` is without checkpoints: the entry of the store and its registry, or their errors;
  -- then the loop that executes, on that entry and with `noCache`, and `noCache` as it was.
  unfoldable pub executed_steps :
      (EnvironmentEntry → Session S W → Result (Text → StepOpts S W))
      → Text
      → List Text
      → Action S W
  unfolding run_executed
  executed_steps registry env_name names s = elim (port.get_environment env_name s.store) [
    | err e ↦ (s, err (bytes "loading environment: " ++ e))
    | ok none ↦ (s, err (bytes "environment '" ++ (env_name ++ bytes "' not found")))
    | ok (some entry) ↦ elim (registry entry s) [
      | err e ↦ (s, err e)
      | ok named ↦
          let ran = run_executed named names (record s { entry = some entry; no_cache = true }) in
          (record ran.0 { no_cache = s.no_cache }, ran.1)
    ]
  ]

  -- `RunSteps` executes each step up to the first error, whatever is completed and whether or not the
  -- session caches: it is the run that looks at no checkpoint and makes no verification, on the entry
  -- that the store gives, and `noCache` is put back. The steps leave `noCache` alone.
  pub run_steps-executes :
      (registry : EnvironmentEntry → Session S W → Result (Text → StepOpts S W)) (env_name : Text)
      (names : List Text) (s : Session S W)
      → ((e : EnvironmentEntry) (t : Session S W) (named : Text → StepOpts S W) (n : Text)
          → registry e t ≡ ok named
          → LeavesRecords (named n))
      → run_steps port clock hostname registry env_name names s
        ≡ executed_steps registry env_name names s
  unfolding run_steps load_entry executed_steps
  run_steps-executes registry env_name names s leaves =
      elim (Result-cases (port.get_environment env_name s.store)) [
        | inr e ↦ ground (arith, e.1)
        | inl g ↦ elim (Option-cases g.0) [
          | inl n ↦ ground (arith, g.1, n)
          | inr e ↦ elim (Result-cases (registry e.0 s)) [
            | inr b ↦ ground (arith, g.1, e.1, b.1)
            | inl named ↦ ground (
              arith,
              g.1,
              e.1,
              named.1,
              run_forced-executes named.0 names (record s { entry = some e.0; no_cache = true })
                  (λ n. leaves e.0 s named.0 n named.1) refl,
            )
          ]
        ]
      ]

  -- `SetStatus` that returns no error has written the entry that was read, with the new status and
  -- the time and all else as it was, and other environments read as before; if it returns an error,
  -- every environment reads as before.
  pub set_status_lem :
      (env_name other : Text) (status : EnvironmentStatus) (s : Session S W)
      → let r = set_status port clock hostname env_name status s in
        (r.1 ≡ ok tt
          → (e : EnvironmentEntry) × (port.get_environment env_name s.store ≡ ok (some e))
            × (port.get_environment other r.0.store ≡ (
                if env_name == other
                then ok (some (record e { status = status; updated_at = clock s.ticks }))
                else port.get_environment other s.store)))
        × ((message : Text)
            → r.1 ≡ err message
            → port.get_environment other r.0.store ≡ port.get_environment other s.store)
  unfolding set_status load_entry
  set_status_lem env_name other status s =
      elim (Result-cases (port.get_environment env_name s.store)) [
        | inr q ↦ (λ h. absurd (ground (arith, q.1, h)), λ m h. ground (arith, q.1))
        | inl q ↦ elim (Option-cases q.0) [
          | inl n ↦ (λ h. absurd (ground (arith, q.1, n, h)), λ m h. ground (arith, q.1, n))
          | inr e ↦
              let e' : EnvironmentEntry = record e.0 {
                status = status;
                updated_at = clock s.ticks;
              } in
              (
                λ h. (
                  e.0,
                  ground (arith, q.1, e.1),
                  ground (arith, q.1, e.1, h, port.get-set env_name other e' s.store),
                ),
                λ m h. ground (arith, q.1, e.1, h, port.get-failed_set env_name other m e' s.store),
              )
        ]
      ]
