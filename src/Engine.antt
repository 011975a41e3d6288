-- ===== src/Engine.antt =====
-- The step engine of src/domain/manager.go: `step` and `stepSimple`, with the events of
-- src/domain/progress.go and the `StatePort` of src/domain/ports.go. What the steps themselves do is
-- the business of their functions, which are arguments here.
pub mod Recorded
pub mod Outcome
pub mod Sequence
pub mod Tame
pub mod Samples
use previewctl.Config.{is_empty}
use previewctl.Environment.{
  EnvironmentEntry, StepRecord, StepRecordStatus, AuditEntry, Output, append_audit, set_step_record,
  step_completed, note,
}
use previewctl.Base.{
  ℕ, zero, suc, ◌+◌, ◌-◌, ◌*◌, ◌/◌, ◌%◌, ◌^◌, ◌≤◌, ◌<◌, Bool, true, false, ◌&&◌, ◌||◌, not, Option,
  none, some, List, [], ◌∷◌, ◌++◌, map, reverse, ◌≡◌, refl, sym, ap, ◌∙◌, subst, ◌≢◌, ◌↔◌, ◌⊎◌, inl,
  inr, arith, Text, bytes, ◌==◌, eq_iff, eq_refl, Map, lookup, insert, erase, keys, lookup-insert,
  lookup-erase, HasUniqueKeys, if◌then◌else◌, ltb, leb, eqb, is_some, get_or, Bool-cases,
  Option-cases, length, elem, count, All, Result, ok, err,
}

pub data StepStatus : Type 0 where
  step_started step_done step_failed step_skipped step_streaming : StepStatus

pub record StepEvent : Type 0 where
  pub step : Text
  pub status : StepStatus
  pub message : Text
  pub error : Option Text

-- `StatePort`, over the states `S` of what stands behind it, with what the callers rely on: a
-- successful write is read back and leaves the other environments alone, so does a removal, and a
-- write that fails leaves what can be read as it was.
pub record StatePort (S : Type 0) : Type 0 where
  pub get_environment : Text → S → Result (Option EnvironmentEntry)
  pub set_environment : Text → EnvironmentEntry → S → S × Result (Unit {0})
  pub remove_environment : Text → S → S × Result (Unit {0})
  pub get-set :
      (name other : Text) (e : EnvironmentEntry) (s : S)
      → (set_environment name e s).1 ≡ ok tt
      → get_environment other (set_environment name e s).0
        ≡ (if name == other then ok (some e) else get_environment other s)
  pub get-remove :
      (name other : Text) (s : S)
      → (remove_environment name s).1 ≡ ok tt
      → get_environment other (remove_environment name s).0
        ≡ (if name == other then ok none else get_environment other s)
  pub get-failed_set :
      (name other message : Text) (e : EnvironmentEntry) (s : S)
      → (set_environment name e s).1 ≡ err message
      → get_environment other (set_environment name e s).0 ≡ get_environment other s

-- What a run works on: the entry (none in the stateless mode), the state store, the rest of the
-- world, the manager's `noCache`, how often the clock was read, and the events so far.
pub record Session (S W : Type 0) : Type 0 where
  pub entry : Option EnvironmentEntry
  pub store : S
  pub world : W
  pub no_cache : Bool
  pub ticks : ℕ
  pub events : List StepEvent

abbrev pub Action : Type 0 → Type 0 → Type 0
Action S W = Session S W → Session S W × Result (Unit {0})

pub record StepOpts (S W : Type 0) : Type 0 where
  pub name : Text
  pub start_msg : Text
  pub complete_msg : Text
  pub fn : Action S W
  pub verify : Option (Action S W)
  pub outputs : Option (Session S W → Map Output)
  pub allow_cache : Option Bool

module _ {S W : Type 0} where
  abbrev pub on_step : Text → StepStatus → Text → Option Text → Session S W → Session S W
  on_step step status message error s = record s {
    events =
        s.events ++ record { step = step; status = status; message = message; error = error } ∷ [];
  }

  unfoldable pub step_cache_allowed : StepOpts S W → Bool
  step_cache_allowed opts = elim opts.allow_cache [ none ↦ true | some b ↦ b ]

  -- The condition under which a checkpoint is looked at.
  unfoldable pub has_checkpoint : StepOpts S W → Session S W → Bool
  unfolding step_cache_allowed
  has_checkpoint opts s =
      step_cache_allowed opts
      && (not s.no_cache && elim s.entry [ none ↦ false | some e ↦ step_completed opts.name e ])

  -- `stepSimple`: a step that leaves no record.
  unfoldable pub step_simple : (name start_msg complete_msg : Text) → Action S W → Action S W
  step_simple name start_msg complete_msg fn s =
      let ran = fn (on_step name step_started start_msg none s) in
      elim ran.1 [
        | err e ↦ (on_step name step_failed [] (some e) ran.0, err e)
        | ok _ ↦ (on_step name step_done complete_msg none ran.0, ok tt)
      ]

module _ {S : Type 0} (port : StatePort S) where
  -- `entry.Env = latest.Env`. An empty mapping is read back from the store as a missing one.
  unfoldable pub reload_env : S → EnvironmentEntry → EnvironmentEntry
  reload_env store e = elim (port.get_environment e.name store) [
    | err _ ↦ e
    | ok none ↦ e
    | ok (some latest) ↦ if is_empty latest.env then e else record e { env = latest.env }
  ]

-- `clock` gives the readings of the clock, in nanoseconds.
module _ {S W : Type 0} (port : StatePort S) (clock : ℕ → ℕ) (hostname : Text) where
  -- `entry.AppendAudit` with a reading of the clock.
  unfoldable pub audit : StepOpts S W → Text → Text → Session S W → Session S W
  audit opts action message s = record s {
    entry = elim s.entry [
      | none ↦ none
      | some e ↦ some (append_audit (note (clock s.ticks) hostname opts.name action message) e)
    ];
    ticks = s.ticks + 1;
  }

  unfoldable pub skip : StepOpts S W → Text → Session S W → Session S W
  unfolding audit
  skip opts action s =
      audit opts action []
        (on_step opts.name step_skipped (opts.complete_msg ++ bytes " (cached)") none s)

  -- The record and the audit entry of a run that began at `start`; two readings of the clock.
  unfoldable pub recorded :
      StepOpts S W
      → StepRecordStatus
      → Text
      → (start finished now : ℕ) → (error : Text) → Map Output
      → EnvironmentEntry
      → EnvironmentEntry
  recorded opts status action start finished now error outputs e =
      append_audit
        (record {
          timestamp = finished;
          step = opts.name;
          action = action;
          machine = hostname;
          duration_ms = (now - start) / 1000000;
          message = [];
          error = error;
        })
        (set_step_record
          (record {
            name = opts.name;
            status = status;
            started_at = start;
            finished_at = finished;
            duration_ms = (now - start) / 1000000;
            machine = hostname;
            error = error;
            outputs = outputs;
          })
          e)

  unfoldable pub record_failure : StepOpts S W → ℕ → Text → Session S W → Session S W
  unfolding recorded
  record_failure opts start error s = elim s.entry [
    | none ↦ s
    | some e ↦
        let e' =
          recorded opts StepRecordStatus.failed (bytes "failed") start (clock s.ticks)
            (clock (s.ticks + 1)) error [] e in
        record s {
          entry = some e';
          store = (port.set_environment e.name e' s.store).0;
          ticks = s.ticks + 2;
        }
  ]

  unfoldable pub record_success : StepOpts S W → ℕ → Action S W
  unfolding recorded reload_env
  record_success opts start s = elim s.entry [
    | none ↦ (s, ok tt)
    | some e ↦
        let outputs : Map Output = elim opts.outputs [ none ↦ [] | some capture ↦ capture s ] in
        let e' = reload_env port s.store (
          recorded opts StepRecordStatus.completed (bytes "executed") start (clock s.ticks)
            (clock (s.ticks + 1)) [] outputs e) in
        let saved = port.set_environment e'.name e' s.store in
        (
          record s { entry = some e'; store = saved.0; ticks = s.ticks + 2 },
          elim saved.1 [ ok _ ↦ ok tt | err m ↦ err (bytes "persisting step checkpoint: " ++ m) ],
        )
  ]

  unfoldable pub execute : StepOpts S W → Action S W
  unfolding record_failure record_success
  execute opts s =
      let start = clock s.ticks in
      let ran =
        opts.fn
          (on_step opts.name step_started opts.start_msg none (record s { ticks = s.ticks + 1 })) in
      elim ran.1 [
        | err e ↦
            (record_failure opts start e (on_step opts.name step_failed [] (some e) ran.0), err e)
        | ok _ ↦
            record_success opts start (on_step opts.name step_done opts.complete_msg none ran.0)
      ]

  -- `step`
  unfoldable pub step : StepOpts S W → Action S W
  unfolding has_checkpoint skip audit execute
  step opts s =
      if has_checkpoint opts s
      then elim opts.verify [
        | none ↦ (skip opts (bytes "skipped") s, ok tt)
        | some verify ↦
            let checked = verify s in
            elim checked.1 [
              | ok _ ↦ (skip opts (bytes "verified") checked.0, ok tt)
              | err e ↦
                  execute opts
                    (audit opts (bytes "verify_failed") (bytes "Re-executing: " ++ e) checked.0)
            ]
      ]
      else execute opts s
