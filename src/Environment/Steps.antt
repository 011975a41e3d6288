-- ===== src/Environment/Steps.antt =====
-- The step records of an entry: what the operations on them leave completed, and what they log.
use previewctl.Base.{
  ℕ, true, false, ◌&&◌, not, List, [], ◌∷◌, ◌++◌, map, ◌≡◌, refl, arith, Text, bytes, ◌==◌, eq_iff,
  erase, lookup-insert, lookup-erase, if◌then◌else◌, elem, append-nil, append_assoc,
}
use previewctl.Environment.{
  EnvironmentEntry, AuditEntry, StepRecord, step_completed, set_step_record, append_audit, note,
  invalidate_step, invalidate_from, invalidate_steps_from, is_completed, invalidated,
}

pub step_completed-set_step_record :
    (rec : StepRecord) (s : Text) (e : EnvironmentEntry)
    → step_completed s (set_step_record rec e)
      ≡ (if rec.name == s then is_completed rec.status else step_completed s e)
unfolding step_completed set_step_record
step_completed-set_step_record rec s e = ground (arith, lookup-insert rec.name s rec e.steps)

pub step_completed-append_audit :
    (a : AuditEntry) (s : Text) (e : EnvironmentEntry)
    → step_completed s (append_audit a e) ≡ step_completed s e
unfolding step_completed append_audit
step_completed-append_audit a s e = refl

-- `InvalidateStep` leaves the step not completed and every other step as it was, tells whether the
-- step was completed, and logs one entry in that case alone.
pub invalidate_step_lem :
    (finished now : ℕ) (machine name reason : Text) (e : EnvironmentEntry)
    → let r = invalidate_step finished now machine name reason e in
      (r.1 ≡ step_completed name e)
      × ((s : Text) → step_completed s r.0 ≡ (not (name == s) && step_completed s e))
      × (r.0.audit_log
          ≡ e.audit_log
            ++ (if step_completed name e
                then note now machine name (bytes "invalidated") reason ∷ []
                else []))
unfolding invalidate_step set_step_record append_audit step_completed
invalidate_step_lem finished now machine name reason e =
    let rec : StepRecord = record {
      name = name;
      status = invalidated;
      started_at = 0;
      finished_at = finished;
      duration_ms = 0;
      machine = [];
      error = [];
      outputs = [];
    } in
    (
      ground arith,
      λ s. ground (arith, eq_iff name s, lookup-insert name s rec e.steps),
      ground (arith, append-nil e.audit_log),
    )

-- The steps of the list from the first `name` on.
unfoldable pub from_step : Text → List Text → List Text
from_step name [] = []
from_step name (s ∷ rest) = if s == name then s ∷ rest else from_step name rest

module _ (clock : Text → ℕ) (machine name : Text) where
  abbrev pub reason : Text
  reason = bytes "Invalidated due to --from " ++ name

  abbrev pub logged : Text → AuditEntry
  logged s = note (clock s) machine s (bytes "invalidated") reason

  from_found :
      (rest : List Text) (e : EnvironmentEntry) (s : Text)
      → (step_completed s (invalidate_from clock machine name true rest e)
          ≡ (step_completed s e && not (elem s rest)))
        × ((invalidate_from clock machine name true rest e).audit_log
            ≡ e.audit_log ++ map logged rest)
  unfolding invalidate_from elem step_completed append_audit
  from_found [] e s = (ground arith, ground (arith, append-nil e.audit_log))
  from_found (t ∷ rest) e s =
      let next = append_audit (logged t) (record e { steps = erase t e.steps }) in
      let (steps_after, log_after) = from_found rest next s in
      (
        ground (arith, steps_after, eq_iff t s, lookup-erase t s e.steps),
        ground (arith, log_after, append_assoc e.audit_log (logged t ∷ []) (map logged rest)),
      )

  from_start :
      (order : List Text) (e : EnvironmentEntry) (s : Text)
      → (step_completed s (invalidate_from clock machine name false order e)
          ≡ (step_completed s e && not (elem s (from_step name order))))
        × ((invalidate_from clock machine name false order e).audit_log
            ≡ e.audit_log ++ map logged (from_step name order))
  unfolding invalidate_from elem from_step append_audit
  from_start [] e s = (ground arith, ground (arith, append-nil e.audit_log))
  from_start (t ∷ order) e s =
      let (found_steps, found_log) = from_found (t ∷ order) e s in
      let (later_steps, later_log) = from_start order e s in
      (ground (arith, found_steps, later_steps), ground (arith, found_log, later_log))

-- `InvalidateStepsFrom` makes the steps of the list from the named one on not completed, leaves
-- every other step as it was (all of them if the name is not in the list), and logs one entry for
-- each step that it invalidates, in the order of the list.
pub invalidate_steps_from_lem :
    (clock : Text → ℕ) (machine name : Text) (order : List Text) (e : EnvironmentEntry)
    → let e' = invalidate_steps_from clock machine name order e in
      ((s : Text)
        → step_completed s e' ≡ (step_completed s e && not (elem s (from_step name order))))
      × (e'.audit_log ≡ e.audit_log ++ map (logged clock machine name) (from_step name order))
unfolding invalidate_steps_from
invalidate_steps_from_lem clock machine name order e =
    (λ s. (from_start clock machine name order e s).0, (from_start clock machine name order e []).1)
