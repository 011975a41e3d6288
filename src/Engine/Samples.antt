-- ===== src/Engine/Samples.antt =====
-- A store in memory, a step, and the theorems at them.
use previewctl.Base.{
  ℕ, ◌+◌, ◌*◌, true, false, Option, none, some, [], ◌≡◌, refl, arith, Text, bytes, ◌==◌, Map,
  lookup, insert, erase, lookup-insert, lookup-erase, if◌then◌else◌, Result, ok, err,
}
use previewctl.Environment.{EnvironmentEntry, append_audit, step_completed}
use previewctl.Environment.Samples.{demo}
use previewctl.Engine.{StatePort, Session, StepOpts, has_checkpoint, step, step_cache_allowed}
use previewctl.Engine.Outcome.{step-ok, step-failed, step-persisted}
use previewctl.Engine.Recorded.{KeepsEntry, completed_in}
use previewctl.Engine.Sequence.{LeavesRecords}

abbrev pub Memory : Type 0
Memory = Map EnvironmentEntry

abbrev pub get_entry : Text → Memory → Result (Option EnvironmentEntry)
get_entry name m = ok (lookup name m)

abbrev pub set_entry : Text → EnvironmentEntry → Memory → Memory × Result (Unit {0})
set_entry name e m = (insert name e m, ok tt)

abbrev pub remove_entry : Text → Memory → Memory × Result (Unit {0})
remove_entry name m = (erase name m, ok tt)

pub get-set :
    (name other : Text) (e : EnvironmentEntry) (m : Memory)
    → (set_entry name e m).1 ≡ ok tt
    → get_entry other (set_entry name e m).0
      ≡ (if name == other then ok (some e) else get_entry other m)
get-set name other e m h = ground (arith, lookup-insert name other e m)

pub get-remove :
    (name other : Text) (m : Memory)
    → (remove_entry name m).1 ≡ ok tt
    → get_entry other (remove_entry name m).0
      ≡ (if name == other then ok none else get_entry other m)
get-remove name other m h = ground (arith, lookup-erase name other m)

pub get-failed_set :
    (name other message : Text) (e : EnvironmentEntry) (m : Memory)
    → (set_entry name e m).1 ≡ err message
    → get_entry other (set_entry name e m).0 ≡ get_entry other m
get-failed_set name other message e m h = absurd (cc (h))

unfoldable pub memory : StatePort Memory
memory = record {
  get_environment = get_entry;
  set_environment = set_entry;
  remove_environment = remove_entry;
  get-set = get-set;
  get-remove = get-remove;
  get-failed_set = get-failed_set;
}

abbrev pub clock : ℕ → ℕ
clock n = n * 1000000

abbrev pub session : Session Memory ℕ
session = record {
  entry = some demo;
  store = [];
  world = 0;
  no_cache = false;
  ticks = 5;
  events = [];
}

-- A step that counts its runs in the world.
abbrev pub counted : Text → StepOpts Memory ℕ
counted name = record {
  name = name;
  start_msg = bytes "start";
  complete_msg = bytes "done";
  fn = λ (s : Session Memory ℕ). (record s { world = s.world + 1 }, ok tt);
  verify = none;
  outputs = none;
  allow_cache = none;
}

abbrev broken : StepOpts Memory ℕ
broken = record (counted (bytes "new")) {
  fn = λ (s : Session Memory ℕ). (s, err (bytes "no host"));
}

pub counted-KeepsEntry : (name : Text) → KeepsEntry (counted name)
counted-KeepsEntry name = record { by_fn = λ s h. h; by_verify = λ s check e. absurd (cc (e)) }

pub counted-LeavesRecords : (name : Text) → LeavesRecords (counted name)
counted-LeavesRecords name = record {
  fn_records = λ s n. refl;
  verify_records = λ s n check e. absurd (cc (e));
  fn_no_cache = λ s. refl;
  verify_no_cache = λ s check e. absurd (cc (e));
}

program : Unit {0}
unfolding step has_checkpoint step_completed memory lookup insert append_audit bytes ◌==◌
    step_cache_allowed
program = tt

counted-runs : (step memory clock (bytes "host") (counted (bytes "new")) session).0.world ≡ 1
unfolding program
counted-runs = refl

counted-ok : (step memory clock (bytes "host") (counted (bytes "new")) session).1 ≡ ok tt
unfolding program
counted-ok = refl

new-has_checkpoint : has_checkpoint (counted (bytes "new")) session ≡ false
unfolding program
new-has_checkpoint = refl

broken-has_checkpoint : has_checkpoint broken session ≡ false
unfolding program
broken-has_checkpoint = refl

a-has_checkpoint : has_checkpoint (counted (bytes "a")) session ≡ true
unfolding program
a-has_checkpoint = refl

step-ok_example :
    completed_in (bytes "new") (step memory clock (bytes "host") (counted (bytes "new")) session).0
    ≡ true
step-ok_example =
    step-ok memory clock (bytes "host") (counted (bytes "new")) session
      (counted-KeepsEntry (bytes "new")) refl counted-ok

step-failed_example :
    ((step memory clock (bytes "host") broken session).1 ≡ err (bytes "no host"))
    × (completed_in (bytes "new") (step memory clock (bytes "host") broken session).0 ≡ false)
step-failed_example =
    step-failed memory clock (bytes "host") broken session (bytes "no host") broken-has_checkpoint
      refl

step-persisted_example :
    let r = step memory clock (bytes "host") (counted (bytes "new")) session in
    (e' : EnvironmentEntry) × (r.0.entry ≡ some e')
    × (memory.get_environment (bytes "demo") r.0.store ≡ (
        if e'.name == bytes "demo" then ok (some e') else memory.get_environment (bytes "demo") []))
step-persisted_example =
    step-persisted memory clock (bytes "host") (counted (bytes "new")) session demo (bytes "demo")
      new-has_checkpoint refl counted-ok
