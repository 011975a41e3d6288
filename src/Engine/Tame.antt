-- ===== src/Engine/Tame.antt =====
-- `step` of src/domain/manager.go: functions and verifications of steps that leave alone what the
-- engine keeps of the session.
use previewctl.Base.{
  Bool, true, false, none, some, ◌≡◌, ap, ◌∙◌, arith, Text, if◌then◌else◌, is_some,
}
use previewctl.Engine.{Session, Action, StepOpts}
use previewctl.Engine.Recorded.{completed_in, KeepsEntry}
use previewctl.Engine.Sequence.{LeavesRecords}

module _ {S W : Type 0} where
  -- Two sessions with the same step records, of which both or none has an entry.
  pub record SameRecords (s t : Session S W) : Type 0 where
    pub same_some : is_some t.entry ≡ is_some s.entry
    pub same_records : (n : Text) → completed_in n t ≡ completed_in n s
    pub same_cache : t.no_cache ≡ s.no_cache

  abbrev pub IsQuiet : Action S W → Type 0
  IsQuiet fn = (s : Session S W) → SameRecords s (fn s).0

  -- A session with another one's entry and `noCache`.
  pub apart-SameRecords :
      (s t : Session S W) → t.entry ≡ s.entry → t.no_cache ≡ s.no_cache → SameRecords s t
  apart-SameRecords s t e c = record {
    same_some = ap is_some e;
    same_records = λ n. ground (arith, e);
    same_cache = c;
  }

  -- The same records, seen from a session with the same entry.
  pub from_same :
      (s t u : Session S W)
      → t.entry ≡ s.entry
      → t.no_cache ≡ s.no_cache
      → SameRecords t u
      → SameRecords s u
  from_same s t u e c same = record {
    same_some = same.same_some ∙ ap is_some e;
    same_records = λ n. same.same_records n ∙ ground (arith, e);
    same_cache = same.same_cache ∙ c;
  }

  -- An action that does not touch the entry.
  pub record IsApart (fn : Action S W) : Type 0 where
    pub same_entry : (s : Session S W) → (fn s).0.entry ≡ s.entry
    pub keeps_cache : (s : Session S W) → (fn s).0.no_cache ≡ s.no_cache

  pub IsApart-IsQuiet : (fn : Action S W) → IsApart fn → IsQuiet fn
  IsApart-IsQuiet fn a s = apart-SameRecords s (fn s).0 (a.same_entry s) (a.keeps_cache s)

  -- A step with a quiet function, whose verification does not touch the entry.
  pub record IsTame (opts : StepOpts S W) : Type 0 where
    pub fn_quiet : IsQuiet opts.fn
    pub verify_apart : (check : Action S W) → opts.verify ≡ some check → IsApart check

  pub unverified-IsTame : (opts : StepOpts S W) → opts.verify ≡ none → IsQuiet opts.fn → IsTame opts
  unverified-IsTame opts h q = record {
    fn_quiet = q;
    verify_apart = λ check e. absurd (ground (arith, e, h));
  }

  pub verified-IsTame :
      (opts : StepOpts S W) (check : Action S W)
      → opts.verify ≡ some check
      → IsApart check
      → IsQuiet opts.fn
      → IsTame opts
  verified-IsTame opts check h a q = record {
    fn_quiet = q;
    verify_apart = λ other e. let same : check ≡ other = cc (e, h) in rw (← same) a;
  }

  -- One of two steps, by a test.
  pub either :
      (P : StepOpts S W → Type 0) (test : Bool) (x y : StepOpts S W)
      → P x
      → P y
      → P (if test then x else y)
  either P true x y h k = h
  either P false x y h k = k

  pub IsTame-KeepsEntry : (opts : StepOpts S W) → IsTame opts → KeepsEntry opts
  IsTame-KeepsEntry opts t = record {
    by_fn = λ s h. (t.fn_quiet s).same_some ∙ h;
    by_verify = λ s check e. (t.verify_apart check e).same_entry s;
  }

  pub IsTame-LeavesRecords : (opts : StepOpts S W) → IsTame opts → LeavesRecords opts
  IsTame-LeavesRecords opts t = record {
    fn_records = λ s n. (t.fn_quiet s).same_records n;
    verify_records =
        λ s n check e. (IsApart-IsQuiet check (t.verify_apart check e) s).same_records n;
    fn_no_cache = λ s. (t.fn_quiet s).same_cache;
    verify_no_cache = λ s check e. (t.verify_apart check e).keeps_cache s;
  }
