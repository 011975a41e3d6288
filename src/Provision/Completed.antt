-- ===== src/Provision/Completed.antt =====
-- `runProvisioner` of src/domain/manager.go: the steps that a phase has completed.
use previewctl.Engine.Tame.{SameRecords, IsTame, IsTame-KeepsEntry, IsTame-LeavesRecords}
use previewctl.Base.{
  Result-cases, Text-cases, elem-append, ℕ, true, ◌||◌, List, [], ◌∷◌, ◌++◌, ◌≡◌, refl, sym, ap,
  ◌∙◌, inl, inr, arith, Text, is_some, elem, ok,
}
use previewctl.Destroy.{run_stages}
use previewctl.Engine.{StatePort, Session, Action, StepOpts, step}
use previewctl.Engine.Outcome.{step-ok}
use previewctl.Engine.Recorded.{completed_in}
use previewctl.Engine.Sequence.{step-other}
use previewctl.Provision.{Locals}

module _ {S C : Type 0} where
  -- An action that ends with no error completes the named steps and keeps the others completed.
  abbrev pub Completes : List Text → Action S (Locals C) → Type 0
  Completes names stage =
      (s : Session S (Locals C))
      → is_some s.entry ≡ true
      → (stage s).1 ≡ ok tt
      → (is_some (stage s).0.entry ≡ true)
        × ((n : Text)
            → (elem n names || completed_in n s) ≡ true
            → completed_in n (stage s).0 ≡ true)

  pub nil-Completes : Completes [] (run_stages [])
  unfolding run_stages elem
  nil-Completes s h r = (h, λ n c. c)

  pub cons-Completes :
      (xs ys : List Text) (prefix : Text) (stage : Action S (Locals C))
      (stages : List (Text × Action S (Locals C)))
      → Completes xs stage
      → Completes ys (run_stages stages)
      → Completes (xs ++ ys) (run_stages ((prefix, stage) ∷ stages))
  unfolding run_stages
  cons-Completes xs ys prefix stage stages first later s h r = elim (Result-cases (stage s).1) [
    | inr e ↦ absurd (ground (arith, e.1, r))
    | inl e ↦
        let one = first s h e.1 in
        let rest = later (stage s).0 one.0 (ground (arith, e.1, r)) in
        (
          ground (arith, e.1, rest.0),
          λ n c. ground (arith, e.1, c, elem-append n xs ys, one.1 n, rest.1 n),
        )
  ]

  run_stages-append :
      (a b : List (Text × Action S (Locals C))) (s : Session S (Locals C))
      → (run_stages (a ++ b) s).1 ≡ ok tt
      → ((run_stages a s).1 ≡ ok tt) × (run_stages (a ++ b) s ≡ run_stages b (run_stages a s).0)
  unfolding run_stages
  run_stages-append [] b s r = (refl, refl)
  run_stages-append ((prefix, stage) ∷ a) b s r = elim (Result-cases (stage s).1) [
    | inr e ↦ absurd (ground (arith, e.1, r))
    | inl e ↦
        let rest = run_stages-append a b (stage s).0 (ground (arith, e.1, r)) in
        (ground (arith, e.1, rest.0), ground (arith, e.1, rest.1))
  ]

  pub append-Completes :
      (xs ys : List Text) (a b : List (Text × Action S (Locals C)))
      → Completes xs (run_stages a)
      → Completes ys (run_stages b)
      → Completes (xs ++ ys) (run_stages (a ++ b))
  append-Completes xs ys a b first later s h r =
      let both = run_stages-append a b s r in
      let one = first s h both.0 in
      let rest = later (run_stages a s).0 one.0 (ap (λ x. x.1) (sym both.1) ∙ r) in
      (
        ground (arith, both.1, rest.0),
        λ n c. ground (arith, both.1, c, elem-append n xs ys, one.1 n, rest.1 n),
      )

module _ {S C : Type 0} (port : StatePort S) (clock : ℕ → ℕ) (hostname : Text) where
  -- A step completes its name.
  pub step-Completes :
      (opts : StepOpts S (Locals C))
      → IsTame opts
      → Completes (opts.name ∷ []) (step port clock hostname opts)
  unfolding elem
  step-Completes opts t s h r =
      let s' = (step port clock hostname opts s).0 in
      let done = step-ok port clock hostname opts s (IsTame-KeepsEntry opts t) h r in
      (
        ground (arith, done),
        λ n c. elim (Text-cases opts.name n) [
          | inl e ↦ ground (arith, e, done)
          | inr e ↦
              ground (
                arith,
                e,
                c,
                step-other port clock hostname opts n e s (IsTame-LeavesRecords opts t),
              )
        ],
      )

  -- So does one that begins in a session with the same entry, and is followed by a change that keeps
  -- the records.
  pub around-Completes :
      (opts : StepOpts S (Locals C)) (before after : Session S (Locals C) → Session S (Locals C))
      (stage : Action S (Locals C))
      → IsTame opts
      → ((s : Session S (Locals C)) → (before s).entry ≡ s.entry)
      → ((s : Session S (Locals C)) → SameRecords s (after s))
      → ((s : Session S (Locals C))
          → (stage s).1 ≡ ok tt
          → ((step port clock hostname opts (before s)).1 ≡ ok tt)
            × ((stage s).0 ≡ after (step port clock hostname opts (before s)).0))
      → Completes (opts.name ∷ []) stage
  around-Completes opts before after stage t b a runs s h r =
      let run = runs s r in
      let ran = (step port clock hostname opts (before s)).0 in
      let one = step-Completes opts t (before s) (ground (arith, b s, h)) run.0 in
      (
        ground (arith, run.1, (a ran).same_some, one.0),
        λ n c.
            let began : (elem n (opts.name ∷ []) || completed_in n (before s)) ≡ true =
              ground (arith, c, b s) in
            ground (arith, run.1, (a ran).same_records n, one.1 n began),
      )
