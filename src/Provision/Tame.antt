-- ===== src/Provision/Tame.antt =====
-- The steps of `runProvisioner` of src/domain/manager.go: they keep the entry and its step records.
use previewctl.Base.{
  Option, none, some, List, [], ◌∷◌, ◌++◌, ◌≡◌, refl, inl, inr, arith, Text, bytes, Map, insert,
  get_or, Option-cases, Result, Result-cases,
}
use previewctl.Core.{set_globals}
use previewctl.Ports.{PortMap}
use previewctl.HookEnv.{run_hook, run_core_hook}
use previewctl.Hooks.{extract_global_outputs}
use previewctl.Engine.{step_streaming, Session, on_step}
use previewctl.Engine.Tame.{
  SameRecords, IsQuiet, apart-SameRecords, from_same, IsApart, IsTame, unverified-IsTame,
  verified-IsTame,
}
use previewctl.Environment.{EnvironmentEntry, set_env, step_completed}
use previewctl.Provision.{
  Provisioner, Locals, Request, on_machine, phase_hook, create_remote, check_remote, set_locals,
  set_entry, entry_of, create_env,
}
use previewctl.Provision.Steps.{
  create_remote_step, create_local_step, check_worktree, allocate_step, seed_fn, seed_step,
  build_fn, build_step, write_fn, write_step,
}

pub step_completed-set_globals :
    (n : Text) (globals : Map Text) (e : EnvironmentEntry)
    → step_completed n (set_globals globals e) ≡ step_completed n e
unfolding set_globals set_env step_completed
step_completed-set_globals n [] e = refl
step_completed-set_globals n ((k, v) ∷ globals) e =
    step_completed-set_globals n globals (set_env k v e)

module _ {S C : Type 0} where
  set_globals-SameRecords :
      (s : Session S (Locals C)) (f : Locals C → Locals C) (globals : Map Text)
      → SameRecords s (set_entry (set_globals globals) (set_locals f s))
  set_globals-SameRecords s f globals = elim (Option-cases s.entry) [
    | inl e ↦ record {
      same_some = ground (arith, e);
      same_records = λ n. ground (arith, e);
      same_cache = refl;
    }
    | inr e ↦ record {
      same_some = ground (arith, e.1);
      same_records = λ n. ground (arith, e.1, step_completed-set_globals n globals e.0);
      same_cache = refl;
    }
  ]

  on_machine-IsQuiet :
      {A : Type 0} (run : S × C → (S × C) × Result A)
      (next : A → Session S (Locals C) → Session S (Locals C))
      → ((a : A) (t : Session S (Locals C)) → SameRecords t (next a t))
      → IsQuiet (on_machine run next)
  unfolding on_machine
  on_machine-IsQuiet run next h s =
      let ran = run (s.store, s.world.machine) in
      let t : Session S (Locals C) = record s {
        store = ran.0.0;
        world = record s.world { machine = ran.0.1 };
      } in
      elim (Result-cases ran.1) [
        | inr e ↦ rw (e.1, on_machine) (apart-SameRecords s t refl refl)
        | inl v ↦ rw (v.1, on_machine) (from_same s t (next v.0 t) refl refl (h v.0 t))
      ]

  pub phase_hook-IsTame :
      (p : Provisioner (S × C)) (name label script : Text) (worktree : Option Text)
      (ports : PortMap) (request : Request)
      → IsTame (phase_hook {S = S} p name label script worktree ports request)
  unfolding phase_hook on_machine
  phase_hook-IsTame p name label script none ports request =
      unverified-IsTame _ refl (λ s. apart-SameRecords s _ refl refl)
  phase_hook-IsTame p name label script (some path) ports request =
      unverified-IsTame _ refl (λ s. apart-SameRecords s _ (ground arith) (ground arith))

  check_remote-IsApart : (p : Provisioner (S × C)) → IsApart (check_remote {S = S} p)
  unfolding check_remote on_machine
  check_remote-IsApart p = record {
    same_entry = λ s. ground arith;
    keeps_cache = λ s. ground arith;
  }

  check_worktree-IsApart :
      (p : Provisioner (S × C)) (request : Request) → IsApart (check_worktree {S = S} p request)
  unfolding check_worktree
  check_worktree-IsApart p request = record {
    same_entry = λ s. ground arith;
    keeps_cache = λ s. ground arith;
  }

  module _ (p : Provisioner (S × C)) (request : Request) where
    pub create_remote_step-IsTame :
        (script : Text) (declared : List Text)
        → IsTame (create_remote_step {S = S} p request script declared)
    unfolding create_remote_step create_remote check_remote
    create_remote_step-IsTame script declared =
        verified-IsTame (create_remote_step p request script declared) (check_remote p) refl
          (check_remote-IsApart p)
          (λ s.
            let t : Session S (Locals C) =
              on_step (bytes "create_compute") step_streaming (bytes "Creating remote compute...")
                none s in
            from_same s t (create_remote p request script declared s).0 refl refl (
              on_machine-IsQuiet
                (run_hook p.host p.hook_process script declared (create_env p request (entry_of s)))
                (λ outputs u.
                  set_entry (set_globals (extract_global_outputs outputs))
                    (set_locals (λ l. record l { compute_outputs = some outputs }) u))
                (λ outputs u.
                  set_globals-SameRecords u (λ l. record l { compute_outputs = some outputs })
                    (extract_global_outputs outputs))
                t))

    pub create_local_step-IsTame : IsTame (create_local_step {S = S} p request)
    unfolding create_local_step on_machine
    create_local_step-IsTame =
        verified-IsTame (create_local_step p request) (check_worktree p request) refl
          (check_worktree-IsApart p request)
          (λ s. apart-SameRecords s _ (ground arith) (ground arith))

    pub allocate_step-IsTame : IsTame (allocate_step {S = S} p request)
    unfolding allocate_step on_machine
    allocate_step-IsTame =
        unverified-IsTame _ refl (λ s. apart-SameRecords s _ (ground arith) (ground arith))

    pub seed_step-IsTame :
        (service script : Text) → IsTame (seed_step {S = S} p request service script)
    unfolding seed_step seed_fn
    seed_step-IsTame service script =
        unverified-IsTame (seed_step p request service script) refl (λ s.
          let t : Session S (Locals C) =
            on_step (bytes "seed_" ++ service) step_streaming
              (bytes "Seeding " ++ (service ++ (bytes " → " ++ script))) none s in
          from_same s t (seed_fn p request service script s).0 refl refl (
            on_machine-IsQuiet
              (run_core_hook p.host p.hook_process p.cfg service (bytes "seed") request.env_name
                s.world.port_map [])
              (λ printed u. set_entry (set_globals (extract_global_outputs (get_or printed []))) (
                set_locals
                  (λ l. record l { outputs = insert service (get_or printed []) l.outputs }) u))
              (λ printed u.
                set_globals-SameRecords u
                  (λ l. record l { outputs = insert service (get_or printed []) l.outputs })
                  (extract_global_outputs (get_or printed [])))
              t))

    pub build_step-IsTame : IsTame (build_step {S = S} p request)
    unfolding build_step build_fn
    build_step-IsTame =
        unverified-IsTame _ refl (λ s. apart-SameRecords s _ (ground arith) (ground arith))

    pub write_step-IsTame : IsTame (write_step {S = S} p request)
    unfolding write_step write_fn on_machine
    write_step-IsTame =
        unverified-IsTame _ refl (λ s. apart-SameRecords s _ (ground arith) (ground arith))
