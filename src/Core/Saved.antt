-- ===== src/Core/Saved.antt =====
-- `CoreReset` of src/domain/manager.go: what it leaves in the state store.
use previewctl.Base.{
  ℕ, Option, some, [], ◌≡◌, List, Text, bytes, ◌==◌, Map, if◌then◌else◌, Result, ok, err,
}
use previewctl.Core.{Manager}
use previewctl.Core.Reset.{reset_entry}
use previewctl.Engine.{StatePort, Session}
use previewctl.Environment.{EnvironmentEntry}
use previewctl.HookEnv.{run_core_hook}
use previewctl.Registry.{World}

module _ {S C : Type 0} (port : StatePort S) (clock : ℕ → ℕ) (hostname : Text)
    (manager : Manager (S × C)) (service env_name : Text) where
  -- The run of the reset hook for an entry, on the machine of a session.
  abbrev pub reset_run : EnvironmentEntry → Session S (World C) → Result (Option (Map Text))
  reset_run e s =
      (run_core_hook manager.base.host manager.tools.hook_process manager.base.cfg service
        (bytes "reset") env_name e.ports [] (s.store, s.world.compute)).1

  -- What the reset of an entry leaves: the entry with the hook's outputs, whatever the hook itself has
  -- written under its name, and what there was under another name.
  abbrev pub WasReset : Text → EnvironmentEntry → Session S (World C) → Session S (World C) → Type 0
  WasReset other e s t =
      (outputs : Map Text) × (reset_run e s ≡ ok (some outputs))
      × (port.get_environment env_name t.store ≡ ok (some (reset_entry service outputs e)))
      × (port.get_environment other t.store ≡ (
          if env_name == other
          then ok (some (reset_entry service outputs e))
          else port.get_environment other s.store))

  -- The hooks leave alone what the store gives for a name.
  abbrev pub HooksSpare : Text → Type 0
  HooksSpare other =
      (script : Text) (env : List Text) (c : S × C)
      → port.get_environment other (manager.tools.hook_process script env c).0.0
        ≡ port.get_environment other c.0

  -- What the reset of `e` leaves in both outcomes, where the hooks leave `other` alone.
  abbrev Saved : Text → EnvironmentEntry → (s t : Session S (World C)) → Result (Unit {0}) → Type 0
  Saved other e s t r =
      (r ≡ ok tt → WasReset other e s t)
      × ((m : Text)
          → r ≡ err m
          → port.get_environment other t.store ≡ port.get_environment other s.store)
