-- ===== src/Destroy/Samples.antt =====
-- The destruction of an environment in memory, and the theorem at it.
use previewctl.Base.{false, none, [], ◌∷◌, ◌++◌, ◌≡◌, refl, bytes, ◌==◌, lookup, erase, ok}
use previewctl.Destroy.{Tools, destroy}
use previewctl.Engine.{Session, step_simple}
use previewctl.Engine.Samples.{Memory, memory}
use previewctl.Environment.Samples.{demo}
use previewctl.Registry.Samples.{Files, machine, host, composed}

abbrev pub tools : Tools (Memory × Files)
tools = record {
  host = host;
  hook_process = λ script env c. (c, ok []);
  local_access = λ path. machine;
  ssh_access = λ entry. machine;
  destroy_compute = λ name c. ((c.0, []), ok tt);
  stop_compute = λ name c. (c, ok tt);
  remove_file = λ path c. (c.0, erase path c.1);
  join_path = λ a b. a ++ (bytes "/" ++ b);
}

abbrev pub stored : Session Memory Files
stored = record {
  entry = none;
  store = (bytes "demo", demo) ∷ (bytes "other", demo) ∷ [];
  world = [];
  no_cache = false;
  ticks = 0;
  events = [];
}

destroy-runs : (destroy memory tools composed (bytes "demo") stored).1 ≡ ok tt
unfolding destroy memory lookup erase bytes ◌==◌ step_simple
destroy-runs = refl
