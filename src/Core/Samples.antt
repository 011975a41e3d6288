-- ===== src/Core/Samples.antt =====
-- A provisioner service whose reset hook prints a URL, and the theorem at it.
use previewctl.Base.{
  split, trim_space, has_prefix, cut, true, false, none, [], ◌∷◌, ◌≡◌, refl, bytes, ◌==◌, lookup,
  insert, ok,
}
use previewctl.Config.{ProjectConfig}
use previewctl.Core.{Manager}
use previewctl.Core.Reset.{core_reset}
use previewctl.Destroy.Samples.{tools}
use previewctl.Engine.{Session}
use previewctl.Engine.Samples.{Memory, memory, clock}
use previewctl.Environment.Samples.{demo}
use previewctl.Registry.{World}
use previewctl.Registry.Samples.{Files, composed, setup_for, manifest}

abbrev pub seeded : ProjectConfig
seeded = record composed {
  provisioner = record {
    before = [];
    after = [];
    compute = none;
    services =
        (
          bytes "main",
          record {
            outputs = bytes "URL" ∷ [];
            init = [];
            seed = bytes "seed.sh";
            reset = bytes "reset.sh";
            destroy = [];
          },
        )
        ∷ [];
  };
}

abbrev pub manager : Manager (Memory × Files)
manager = record {
  base = setup_for seeded;
  tools = record tools { hook_process = λ script env c. (c, ok (bytes "URL=db")) };
  decode_manifest = λ content. ok manifest;
}

abbrev session : Session Memory (World Files)
session = record {
  entry = none;
  store = (bytes "demo", demo) ∷ [];
  world = record { manifest = manifest; compute = []; stderr = [] };
  no_cache = false;
  ticks = 5;
  events = [];
}

core_reset-ok :
    (core_reset memory clock (bytes "host") manager (bytes "main") (bytes "demo") true session).1
    ≡ ok tt
unfolding core_reset memory lookup insert bytes ◌==◌ split trim_space has_prefix cut
core_reset-ok = refl
