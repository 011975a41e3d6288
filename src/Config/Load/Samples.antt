-- ===== src/Config/Load/Samples.antt =====
-- Loading a base file with an overlay.
use previewctl.Base.{
  ℕ, none, [], ◌≡◌, refl, subst, arith, Text, bytes, Result, ok, err, merge_entries,
}
use previewctl.Config.{ProvisionerConfig, ProjectConfig}
use previewctl.Config.Load.{contents, missing, load_config_with_overlay}
use previewctl.Config.Load.Valid.{IsLoaded, load_config_with_overlay-IsLoaded}
use previewctl.Config.Merge.{deep_merge_config}
use previewctl.Config.Merge.Laws.{IsOverlay}

abbrev no_provisioner : ProvisionerConfig
no_provisioner = record { before = []; after = []; compute = none; services = [] }

abbrev small : ℕ → Text → ProjectConfig
small version name = record {
  version = version;
  name = name;
  provisioner = no_provisioner;
  infrastructure = none;
  services = [];
  runner = none;
  mode = [];
  infra_services = [];
}

-- A library that reads every file as a configuration of version 1 with the text as its name.
abbrev unmarshal : Text → Result ProjectConfig
unmarshal input = ok (small 1 input)

abbrev loaded : ProjectConfig
loaded = record (small 1 (bytes "remote")) { mode = bytes "remote" }

load_config_with_overlay-loaded :
    load_config_with_overlay unmarshal
      (contents (bytes "demo"))
      (contents (bytes "remote"))
      (bytes "remote")
    ≡ ok loaded
unfolding load_config_with_overlay deep_merge_config bytes merge_entries
load_config_with_overlay-loaded = refl

load_config_with_overlay_no_base :
    load_config_with_overlay unmarshal missing missing (bytes "remote")
    ≡ err (bytes "reading config: file does not exist")
unfolding load_config_with_overlay
load_config_with_overlay_no_base = refl

unmarshal_unique : (input : Text) (o : ProjectConfig) → unmarshal input ≡ ok o → IsOverlay o
unmarshal_unique input o e =
    subst IsOverlay {x = small 1 input} {y = o} (ground arith)
      (record { services = tt; provisioner_services = tt; envs = tt })

load_config_with_overlay-IsLoaded_example :
    (input : Text) × (base : ProjectConfig) × (contents (bytes "demo") ≡ contents input)
    × (unmarshal input ≡ ok base)
    × IsLoaded base loaded
    × (loaded.mode ≡ bytes "remote")
load_config_with_overlay-IsLoaded_example =
    load_config_with_overlay-IsLoaded unmarshal unmarshal_unique (contents (bytes "demo"))
      (contents (bytes "remote")) (bytes "remote") loaded load_config_with_overlay-loaded
