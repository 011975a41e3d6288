-- ===== src/Config/Merge/Samples.antt =====
-- A base, an overlay, and the theorems at them.
use previewctl.Base.{none, some, [], ◌∷◌, ◌≡◌, refl, bytes, ◌==◌, lookup, insert, merge_entries}
use previewctl.Config.{ServiceConfig, ProvisionerConfig, ProjectConfig}
use previewctl.Config.Merge.{deep_merge_config}
use previewctl.Config.Merge.Laws.{IsOverlay}
use previewctl.Config.Merge.Fields.{
  IsConfigMerge, IsServiceMerge, MergesTo, deep_merge_config-fields, deep_merge_config-services,
}

abbrev pub web : ServiceConfig
web = record {
  path = bytes "apps/web";
  port = 0;
  command = [];
  depends_on = [];
  env = some ((bytes "A", bytes "1") ∷ (bytes "B", bytes "2") ∷ []);
  env_file = [];
  build = [];
  start = bytes "pnpm start";
  proxy = [];
}

-- Only the port and one variable are given.
abbrev pub web_remote : ServiceConfig
web_remote = record {
  path = [];
  port = 3000;
  command = [];
  depends_on = [];
  env = some ((bytes "B", bytes "9") ∷ []);
  env_file = [];
  build = [];
  start = [];
  proxy = [];
}

abbrev pub no_provisioner : ProvisionerConfig
no_provisioner = record { before = []; after = []; compute = none; services = [] }

abbrev pub base : ProjectConfig
base = record {
  version = 1;
  name = bytes "demo";
  provisioner = no_provisioner;
  infrastructure = none;
  services = (bytes "web", web) ∷ [];
  runner = none;
  mode = [];
  infra_services = [];
}

abbrev pub overlay : ProjectConfig
overlay = record {
  version = 0;
  name = [];
  provisioner = no_provisioner;
  infrastructure = none;
  services = (bytes "web", web_remote) ∷ [];
  runner = none;
  mode = [];
  infra_services = [];
}

program : Unit {0}
unfolding deep_merge_config merge_entries bytes ◌==◌ lookup insert
program = tt

deep_merge_config-web :
    (deep_merge_config base overlay).services
    ≡ (
      bytes "web",
      record web { port = 3000; env = some ((bytes "A", bytes "1") ∷ (bytes "B", bytes "9") ∷ []) },
    )
      ∷ []
unfolding program
deep_merge_config-web = refl

overlay-IsOverlay : IsOverlay overlay
unfolding program
overlay-IsOverlay = record {
  services = (refl, tt);
  provisioner_services = tt;
  envs = ((refl, tt), tt);
}

deep_merge_config-fields_example : IsConfigMerge base overlay (deep_merge_config base overlay)
deep_merge_config-fields_example = deep_merge_config-fields base overlay overlay-IsOverlay

deep_merge_config-services_example :
    MergesTo IsServiceMerge
      (lookup (bytes "web") base.services)
      (lookup (bytes "web") overlay.services)
      (lookup (bytes "web") (deep_merge_config base overlay).services)
deep_merge_config-services_example =
    deep_merge_config-services base overlay (bytes "web") overlay-IsOverlay
