-- ===== src/Validate/Samples.antt =====
-- A configuration that is accepted, and one variable of it rendered.
use previewctl.Base.{
  is_ok, ◌≢◌, true, none, some, [], ◌∷◌, ◌≡◌, refl, arith, Text, bytes, ◌==◌, eq_iff, Map, lookup,
  insert, elem, count, ok, has_prefix, trim_space, split, cut, join, sort, text_ltb,
}
use previewctl.Config.{ServiceConfig, ProjectConfig}
use previewctl.Graph.{topological_sort}
use previewctl.Template.{
  TemplateContext, segments, resolve_var, render_template, render_env_map, var_parts,
}
use previewctl.Ports.{decimal}
use previewctl.Config.{InfraService}
use previewctl.Graph.Order.{IsAcyclic}
use previewctl.Validate.Accepted.{accepted_lem}
use previewctl.Validate.{
  is_known, validation_errors, check_parts, validate_template_vars, validate_required,
  validate_port_collisions, validate_dependency_refs,
}
use previewctl.Validate.Renders.{Supplies, accepted-render_env_map}

abbrev pub web_env : Map Text
web_env =
    (bytes "PORT", bytes "{{self.port}}")
    ∷ (bytes "DB", bytes "x:{{ provisioner.main.URL }}/{{infrastructure.pg.port}}")
    ∷ []

abbrev pub web : ServiceConfig
web = record {
  path = bytes "apps/web";
  port = 0;
  command = [];
  depends_on = bytes "pg" ∷ [];
  env = some web_env;
  env_file = [];
  build = [];
  start = bytes "pnpm start";
  proxy = [];
}

abbrev pub shop : ProjectConfig
shop = record {
  version = 1;
  name = bytes "shop";
  provisioner = record {
    before = [];
    after = [];
    compute = none;
    services =
        (
          bytes "main",
          record { outputs = bytes "URL" ∷ []; init = []; seed = []; reset = []; destroy = [] },
        )
        ∷ [];
  };
  infrastructure = none;
  services = (bytes "web", web) ∷ [];
  runner = none;
  mode = [];
  infra_services =
      (
        bytes "pg",
        record { name = bytes "pg"; image = bytes "postgres"; port = 5432; env_var = [] },
      )
      ∷ [];
}

abbrev pub shop_outputs : Map (Map Text)
shop_outputs = (bytes "main", (bytes "URL", bytes "db") ∷ []) ∷ []

abbrev context : TemplateContext
context = record {
  service_ports = (bytes "web", 61000) ∷ [];
  infra_ports = (bytes "pg", 61001) ∷ [];
  provisioner_outputs = shop_outputs;
  current_service = bytes "web";
  env_name = bytes "demo";
  store = [];
  proxy_domain = [];
}

pub shop-accepted : validation_errors shop ≡ []
unfolding validation_errors validate_template_vars validate_required validate_port_collisions
    validate_dependency_refs bytes has_prefix trim_space split cut join lookup elem count
    topological_sort segments var_parts decimal sort text_ltb insert ◌==◌ check_parts
shop-accepted = refl

web_env-rendered :
    render_env_map web_env context
    ≡ ok ((bytes "PORT", bytes "61000") ∷ (bytes "DB", bytes "x:db/61001") ∷ [])
unfolding render_env_map render_template segments resolve_var var_parts decimal trim_space split cut
    join lookup bytes ◌==◌
web_env-rendered = refl

program : Unit {0}
unfolding lookup elem bytes ◌==◌
program = tt

context-Supplies : Supplies shop context
unfolding program
context-Supplies = record {
  service_port = λ s h. ground (arith, eq_iff (bytes "web") s, h);
  infra_port = λ s h. ground (arith, eq_iff (bytes "pg") s, h);
  output = λ s o h. ground (arith, eq_iff (bytes "main") s, eq_iff (bytes "URL") o, h);
  current = refl;
  current_port = refl;
}

accepted-render_env_map_example : is_ok (render_env_map web_env context) ≡ true
accepted-render_env_map_example =
    accepted-render_env_map shop context web shop-accepted context-Supplies
      (unfold lookup bytes ◌==◌ in refl)

accepted_lem_example :
    ((a b : Text) (x y : InfraService)
      → lookup a shop.infra_services ≡ some x
      → lookup b shop.infra_services ≡ some y
      → x.port ≡ y.port
      → a ≡ b)
    × ((name dep : Text) (svc : ServiceConfig)
        → lookup name shop.services ≡ some svc
        → elem dep svc.depends_on ≡ true
        → (is_known shop dep ≡ true) × (dep ≢ name))
    × IsAcyclic shop.services
accepted_lem_example = accepted_lem shop (unfold lookup in (refl, tt)) shop-accepted
