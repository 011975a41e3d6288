-- ===== src/Propagate/Samples.antt =====
-- A reset of one provisioner service, and the theorems at it.
use previewctl.Base.{
  false, none, some, [], ◌∷◌, ◌≡◌, refl, arith, Text, bytes, ◌==◌, eq_iff, Map, lookup,
  HasUniqueKeys, is_some, get_or, elem, contains, IsSorted, has_prefix, sort, text_ltb,
}
use previewctl.Template.{TemplateContext, render_template, render_env_map}
use previewctl.Validate.Samples.{web, shop}
use previewctl.Propagate.{differs, diff_store_keys, services_affected_by_change, to_restart}
use previewctl.Propagate.Changes.{diff_store_keys-elem}
use previewctl.Propagate.Affected.{unaffected-render}
use previewctl.Propagate.Unmentioned.{DiffersIn}

program : Unit {0}
unfolding services_affected_by_change to_restart diff_store_keys lookup elem contains has_prefix
    sort text_ltb bytes ◌==◌
program = tt

abbrev before : Map Text
before = (bytes "A", bytes "1") ∷ (bytes "B", bytes "2") ∷ []

abbrev after : Map Text
after = (bytes "A", bytes "9") ∷ (bytes "C", []) ∷ []

diff_store_keys-demo : diff_store_keys before after ≡ bytes "A" ∷ bytes "B" ∷ []
unfolding program
diff_store_keys-demo = refl

after-HasUniqueKeys : HasUniqueKeys after
unfolding program
after-HasUniqueKeys = (refl, (refl, tt))

diff_store_keys-elem_example :
    (elem (bytes "B") (diff_store_keys before after) ≡ elim (lookup (bytes "B") after) [
      | none ↦ is_some (lookup (bytes "B") before)
      | some v ↦ differs before (bytes "B") v
    ])
    × IsSorted (diff_store_keys before after)
diff_store_keys-elem_example = diff_store_keys-elem before after (bytes "B") after-HasUniqueKeys

services_affected_by_change-main :
    services_affected_by_change shop.services (bytes "main") []
    ≡ (false, bytes "web" ∷ bytes "web" ∷ [])
unfolding program
services_affected_by_change-main = refl

abbrev context : Text → TemplateContext
context value = record {
  service_ports = [];
  infra_ports = [];
  provisioner_outputs = [];
  current_service = [];
  env_name = bytes "demo";
  store = (bytes "KEY", value) ∷ [];
  proxy_domain = [];
}

context-DiffersIn : DiffersIn [] (bytes "KEY" ∷ []) (context (bytes "1")) (context (bytes "2"))
unfolding program
context-DiffersIn = record {
  service_ports = refl;
  infra_ports = refl;
  current_service = refl;
  env_name = refl;
  proxy_domain = refl;
  outputs = λ s h. refl;
  store = λ k h. ground (arith, h, eq_iff (bytes "KEY") k);
}

unaffected-render_example :
    let change = services_affected_by_change shop.services [] (bytes "KEY" ∷ []) in
    let old = context (bytes "1") in
    let new = context (bytes "2") in
    (elem (bytes "web") change.1 ≡ false
      → (render_env_map (get_or web.env []) old ≡ render_env_map (get_or web.env []) new)
        × (render_template web.start old ≡ render_template web.start new))
    × (change.0 ≡ false → render_template web.start old ≡ render_template web.start new)
unaffected-render_example =
    unaffected-render shop.services [] (bytes "KEY" ∷ []) (context (bytes "1"))
      (context (bytes "2")) (bytes "web") web context-DiffersIn (unfold lookup bytes ◌==◌ in refl)
