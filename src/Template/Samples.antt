-- ===== src/Template/Samples.antt =====
-- A text with a placeholder, and the theorems at it.
use previewctl.Base.{
  [], ◌∷◌, ◌++◌, ◌≡◌, refl, arith, Text, bytes, ◌==◌, Map, lookup, ok, trim_space, Lacks, ◌>>=◌,
  split, cut, join,
}
use previewctl.Template.{
  TemplateContext, placeholder_value, resolve_var, segments, var_parts, render_template,
  render_env_map,
}
use previewctl.Template.Resolve.{render_template-placeholder}

abbrev context : TemplateContext
context = record {
  service_ports = [];
  infra_ports = [];
  provisioner_outputs = [];
  current_service = [];
  env_name = bytes "demo";
  store = (bytes "KEY", bytes "v1") ∷ [];
  proxy_domain = bytes "preview.dev";
}

abbrev env : Map Text
env = (bytes "A", bytes "{{store.KEY}}-{{env.name}}") ∷ []

env-rendered : render_env_map env context ≡ ok ((bytes "A", bytes "v1-demo") ∷ [])
unfolding render_env_map render_template segments resolve_var var_parts trim_space split cut join
    lookup bytes ◌==◌
env-rendered = refl

store_var-Lacks : Lacks b'}' (bytes "store.KEY")
unfolding bytes
store_var-Lacks = ground arith

before-Lacks : Lacks b'{' (bytes "a=")
unfolding bytes
before-Lacks = ground arith

render_template-placeholder_example :
    (render_template (bytes "a=") context ≡ ok (bytes "a="))
    × (render_template
          (bytes "a=" ++ (b'{' ∷ b'{' ∷ ((b's' ∷ bytes "tore.KEY") ++ (b'}' ∷ b'}' ∷ bytes "!"))))
          context
        ≡ (placeholder_value (b's' ∷ bytes "tore.KEY") context >>= λ value.
            render_template (bytes "!") context >>= λ (text : Text).
            ok (bytes "a=" ++ (value ++ text))))
render_template-placeholder_example =
    render_template-placeholder (bytes "a=") b's' (bytes "tore.KEY") (bytes "!") context
      before-Lacks (unfold bytes in store_var-Lacks)
