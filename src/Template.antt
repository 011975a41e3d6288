-- ===== src/Template.antt =====
-- src/domain/template.go: `{{var}}` placeholders and the values that they stand for.
mod Scan
mod Resolve
mod Samples
use previewctl.Base.{
  ℕ, zero, suc, ◌+◌, ◌-◌, ◌*◌, ◌/◌, ◌%◌, ◌^◌, ◌≤◌, ◌<◌, Bool, true, false, ◌&&◌, ◌||◌, not, Option,
  none, some, List, [], ◌∷◌, ◌++◌, map, reverse, ◌≡◌, refl, sym, ap, ◌∙◌, subst, ◌≢◌, ◌↔◌, ◌⊎◌, inl,
  inr, arith, Text, bytes, ◌==◌, eq_iff, eq_refl, Map, lookup, insert, erase, keys, lookup-insert,
  lookup-erase, HasUniqueKeys, if◌then◌else◌, ltb, leb, eqb, is_some, get_or, Bool-cases,
  Option-cases, length, elem, count, All, Result, ok, err, cut, join, split, trim_space, ◌>>=◌,
}
use previewctl.Config.{is_empty}
use previewctl.Ports.{PortMap, decimal}

-- A piece of a text under the pattern `\{\{([^}]+)\}\}`: a byte outside every match, or a match with
-- its submatch.
pub data Segment : Type 0 where
  literal : ℕ → Segment
  placeholder : Text → Segment

-- The submatch of a match that begins at `s`. `[^}]+` takes all bytes up to the first `}`.
unfoldable pub submatch : Text → Option Text
submatch [] = none
submatch (a ∷ []) = none
submatch (a ∷ b ∷ s) =
    if eqb a b'{' && eqb b b'{'
    then elim (cut b'}' s) [
      | none ↦ none
      | some ([], after) ↦ none
      | some (c ∷ body, []) ↦ none
      | some (c ∷ body, d ∷ after) ↦ if eqb d b'}' then some (c ∷ body) else none
    ]
    else none

-- `skip` bytes belong to the match before.
unfoldable pub scan : ℕ → Text → List Segment
scan skip [] = []
scan (suc skip) (x ∷ s) = scan skip s
scan zero (x ∷ s) = elim (submatch (x ∷ s)) [
  | none ↦ literal x ∷ scan 0 s
  | some var ↦ placeholder var ∷ scan (length var + 3) s
]

-- What the regexp library finds from left to right.
unfoldable pub segments : Text → List Segment
unfolding scan submatch
segments s = scan 0 s

pub record TemplateContext : Type 0 where
  pub service_ports : PortMap
  pub infra_ports : PortMap
  pub provisioner_outputs : Map (Map Text)
  pub current_service : Text
  pub env_name : Text
  pub store : Map Text
  pub proxy_domain : Text

abbrev pub found : Option ℕ → Text → Result Text
found none message = err message
found (some port) message = ok (decimal port)

abbrev pub found_text : Option Text → Text → Result Text
found_text none message = err message
found_text (some value) message = ok value

abbrev path_of : List Text → Text
path_of parts = join (bytes ".") parts

-- `resolveProvisionerVar`: the parts behind `provisioner`.
unfoldable pub resolve_provisioner_var : List Text → TemplateContext → Result Text
resolve_provisioner_var (service ∷ output ∷ []) ctx =
    elim (lookup service ctx.provisioner_outputs) [
      | none ↦ err (bytes "unknown provisioner service '" ++ (service ++ bytes "'"))
      | some outputs ↦ found_text (lookup output outputs) (
          bytes "unknown output '"
          ++ (output ++ (bytes "' for provisioner service '" ++ (service ++ bytes "'"))))
    ]
resolve_provisioner_var _ ctx = err (bytes "expected provisioner.<service>.<output>")

-- The parts behind `self`, once a current service is known.
unfoldable pub self_port : List Text → TemplateContext → Result Text
self_port (port ∷ []) ctx =
    if port == bytes "port"
    then found (lookup ctx.current_service ctx.service_ports)
        (bytes "no port allocated for current service '" ++ (ctx.current_service ++ bytes "'"))
    else err (bytes "expected self.port, got " ++ path_of (bytes "self" ∷ port ∷ []))
self_port rest ctx = err (bytes "expected self.port, got " ++ path_of (bytes "self" ∷ rest))

unfoldable pub resolve_self : List Text → TemplateContext → Result Text
unfolding self_port
resolve_self rest ctx =
    if is_empty ctx.current_service
    then err (bytes "'self' can only be used inside a service env block")
    else self_port rest ctx

-- `services.<name>.port` and `infrastructure.<name>.port`.
unfoldable pub resolve_port : Text → Text → PortMap → List Text → Result Text
resolve_port space unknown ports (name ∷ port ∷ []) =
    if port == bytes "port"
    then found (lookup name ports) (unknown ++ (name ++ bytes "'"))
    else err (
        bytes "expected "
        ++ (space ++ (bytes ".<name>.port, got " ++ path_of (space ∷ name ∷ port ∷ []))))
resolve_port space unknown ports rest =
    err (bytes "expected " ++ (space ++ (bytes ".<name>.port, got " ++ path_of (space ∷ rest))))

unfoldable pub resolve_env : List Text → TemplateContext → Result Text
resolve_env (name ∷ []) ctx =
    if name == bytes "name"
    then if is_empty ctx.env_name
      then err (bytes "env.name not available in this context")
      else ok ctx.env_name
    else err (bytes "expected env.name, got " ++ path_of (bytes "env" ∷ name ∷ []))
resolve_env rest ctx = err (bytes "expected env.name, got " ++ path_of (bytes "env" ∷ rest))

unfoldable pub resolve_store : List Text → TemplateContext → Result Text
resolve_store (key ∷ []) ctx =
    found_text (lookup key ctx.store)
      (bytes "store variable '" ++ (key ++ bytes "' not found (set it with 'previewctl env set')"))
resolve_store rest ctx = err (bytes "expected store.<key>, got " ++ path_of (bytes "store" ∷ rest))

abbrev expected_proxy : List Text → Result Text
expected_proxy rest =
    err
      (bytes "expected proxy.domain or proxy.url.<service>, got " ++ path_of (bytes "proxy" ∷ rest))

-- The parts behind `proxy`, once a domain is known.
unfoldable pub proxy_value : List Text → TemplateContext → Result Text
proxy_value (a ∷ []) ctx =
    if a == bytes "domain" then ok ctx.proxy_domain else expected_proxy (a ∷ [])
proxy_value (a ∷ service ∷ []) ctx =
    if a == bytes "url"
    then if is_some (lookup service ctx.service_ports)
      then ok (
          bytes "https://"
          ++ (ctx.env_name ++ (bytes "--" ++ (service ++ (bytes "." ++ ctx.proxy_domain)))))
      else err (bytes "unknown service '" ++ (service ++ bytes "' in proxy.url"))
    else expected_proxy (a ∷ service ∷ [])
proxy_value rest ctx = expected_proxy rest

unfoldable pub resolve_proxy : List Text → TemplateContext → Result Text
unfolding proxy_value
resolve_proxy rest ctx =
    if is_empty ctx.proxy_domain
    then err (bytes "proxy variables require runner.compose.proxy.domain to be configured")
    else proxy_value rest ctx

unfoldable pub resolve_var : List Text → TemplateContext → Result Text
unfolding resolve_self resolve_port resolve_env resolve_store resolve_proxy resolve_provisioner_var
resolve_var [] ctx = err (bytes "empty variable path")
resolve_var (space ∷ rest) ctx =
    if space == bytes "self"
    then resolve_self rest ctx
    else if space == bytes "services"
    then resolve_port (bytes "services") (bytes "unknown service '") ctx.service_ports rest
    else if space == bytes "infrastructure"
    then resolve_port (bytes "infrastructure") (bytes "unknown infrastructure service '")
        ctx.infra_ports rest
    else if space == bytes "env"
    then resolve_env rest ctx
    else if space == bytes "store"
    then resolve_store rest ctx
    else if space == bytes "proxy"
    then resolve_proxy rest ctx
    else if space == bytes "provisioner"
    then resolve_provisioner_var rest ctx
    else err (bytes "unknown namespace '" ++ (space ++ bytes "'"))

-- `strings.Split(strings.TrimSpace(match), ".")`
unfoldable pub var_parts : Text → List Text
var_parts var = split b'.' (trim_space var)

-- The value of one placeholder, with the error that `RenderTemplate` wraps.
unfoldable pub placeholder_value : Text → TemplateContext → Result Text
unfolding var_parts resolve_var
placeholder_value var ctx = elim (resolve_var (var_parts var) ctx) [
  | ok value ↦ ok value
  | err e ↦ err (bytes "template variable '" ++ (trim_space var ++ (bytes "': " ++ e)))
]

-- Behind the first error the matches are left alone, and the result is that error.
unfoldable pub render_segments : List Segment → TemplateContext → Result Text
unfolding placeholder_value
render_segments [] ctx = ok []
render_segments (literal x ∷ rest) ctx = render_segments rest ctx >>= λ text. ok (x ∷ text)
render_segments (placeholder var ∷ rest) ctx =
    let after = render_segments rest ctx in
    placeholder_value var ctx >>= λ value. after >>= λ text. ok (value ++ text)

unfoldable pub render_template : Text → TemplateContext → Result Text
unfolding segments render_segments
render_template tmpl ctx = render_segments (segments tmpl) ctx

-- The entries in the order of iteration; the first error ends the loop.
unfoldable pub render_env_map : Map Text → TemplateContext → Result (Map Text)
unfolding render_template
render_env_map [] ctx = ok []
render_env_map ((key, val) ∷ env) ctx =
    let rest = render_env_map env ctx in
    elim (render_template val ctx) [
      | err e ↦ err (bytes "env var '" ++ (key ++ (bytes "': " ++ e)))
      | ok value ↦ rest >>= λ rendered. ok ((key, value) ∷ rendered)
    ]
