-- ===== src/Compose.antt =====
-- src/domain/compose.go: the infrastructure services of a docker compose file. Decoding the file
-- belongs to the YAML library, and the three regular expressions are written as scanners.
mod Numbers
mod Mappings
mod Samples
use previewctl.Base.{
  ℕ, zero, suc, ◌+◌, ◌-◌, ◌*◌, ◌/◌, ◌%◌, ◌^◌, ◌≤◌, ◌<◌, Bool, true, false, ◌&&◌, ◌||◌, not, Option,
  none, some, List, [], ◌∷◌, ◌++◌, map, reverse, ◌≡◌, refl, sym, ap, ◌∙◌, subst, ◌≢◌, ◌↔◌, ◌⊎◌, inl,
  inr, arith, Text, bytes, ◌==◌, eq_iff, eq_refl, Map, lookup, insert, erase, keys, lookup-insert,
  lookup-erase, HasUniqueKeys, if◌then◌else◌, ltb, leb, eqb, is_some, get_or, Bool-cases,
  Option-cases, length, elem, count, All, Result, ok, err, cut, ◌>>=◌,
}
use previewctl.Config.{InfraService, is_empty}
use previewctl.Ports.{decimal}

-- `\d`
abbrev pub is_digit : ℕ → Bool
is_digit c = leb b'0' c && leb c b'9'

unfoldable pub all_bytes : (ℕ → Bool) → Text → Bool
all_bytes p [] = true
all_bytes p (x ∷ xs) = p x && all_bytes p xs

-- `^\d+$`
unfoldable pub is_number : Text → Bool
unfolding all_bytes
is_number s = not (is_empty s) && all_bytes is_digit s

-- The number that the digits give, behind those that gave `n`.
unfoldable pub number_from : ℕ → Text → ℕ
number_from n [] = n
number_from n (d ∷ ds) = number_from (n * 10 + (d - b'0')) ds

-- `strconv.Atoi` of a text of digits, whose error is ignored: beyond the greatest 64-bit integer it
-- is that integer.
unfoldable pub atoi : Text → ℕ
unfolding number_from
atoi s = let n = number_from 0 s in if ltb n (2 ^ 63) then n else 2 ^ 63 - 1

-- `[A-Z_][A-Z0-9_]*`
abbrev pub is_upper : ℕ → Bool
is_upper c = (leb b'A' c && leb c b'Z') || eqb c b'_'

abbrev pub is_name_byte : ℕ → Bool
is_name_byte c = is_upper c || is_digit c

unfoldable pub is_name : Text → Bool
unfolding all_bytes
is_name [] = false
is_name (x ∷ xs) = is_upper x && all_bytes is_name_byte xs

-- The parts of `${NAME:-default}:port`: the name and the default.
unfoldable pub env_parts_behind : Text → Text → Option (Text × Text)
unfolding is_number
env_parts_behind name [] = none
env_parts_behind name (dash ∷ s) =
    if eqb dash b'-'
    then elim (cut b'}' s) [
      | none ↦ none
      | some (value, []) ↦ none
      | some (value, colon ∷ port) ↦
          if is_number value && (eqb colon b':' && is_number port) then some (name, value) else none
    ]
    else none

-- `envVarPattern.FindStringSubmatch`
unfoldable pub env_parts : Text → Option (Text × Text)
unfolding is_name env_parts_behind
env_parts (dollar ∷ brace ∷ s) =
    if eqb dollar b'$' && eqb brace b'{'
    then elim (cut b':' s) [
      | none ↦ none
      | some (name, rest) ↦ if is_name name then env_parts_behind name rest else none
    ]
    else none
env_parts _ = none

-- `staticPortPattern.FindStringSubmatch`, the host port.
unfoldable pub static_part : Text → Option Text
unfolding is_number
static_part s = elim (cut b':' s) [
  | none ↦ none
  | some (host, port) ↦ if is_number host && is_number port then some host else none
]

-- `parsePortMapping`: the variable and the port.
unfoldable pub parse_port_mapping : Text → Result (Text × ℕ)
unfolding env_parts static_part is_number atoi
parse_port_mapping mapping = elim (env_parts mapping) [
  | some (name, value) ↦ ok (name, atoi value)
  | none ↦ elim (static_part mapping) [
    | some host ↦ ok ([], atoi host)
    | none ↦
        if is_number mapping
        then ok ([], atoi mapping)
        else err (bytes "unsupported port mapping format: " ++ mapping)
  ]
]

pub record ComposeService : Type 0 where
  pub image : Text
  pub ports : List Text

-- One service; only its first port mapping counts.
unfoldable pub infra_service : Text → ComposeService → Result InfraService
unfolding parse_port_mapping
infra_service name svc = elim svc.ports [
  | [] ↦ ok (record { name = name; image = svc.image; port = 0; env_var = [] })
  | first ∷ _ ↦ elim (parse_port_mapping first) [
    | err e ↦ err (bytes "service '" ++ (name ++ (bytes "': " ++ e)))
    | ok (env_var, port) ↦
        ok (record { name = name; image = svc.image; port = port; env_var = env_var })
  ]
]

-- The loop of `parseComposeData` over the decoded services.
unfoldable pub parse_services : Map ComposeService → Result (Map InfraService)
unfolding infra_service
parse_services [] = ok []
parse_services ((name, svc) ∷ services) =
    let rest = parse_services services in
    infra_service name svc >>= λ infra. rest >>= λ parsed. ok ((name, infra) ∷ parsed)

module _ (unmarshal : Text → Result (Map ComposeService)) where
  unfoldable pub parse_compose_data : Text → Result (Map InfraService)
  unfolding parse_services
  parse_compose_data input = elim (unmarshal input) [
    | err e ↦ err (bytes "parsing compose file: " ++ e)
    | ok services ↦ parse_services services
  ]
