-- ===== src/Validate/Accepted.antt =====
-- The ports and the dependencies of a configuration that `ValidateConfig` of src/domain/validate.go
-- accepts.
use previewctl.Base.{
  Text-cases, ne_of_eq-false, length-append, ℕ, ◌+◌, ◌≤◌, Bool, true, false, none, some, List, [],
  ◌∷◌, ◌++◌, ◌≡◌, refl, ◌≢◌, inl, inr, arith, Text, bytes, ◌==◌, eq_iff, Map, lookup, HasUniqueKeys,
  if◌then◌else◌, eqb, length, elem, ok, err, length-append, Text-cases,
}
use previewctl.Config.{ProjectConfig, ServiceConfig, InfraService, is_empty}
use previewctl.Graph.{topological_sort}
use previewctl.Graph.Order.{topological_sort_decides, IsAcyclic}
use previewctl.Validate.{
  add_owner, port_owners, report_collisions, validate_port_collisions, check_dependencies,
  check_services, is_known, validate_dependency_refs, validation_errors, validate_required,
}
use previewctl.Validate.Renders.{append-nil_left}

-- How many owners a port has.
owners_at : ℕ → List (ℕ × List Text) → ℕ
owners_at port [] = 0
owners_at port ((p, owners) ∷ rest) = if eqb p port then length owners else owners_at port rest

-- How many infrastructure services use a port.
users : ℕ → Map InfraService → ℕ
users port [] = 0
users port ((name, infra) ∷ services) = (if eqb infra.port port then 1 else 0) + users port services

owners_at-add_owner :
    (port q : ℕ) (owner : Text) (owners : List (ℕ × List Text))
    → owners_at port (add_owner q owner owners)
      ≡ (if eqb q port then 1 else 0) + owners_at port owners
unfolding owners_at add_owner
owners_at-add_owner port q owner [] = ground arith
owners_at-add_owner port q owner ((p, os) ∷ rest) =
    ground (arith, owners_at-add_owner port q owner rest, length-append os (owner ∷ []))

owners_at-port_owners :
    (port : ℕ) (owners : List (ℕ × List Text)) (services : Map InfraService)
    → owners_at port (port_owners owners services) ≡ users port services + owners_at port owners
unfolding port_owners users
owners_at-port_owners port owners [] = omega arith
owners_at-port_owners port owners ((name, infra) ∷ services) =
    let owner = bytes "infrastructure" ++ (bytes " '" ++ (name ++ bytes "'")) in
    ground (
      arith,
      owners_at-port_owners port (add_owner infra.port owner owners) services,
      owners_at-add_owner port infra.port owner owners,
    )

unreported :
    (port : ℕ) (owners : List (ℕ × List Text))
    → report_collisions owners ≡ []
    → owners_at port owners ≤ 1
unfolding owners_at report_collisions
unreported port [] h = ground arith
unreported port ((p, os) ∷ rest) h = ground (arith, unreported port rest, h)

one_user :
    (services : Map InfraService) (a : Text) (x : InfraService)
    → lookup a services ≡ some x
    → 1 ≤ users x.port services
unfolding users lookup
one_user [] a x h = absurd (cc (h))
one_user ((n, i) ∷ services) a x h = ground (arith, eq_iff n a, one_user services a x, h)

two_users :
    (services : Map InfraService) (a b : Text) (x y : InfraService)
    → lookup a services ≡ some x
    → lookup b services ≡ some y
    → x.port ≡ y.port
    → (a == b) ≡ false
    → 2 ≤ users x.port services
unfolding users lookup
two_users [] a b x y h k e d = absurd (cc (h))
two_users ((n, i) ∷ services) a b x y h k e d = ground (
  arith,
  eq_iff n a,
  eq_iff n b,
  eq_iff a b,
  one_user services a x,
  one_user services b y,
  two_users services a b x y,
  h,
  k,
  e,
  d,
)

dependencies-known :
    (known : Text → Bool) (name dep : Text) (deps : List Text)
    → check_dependencies known name deps ≡ []
    → elem dep deps ≡ true
    → (known dep ≡ true) × ((dep == name) ≡ false)
unfolding check_dependencies elem
dependencies-known known name dep [] h m = absurd (ground (arith, m))
dependencies-known known name dep (d ∷ deps) h m = elim (Text-cases d dep) [
  | inl e ↦ (ground (arith, e, h), ground (arith, e, h))
  | inr e ↦ dependencies-known known name dep deps (ground (arith, h)) (ground (arith, e, m))
]

services-known :
    (known : Text → Bool) (services : Map ServiceConfig) (name : Text) (svc : ServiceConfig)
    → check_services known services ≡ []
    → lookup name services ≡ some svc
    → check_dependencies known name svc.depends_on ≡ []
unfolding check_services lookup
services-known known [] name svc h m = absurd (cc (m))
services-known known ((n, s) ∷ services) name svc h m =
    let both =
      append-nil_left (check_dependencies known n s.depends_on) (check_services known services) h in
    ground (arith, both.0, services-known known services name svc both.1, m, eq_iff n name)

no_owners : (port : ℕ) → owners_at port [] ≡ 0
unfolding owners_at
no_owners port = refl

empty-IsAcyclic : IsAcyclic []
unfolding lookup
empty-IsAcyclic = (λ n. 0, λ n d hn hd h. absurd (cc (hn)))

not_reported-IsAcyclic :
    (services : Map ServiceConfig)
    → HasUniqueKeys services
    → (if is_empty services then [] else elim (topological_sort services) [
      | none ↦ []
      | some (ok order) ↦ []
      | some (err e) ↦ (bytes "dependency cycle detected: " ++ e) ∷ []
    ])
      ≡ []
    → IsAcyclic services
not_reported-IsAcyclic [] u h = empty-IsAcyclic
not_reported-IsAcyclic (s ∷ services) u h = elim (topological_sort_decides (s ∷ services) u) [
  | inl a ↦ a.0
  | inr c ↦ absurd (ground (arith, c.1, h))
]

-- A configuration that `ValidateConfig` accepts, and in which no service occurs twice: no two
-- infrastructure services have the same port; each dependency of a service is a service of the
-- project, of the infrastructure or of the provisioner, and not the service itself; and the
-- dependencies among the services have no cycle.
pub accepted_lem :
    (cfg : ProjectConfig)
    → HasUniqueKeys cfg.services
    → validation_errors cfg ≡ []
    → ((a b : Text) (x y : InfraService)
        → lookup a cfg.infra_services ≡ some x
        → lookup b cfg.infra_services ≡ some y
        → x.port ≡ y.port
        → a ≡ b)
      × ((name dep : Text) (svc : ServiceConfig)
          → lookup name cfg.services ≡ some svc
          → elem dep svc.depends_on ≡ true
          → (is_known cfg dep ≡ true) × (dep ≢ name))
      × IsAcyclic cfg.services
unfolding validation_errors validate_port_collisions validate_dependency_refs
accepted_lem cfg u h =
    let rest = (append-nil_left (validate_required cfg) _ h).1 in
    let ports = append-nil_left (validate_port_collisions cfg) _ rest in
    let refs = (append-nil_left (validate_dependency_refs cfg) _ ports.1).0 in
    let deps = append-nil_left (check_services (is_known cfg) cfg.services) _ refs in
    (
      λ a b x y ha hb e. elim (Text-cases a b) [
        | inl same ↦ same
        | inr d ↦ absurd (
            ground (
              arith,
              two_users cfg.infra_services a b x y ha hb e d,
              owners_at-port_owners x.port [] cfg.infra_services,
              no_owners x.port,
              unreported x.port (port_owners [] cfg.infra_services) ports.0,
            ))
      ],
      λ name dep svc m d.
          let k =
            dependencies-known (is_known cfg) name dep svc.depends_on
              (services-known (is_known cfg) cfg.services name svc deps.0 m) d in
          (k.0, ne_of_eq-false dep name k.1),
      not_reported-IsAcyclic cfg.services u deps.1,
    )
