-- ===== src/ComposeFile/Order.antt =====
-- src/domain/compose_generator.go: the generated file and the order in which a map is visited.
use previewctl.Base.{
  Bool, false, not, none, some, List, [], ◌∷◌, ◌≡◌, refl, ap, ◌∙◌, inl, inr, arith, Text, eq_iff,
  Map, lookup, HasUniqueKeys, if◌then◌else◌, is_some, Option-cases, count, sort, IsSorted-unique,
  sort-IsSorted, count-sort,
}
use previewctl.Config.{is_enabled, ProjectConfig, ServiceConfig, is_empty}
use previewctl.Manifest.{Manifest, ports_where, proxy_domain_of}
use previewctl.Ports.{PortMap}
use previewctl.ComposeFile.{startable, start_context, service_sections, generate_compose_file}

-- Whether the map has a service of that name with a start command.
abbrev pub is_startable : Text → Map ServiceConfig → Bool
is_startable name services = elim (lookup name services) [
  | none ↦ false
  | some svc ↦ not (is_empty svc.start)
]

pub count-startable :
    (name : Text) (services : Map ServiceConfig)
    → HasUniqueKeys services
    → count name (startable services) ≡ (if is_startable name services then 1 else 0)
unfolding startable count lookup
count-startable name [] u = refl
count-startable name ((n, svc) ∷ services) u =
    ground (arith, eq_iff n name, count-startable name services u.1, u)

-- Two maps with the same services.
abbrev pub HasSame : Map ServiceConfig → Map ServiceConfig → Type 0
HasSame a b = (name : Text) → lookup name a ≡ lookup name b

sort-startable :
    (a b : Map ServiceConfig)
    → HasUniqueKeys a
    → HasUniqueKeys b
    → HasSame a b
    → sort (startable a) ≡ sort (startable b)
sort-startable a b u v same =
    IsSorted-unique (sort (startable a)) (sort (startable b)) (sort-IsSorted (startable a))
      (sort-IsSorted (startable b))
      λ name. ground (
        arith,
        count-sort name (startable a),
        count-sort name (startable b),
        count-startable name a u,
        count-startable name b v,
        same name,
      )

ports_where-same :
    (f g : Text → Bool) (ports : PortMap)
    → ((name : Text) → f name ≡ g name)
    → ports_where f ports ≡ ports_where g ports
unfolding ports_where
ports_where-same f g [] h = refl
ports_where-same f g ((name, port) ∷ ports) h = ground (arith, h name, ports_where-same f g ports h)

module _ (join_path : Text → Text → Text) (cfg : ProjectConfig) (other : Map ServiceConfig)
    (same : HasSame cfg.services other) where
  abbrev reordered : ProjectConfig
  reordered = record cfg { services = other }

  start_context-same :
      (manifest : Manifest) (name : Text)
      → start_context cfg manifest name ≡ start_context reordered manifest name
  unfolding start_context proxy_domain_of
  start_context-same manifest name = ground (
    arith,
    ports_where-same (λ (n : Text). is_some (lookup n cfg.services))
        (λ (n : Text). is_some (lookup n other)) manifest.ports (λ n. ap is_some (same n)),
    ports_where-same (λ (n : Text). not (is_some (lookup n cfg.services)))
        (λ (n : Text). not (is_some (lookup n other))) manifest.ports (λ n. ground (arith, same n)),
  )

  service_sections-same :
      (manifest : Manifest) (image : Text) (proxy_enabled : Bool) (names : List Text)
      → service_sections join_path cfg manifest image proxy_enabled names
        ≡ service_sections join_path reordered manifest image proxy_enabled names
  unfolding service_sections
  service_sections-same manifest image proxy_enabled [] = refl
  service_sections-same manifest image proxy_enabled (name ∷ names) = ground (
    arith,
    same name,
    start_context-same manifest name,
    service_sections-same manifest image proxy_enabled names,
  )

  -- The generated compose file, or the error of its generation, does not depend on the order in which
  -- Go visits the map of the services: two maps with the same entries give the same result.
  pub generate_compose_file-same :
      (manifest : Manifest)
      → HasUniqueKeys cfg.services
      → HasUniqueKeys other
      → generate_compose_file join_path cfg manifest
        ≡ generate_compose_file join_path reordered manifest
  unfolding generate_compose_file
  generate_compose_file-same manifest u v = elim (Option-cases cfg.runner) [
    | inl e ↦ ground (arith, e)
    | inr r ↦ elim (Option-cases r.0.compose) [
      | inl e ↦ ground (arith, r.1, e)
      | inr c ↦
          let image = c.0.image in
          let on = is_enabled c.0.proxy in
          let sections =
            service_sections-same manifest image on (sort (startable cfg.services))
            ∙ ap
                (λ (names : List Text).
                  service_sections join_path reordered manifest image on names)
                (sort-startable cfg.services other u v same) in
          ground (arith, r.1, c.1, sections)
    ]
  ]
