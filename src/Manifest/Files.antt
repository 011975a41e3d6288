-- ===== src/Manifest/Files.antt =====
-- The env files of src/domain/manifest.go.
use previewctl.Base.{
  true, ◌&&◌, Option, none, some, List, [], ◌∷◌, ◌≡◌, refl, ◌⊎◌, inl, inr, arith, Text, ◌==◌,
  eq_iff, Map, lookup, insert, keys, lookup-insert, HasUniqueKeys, if◌then◌else◌, is_some, get_or,
  Bool-cases, Option-cases, sort, IsSorted-unique, sort-IsSorted, count-sort, count-keys,
  Text-cases,
}
use previewctl.Manifest.{
  Manifest, ManifestService, env_lines, render_env_file_content, add_variables, collect_files,
  env_file_paths,
}

env_lines-same :
    (a b : Map Text) (names : List Text)
    → ((k : Text) → lookup k a ≡ lookup k b)
    → env_lines a names ≡ env_lines b names
unfolding env_lines
env_lines-same a b [] h = refl
env_lines-same a b (n ∷ names) h = ground (arith, h n, env_lines-same a b names h)

sort-keys-same :
    (a b : Map Text)
    → HasUniqueKeys a
    → HasUniqueKeys b
    → ((k : Text) → lookup k a ≡ lookup k b)
    → sort (keys a) ≡ sort (keys b)
sort-keys-same a b ua ub h =
    IsSorted-unique (sort (keys a)) (sort (keys b)) (sort-IsSorted (keys a))
      (sort-IsSorted (keys b))
      (λ k. ground (
        arith,
        count-sort k (keys a),
        count-sort k (keys b),
        count-keys k a ua,
        count-keys k b ub,
        h k,
      ))

-- The content of an env file does not depend on the order in which the map is visited: two
-- representations of the same map, each with every key once, give the same bytes.
pub render_env_file_content-same :
    (a b : Map Text)
    → HasUniqueKeys a
    → HasUniqueKeys b
    → ((k : Text) → lookup k a ≡ lookup k b)
    → render_env_file_content a ≡ render_env_file_content b
unfolding render_env_file_content
render_env_file_content-same a b ua ub h =
    rw (sort-keys-same a b ua ub h, env_lines-same a b (sort (keys b)) h) refl

lookup-add_variables :
    (file env : Map Text) (k : Text)
    → HasUniqueKeys env
    → lookup k (add_variables file env)
      ≡ (if is_some (lookup k env) then lookup k env else lookup k file)
unfolding add_variables lookup
lookup-add_variables file [] k u = refl
lookup-add_variables file ((j, v) ∷ env) k u = ground (
  arith,
  lookup-add_variables (insert j v file) env k u.1,
  lookup-insert j k v file,
  eq_iff j k,
  u.0,
)

-- The variables of every service are a map.
abbrev pub HaveUniqueKeys : Map ManifestService → Type 0
HaveUniqueKeys [] = Unit {0}
HaveUniqueKeys ((n, svc) ∷ services) = HasUniqueKeys (get_or svc.env []) × HaveUniqueKeys services

module _ (join_path : Text → Text → Text) where
  -- The variable `k` of the file at `target`.
  unfoldable pub variable : Text → Text → Map (Map Text) → Option Text
  variable target k files = lookup k (get_or (lookup target files) [])

  -- The service writes the value `v` for `k` into the file at `target`.
  abbrev pub Writes : Text → Text → Text → ManifestService → Type 0
  Writes target k v svc =
      (join_path svc.path svc.env_file ≡ target) × (lookup k (get_or svc.env []) ≡ some v)

  abbrev step_files : ManifestService → Map (Map Text) → Map (Map Text)
  step_files svc files = elim svc.env [
    | none ↦ files
    | some env ↦
        let target = join_path svc.path svc.env_file in
        insert target (add_variables (get_or (lookup target files) []) env) files
  ]

  variable-step :
      (svc : ManifestService) (files : Map (Map Text)) (target k : Text)
      → HasUniqueKeys (get_or svc.env [])
      → variable target k (step_files svc files) ≡ (
          if (join_path svc.path svc.env_file == target) && is_some (lookup k (get_or svc.env []))
          then lookup k (get_or svc.env [])
          else variable target k files)
  unfolding variable lookup
  variable-step svc files target k u = elim (Option-cases svc.env) [
    | inl n ↦ ground (arith, n)
    | inr e ↦
        let t = join_path svc.path svc.env_file in
        let file = get_or (lookup t files) [] in
        ground (
          arith,
          e.1,
          lookup-insert t target (add_variables file e.0) files,
          lookup-add_variables file e.0 k (ground (arith, e.1, u)),
          eq_iff t target,
        )
  ]

  abbrev collected : Map (Map Text) → Map ManifestService → Map (Map Text)
  collected files services = collect_files join_path files services

  -- What is written stays written.
  variable-kept :
      (services : Map ManifestService) (files : Map (Map Text)) (target k : Text)
      → HaveUniqueKeys services
      → is_some (variable target k files) ≡ true
      → is_some (variable target k (collected files services)) ≡ true
  unfolding collect_files
  variable-kept [] files target k u h = h
  variable-kept ((n, svc) ∷ services) files target k u h =
      variable-kept services (step_files svc files) target k u.1
        (ground (arith, variable-step svc files target k u.0, h))

  variable-written :
      (services : Map ManifestService) (files : Map (Map Text)) (target k v name : Text)
      (svc : ManifestService)
      → HaveUniqueKeys services
      → lookup name services ≡ some svc
      → Writes target k v svc
      → is_some (variable target k (collected files services)) ≡ true
  unfolding collect_files lookup
  variable-written [] files target k v name svc u m w = absurd (cc (m))
  variable-written ((n, s) ∷ services) files target k v name svc u m w = elim (Text-cases n name) [
    | inl e ↦ variable-kept services (step_files s files) target k u.1 (
        ground (
          arith,
          variable-step s files target k u.0,
          eq_iff n name,
          eq_iff (join_path svc.path svc.env_file) target,
          w.0,
          w.1,
          m,
        ))
    | inr e ↦
        variable-written services (step_files s files) target k v name svc u.1
          (ground (arith, e, m)) w
  ]

  -- A service of the map that writes the variable, or the file that was there before.
  abbrev Source : Map ManifestService → Map (Map Text) → Text → Text → Text → Type 0
  Source services files target k v =
      (variable target k files ≡ some v)
      ⊎ ((name : Text) × (svc : ManifestService) × (lookup name services ≡ some svc)
          × Writes target k v svc)

  variable-Source :
      (services : Map ManifestService) (files : Map (Map Text)) (target k v : Text)
      → HasUniqueKeys services
      → HaveUniqueKeys services
      → variable target k (collected files services) ≡ some v
      → Source services files target k v
  unfolding collect_files lookup
  variable-Source [] files target k v un u h = inl h
  variable-Source ((n, s) ∷ services) files target k v un u h =
      elim (variable-Source services (step_files s files) target k v un.1 u.1 h) [
        | inr r ↦ inr (r.0, r.1, ground (arith, un.0, r.2, eq_iff n r.0), r.3)
        | inl e ↦
            elim (Bool-cases
              ((join_path s.path s.env_file == target) && is_some (lookup k (get_or s.env [])))) [
                | inl b ↦ inr (
                  n,
                  s,
                  ground (arith, eq_iff n n),
                  (
                    ground (arith, eq_iff (join_path s.path s.env_file) target, b),
                    ground (arith, variable-step s files target k u.0, b, e),
                  ),
                )
                | inr b ↦ inl (ground (arith, variable-step s files target k u.0, b, e))
              ]
      ]

  -- `EnvFilePaths` drops no variable and makes none up, if no service and no variable of a service
  -- occurs twice. A variable that a service has is in the file of the service's path and env file; and
  -- a value in a file is the value that the variable has in one of the services with that file.
  pub env_file_paths_lem :
      (m : Manifest) (target k v : Text)
      → HasUniqueKeys m.services
      → HaveUniqueKeys m.services
      → ((name : Text) (svc : ManifestService)
          → lookup name m.services ≡ some svc
          → Writes target k v svc
          → is_some (variable target k (env_file_paths join_path m)) ≡ true)
        × (variable target k (env_file_paths join_path m) ≡ some v
            → (name : Text) × (svc : ManifestService) × (lookup name m.services ≡ some svc)
              × Writes target k v svc)
  unfolding env_file_paths
  env_file_paths_lem m target k v un u = (
    λ name svc h w. variable-written m.services [] target k v name svc u h w,
    λ h. from_services (variable-Source m.services [] target k v un u h),
  )
    where
      from_services :
          Source m.services [] target k v
          → (name : Text) × (svc : ManifestService) × (lookup name m.services ≡ some svc)
            × Writes target k v svc
      from_services (inl e) = absurd (unfold variable lookup in cc (e))
      from_services (inr r) = r
