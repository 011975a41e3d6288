-- ===== src/Config/Load/Valid.antt =====
-- What holds of every configuration that `LoadConfigWithOverlay` returns.
use previewctl.Base.{
  Option, none, some, List, [], ◌∷◌, ◌≡◌, refl, subst, ◌≢◌, inl, inr, arith, Text, Map, lookup,
  Result, ok, merged, lookup-merge_entries, Result-cases, bind-eq-ok,
}
use previewctl.Config.{ProjectConfig, ServiceConfig, ProvisionerServiceConfig}
use previewctl.Config.Merge.{deep_merge_config, merge_service, merge_provisioner_service, override}
use previewctl.Config.Merge.Laws.{IsOverlay}
use previewctl.Config.Load.{
  FileRead, contents, missing, unreadable, check_paths, check_outputs, validate_config,
  parse_config, load_config, apply_overlay, load_config_with_overlay,
}

-- A name, a version, and a path for each service, and outputs for each provisioner service, that the
-- base configuration `base` has.
pub record IsLoaded (base cfg : ProjectConfig) : Type 0 where
  pub named : cfg.name ≢ []
  pub versioned : cfg.version ≢ 0
  pub paths :
      (name : Text) (svc : ServiceConfig)
      → lookup name base.services ≡ some svc
      → (after : ServiceConfig) × (lookup name cfg.services ≡ some after) × (after.path ≢ [])
  pub outputs :
      (name : Text) (svc : ProvisionerServiceConfig)
      → lookup name base.provisioner.services ≡ some svc
      → (after : ProvisionerServiceConfig) × (lookup name cfg.provisioner.services ≡ some after)
        × (after.outputs ≢ [])

check_paths_lem :
    (m : Map ServiceConfig) (name : Text) (svc : ServiceConfig)
    → check_paths m ≡ ok tt
    → lookup name m ≡ some svc
    → svc.path ≢ []
unfolding check_paths lookup
check_paths_lem [] name svc h e = ground arith
check_paths_lem ((j, v) ∷ m) name svc h e = ground (arith, check_paths_lem m name svc)

check_outputs_lem :
    (m : Map ProvisionerServiceConfig) (name : Text) (svc : ProvisionerServiceConfig)
    → check_outputs m ≡ ok tt
    → lookup name m ≡ some svc
    → svc.outputs ≢ []
unfolding check_outputs lookup
check_outputs_lem [] name svc h e = ground arith
check_outputs_lem ((j, v) ∷ m) name svc h e = ground (arith, check_outputs_lem m name svc)

validate_config-IsLoaded : (cfg : ProjectConfig) → validate_config cfg ≡ ok tt → IsLoaded cfg cfg
unfolding validate_config
validate_config-IsLoaded cfg h = record {
  named = ground arith;
  versioned = ground arith;
  paths = λ name svc e. (svc, e, check_paths_lem cfg.services name svc (ground arith) e);
  outputs =
      λ name svc e. (svc, e, check_outputs_lem cfg.provisioner.services name svc (ground arith) e);
}

override-ne-nil {ℓ} : {A : Type ℓ} (base overlay : List A) → base ≢ [] → override base overlay ≢ []
override-ne-nil base [] h = h
override-ne-nil base (x ∷ overlay) h = λ e. ground arith

merged_path :
    (svc : ServiceConfig) (overlay : Option ServiceConfig)
    → svc.path ≢ []
    → (after : ServiceConfig) × (merged merge_service (some svc) overlay ≡ some after)
      × (after.path ≢ [])
unfolding merge_service
merged_path svc none h = (svc, refl, h)
merged_path svc (some o) h = (merge_service svc o, refl, override-ne-nil svc.path o.path h)

merged_outputs :
    (svc : ProvisionerServiceConfig) (overlay : Option ProvisionerServiceConfig)
    → svc.outputs ≢ []
    → (after : ProvisionerServiceConfig) × (merged merge_provisioner_service (some svc) overlay
        ≡ some after)
      × (after.outputs ≢ [])
unfolding merge_provisioner_service
merged_outputs svc none h = (svc, refl, h)
merged_outputs svc (some o) h =
    (merge_provisioner_service svc o, refl, override-ne-nil svc.outputs o.outputs h)

deep_merge_config-IsLoaded :
    (base cfg overlay : ProjectConfig)
    → IsOverlay overlay
    → IsLoaded base cfg
    → IsLoaded base (deep_merge_config cfg overlay)
unfolding deep_merge_config
deep_merge_config-IsLoaded base cfg overlay o h = record {
  named = override-ne-nil cfg.name overlay.name h.named;
  versioned = λ e. ground (arith, h.versioned);
  paths = λ name svc e.
      let (before, there, path) = h.paths name svc e in
      let (after, same, path') = merged_path before (lookup name overlay.services) path in
      (
        after,
        ground (
          arith,
          there,
          same,
          lookup-merge_entries merge_service cfg.services overlay.services name o.services,
        ),
        path',
      );
  outputs = λ name svc e.
      let (before, there, outputs) = h.outputs name svc e in
      let (after, same, outputs') =
        merged_outputs before (lookup name overlay.provisioner.services) outputs in
      (
        after,
        ground (
          arith,
          there,
          same,
          lookup-merge_entries merge_provisioner_service cfg.provisioner.services
              overlay.provisioner.services name o.provisioner_services,
        ),
        outputs',
      );
}

parse_config_inv :
    (unmarshal : Text → Result ProjectConfig) (input : Text) (cfg : ProjectConfig)
    → load_config unmarshal (contents input) ≡ ok cfg
    → (unmarshal input ≡ ok cfg) × (validate_config cfg ≡ ok tt)
unfolding load_config parse_config
parse_config_inv unmarshal input cfg h = elim (Result-cases (unmarshal input)) [
  | inr (e, failed) ↦ absurd (ground arith)
  | inl (c, read) ↦ elim (Result-cases (validate_config c)) [
    | inl (u, valid) ↦ (ground arith, ground arith)
    | inr (e, invalid) ↦ absurd (ground arith)
  ]
]

apply_overlay-IsLoaded :
    (unmarshal : Text → Result ProjectConfig)
    → ((input : Text) (o : ProjectConfig) → unmarshal input ≡ ok o → IsOverlay o)
    → (overlay_file : FileRead) (base cfg after : ProjectConfig) → IsLoaded base cfg
    → apply_overlay unmarshal overlay_file cfg ≡ ok after
    → IsLoaded base after × (after.mode ≡ cfg.mode)
unfolding apply_overlay
apply_overlay-IsLoaded unmarshal unique missing base cfg after l h =
    (subst (IsLoaded base) {x = cfg} {y = after} (ground arith) l, ground arith)
apply_overlay-IsLoaded unmarshal unique (unreadable e) base cfg after l h = ground arith
apply_overlay-IsLoaded unmarshal unique (contents input) base cfg after l h =
    elim (Result-cases (unmarshal input)) [
      | inr (e, failed) ↦ absurd (ground arith)
      | inl (o, read) ↦ (
        subst (IsLoaded base) {x = deep_merge_config cfg o} {y = after} (ground arith)
            (deep_merge_config-IsLoaded base cfg o (unique input o read) l),
        unfold deep_merge_config in ground arith,
      )
    ]

-- `LoadConfigWithOverlay`, with a YAML library that gives no mapping a key twice: a configuration
-- that it returns was read from the base file, carries the mode that was asked for, and has a name, a
-- version, a path for each service and outputs for each provisioner service of the base file, with
-- or without an overlay.
pub load_config_with_overlay-IsLoaded :
    (unmarshal : Text → Result ProjectConfig)
    → ((input : Text) (o : ProjectConfig) → unmarshal input ≡ ok o → IsOverlay o)
    → (base_file overlay_file : FileRead) (mode : Text) (cfg : ProjectConfig)
    → load_config_with_overlay unmarshal base_file overlay_file mode ≡ ok cfg
    → (input : Text) × (base : ProjectConfig) × (base_file ≡ contents input)
      × (unmarshal input ≡ ok base)
      × IsLoaded base cfg
      × (cfg.mode ≡ mode)
unfolding load_config_with_overlay
load_config_with_overlay-IsLoaded unmarshal unique missing overlay_file mode cfg h = ground arith
load_config_with_overlay-IsLoaded unmarshal unique (unreadable e) overlay_file mode cfg h =
    ground arith
load_config_with_overlay-IsLoaded unmarshal unique (contents input) overlay_file mode cfg h =
    let (base, parsed, applied) =
      bind-eq-ok (load_config unmarshal (contents input))
        (λ c. apply_overlay unmarshal overlay_file (record c { mode = mode })) h in
    let (read, valid) = parse_config_inv unmarshal input base parsed in
    let loaded = validate_config-IsLoaded base valid in
    let (kept, moded) =
      apply_overlay-IsLoaded unmarshal unique overlay_file base (record base { mode = mode }) cfg
        (record {
          named = loaded.named;
          versioned = loaded.versioned;
          paths = loaded.paths;
          outputs = loaded.outputs;
        })
        applied in
    (input, base, refl, read, kept, moded)
