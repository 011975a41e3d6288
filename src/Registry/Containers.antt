-- ===== src/Registry/Containers.antt =====
-- src/domain/step_registry.go: the steps that bring code and containers up: `sync_code`,
-- `start_infra`, `build_services` and `start_services`.
use previewctl.Base.{
  join, trim_space, ℕ, ◌+◌, ◌||◌, none, some, List, [], ◌∷◌, ◌++◌, map, Text, bytes, ◌==◌, Map,
  lookup, if◌then◌else◌, length, ok, err,
}
use previewctl.Config.{
  is_empty, ServiceConfig, CommandHook, is_configured, is_enabled, resolved_type,
}
use previewctl.Engine.{Session, Action, StepOpts, on_step, step_streaming}
use previewctl.Environment.{compose_project_name}
use previewctl.HookEnv.{build_compose_env}
use previewctl.Manifest.{Manifest}
use previewctl.Registry.{World, Setup, call, attempt, enabled_services, run_hook_command}
use previewctl.Ports.{decimal}

-- The compose file of the manifest's infrastructure, or nothing.
unfoldable pub infra_compose_file : Manifest → Text
infra_compose_file manifest = elim manifest.infrastructure [
  | none ↦ []
  | some infra ↦ infra.compose_file
]

-- The services that have a build command: their names and commands.
unfoldable pub builds : Map ServiceConfig → List Text → List (Text × Text)
builds services [] = []
builds services (name ∷ names) =
    let rest = builds services names in
    elim (lookup name services) [
      | none ↦ rest
      | some svc ↦ if is_empty svc.build then rest else (name, svc.build) ∷ rest
    ]

-- What is printed about the builds, from the number `i` of `n`.
unfoldable pub build_lines : (i n : ℕ) → List (Text × Text) → Text
build_lines i n [] = []
build_lines i n ((name, command) ∷ rest) =
    bytes "    ["
    ++ (decimal i
        ++ (bytes "/"
            ++ (decimal n ++ (bytes "] " ++ (command ++ (0x0a ∷ build_lines (i + 1) n rest))))))

module _ {S C : Type 0} where
  abbrev pub streaming : Text → Text → Session S (World C) → Session S (World C)
  streaming name message = on_step name step_streaming message none

  abbrev pub print : Text → Session S (World C) → Session S (World C)
  print text s = record s { world = record s.world { stderr = s.world.stderr ++ text } }

  -- A listing of containers that has to show something.
  unfoldable pub check_listed : Setup (S × C) → (command problem : Text) → Action S (World C)
  unfolding call
  check_listed setup command problem s =
      let ran = call (setup.access.exec command []) s in
      (
        ran.0,
        elim ran.1 [
          | err e ↦ err e
          | ok out ↦ if is_empty (trim_space out) then err problem else ok tt
        ],
      )

  -- Local code is the user's; an empty mode is the local one.
  unfoldable pub fetch_code : Setup (S × C) → Action S (World C)
  unfolding attempt
  fetch_code setup s =
      if is_empty setup.cfg.mode || setup.cfg.mode == bytes "local"
      then (s, ok tt)
      else attempt
          (setup.access.exec
            (bytes "git fetch --depth 1 origin "
              ++ (setup.branch ++ (bytes " && git reset --hard origin/" ++ setup.branch)))
            [])
          s

  unfoldable pub sync_code : Setup (S × C) → StepOpts S (World C)
  unfolding fetch_code
  sync_code setup = record {
    name = bytes "sync_code";
    start_msg = bytes "Syncing code to origin/" ++ (setup.branch ++ bytes "...");
    complete_msg = bytes "Code synced to latest";
    fn = fetch_code setup;
    verify = none;
    outputs = none;
    allow_cache = none;
  }

  unfoldable pub infra_up : Setup (S × C) → Action S (World C)
  unfolding attempt infra_compose_file
  infra_up setup s =
      let file = infra_compose_file s.world.manifest in
      if is_empty file
      then (s, ok tt)
      else attempt
          (setup.access.verbose_exec (bytes "docker compose -f " ++ (file ++ bytes " up -d"))
            (build_compose_env setup.host setup.cfg.name setup.env_name s.world.manifest.ports))
          (streaming (bytes "start_infra") (bytes "Starting infrastructure containers...") s)

  unfoldable pub check_infra : Setup (S × C) → Action S (World C)
  unfolding check_listed infra_compose_file
  check_infra setup s =
      let file = infra_compose_file s.world.manifest in
      if is_empty file
      then (s, ok tt)
      else check_listed setup
          (bytes "docker compose -f "
            ++ (file
                ++ (bytes " -p "
                    ++ (compose_project_name setup.cfg.name setup.env_name
                        ++ bytes " ps --format json"))))
          (bytes "infrastructure not running") s

  unfoldable pub start_infra : Setup (S × C) → StepOpts S (World C)
  unfolding infra_up check_infra
  start_infra setup = record {
    name = bytes "start_infra";
    start_msg = bytes "Starting infrastructure containers...";
    complete_msg = bytes "Infrastructure containers started";
    fn = infra_up setup;
    verify = some (check_infra setup);
    outputs = none;
    allow_cache = none;
  }

  -- The per-service builds, joined to one command.
  unfoldable pub build_each : Setup (S × C) → List (Text × Text) → Action S (World C)
  unfolding build_lines attempt
  build_each setup [] s = (s, ok tt)
  build_each setup (b ∷ bs) s =
      attempt
        (setup.access.verbose_exec (join (bytes " && ") (map (λ (p : Text × Text). p.1) (b ∷ bs)))
          [])
        (print
          (bytes "    Services: "
            ++ (join (bytes ", ") (map (λ (p : Text × Text). p.0) (b ∷ bs))
                ++ (0x0a ∷ build_lines 1 (length (b ∷ bs)) (b ∷ bs))))
          s)

  -- The global build takes the place of the services' own.
  unfoldable pub build_all : Setup (S × C) → CommandHook → Action S (World C)
  unfolding builds build_each run_hook_command
  build_all setup build s =
      let s' = streaming (bytes "build_services") [] s in
      if is_configured build
      then run_hook_command setup build.command
          (print (bytes "    Running global build: " ++ (build.command ++ (0x0a ∷ []))) s')
      else build_each setup (builds setup.cfg.services (enabled_services setup.cfg s.entry)) s'

  unfoldable pub run_builds : Setup (S × C) → Action S (World C)
  unfolding build_all
  run_builds setup s = elim setup.cfg.runner [
    | none ↦ (s, ok tt)
    | some runner ↦ elim runner.compose [
      | none ↦ (s, ok tt)
      | some _ ↦ build_all setup runner.build s
    ]
  ]

  unfoldable pub build_services : Setup (S × C) → StepOpts S (World C)
  unfolding run_builds
  build_services setup = record {
    name = bytes "build_services";
    start_msg = bytes "Building services...";
    complete_msg = bytes "Services built";
    fn = run_builds setup;
    verify = none;
    outputs = none;
    allow_cache = elim setup.cfg.runner [
      | none ↦ none
      | some runner ↦ if is_configured runner.build then runner.build.allow_cache else none
    ];
  }

  -- The first run takes the services that start by themselves into the entry.
  unfoldable pub seed_enabled : List Text → Session S (World C) → Session S (World C)
  seed_enabled services s = elim s.entry [
    | none ↦ s
    | some e ↦ elim e.enabled_services [
      | [] ↦ record s { entry = some (record e { enabled_services = services }) }
      | _ ∷ _ ↦ s
    ]
  ]

  unfoldable pub services_up : Setup (S × C) → Action S (World C)
  unfolding seed_enabled attempt
  services_up setup s = elim setup.cfg.runner [
    | none ↦ (s, ok tt)
    | some runner ↦ elim runner.compose [
      | none ↦ (s, ok tt)
      | some compose ↦
          let services = enabled_services setup.cfg s.entry in
          attempt
            (setup.access.verbose_exec
              (bytes "docker compose -f .previewctl.compose.yaml -p "
                ++ (compose_project_name setup.cfg.name setup.env_name
                    ++ (bytes " up -d "
                        ++ join (bytes " ") (
                            (if is_enabled compose.proxy
                              then resolved_type compose.proxy ∷ []
                              else [])
                            ++ services))))
              [])
            (seed_enabled services s)
    ]
  ]

  unfoldable pub start_services : Setup (S × C) → StepOpts S (World C)
  unfolding services_up check_listed
  start_services setup = record {
    name = bytes "start_services";
    start_msg = bytes "Starting services...";
    complete_msg = bytes "Services started";
    fn = services_up setup;
    verify = some (
        check_listed setup
          (bytes "docker compose -f .previewctl.compose.yaml -p "
            ++ (compose_project_name setup.cfg.name setup.env_name ++ bytes " ps --format json"))
          (bytes "no services running"));
    outputs = none;
    allow_cache = none;
  }
