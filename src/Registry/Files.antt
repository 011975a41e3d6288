-- ===== src/Registry/Files.antt =====
-- src/domain/step_registry.go: the steps that write files into the environment: `generate_manifest`,
-- `generate_env`, `generate_compose` and `generate_nginx`. A step reads what its closures capture
-- when it runs; nothing changes the manifest between the making of a step and its run.
use previewctl.Base.{none, some, [], ◌∷◌, ◌++◌, Text, bytes, ◌==◌, Map, if◌then◌else◌, ok, err}
use previewctl.Config.{is_empty, ProjectConfig, is_enabled}
use previewctl.ComposeFile.{generate_compose_file}
use previewctl.Engine.{Action, StepOpts}
use previewctl.Manifest.{Manifest, build_manifest, render_env_file_content, env_file_paths}
use previewctl.Nginx.{generate_nginx_config}
use previewctl.Nginx.Pages.{generate_error_pages}
use previewctl.Registry.{World, Setup, nil_dereference, call, attempt, enabled_services}

-- The mode of the configuration, or the local one.
unfoldable pub mode_or_local : ProjectConfig → Text
mode_or_local cfg = if is_empty cfg.mode then bytes "local" else cfg.mode

module _ {C : Type 0} where
  -- The loop over the env files: the script's part for each.
  unfoldable pub env_script : Setup C → Map (Map Text) → Text
  env_script setup [] = []
  env_script setup ((path, variables) ∷ files) =
      (if setup.dir_of path == bytes "."
        then []
        else bytes "mkdir -p " ++ (setup.quoted (setup.dir_of path) ++ (0x0a ∷ [])))
      ++ (bytes "cat > "
          ++ (setup.quoted path
              ++ (bytes " <<'ENVEOF'"
                  ++ (0x0a
                      ∷ (render_env_file_content variables
                          ++ (bytes "ENVEOF" ++ (0x0a ∷ env_script setup files)))))))

module _ {S C : Type 0} where
  -- Reading a file back, with what is put in front of the error.
  unfoldable pub check_file : Setup (S × C) → (path problem : Text) → Action S (World C)
  unfolding call
  check_file setup path problem s =
      let ran = call (setup.access.read_file path) s in
      (ran.0, elim ran.1 [ err e ↦ err (problem ++ (bytes ": " ++ e)) | ok _ ↦ ok tt ])

  -- The second half of `generate_manifest`: the file, then the registry's manifest.
  unfoldable pub store_manifest : Setup (S × C) → Manifest → Action S (World C)
  unfolding attempt
  store_manifest setup manifest s = elim (setup.encode_manifest manifest) [
    | err e ↦ (s, err e)
    | ok content ↦
        let written = attempt (setup.access.write_file (bytes ".previewctl.json") content) s in
        elim written.1 [
          | err e ↦ (written.0, err e)
          | ok _ ↦
              (record written.0 { world = record written.0.world { manifest = manifest } }, ok tt)
        ]
  ]

  unfoldable pub regenerate_manifest : Setup (S × C) → Action S (World C)
  unfolding store_manifest mode_or_local
  regenerate_manifest setup s = elim s.entry [
    | none ↦ (s, err nil_dereference)
    | some e ↦
        elim (build_manifest setup.cfg setup.env_name setup.branch (mode_or_local setup.cfg) e.ports
          e.provisioner_outputs e.env) [
            | err m ↦ (s, err (bytes "building manifest: " ++ m))
            | ok built ↦
                store_manifest setup (record built { enabled_services = e.enabled_services }) s
          ]
  ]

  unfoldable pub generate_manifest : Setup (S × C) → StepOpts S (World C)
  unfolding regenerate_manifest
  generate_manifest setup = record {
    name = bytes "generate_manifest";
    start_msg = bytes "Regenerating manifest...";
    complete_msg = bytes "Manifest regenerated";
    fn = regenerate_manifest setup;
    verify = none;
    outputs = none;
    allow_cache = none;
  }

  unfoldable pub write_env_files : Setup (S × C) → Action S (World C)
  unfolding env_script attempt
  write_env_files setup s = elim (env_file_paths setup.join_path s.world.manifest) [
    | [] ↦ (s, ok tt)
    | file ∷ files ↦
        attempt (setup.access.exec (bytes "set -e" ++ (0x0a ∷ env_script setup (file ∷ files))) [])
          s
  ]

  -- Only the first file is looked for, which is here the first one of the list.
  unfoldable pub check_env_files : Setup (S × C) → Action S (World C)
  unfolding check_file
  check_env_files setup s = elim (env_file_paths setup.join_path s.world.manifest) [
    | [] ↦ (s, ok tt)
    | (path, _) ∷ _ ↦ check_file setup path (bytes "env file " ++ (path ++ bytes " missing")) s
  ]

  unfoldable pub generate_env : Setup (S × C) → StepOpts S (World C)
  unfolding write_env_files check_env_files
  generate_env setup = record {
    name = bytes "generate_env";
    start_msg = bytes "Generating .env files...";
    complete_msg = bytes ".env files generated";
    fn = write_env_files setup;
    verify = some (check_env_files setup);
    outputs = none;
    allow_cache = none;
  }

  unfoldable pub write_compose_file : Setup (S × C) → Action S (World C)
  unfolding attempt
  write_compose_file setup s =
      elim (generate_compose_file setup.join_path setup.cfg s.world.manifest) [
        | err e ↦ (s, err (bytes "generating compose file: " ++ e))
        | ok content ↦
            attempt (setup.access.write_file (bytes ".previewctl.compose.yaml") content) s
      ]

  unfoldable pub generate_compose : Setup (S × C) → StepOpts S (World C)
  unfolding write_compose_file check_file
  generate_compose setup = record {
    name = bytes "generate_compose";
    start_msg = bytes "Generating Docker Compose file...";
    complete_msg = bytes "Docker Compose file generated";
    fn = write_compose_file setup;
    verify =
        some (check_file setup (bytes ".previewctl.compose.yaml") (bytes "compose file missing"));
    outputs = none;
    allow_cache = none;
  }

  -- The loop over the error pages.
  unfoldable pub write_pages : Setup (S × C) → Map Text → Action S (World C)
  unfolding attempt
  write_pages setup [] s = (s, ok tt)
  write_pages setup ((filename, content) ∷ pages) s =
      let written =
        attempt (setup.access.write_file (bytes "preview/error-pages/" ++ filename) content) s in
      elim written.1 [
        | err e ↦ (written.0, err (bytes "writing error page " ++ (filename ++ (bytes ": " ++ e))))
        | ok _ ↦ write_pages setup pages written.0
      ]

  -- The configuration and the pages, for a domain.
  unfoldable pub write_proxy_files : Setup (S × C) → Text → Action S (World C)
  unfolding write_pages attempt
  write_proxy_files setup domain s =
      let manifest = record s.world.manifest {
        enabled_services = enabled_services setup.cfg s.entry;
      } in
      let s' = record s { world = record s.world { manifest = manifest } } in
      elim (generate_nginx_config setup.cfg manifest domain) [
        | err e ↦ (s', err (bytes "generating nginx config: " ++ e))
        | ok content ↦
            let written =
              attempt (setup.access.write_file (bytes "preview/nginx.conf") content) s' in
            elim written.1 [
              | err e ↦ (written.0, err e)
              | ok _ ↦
                  write_pages setup (generate_error_pages setup.render_page manifest.env_name)
                    written.0
            ]
      ]

  unfoldable pub write_nginx_files : Setup (S × C) → Action S (World C)
  unfolding write_proxy_files
  write_nginx_files setup s = elim setup.cfg.runner [
    | none ↦ (s, ok tt)
    | some runner ↦ elim runner.compose [
      | none ↦ (s, ok tt)
      | some compose ↦ elim compose.proxy [
        | none ↦ (s, ok tt)
        | some proxy ↦
            if is_enabled (some proxy)
            then (if is_empty proxy.domain
                then (s, err (bytes "runner.compose.proxy.domain is required"))
                else write_proxy_files setup proxy.domain s)
            else (s, ok tt)
      ]
    ]
  ]

  unfoldable pub generate_nginx : Setup (S × C) → StepOpts S (World C)
  unfolding write_nginx_files check_file
  generate_nginx setup = record {
    name = bytes "generate_nginx";
    start_msg = bytes "Generating nginx config and error pages...";
    complete_msg = bytes "nginx config generated";
    fn = write_nginx_files setup;
    verify = some (check_file setup (bytes "preview/nginx.conf") (bytes "nginx config missing"));
    outputs = none;
    allow_cache = none;
  }
