-- ===== src/Registry/Quiet.antt =====
-- src/domain/step_registry.go: what the functions of the steps leave of the session.
use previewctl.Base.{
  [], ◌∷◌, ◌++◌, ◌≡◌, refl, inl, inr, arith, Text, bytes, Map, Option-cases, Result, Result-cases,
}
use previewctl.Engine.{Session}
use previewctl.Engine.Tame.{IsApart, IsQuiet}
use previewctl.Environment.{step_completed}
use previewctl.Registry.{World, Setup, call, attempt, enabled_services, run_hook_command, Manifest}
use previewctl.Registry.Files.{
  check_file, store_manifest, regenerate_manifest, write_env_files, check_env_files,
  write_compose_file, write_pages, write_proxy_files, write_nginx_files,
}
use previewctl.Registry.Containers.{
  check_listed, fetch_code, infra_up, check_infra, build_each, build_all, run_builds, seed_enabled,
  services_up,
}
use previewctl.Nginx.{generate_nginx_config}
use previewctl.Nginx.Pages.{generate_error_pages}

module _ {S C : Type 0} where
  pub attempt-IsApart :
      {A : Type 0} (run : S × C → (S × C) × Result A) → IsApart {S = S} (attempt run)
  unfolding attempt call
  attempt-IsApart run = record { same_entry = λ s. refl; keeps_cache = λ s. refl }

  pub check_file-IsApart :
      (setup : Setup (S × C)) (path problem : Text)
      → IsApart {S = S} (check_file setup path problem)
  unfolding check_file call
  check_file-IsApart setup path problem = record { same_entry = λ s. refl; keeps_cache = λ s. refl }

  pub check_listed-IsApart :
      (setup : Setup (S × C)) (command problem : Text)
      → IsApart {S = S} (check_listed setup command problem)
  unfolding check_listed call
  check_listed-IsApart setup command problem = record {
    same_entry = λ s. refl;
    keeps_cache = λ s. refl;
  }

  pub store_manifest-IsApart :
      (setup : Setup (S × C)) (m : Manifest) → IsApart {S = S} (store_manifest setup m)
  unfolding store_manifest attempt call
  store_manifest-IsApart setup m = record {
    same_entry = λ s. ground arith;
    keeps_cache = λ s. ground arith;
  }

  pub regenerate_manifest-IsApart :
      (setup : Setup (S × C)) → IsApart {S = S} (regenerate_manifest setup)
  unfolding regenerate_manifest
  regenerate_manifest-IsApart setup = record {
    same_entry =
        λ s. ground (arith, λ (m : Manifest). (store_manifest-IsApart setup m).same_entry s);
    keeps_cache =
        λ s. ground (arith, λ (m : Manifest). (store_manifest-IsApart setup m).keeps_cache s);
  }

  pub write_env_files-IsApart : (setup : Setup (S × C)) → IsApart {S = S} (write_env_files setup)
  unfolding write_env_files attempt call
  write_env_files-IsApart setup = record {
    same_entry = λ s. ground arith;
    keeps_cache = λ s. ground arith;
  }

  pub check_env_files-IsApart : (setup : Setup (S × C)) → IsApart {S = S} (check_env_files setup)
  unfolding check_env_files check_file call
  check_env_files-IsApart setup = record {
    same_entry = λ s. ground arith;
    keeps_cache = λ s. ground arith;
  }

  pub write_compose_file-IsApart :
      (setup : Setup (S × C)) → IsApart {S = S} (write_compose_file setup)
  unfolding write_compose_file attempt call
  write_compose_file-IsApart setup = record {
    same_entry = λ s. ground arith;
    keeps_cache = λ s. ground arith;
  }

  pub write_pages-same :
      (setup : Setup (S × C)) (pages : Map Text) (s : Session S (World C))
      → ((write_pages setup pages s).0.entry ≡ s.entry)
        × ((write_pages setup pages s).0.no_cache ≡ s.no_cache)
  unfolding write_pages attempt call
  write_pages-same setup [] s = (refl, refl)
  write_pages-same setup ((filename, content) ∷ pages) s =
      let written : Session S (World C) × Result (Unit {0}) =
        attempt (setup.access.write_file (bytes "preview/error-pages/" ++ filename) content) s in
      elim (Result-cases written.1) [
        | inr e ↦ ground (arith, e.1)
        | inl e ↦ ground (arith, e.1, write_pages-same setup pages written.0)
      ]

  pub write_proxy_files-same :
      (setup : Setup (S × C)) (domain : Text) (s : Session S (World C))
      → ((write_proxy_files setup domain s).0.entry ≡ s.entry)
        × ((write_proxy_files setup domain s).0.no_cache ≡ s.no_cache)
  unfolding write_proxy_files attempt call
  write_proxy_files-same setup domain s =
      let m : Manifest = record s.world.manifest {
        enabled_services = enabled_services setup.cfg s.entry;
      } in
      let s' : Session S (World C) = record s { world = record s.world { manifest = m } } in
      elim (Result-cases (generate_nginx_config setup.cfg m domain)) [
        | inr e ↦ ground (arith, e.1)
        | inl content ↦
            let written : Session S (World C) × Result (Unit {0}) =
              attempt (setup.access.write_file (bytes "preview/nginx.conf") content.0) s' in
            ground (
              arith,
              content.1,
              write_pages-same setup (generate_error_pages setup.render_page m.env_name) written.0,
            )
      ]

  pub write_nginx_files-same :
      (setup : Setup (S × C)) (s : Session S (World C))
      → ((write_nginx_files setup s).0.entry ≡ s.entry)
        × ((write_nginx_files setup s).0.no_cache ≡ s.no_cache)
  unfolding write_nginx_files
  write_nginx_files-same setup s = elim (Option-cases setup.cfg.runner) [
    | inl e ↦ ground (arith, e)
    | inr r ↦ elim (Option-cases r.0.compose) [
      | inl e ↦ ground (arith, e, r.1)
      | inr c ↦ elim (Option-cases c.0.proxy) [
        | inl e ↦ ground (arith, e, r.1, c.1)
        | inr p ↦ ground (arith, r.1, c.1, p.1, write_proxy_files-same setup p.0.domain s)
      ]
    ]
  ]

  pub write_nginx_files-IsApart :
      (setup : Setup (S × C)) → IsApart {S = S} (write_nginx_files setup)
  write_nginx_files-IsApart setup = record {
    same_entry = λ s. (write_nginx_files-same setup s).0;
    keeps_cache = λ s. (write_nginx_files-same setup s).1;
  }

  pub fetch_code-IsApart : (setup : Setup (S × C)) → IsApart {S = S} (fetch_code setup)
  unfolding fetch_code attempt call
  fetch_code-IsApart setup = record {
    same_entry = λ s. ground arith;
    keeps_cache = λ s. ground arith;
  }

  pub infra_up-IsApart : (setup : Setup (S × C)) → IsApart {S = S} (infra_up setup)
  unfolding infra_up attempt call
  infra_up-IsApart setup = record {
    same_entry = λ s. ground arith;
    keeps_cache = λ s. ground arith;
  }

  pub check_infra-IsApart : (setup : Setup (S × C)) → IsApart {S = S} (check_infra setup)
  unfolding check_infra check_listed call
  check_infra-IsApart setup = record {
    same_entry = λ s. ground arith;
    keeps_cache = λ s. ground arith;
  }

  pub run_hook_command-IsApart :
      (setup : Setup (S × C)) (command : Text) → IsApart {S = S} (run_hook_command setup command)
  unfolding run_hook_command attempt call
  run_hook_command-IsApart setup command = record {
    same_entry = λ s. ground arith;
    keeps_cache = λ s. ground arith;
  }

  pub run_builds-IsApart : (setup : Setup (S × C)) → IsApart {S = S} (run_builds setup)
  unfolding run_builds build_all build_each run_hook_command attempt call
  run_builds-IsApart setup = record {
    same_entry = λ s. ground arith;
    keeps_cache = λ s. ground arith;
  }

  pub services_up-IsQuiet : (setup : Setup (S × C)) → IsQuiet {S = S} (services_up setup)
  unfolding services_up seed_enabled attempt call step_completed
  services_up-IsQuiet setup s = record {
    same_some = ground arith;
    same_records = λ n. ground arith;
    same_cache = ground arith;
  }
