-- ===== src/Config.antt =====
-- src/domain/config.go: the types of previewctl.yaml and the methods on them. A Go `*T` is an
-- `Option T`, an `int` that the program takes from YAML is a natural number, and the `error` of a
-- hook that is no string or mapping belongs to the YAML library.
pub mod Merge
pub mod Load
use previewctl.Base.{Text, Map, ℕ, Bool, true, false, Option, none, some, List, [], ◌∷◌, bytes}

pub record CommandHook : Type 0 where
  pub command : Text
  pub allow_cache : Option Bool

pub record ProxyConfig : Type 0 where
  pub enabled : Option Bool
  pub domain : Text
  pub type : Text

pub record ComposeConfig : Type 0 where
  pub autostart : List Text
  pub image : Text
  pub proxy : Option ProxyConfig

pub record RunnerConfig : Type 0 where
  pub before : CommandHook
  pub build : CommandHook
  pub deploy : CommandHook
  pub destroy : CommandHook
  pub after : CommandHook
  pub compose : Option ComposeConfig

pub record SshConfig : Type 0 where
  pub proxy_command : Text
  pub user : Text
  pub user_command : Text
  pub identity_file : Text
  pub root : Text

pub record ComputeHooks : Type 0 where
  pub create : Text
  pub destroy : Text
  pub outputs : List Text
  pub ssh : Option SshConfig

pub record ProvisionerServiceConfig : Type 0 where
  pub outputs : List Text
  pub init : Text
  pub seed : Text
  pub reset : Text
  pub destroy : Text

pub record ProvisionerConfig : Type 0 where
  pub before : Text
  pub after : Text
  pub compute : Option ComputeHooks
  pub services : Map ProvisionerServiceConfig

pub record ServiceProxy : Type 0 where
  pub path : Text
  pub target_path : Text
  pub to_service : Text

-- `env` keeps the difference between a missing and an empty mapping, which `BuildManifest` reads.
pub record ServiceConfig : Type 0 where
  pub path : Text
  pub port : ℕ
  pub command : Text
  pub depends_on : List Text
  pub env : Option (Map Text)
  pub env_file : Text
  pub build : Text
  pub start : Text
  pub proxy : List ServiceProxy

pub record InfrastructureConfig : Type 0 where
  pub compose_file : Text

-- `InfraService` of src/domain/compose.go.
pub record InfraService : Type 0 where
  pub name : Text
  pub image : Text
  pub port : ℕ
  pub env_var : Text

pub record ProjectConfig : Type 0 where
  pub version : ℕ
  pub name : Text
  pub provisioner : ProvisionerConfig
  pub infrastructure : Option InfrastructureConfig
  pub services : Map ServiceConfig
  pub runner : Option RunnerConfig
  pub mode : Text
  pub infra_services : Map InfraService

-- `s == ""`
abbrev pub is_empty {ℓ} : {A : Type ℓ} → List A → Bool
is_empty [] = true
is_empty (_ ∷ _) = false

unfoldable pub is_configured : CommandHook → Bool
is_configured h = elim h.command [ [] ↦ false | _ ∷ _ ↦ true ]

unfoldable pub cache_allowed : CommandHook → Bool
cache_allowed h = elim h.allow_cache [ none ↦ true | some b ↦ b ]

unfoldable pub is_enabled : Option ProxyConfig → Bool
is_enabled none = false
is_enabled (some p) = elim p.enabled [ none ↦ true | some b ↦ b ]

unfoldable pub resolved_type : Option ProxyConfig → Text
resolved_type none = bytes "nginx"
resolved_type (some p) = elim p.type [ [] ↦ bytes "nginx" | _ ∷ _ ↦ p.type ]

unfoldable pub resolved_target_path : ServiceProxy → Text
resolved_target_path p = elim p.target_path [ [] ↦ p.path | _ ∷ _ ↦ p.target_path ]

unfoldable pub resolved_env_file : ServiceConfig → Text
resolved_env_file s = elim s.env_file [ [] ↦ bytes ".env.local" | _ ∷ _ ↦ s.env_file ]
