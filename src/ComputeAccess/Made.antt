-- ===== src/ComputeAccess/Made.antt =====
-- The making of compute accesses in src/domain/manager.go: `BuildSSHComputeAccess` and
-- `computeAccessInfo`. The output of the user's command, `sh -c`, is a parameter.
use previewctl.Base.{
  trim_space, Bool, Option, none, some, [], ◌∷◌, Text, bytes, lookup, if◌then◌else◌, get_or, Result,
  ok, err,
}
use previewctl.ComputeAccess.{ComputeAccess, Os, local_access}
use previewctl.ComputeAccess.Ssh.{SshComputeAccess, SshProgram, ssh_access}
use previewctl.Config.{is_empty, ProjectConfig, SshConfig}
use previewctl.Environment.{EnvironmentEntry, ComputeAccessInfo}
use previewctl.Template.{TemplateContext, render_template}

-- The two implementations of the interface, by what they are made of.
pub data Access : Type 0 where
  local_at : Text → Access
  ssh_at : SshComputeAccess → Access

unfoldable pub root_of : Access → Text
root_of (local_at path) = path
root_of (ssh_at s) = s.root

-- `computeAccessInfo`
unfoldable pub compute_access_info : Access → Bool → ComputeAccessInfo
compute_access_info (ssh_at s) managed = record {
  type = bytes "ssh";
  path = s.root;
  host = s.host;
  user = s.user;
  managed_worktree = managed;
  metadata = if is_empty s.proxy_command then [] else (bytes "proxy_command", s.proxy_command) ∷ [];
}
compute_access_info (local_at path) managed = record {
  type = bytes "local";
  path = path;
  host = [];
  user = [];
  managed_worktree = managed;
  metadata = [];
}

-- `&TemplateContext{Store: entry.Env}`
unfoldable pub store_context : EnvironmentEntry → TemplateContext
store_context entry = record {
  service_ports = [];
  infra_ports = [];
  provisioner_outputs = [];
  current_service = [];
  env_name = [];
  store = entry.env;
  proxy_domain = [];
}

-- A template that is rendered when it is there, with the value for when it is not or fails.
unfoldable pub rendered_or : Text → Text → TemplateContext → Text
rendered_or value tmpl ctx =
    if is_empty tmpl
    then value
    else elim (render_template tmpl ctx) [ err _ ↦ value | ok text ↦ text ]

-- `NewDomainSSHComputeAccess`
unfoldable pub direct_access : (host user root : Text) → SshComputeAccess
direct_access host user root = record {
  host = host;
  user = user;
  root = root;
  proxy_command = [];
  identity_file = [];
}

-- The access that the stored information describes.
unfoldable pub stored_access : ComputeAccessInfo → SshComputeAccess
unfolding direct_access
stored_access info = record (direct_access info.host info.user info.path) {
  proxy_command = get_or (lookup (bytes "proxy_command") info.metadata) [];
}

module _ (user_command : Text → Result Text) where
  -- The user of a configured access: what the command prints, if there is one.
  unfoldable pub resolved_user : SshConfig → TemplateContext → Text → Text
  unfolding rendered_or
  resolved_user ssh ctx user =
      if is_empty ssh.user_command
      then rendered_or user ssh.user ctx
      else elim (user_command ssh.user_command) [
        | err _ ↦ user
        | ok out ↦ if is_empty (trim_space out) then user else trim_space out
      ]

  -- The access of a configuration whose proxy command renders to something.
  unfoldable pub configured_access :
      SshConfig → EnvironmentEntry → ComputeAccessInfo → Option SshComputeAccess
  unfolding store_context resolved_user rendered_or
  configured_access ssh entry info =
      elim (render_template ssh.proxy_command (store_context entry)) [
        | err _ ↦ none
        | ok command ↦
            if is_empty command
            then none
            else some (record {
              host = info.host;
              user = resolved_user ssh (store_context entry) info.user;
              root = rendered_or info.path ssh.root (store_context entry);
              proxy_command = command;
              identity_file = ssh.identity_file;
            })
      ]

  -- `BuildSSHComputeAccess`, for an entry with compute information.
  unfoldable pub build_ssh_compute_access :
      ProjectConfig → EnvironmentEntry → ComputeAccessInfo → SshComputeAccess
  unfolding configured_access stored_access
  build_ssh_compute_access cfg entry info =
      let configured : Option SshComputeAccess = elim cfg.provisioner.compute [
        | none ↦ none
        | some hooks ↦ elim hooks.ssh [ none ↦ none | some ssh ↦ configured_access ssh entry info ]
      ] in
      elim configured [ none ↦ stored_access info | some access ↦ access ]

-- The access itself.
unfoldable pub connect : {C : Type 0} → Os C → SshProgram C → Access → ComputeAccess C
connect os program (local_at path) = local_access os path
connect os program (ssh_at s) = ssh_access program s
