-- ===== src/ComputeAccess/Ssh.antt =====
-- src/domain/ssh_compute_access.go: the compute access that runs the system's ssh program. `ssh` is
-- that program, with its arguments and its standard input; `join_remote` and `dir_of` are those of
-- the package `path`, `quoted` is the verb `%q`, and `home` is the user's home directory.
use previewctl.Base.{
  Bool, ◌||◌, none, some, List, [], ◌∷◌, ◌++◌, reverse, Text, bytes, if◌then◌else◌, Result, ok, err,
  has_prefix, drop_prefix, cut,
}
use previewctl.ComputeAccess.{ComputeAccess}
use previewctl.Config.{is_empty}

pub record SshProgram (C : Type 0) : Type 0 where
  pub ssh : List Text → Text → C → C × Result Text
  pub join_remote : Text → Text → Text
  pub join_path : Text → Text → Text
  pub dir_of : Text → Text
  pub quoted : Text → Text
  pub home : Result Text

-- `DomainSSHComputeAccess`, without the writer for its diagnostics.
pub record SshComputeAccess : Type 0 where
  pub host : Text
  pub user : Text
  pub root : Text
  pub proxy_command : Text
  pub identity_file : Text

-- `strings.HasSuffix`
unfoldable pub has_suffix : Text → Text → Bool
has_suffix s suffix = has_prefix (reverse s) (reverse suffix)

unfoldable pub target : SshComputeAccess → Text
target s = s.user ++ (bytes "@" ++ s.host)

-- `~/` in front of the identity file.
unfoldable pub expand_home : (Text → Text → Text) → Result Text → Text → Text
expand_home join_path home file =
    if has_prefix file (bytes "~/")
    then elim home [ err _ ↦ file | ok dir ↦ join_path dir (drop_prefix file (bytes "~/")) ]
    else file

-- The lines that reach the remote environment: those of the program and of compose, and ports.
unfoldable pub is_exported : Text → Bool
unfolding has_suffix
is_exported e =
    has_prefix e (bytes "PREVIEWCTL_")
    || (has_prefix e (bytes "COMPOSE_")
        || has_suffix (elim (cut b'=' e) [ none ↦ e | some (name, _) ↦ name ]) (bytes "_PORT"))

unfoldable pub env_content : List Text → Text
unfolding is_exported
env_content [] = []
env_content (e ∷ env) =
    let rest = env_content env in
    if is_exported e then bytes "export " ++ (e ++ (0x0a ∷ rest)) else rest

abbrev pub remote_env_file : Text
remote_env_file = bytes "$HOME/.previewctl-env.sh"

module _ {C : Type 0} (program : SshProgram C) where
  -- `SSHArgs`
  unfoldable pub ssh_args : SshComputeAccess → List Text
  unfolding target expand_home
  ssh_args s =
      bytes "-o"
      ∷ bytes "StrictHostKeyChecking=no"
      ∷ bytes "-o"
      ∷ bytes "UserKnownHostsFile=/dev/null"
      ∷ bytes "-o"
      ∷ bytes "LogLevel=ERROR"
      ∷ ((if is_empty s.identity_file
            then []
            else bytes "-i" ∷ expand_home program.join_path program.home s.identity_file ∷ [])
          ++ ((if is_empty s.proxy_command
                then []
                else bytes "-o" ∷ (bytes "ProxyCommand=" ++ s.proxy_command) ∷ [])
              ++ (target s ∷ [])))

  -- `sshCmd`, and the run of what it gives.
  unfoldable pub ssh_cmd : SshComputeAccess → (remote_cmd stdin : Text) → C → C × Result Text
  unfolding ssh_args
  ssh_cmd s remote_cmd stdin c = program.ssh (ssh_args s ++ (remote_cmd ∷ [])) stdin c

  unfoldable pub ssh_write_file :
      SshComputeAccess → (path content : Text) → C → C × Result (Unit {0})
  unfolding ssh_cmd
  ssh_write_file s path content c =
      let remote = program.join_remote s.root path in
      let made = ssh_cmd s (bytes "mkdir -p " ++ program.quoted (program.dir_of remote)) [] c in
      elim made.1 [
        | err e ↦ (made.0, err (bytes "creating remote directory: " ++ e))
        | ok _ ↦
            let piped = ssh_cmd s (bytes "cat > " ++ program.quoted remote) content made.0 in
            elim piped.1 [
              | err e ↦ (piped.0, err (bytes "writing remote file " ++ (path ++ (bytes ": " ++ e))))
              | ok _ ↦ (piped.0, ok tt)
            ]
      ]

  unfoldable pub ssh_read_file : SshComputeAccess → Text → C → C × Result Text
  unfolding ssh_cmd
  ssh_read_file s path c =
      let shown =
        ssh_cmd s (bytes "cat " ++ program.quoted (program.join_remote s.root path)) [] c in
      elim shown.1 [
        | err e ↦ (shown.0, err (bytes "reading remote file " ++ (path ++ (bytes ": " ++ e))))
        | ok out ↦ (shown.0, ok out)
      ]

  -- The command line of `execInternal`.
  unfoldable pub remote_command : SshComputeAccess → Text → Text
  remote_command s command =
      bytes "set -a; [ -f /etc/environment ] && . /etc/environment; [ -f "
      ++ (remote_env_file
          ++ (bytes " ] && . "
              ++ (remote_env_file
                  ++ (bytes "; set +a; cd "
                      ++ (program.quoted s.root ++ (bytes " && " ++ command))))))

  -- The first half of `execInternal`: the environment goes to the remote file, if there is any.
  unfoldable pub send_env : SshComputeAccess → List Text → C → C × Result (Unit {0})
  unfolding ssh_cmd env_content
  send_env s env c =
      if is_empty (env_content env)
      then (c, ok tt)
      else let written = ssh_cmd s (bytes "cat > " ++ remote_env_file) (env_content env) c in
        (
          written.0,
          elim written.1 [ err e ↦ err (bytes "writing remote env file: " ++ e) | ok _ ↦ ok tt ],
        )

  -- `execInternal`. The verbose form differs in where the output is shown.
  unfoldable pub ssh_exec : SshComputeAccess → Text → List Text → C → C × Result Text
  unfolding send_env remote_command ssh_cmd
  ssh_exec s command env c =
      let sent = send_env s env c in
      elim sent.1 [
        | err e ↦ (sent.0, err e)
        | ok _ ↦
            let ran = ssh_cmd s (remote_command s command) [] sent.0 in
            elim ran.1 [
              | err e ↦ (ran.0, err (bytes "remote exec: " ++ e))
              | ok stdout ↦ (ran.0, ok stdout)
            ]
      ]

  unfoldable pub ssh_access : SshComputeAccess → ComputeAccess C
  unfolding ssh_write_file ssh_read_file ssh_exec
  ssh_access s = record {
    root = s.root;
    write_file = ssh_write_file s;
    read_file = ssh_read_file s;
    exec = ssh_exec s;
    verbose_exec = ssh_exec s;
  }

  -- `EnsureRootWritable`
  unfoldable pub ensure_root_writable : SshComputeAccess → C → C × Result (Unit {0})
  unfolding ssh_exec
  ensure_root_writable s c =
      let root = program.quoted s.root in
      let ran =
        ssh_exec s
          (bytes "sudo chown -R \"$(whoami)\":\"$(id -gn)\" "
            ++ (root
                ++ (bytes " 2>/dev/null || true; sudo chmod -R a+rwX "
                    ++ (root ++ bytes " 2>/dev/null || true"))))
          [] c in
      (ran.0, elim ran.1 [ err e ↦ err e | ok _ ↦ ok tt ])
