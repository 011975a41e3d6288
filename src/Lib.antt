-- ===== src/Lib.antt =====
-- previewctl makes preview environments of a project: it reads a configuration, allocates ports,
-- runs the provisioner and the runner phase step by step with checkpoints, writes manifests and env
-- files, and keeps the state of each environment in a store. This library models the core in
-- src/domain and the file store of src/outbound/state, with what makes them correct.
--
-- The files and the code:
--   Base           the shared names: texts as lists of bytes, maps as association lists, sorting,
--                  the functions of Go's `strings`, and results with an error text.
--   Config         src/domain/config.go: the types and their defaults. Config.Merge is
--                  `deepMergeConfig`, Config.Load is `LoadConfigWithOverlay` and what it calls.
--   Compose        src/domain/compose.go: `parseComposeData`, `parsePortMapping`.
--   Graph          src/domain/dependency_graph.go: `TopologicalSort`, `sortStrings`, `insertSorted`.
--   Ports          src/domain/port_allocator.go: `AllocatePortBlock`, `pickBlockStart`.
--   Environment    src/domain/environment.go: the entry of an environment and its methods, one
--                  function for each, from the entry to the new entry.
--   Template       src/domain/template.go: `RenderTemplate`, `RenderEnvMap`, `resolveVar`.
--   Validate       src/domain/validate.go: `ValidateConfig`, as the list of its messages.
--   Hooks          src/domain/hook_executor.go: `parseHookOutput`, `sanitizingWriter` and the rest.
--   Manifest       src/domain/manifest.go: `BuildManifest`, `EnvFilePaths`, `RenderEnvFileContent`.
--   Propagate      src/domain/propagate.go: `servicesAffectedByChange`, `diffStoreKeys`.
--   ComposeFile    src/domain/compose_generator.go: `GenerateComposeFile`, as the text of the file.
--   Nginx          src/domain/nginx_generator.go: `GenerateNginxConfig`. Nginx.Pages is
--                  src/domain/error_pages.go, up to the execution of the HTML template.
--   ComputeAccess  src/domain/compute_access.go: the interface, and the local access of
--                  src/domain/manager.go. ComputeAccess.Ssh is src/domain/ssh_compute_access.go,
--                  ComputeAccess.Made is `BuildSSHComputeAccess` and `computeAccessInfo`.
--   HookEnv        src/domain/manager.go: `buildHookEnv`, `runCoreHook`; `BuildComposeEnv`.
--   Engine         src/domain/manager.go: `step` and `stepSimple`, with the events of
--                  src/domain/progress.go and the `StatePort` of src/domain/ports.go.
--   Runner         src/domain/manager.go: `runRunner`, for any steps; `RunStep`, `RunSteps`,
--                  `SetStatus` and `saveProvisionedState` are in Runner.Forced.
--   Registry       src/domain/step_registry.go: the steps of the runner phase, in Registry.Files,
--                  Registry.Containers and Registry.HookSteps; Registry.Steps is `get`.
--   Provision      src/domain/manager.go: `runProvisioner`, its steps in Provision.Steps, their order
--                  in Provision.Phase and the whole in Provision.Entry; Provision.Lifecycle is
--                  `Provision`, `ProvisionAttach`, `Init` and `Attach`.
--   Core           src/domain/manager.go: `RunCoreHook`, `CoreInit`, `loadManifestFromEntry`.
--                  Core.Reset is `CoreReset`; Core.Push is `propagateProvisionerChange` and
--                  `SyncRemote` of src/domain/propagate.go.
--   Destroy        src/domain/manager.go: `Destroy`.
--   Reconcile      src/domain/reconcile.go: the repair of a step; Reconcile.Loop is `Reconcile`.
--   StateFile      src/outbound/state/file.go: the file adapter, which gives a `StatePort`.
--
-- How they interact: Config.Load gives the configuration that Graph, Ports and Validate read. What
-- Validate accepts, Template renders and Manifest builds from the ports of Ports and the outputs of
-- the hooks. Runner makes the steps of its plan by Engine's `step`, which reads and writes the entry of
-- Environment and stores it by a `StatePort`, an interface that StateFile fills. Registry fills the
-- interface of steps that Runner's theorems take, over a `ComputeAccess`. Provision makes its own
-- steps by the same engine and hands over to Runner. Propagate and Reconcile decide which steps and
-- services are done again, and Core runs them.
--
-- How the code is represented. A Go string is the list of its bytes. A map is an association list
-- whose order is the order in which `for range` visits it, so that a theorem about every list is one
-- about every order; where a lookup depends on it, the hypothesis says that no key occurs twice. A
-- pointer that can be nil is an option, an `int` that a file gives is a natural number, and the 32-bit
-- hash wraps around at 2 ^ 32. A method that writes through a pointer returns the new value. A reading
-- of the clock is a number that the caller gives, or one of a sequence of readings in nanoseconds. A
-- pair of a value and an error is a result; a state that a call has changed before it fails is
-- returned beside the error. Nil and empty maps are told apart only where the code
-- does so, for a service's variables and for the outputs of a hook.
--
-- Bounds and fuel. The loop of `TopologicalSort` has as fuel one round more than there are services,
-- which is enough, since each round but the last moves a service to the result. The search for a free
-- port has the rest of the block as fuel. The loop of the sanitizing writer has the length of its
-- buffer, from which each round takes a line. The digits of a number have the number itself.
--
-- Parameters, with what is relied on as a hypothesis: whether a port is free (the operating
-- system), the YAML and the JSON library, the HTML template, what the calls on files report,
-- `filepath.Join`, the verb `%q`, `strings.ToUpper`, the clock, the name of the host, the processes of
-- hooks, of `sh` and of ssh, and the managers of worktrees and of networks. A process can write the
-- state store, by `previewctl store set`, so all of these work on the store as well as the machine. A read through a nil
-- pointer, which ends the program, is an error with the message of the runtime.
--
-- Not modelled: the commands of src/inbound/cli and their output, git worktrees and docker
-- (src/outbound/local, src/outbound/remote), the Postgres store, the file checks of
-- `ValidateConfigWithFS`, the reports of `Status`, `List` and `DryRunStep`, and the self-update. Two
-- processes that use the file store at a time are not modelled either.
pub mod Base
pub mod Config
pub mod Graph
pub mod Ports
pub mod Environment
pub mod Template
pub mod Validate
pub mod Hooks
pub mod Manifest
pub mod Propagate
pub mod Engine
pub mod Runner
pub mod StateFile
pub mod Reconcile
pub mod Compose
pub mod ComputeAccess
pub mod HookEnv
pub mod ComposeFile
pub mod Nginx
pub mod Registry
pub mod Destroy
pub mod Core
pub mod Provision
