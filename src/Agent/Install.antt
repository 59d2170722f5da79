-- ===== src/Agent/Install.antt =====
-- agent.go: the installation of an agent in a guest, with the Node runtime that its package needs.
pub mod Laws
use Prim.Native.Char.{Char}
use Prim.Native.String.{◌++◌ as ◌<>◌}
use lima_jailed_agents.Base.{String, Bool, true, false, not, ◌||◌, ◌&&◌, List, [], ◌∷◌, Result}
use lima_jailed_agents.Base.{
  Error, lja, wrap, str, exit, join, ◌==◌, string_eq, if◌then◌else◌, ok, err, map,
}
use lima_jailed_agents.Agent.{AgentSpec, open_code_agent_name}
use lima_jailed_agents.Host.{ProcessResult}
use lima_jailed_agents.Packages.{GuestPackageBackend}
use lima_jailed_agents.Packages.Development.{package_backend_for_guest}
use lima_jailed_agents.Packages.Ensure.{ensure_guest_packages, to_lower, has_part}
use lima_jailed_agents.Process.{
  run_guest, verify_guest_connection, guest_executable_path, process_output, probe_options,
  exited_with,
}
use lima_jailed_agents.Run.{
  word, Worlds, M, ◌>>=◌, ◌>>◌, pure, fail, map_failure, attempt, reject_if, when,
}
use lima_jailed_agents.Tools.Ensure.{GuestPackageOptions, options_of, guest_executable_version}

abbrev is_nil : List String → Bool
is_nil [] = true
is_nil (x ∷ xs) = false

abbrev legacy_open_code_package : String
legacy_open_code_package = "opencode-ai"

-- `npmEngineFailure`, of the output in lower case
unfoldable pub npm_engine_failure : String → Bool
npm_engine_failure output =
    has_part output "ebadengine"
    || has_part output "unsupported engine"
    || (has_part output "engine" && has_part output "node")

-- The first of the arguments of an error is the text of the runtime; where its lookup failed, the text holds
-- that error, which is then an argument of its own here.
abbrev runtime_argument : Result String → Error → Error
runtime_argument (ok text) e = e
runtime_argument (err failure) e = wrap "runtime version lookup failed: %v: %w" [] (join failure e)

abbrev runtime_text : Result String → String
runtime_text (ok text) = text
runtime_text (err e) = "runtime version lookup failed"

module _ (lower : Char → Char) (unquote : String → Result String) (script : String) (w : Worlds)
    (o : GuestPackageOptions) where
  abbrev version : String → M (String × String)
  version executable =
      guest_executable_version script w o.project o.vm_name executable (options_of o)

  -- `nodeRuntimeDescription`
  unfoldable pub node_runtime_description : M String
  node_runtime_description = do
    (node_path, node_version) ← version "node"
    (npm_path, npm_version) ← version "npm"
    pure ("node=" <> node_version <> " npm=" <> npm_version)

  unfoldable pub check_runtime : GuestPackageBackend → List String → M (Unit {0})
  check_runtime backend [] = pure tt
  check_runtime backend (executable ∷ executables) = do
    (path, found) ← version executable
    reject_if (path == "") (
        lja "Node runtime installation with %s backend in VM %s did not provide executable %s"
          (str backend.name ∷ str o.vm_name ∷ str executable ∷ []))
    check_runtime backend executables

  unfoldable pub install_runtime : M (Unit {0})
  install_runtime = do
    backend ←
        map_failure (wrap "cannot prepare Node runtime in VM %s: %w" (str o.vm_name ∷ []))
          (package_backend_for_guest lower unquote script w o)
    reject_if (is_nil backend.node_packages) (
        lja "%s backend has no Node runtime dependencies for VM %s"
          (str backend.name ∷ str o.vm_name ∷ []))
    ensure_guest_packages lower script w o backend backend.node_packages
    check_runtime backend ("node" ∷ "npm" ∷ [])

  -- `ensureNodeRuntime`
  unfoldable pub ensure_node_runtime : M (Unit {0})
  ensure_node_runtime = do
    (node_path, node_version) ← version "node"
    (npm_path, npm_version) ← version "npm"
    if not (node_path == "") && not (npm_path == "") then pure tt else install_runtime

  -- The command `npm` in the guest, as root.
  abbrev npm : List String → M ProcessResult
  npm arguments =
      run_guest script w o.project o.vm_name (map word ("sudo" ∷ "npm" ∷ arguments))
        (probe_options (options_of o)) []

  abbrev legacy_failed : ProcessResult → Error
  legacy_failed r = lja "cannot remove legacy agent package %s in VM %s: exit status %d: %s" (
      str legacy_open_code_package ∷ str o.vm_name ∷ exit r.exit_code ∷ str (process_output r) ∷ [])

  -- An update of opencode removes the package that it had before.
  unfoldable pub remove_legacy : AgentSpec → Bool → M (Unit {0})
  remove_legacy agent update = when (update && agent.name == open_code_agent_name) (do
    r ←
        map_failure
          (wrap "cannot remove legacy agent package %s in VM %s: %w"
            (str legacy_open_code_package ∷ str o.vm_name ∷ []))
          (npm ("uninstall" ∷ "-g" ∷ legacy_open_code_package ∷ []))
    reject_if (not (exited_with r.exit_code)) (legacy_failed r))

  -- The error of a failed installation, which tells the runtime.
  unfoldable pub install_failed : AgentSpec → ProcessResult → Result String → Error
  install_failed agent r runtime =
      let detail = process_output r in
      runtime_argument runtime (
        if npm_engine_failure (to_lower lower detail)
        then lja
            "cannot install agent package %s in VM %s: npm engine requirements are incompatible with guest runtime (%s); select a newer template or use custom provisioning through setup or lima.provision to install a compatible system-wide Node runtime: %s"
            (str agent.package_name ∷ str o.vm_name ∷ str (runtime_text runtime) ∷ str detail ∷ [])
        else if detail == ""
        then lja "cannot install agent package %s in VM %s with guest runtime (%s): exit status %d"
            (str agent.package_name
              ∷ str o.vm_name
              ∷ str (runtime_text runtime)
              ∷ exit r.exit_code
              ∷ [])
        else lja
            "cannot install agent package %s in VM %s with guest runtime (%s): exit status %d: %s"
            (str agent.package_name
              ∷ str o.vm_name
              ∷ str (runtime_text runtime)
              ∷ exit r.exit_code
              ∷ str detail
              ∷ []))

  -- `installAgentPackage`
  unfoldable pub install_agent_package : AgentSpec → Bool → M (Unit {0})
  install_agent_package agent update = do
    remove_legacy agent update
    r ←
        map_failure
          (wrap "cannot install agent package %s in VM %s: %w"
            (str agent.package_name ∷ str o.vm_name ∷ []))
          (npm ("install" ∷ "--engine-strict" ∷ "-g" ∷ agent.package_name ∷ []))
    if exited_with r.exit_code
        then pure tt
        else (do runtime ← attempt node_runtime_description; fail (install_failed agent r runtime))

  abbrev pub executable_path : AgentSpec → M String
  executable_path agent =
      guest_executable_path script w o.project o.vm_name agent.executable (options_of o)

  unfoldable pub install_anew : AgentSpec → Bool → M String
  install_anew agent update = do
    ensure_node_runtime
    install_agent_package agent update
    path ← executable_path agent
    if path == ""
        then fail (
            lja "agent package %s installed but guest executable %s is missing in VM %s"
              (str agent.package_name ∷ str agent.executable ∷ str o.vm_name ∷ []))
        else pure path

  -- `installAgentLocked`
  unfoldable pub install_agent : AgentSpec → Bool → M String
  install_agent agent update = do
    verify_guest_connection script w o.project o.vm_name (options_of o)
    path ← executable_path agent
    if not (path == "") && not update then pure path else install_anew agent update
