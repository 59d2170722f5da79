-- ===== src/Agent/Install/Laws.antt =====
-- The events of `installAgentLocked` and of what it calls in agent.go.
use Prim.Native.Char.{Char}
use lima_jailed_agents.Base.{String, Bool, List, [], ◌∷◌, Result}
use lima_jailed_agents.Agent.{AgentSpec}
use lima_jailed_agents.Agent.Install.{
  node_runtime_description, check_runtime, install_runtime, ensure_node_runtime, remove_legacy,
  install_agent_package, install_anew, install_agent, executable_path, install_failed,
}
use lima_jailed_agents.Lima.Prepare.Laws.{shell-IsBenign}
use lima_jailed_agents.Packages.{GuestPackageBackend}
use lima_jailed_agents.Packages.Benign.{backend-Emits, ensure-Emits}
use lima_jailed_agents.Packages.Development.{package_backend_for_guest}
use lima_jailed_agents.Packages.Ensure.{ensure_guest_packages}
use lima_jailed_agents.Process.Laws.{
  GuestRuns, shell_runs, verify_guest_connection-Emits, run_guest-Emits,
  guest_executable_path-Emits,
}
use lima_jailed_agents.Run.{Worlds}
use lima_jailed_agents.Run.Rules.{
  Emits, Emits-bind, Emits-map_failure, Emits-attempt, Emits-if, Emits-pure, Emits-fail, Emits-then,
  Emits-reject_if, emits_rules,
}
use lima_jailed_agents.Tools.Ensure.{GuestPackageOptions, options_of}
use lima_jailed_agents.Tools.Ensure.Laws.{version-Emits}
use lima_jailed_agents.Workflow.{IsBenign}

module _ (lower : Char → Char) (unquote : String → Result String) (script : String) (w : Worlds)
    (o : GuestPackageOptions) where
  guests : GuestRuns script w IsBenign o.vm_name
  guests = shell_runs script w IsBenign shell-IsBenign o.vm_name

  packages-IsBenign :
      (backend : GuestPackageBackend) (names : List String)
      → Emits IsBenign (ensure_guest_packages lower script w o backend names)
  packages-IsBenign backend = ensure-Emits lower script w o backend IsBenign guests

  backend-IsBenign : Emits IsBenign (package_backend_for_guest lower unquote script w o)
  backend-IsBenign = backend-Emits lower unquote script w o IsBenign guests

  description-IsBenign : Emits IsBenign (node_runtime_description lower unquote script w o)
  unfolding node_runtime_description
  description-IsBenign =
      search (emits_rules, version-Emits script w o.vm_name IsBenign guests) depth 12

  check_runtime-IsBenign :
      (backend : GuestPackageBackend) (executables : List String)
      → Emits IsBenign (check_runtime lower unquote script w o backend executables)
  unfolding check_runtime
  check_runtime-IsBenign backend [] = search emits_rules
  check_runtime-IsBenign backend (executable ∷ executables) =
      Emits-bind IsBenign
        (version-Emits script w o.vm_name IsBenign guests o.project executable (options_of o))
        (λ found.
          Emits-then IsBenign (Emits-reject_if IsBenign _ _)
            (check_runtime-IsBenign backend executables))

  install_runtime-IsBenign : Emits IsBenign (install_runtime lower unquote script w o)
  unfolding install_runtime
  install_runtime-IsBenign =
      search (emits_rules, backend-IsBenign, packages-IsBenign, check_runtime-IsBenign) depth 16

  ensure_node_runtime-IsBenign : Emits IsBenign (ensure_node_runtime lower unquote script w o)
  unfolding ensure_node_runtime
  ensure_node_runtime-IsBenign =
      search
        (emits_rules, version-Emits script w o.vm_name IsBenign guests, install_runtime-IsBenign)
        depth 16

  remove_legacy-IsBenign :
      (agent : AgentSpec) (update : Bool)
      → Emits IsBenign (remove_legacy lower unquote script w o agent update)
  unfolding remove_legacy
  remove_legacy-IsBenign agent update =
      search (emits_rules, run_guest-Emits, shell-IsBenign) depth 12

  install_agent_package-IsBenign :
      (agent : AgentSpec) (update : Bool)
      → Emits IsBenign (install_agent_package lower unquote script w o agent update)
  unfolding install_agent_package
  install_agent_package-IsBenign agent update =
      Emits-then IsBenign (remove_legacy-IsBenign agent update) (
        Emits-bind IsBenign
          (Emits-map_failure IsBenign _
            (run_guest-Emits script w IsBenign shell-IsBenign o.project o.vm_name _ _ []))
          (λ r. Emits-if IsBenign _ (Emits-pure IsBenign tt) (
            Emits-bind IsBenign (Emits-attempt IsBenign description-IsBenign) (λ runtime.
              Emits-fail IsBenign (install_failed lower unquote script w o agent r runtime)))))

  executable_path-IsBenign :
      (agent : AgentSpec) → Emits IsBenign (executable_path lower unquote script w o agent)
  executable_path-IsBenign agent =
      guest_executable_path-Emits script w IsBenign shell-IsBenign o.project o.vm_name
        agent.executable _

  install_anew-IsBenign :
      (agent : AgentSpec) (update : Bool)
      → Emits IsBenign (install_anew lower unquote script w o agent update)
  unfolding install_anew
  install_anew-IsBenign agent update = Emits-then IsBenign ensure_node_runtime-IsBenign (
      Emits-then IsBenign (install_agent_package-IsBenign agent update) (
        Emits-bind IsBenign (executable_path-IsBenign agent)
          (λ path. Emits-if IsBenign _ (Emits-fail IsBenign _) (Emits-pure IsBenign path))))

  pub install_agent-IsBenign :
      (agent : AgentSpec) (update : Bool)
      → Emits IsBenign (install_agent lower unquote script w o agent update)
  unfolding install_agent
  install_agent-IsBenign agent update =
      Emits-then IsBenign
        (verify_guest_connection-Emits script w IsBenign shell-IsBenign o.project o.vm_name
          (options_of o))
        (Emits-bind IsBenign (executable_path-IsBenign agent) (λ path.
          Emits-if IsBenign _ (Emits-pure IsBenign path) (install_anew-IsBenign agent update)))
