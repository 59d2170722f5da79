-- ===== src/Packages/Benign.antt =====
-- The events of packages.go's functions in a guest.
use Prim.Native.Char.{Char}
use lima_jailed_agents.Base.{String, List, [], ◌∷◌}
use lima_jailed_agents.Base.{string_eq}
use lima_jailed_agents.Config.{DevelopmentConfig}
use lima_jailed_agents.Host.{ProcessResult}
use lima_jailed_agents.Packages.{GuestPackageBackend}
use lima_jailed_agents.Packages.Ensure.{
  answered, query_package, missing_packages, install_packages, check_installed, install_all,
  ensure_guest_packages,
}
use lima_jailed_agents.Process.Laws.{GuestRuns, verify-In, available-In}
use lima_jailed_agents.Run.{Worlds, Event}
use lima_jailed_agents.Run.Rules.{Emits, Emits-bind, Emits-then, Emits-reject_if, emits_rules}
use lima_jailed_agents.Tools.Ensure.{GuestPackageOptions}
use lima_jailed_agents.Config.{DevelopmentConfig}
use lima_jailed_agents.Packages.Development.{
  read_guest_os_release, package_backend_for_guest, ensure_development_packages, verify_each,
  verify_development_executables,
}
use lima_jailed_agents.Run.{ProcessOptions}
use lima_jailed_agents.Run.Rules.{Emits-map_failure}
use lima_jailed_agents.Packages.Ensure.{check_tools}
use lima_jailed_agents.Tools.Ensure.{options_of}
use lima_jailed_agents.Base.{Result}

module _ (lower : Char → Char) (script : String) (w : Worlds) (o : GuestPackageOptions)
    (backend : GuestPackageBackend) (Q : Event → Type 0)
    (guests : GuestRuns script w Q o.vm_name) where
  answered-Emits :
      (name : String) (r : ProcessResult) → Emits Q (answered lower script w o backend name r)
  unfolding answered
  answered-Emits name r = search (emits_rules, verify-In, guests) depth 12

  pub query-Emits : (name : String) → Emits Q (query_package lower script w o backend name)
  unfolding query_package
  query-Emits name = search (emits_rules, guests, answered-Emits) depth 12

  pub missing-Emits :
      (names : List String) → Emits Q (missing_packages lower script w o backend names)
  unfolding missing_packages
  missing-Emits [] = search emits_rules
  missing-Emits (name ∷ names) =
      Emits-bind Q (query-Emits name)
        (λ installed. Emits-bind Q (missing-Emits names) (λ missing. search emits_rules))

  pub install-Emits :
      (names : List String) → Emits Q (install_packages lower script w o backend names)
  unfolding install_packages
  install-Emits names = search (emits_rules, guests) depth 12

  pub check-Emits : (names : List String) → Emits Q (check_installed lower script w o backend names)
  unfolding check_installed
  check-Emits [] = search emits_rules
  check-Emits (name ∷ names) =
      Emits-bind Q (query-Emits name)
        (λ installed. Emits-then Q (Emits-reject_if Q _ _) (check-Emits names))

  pub install_all-Emits :
      (names : List String) → Emits Q (install_all lower script w o backend names)
  unfolding install_all
  install_all-Emits [] = search emits_rules
  install_all-Emits (name ∷ names) = search (emits_rules, install-Emits, check-Emits) depth 12

  pub ensure-Emits :
      (names : List String) → Emits Q (ensure_guest_packages lower script w o backend names)
  unfolding ensure_guest_packages
  ensure-Emits names = search (emits_rules, missing-Emits, install_all-Emits) depth 12

  check_tools-Emits : (tools : List String) → Emits Q (check_tools lower script w o backend tools)
  unfolding check_tools
  check_tools-Emits [] = search emits_rules
  check_tools-Emits (tool ∷ tools) =
      Emits-bind Q
        (Emits-map_failure Q _
          (available-In script w Q o.vm_name guests o.project tool (options_of o)))
        (λ available. Emits-then Q (Emits-reject_if Q _ _) (check_tools-Emits tools))

module _ (lower : Char → Char) (unquote : String → Result String) (script : String) (w : Worlds)
    (o : GuestPackageOptions) (Q : Event → Type 0) (guests : GuestRuns script w Q o.vm_name) where
  read-Emits :
      (options : ProcessOptions) → Emits Q (read_guest_os_release lower unquote script w o options)
  unfolding read_guest_os_release
  read-Emits options = search (emits_rules, verify-In, guests) depth 16

  pub backend-Emits : Emits Q (package_backend_for_guest lower unquote script w o)
  unfolding package_backend_for_guest
  backend-Emits = search (emits_rules, read-Emits, check_tools-Emits) depth 12

  pub development-Emits :
      (config : DevelopmentConfig)
      → Emits Q (ensure_development_packages lower unquote script w o config)
  unfolding ensure_development_packages
  development-Emits config = search (emits_rules, backend-Emits, ensure-Emits) depth 16

  verify_each-Emits :
      (backend : GuestPackageBackend) (executables : List String)
      → Emits Q (verify_each lower unquote script w o backend executables)
  unfolding verify_each
  verify_each-Emits backend [] = search emits_rules
  verify_each-Emits backend (executable ∷ executables) =
      Emits-bind Q
        (Emits-map_failure Q _
          (available-In script w Q o.vm_name guests o.project executable (options_of o)))
        (λ available. Emits-then Q (Emits-reject_if Q _ _) (verify_each-Emits backend executables))

  pub executables-Emits :
      (config : DevelopmentConfig) (backend : GuestPackageBackend)
      → Emits Q (verify_development_executables lower unquote script w o config backend)
  unfolding verify_development_executables
  executables-Emits config backend = verify_each-Emits backend _
