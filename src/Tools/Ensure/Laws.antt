-- ===== src/Tools/Ensure/Laws.antt =====
-- Providing the logical tools only runs commands in the guest.
use lima_jailed_agents.Base.{String, List, [], ◌∷◌}
use lima_jailed_agents.Host.{PathText, ProcessResult}
use lima_jailed_agents.Process.Laws.{GuestRuns, verify-In, path-In}
use lima_jailed_agents.Run.{ProcessOptions, Worlds, Event}
use lima_jailed_agents.Run.Rules.{Emits, emits_rules}
use lima_jailed_agents.Tools.{LogicalToolDefinition}
use lima_jailed_agents.Tools.Ensure.{
  GuestPackageOptions, guest_executable_version, version_of, install_logical_tool, check_native,
}
use lima_jailed_agents.Tools.Ensure.{
  check_each_native, install_missing, ensure_tool, ensure_each_tool, ensure_logical_tools,
}

module _ (script : String) (w : Worlds) (vm : String) (Q : Event → Type 0)
    (guests : GuestRuns script w Q vm) where
  pub version_of-Emits :
      (project : PathText) (executable path : String) (o : ProcessOptions) (r : ProcessResult)
      → Emits Q (version_of script w project vm executable path o r)
  unfolding version_of
  version_of-Emits project executable path o r = search (emits_rules, verify-In, guests) depth 12

  pub version-Emits :
      (project : PathText) (executable : String) (o : ProcessOptions)
      → Emits Q (guest_executable_version script w project vm executable o)
  unfolding guest_executable_version
  version-Emits project executable o =
      search (emits_rules, path-In, guests, version_of-Emits) depth 12

module _ (script : String) (w : Worlds) (o : GuestPackageOptions) (Q : Event → Type 0)
    (guests : GuestRuns script w Q o.vm_name) where
  pub install-Emits : (d : LogicalToolDefinition) → Emits Q (install_logical_tool script w o d)
  unfolding install_logical_tool
  install-Emits d = search (emits_rules, verify-In, guests) depth 12

  pub check_native-Emits : (name : String) → Emits Q (check_native script w o name)
  unfolding check_native
  check_native-Emits name = search (emits_rules, version-Emits) depth 12

  pub check_each_native-Emits : (names : List String) → Emits Q (check_each_native script w o names)
  unfolding check_each_native
  check_each_native-Emits [] = search emits_rules
  check_each_native-Emits (name ∷ names) =
      search (emits_rules, check_native-Emits name, check_each_native-Emits names)

  install_missing-Emits : (d : LogicalToolDefinition) → Emits Q (install_missing script w o d)
  unfolding install_missing
  install_missing-Emits d = search (emits_rules, install-Emits, version-Emits) depth 12

  pub ensure_tool-Emits : (d : LogicalToolDefinition) → Emits Q (ensure_tool script w o d)
  unfolding ensure_tool
  ensure_tool-Emits d = search (emits_rules, install_missing-Emits, version-Emits) depth 12

  pub ensure_each_tool-Emits :
      (ds : List LogicalToolDefinition) → Emits Q (ensure_each_tool script w o ds)
  unfolding ensure_each_tool
  ensure_each_tool-Emits [] = search emits_rules
  ensure_each_tool-Emits (d ∷ ds) =
      search (emits_rules, ensure_tool-Emits d, ensure_each_tool-Emits ds)

  pub ensure_logical_tools-Emits :
      (requested : List String) → Emits Q (ensure_logical_tools script w o requested)
  unfolding ensure_logical_tools
  ensure_logical_tools-Emits requested =
      search (emits_rules, check_each_native-Emits, ensure_each_tool-Emits) depth 12
