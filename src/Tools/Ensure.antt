-- ===== src/Tools/Ensure.antt =====
-- tools.go: `ensureLogicalTools`, which checks for each tool of the plan and installs what is missing; and
-- agent.go's `guestExecutableVersion`.
pub mod Laws
pub mod Found
pub mod Provided
use lima_jailed_agents.Base.{
  String, Bool, true, false, not, ◌||◌, Option, none, some, List, [], ◌∷◌, ◌++◌, map,
}
use lima_jailed_agents.Base.{
  Result, ok, err, Error, lja, wrap, str, exit, ◌==◌, string_eq, if◌then◌else◌,
}
use lima_jailed_agents.Base.Chars.{chars, is_char, any_char, trim_space, has_nul}
use lima_jailed_agents.Host.{PathText, ProcessResult}
use lima_jailed_agents.Process.{
  run_guest, verify_guest_connection, guest_executable_path, process_output, probe_options,
  default_process_options, exited_with,
}
use lima_jailed_agents.Process.Laws.{
  run_guest-Emits, verify_guest_connection-Emits, guest_executable_path-Emits,
}
use lima_jailed_agents.Lima.Prepare.Laws.{shell-IsBenign}
use lima_jailed_agents.Run.{
  Word, word, ProcessOptions, Event, Worlds, M, ◌>>=◌, ◌>>◌, pure, fail, lift, map_failure,
  reject_if, when,
}
use lima_jailed_agents.Run.Rules.{Emits, emits_rules}
use lima_jailed_agents.Workflow.{IsBenign}
use lima_jailed_agents.Tools.{LogicalToolDefinition, LogicalToolPlan, pipx_command}
use lima_jailed_agents.Tools.Resolve.{resolve_logical_tools}

-- `guestPackageOptions`, whose command and context are those of the options of its processes
pub record GuestPackageOptions : Type 0 where
  pub project : PathText
  pub vm_name : String
  pub limactl_command : String
  pub has_context : Bool

abbrev pub options_of : GuestPackageOptions → ProcessOptions
options_of o = default_process_options o.limactl_command o.has_context

-- `nativeToolExecutable`
unfoldable pub native_tool_executable : String → Result String
native_tool_executable name =
    if name == pipx_command
    then ok pipx_command
    else err (lja "native logical tool dependency %s has no executable definition" (str name ∷ []))

abbrev pub failed_version : String → String → ProcessResult → Error
failed_version executable vm r =
    if process_output r == ""
    then lja "guest executable %s is present but failed in VM %s: exit status %d"
        (str executable ∷ str vm ∷ exit r.exit_code ∷ [])
    else lja "guest executable %s is present but failed in VM %s: exit status %d: %s"
        (str executable ∷ str vm ∷ exit r.exit_code ∷ str (process_output r) ∷ [])

-- The version that the executable printed: one line.
unfoldable pub printed_version : String → String → String → Result String
printed_version executable vm version =
    if version == ""
    then err (lja "guest executable %s in VM %s returned no version" (str executable ∷ str vm ∷ []))
    else if has_nul version || any_char (λ c. is_char 13 c || is_char 10 c) (chars version)
    then err (
        lja "guest executable %s in VM %s returned an invalid version"
          (str executable ∷ str vm ∷ []))
    else ok version

abbrev pub failed_install : String → String → ProcessResult → Error
failed_install tool vm r =
    if process_output r == ""
    then lja "cannot install logical tool %s in VM %s: exit status %d"
        (str tool ∷ str vm ∷ exit r.exit_code ∷ [])
    else lja "cannot install logical tool %s in VM %s: exit status %d: %s"
        (str tool ∷ str vm ∷ exit r.exit_code ∷ str (process_output r) ∷ [])

module _ (script : String) (w : Worlds) where
  -- After the run of `executable --version`.
  unfoldable pub version_of :
      PathText → String → String → String → ProcessOptions → ProcessResult → M (String × String)
  version_of project vm executable path o r = do
    when (not (exited_with r.exit_code)) (
        map_failure
          (wrap "guest executable %s is present but failed in VM %s: %w"
            (str executable ∷ str vm ∷ []))
          (verify_guest_connection script w project vm o)
        >> fail (failed_version executable vm r))
    version ← lift (printed_version executable vm (trim_space r.stdout))
    pure (path, version)

  -- `guestExecutableVersion`: the path and the version, or two empty texts where the executable is not found
  unfoldable pub guest_executable_version :
      PathText → String → String → ProcessOptions → M (String × String)
  guest_executable_version project vm executable o = do
    path ← guest_executable_path script w project vm executable o
    if path == "" then pure ("", "") else (do
      r ←
          map_failure
            (wrap "cannot run guest executable %s in VM %s: %w" (str executable ∷ str vm ∷ []))
            (run_guest script w project vm (word executable ∷ word "--version" ∷ [])
              (probe_options o) [])
      version_of project vm executable path (probe_options o) r)

  module _ (o : GuestPackageOptions) where
    -- `installLogicalTool`
    unfoldable pub install_logical_tool : LogicalToolDefinition → M (Unit {0})
    install_logical_tool d = do
      r ←
          map_failure
            (wrap "cannot install logical tool %s in VM %s: %w" (str d.name ∷ str o.vm_name ∷ []))
            (run_guest script w o.project o.vm_name (map word d.install_arguments)
              (probe_options (options_of o)) [])
      if exited_with r.exit_code then pure tt else (do
        map_failure
            (wrap "cannot install logical tool %s in VM %s because the guest connection failed: %w"
              (str d.name ∷ str o.vm_name ∷ []))
            (verify_guest_connection script w o.project o.vm_name (probe_options (options_of o)))
        fail (failed_install d.name o.vm_name r))

    -- One native package of the plan must be there.
    unfoldable pub check_native : String → M (Unit {0})
    check_native package_name = do
      executable ← lift (native_tool_executable package_name)
      (path, version) ←
          map_failure
            (wrap "cannot verify native logical tool dependency %s in VM %s: %w"
              (str package_name ∷ str o.vm_name ∷ []))
            (guest_executable_version o.project o.vm_name executable (options_of o))
      reject_if (path == "") (
          lja "native logical tool dependency %s is missing in VM %s"
            (str package_name ∷ str o.vm_name ∷ []))

    unfoldable pub check_each_native : List String → M (Unit {0})
    check_each_native [] = pure tt
    check_each_native (name ∷ names) = do check_native name; check_each_native names

    -- A tool that is missing is installed, and must then be there.
    unfoldable pub install_missing : LogicalToolDefinition → M (Unit {0})
    install_missing d = do
      install_logical_tool d
      (path, version) ←
          map_failure
            (wrap "cannot verify logical tool %s in VM %s after installation: %w"
              (str d.name ∷ str o.vm_name ∷ []))
            (guest_executable_version o.project o.vm_name d.executable (options_of o))
      reject_if (path == "") (
          lja "logical tool %s was installed but executable %s is missing in VM %s"
            (str d.name ∷ str d.executable ∷ str o.vm_name ∷ []))

    unfoldable pub ensure_tool : LogicalToolDefinition → M (Unit {0})
    ensure_tool d = do
      (path, version) ←
          map_failure
            (wrap "cannot verify logical tool %s in VM %s: %w" (str d.name ∷ str o.vm_name ∷ []))
            (guest_executable_version o.project o.vm_name d.executable (options_of o))
      when (path == "") (install_missing d)

    unfoldable pub ensure_each_tool : List LogicalToolDefinition → M (Unit {0})
    ensure_each_tool [] = pure tt
    ensure_each_tool (d ∷ ds) = do ensure_tool d; ensure_each_tool ds

    -- `ensureLogicalTools`
    unfoldable pub ensure_logical_tools : List String → M (Unit {0})
    ensure_logical_tools requested = do
      plan ← lift (resolve_logical_tools requested)
      check_each_native plan.native_packages
      ensure_each_tool plan.tools
