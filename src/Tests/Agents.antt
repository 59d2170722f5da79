-- ===== src/Tests/Agents.antt =====
-- Agents, their command lines and the directories of their state; and the logical tools.

use lima_jailed_agents.Base.{
  String, true, false, List, [], ◌∷◌, ◌≡◌, ◌≢◌, ◌↔◌, refl, All, different,
}
use lima_jailed_agents.Base.{ok, string_eq, string_discrete, strings_eq, strings_discrete}
use lima_jailed_agents.Base.Unique.{unique}
use lima_jailed_agents.Agent.{AgentSpec, agent_spec, codex_no_daemon_flag}
use lima_jailed_agents.Agent.Names.{normalize_agent_names, IsAgent, normalize_agent_names_iff}
use lima_jailed_agents.Agent.Invocation.{
  build_agent_invocation, user_arguments, add_permission, add_no_daemon, insert_flag, has_option,
}
use lima_jailed_agents.Agent.Invocation.{
  is_option, is_login_command, permission_options, invocation_environment,
}
use lima_jailed_agents.Agent.Invocation.Laws.{
  AreOf, Inserts, IsOwnFlag, build_agent_invocation-Inserts, build_agent_invocation-permission,
}
use lima_jailed_agents.Agent.Invocation.Daemon.{
  sets_no_daemon, without_first, build_agent_invocation-no_daemon,
}
use lima_jailed_agents.Base.{contains, not, ◌||◌}
use lima_jailed_agents.Agent.State.{state_directories, ensure_directory}
use lima_jailed_agents.Agent.State.Laws.{
  LiesIn, ResolvesIn, state_directories-LiesIn, ensure_directory-ResolvesIn,
}
use lima_jailed_agents.Run.{made_dir}
use lima_jailed_agents.Tests.Paths.{project-IsClean}
use lima_jailed_agents.Tests.Sample.{project, project_text, running_world, shell_script}
use lima_jailed_agents.Tools.Ensure.{GuestPackageOptions, ensure_logical_tools}
use lima_jailed_agents.Tools.Ensure.Provided.{AllFound, ensure_logical_tools-Provides}
use lima_jailed_agents.Base.{OnOk}
use lima_jailed_agents.Run.Rules.{Adds}
use lima_jailed_agents.Run.{Worlds}
use lima_jailed_agents.Tests.Sample.{world_of}
use lima_jailed_agents.Tools.Resolve.{resolve_logical_tools}
use lima_jailed_agents.Tools.Resolve.Laws.{
  resolve_logical_tools_lem, expected, first_unknown, plan_for,
}
use lima_jailed_agents.Process.Laws.{RunsIn}

abbrev named : List String
named = "claude" ∷ "codex" ∷ []

normalize_agent_names_iff_example :
    (normalize_agent_names "claude" ("codex" ∷ "claude" ∷ []) ≡ ok named) ↔ (
      (named ≡ unique ("claude" ∷ "codex" ∷ "claude" ∷ []))
      × All IsAgent ("claude" ∷ "codex" ∷ "claude" ∷ []))
normalize_agent_names_iff_example =
    normalize_agent_names_iff "claude" ("codex" ∷ "claude" ∷ []) named

abbrev typed : List String
typed = "--no-daemon" ∷ "exec" ∷ "fix it" ∷ []

abbrev launched : List String
launched = "--no-daemon" ∷ "exec" ∷ "--dangerously-bypass-approvals-and-sandbox" ∷ "fix it" ∷ []

codex_invocation : build_agent_invocation "codex" typed ≡ ok (launched, [])
unfolding build_agent_invocation agent_spec string_eq add_no_daemon invocation_environment
    has_option add_permission is_login_command user_arguments is_option permission_options
    insert_flag
codex_invocation = refl

abbrev codex_spec : AgentSpec
codex_spec = record {
  name = "codex";
  package_name = "@openai/codex";
  executable = "codex";
  permission_flag = "--dangerously-bypass-approvals-and-sandbox";
}

codex_known : agent_spec "codex" ≡ ok codex_spec
unfolding agent_spec string_eq string_discrete
codex_known = refl

codex_flag : codex_spec.permission_flag ≢ ""
codex_flag = different refl

no_login : is_login_command "codex" (user_arguments "codex" typed) ≡ false
unfolding is_login_command user_arguments string_eq string_discrete
no_login = refl

build_agent_invocation-Inserts_example :
    (spec : AgentSpec) × (kept : List String) × (agent_spec "codex" ≡ ok spec)
    × AreOf "codex" typed kept
    × Inserts (IsOwnFlag spec.permission_flag) kept launched
build_agent_invocation-Inserts_example =
    build_agent_invocation-Inserts "codex" typed launched [] codex_invocation

build_agent_invocation-permission_example : has_option launched (permission_options "codex") ≡ true
build_agent_invocation-permission_example =
    build_agent_invocation-permission "codex" typed launched [] codex_spec codex_invocation
      codex_known codex_flag no_login

build_agent_invocation-no_daemon_example :
    contains launched codex_no_daemon_flag
    ≡ (not (sets_no_daemon typed) || contains (without_first typed) codex_no_daemon_flag)
build_agent_invocation-no_daemon_example =
    build_agent_invocation-no_daemon typed launched [] codex_invocation

-- `--no-daemon=false` of the user keeps the program from adding `--no-daemon`.
keeps_daemon :
    build_agent_invocation "codex" ("--yolo" ∷ "--no-daemon=false" ∷ [])
    ≡ ok ("--yolo" ∷ "--no-daemon=false" ∷ [], [])
unfolding build_agent_invocation agent_spec string_eq add_no_daemon invocation_environment
    has_option add_permission is_login_command user_arguments is_option permission_options
    insert_flag
keeps_daemon = refl

state_directories-LiesIn_example : All (LiesIn project) (state_directories project "opencode")
state_directories-LiesIn_example = state_directories-LiesIn project "opencode" project-IsClean

made : (ensure_directory running_world project project []).0 ≡ ok tt
unfolding ensure_directory lima_jailed_agents.Agent.State.check_within
    lima_jailed_agents.Path.Canonical.canonical_path
    lima_jailed_agents.Path.Canonical.canonical_given lima_jailed_agents.Path.Canonical.expand_home
    lima_jailed_agents.Path.Canonical.expand_first lima_jailed_agents.Path.Canonical.absolute_path
    lima_jailed_agents.Path.Canonical.resolve_absolute lima_jailed_agents.Path.Canonical.probe_loop
    lima_jailed_agents.Path.Canonical.resolve_probe
    lima_jailed_agents.Path.Canonical.normalize_darwin lima_jailed_agents.Path.Canonical.is_alias
    lima_jailed_agents.Path.Canonical.home_directory lima_jailed_agents.Path.Text.clean
    lima_jailed_agents.Path.Text.clean_onto lima_jailed_agents.Path.Text.enter
    lima_jailed_agents.Path.Text.join lima_jailed_agents.Path.Text.relative
    lima_jailed_agents.Path.Text.path_text lima_jailed_agents.Path.Text.split_path
    lima_jailed_agents.Path.Within.path_is_within lima_jailed_agents.Path.Within.leads_down
    string_eq string_discrete strings_eq strings_discrete lima_jailed_agents.Tests.Sample.resolve
    lima_jailed_agents.Tests.Sample.stat_sample
made = refl

ensure_directory-ResolvesIn_example :
    ((ensure_directory running_world project project []).1 ≡ made_dir project ∷ [])
    × ResolvesIn (running_world []).host project project
    × ResolvesIn (running_world (made_dir project ∷ [])).host project project
ensure_directory-ResolvesIn_example =
    ensure_directory-ResolvesIn running_world project project [] made

abbrev package_options : GuestPackageOptions
package_options = record {
  project = project_text;
  vm_name = "lja-work";
  limactl_command = "";
  has_context = false;
}

resolve_logical_tools_lem_example :
    resolve_logical_tools ("prek" ∷ "uv" ∷ [])
    ≡ expected (first_unknown ("prek" ∷ "uv" ∷ [])) (plan_for ("prek" ∷ "uv" ∷ []))
resolve_logical_tools_lem_example = resolve_logical_tools_lem ("prek" ∷ "uv" ∷ [])

-- A guest that has every executable.
abbrev provided_world : Worlds
provided_world t = world_of "/usr/bin/tool"

provided :
    (ensure_logical_tools shell_script provided_world package_options ("uv" ∷ []) []).0 ≡ ok tt
unfolding ensure_logical_tools resolve_logical_tools lima_jailed_agents.Tools.Resolve.visit_each
    lima_jailed_agents.Tools.Resolve.visit lima_jailed_agents.Tools.Resolve.visit_definition
    lima_jailed_agents.Tools.logical_tool_definition string_eq
    lima_jailed_agents.Tools.Ensure.check_each_native lima_jailed_agents.Tools.Resolve.add_tool
    lima_jailed_agents.Tools.Ensure.check_native
    lima_jailed_agents.Tools.Ensure.native_tool_executable
    lima_jailed_agents.Tools.Ensure.guest_executable_version
    lima_jailed_agents.Process.guest_executable_path lima_jailed_agents.Process.run_guest
    lima_jailed_agents.Path.Canonical.canonical_path
    lima_jailed_agents.Path.Canonical.canonical_given lima_jailed_agents.Path.Canonical.expand_home
    lima_jailed_agents.Path.Canonical.expand_first lima_jailed_agents.Base.Chars.chars
    lima_jailed_agents.Base.Chars.from_chars lima_jailed_agents.Base.Chars.has_nul
    lima_jailed_agents.Base.Chars.is_environment_name lima_jailed_agents.Base.Chars.trim_space
    string_discrete lima_jailed_agents.Path.Canonical.absolute_path
    lima_jailed_agents.Path.Canonical.normalize_darwin
    lima_jailed_agents.Path.Canonical.resolve_absolute lima_jailed_agents.Path.Text.clean
    lima_jailed_agents.Path.Text.clean_onto lima_jailed_agents.Path.Text.enter
    lima_jailed_agents.Process.finish_run lima_jailed_agents.Process.printed_path
    lima_jailed_agents.Process.process_output lima_jailed_agents.Process.run_lima
    lima_jailed_agents.Process.sort_names lima_jailed_agents.Process.sorted_environment_arguments
    lima_jailed_agents.Tools.Ensure.ensure_each_tool lima_jailed_agents.Tools.Ensure.ensure_tool
    lima_jailed_agents.Tools.Ensure.printed_version lima_jailed_agents.Tools.Ensure.version_of
    strings_eq strings_discrete lima_jailed_agents.Tests.Sample.resolve
provided = refl

ensure_logical_tools-Provides_example :
    Adds
      (RunsIn "lja-work")
      []
      (ensure_logical_tools shell_script provided_world package_options ("uv" ∷ []) []).1
    × OnOk
        (λ _.
          AllFound shell_script provided_world package_options
            ("uv" ∷ [])
            []
            (ensure_logical_tools shell_script provided_world package_options ("uv" ∷ []) []).1)
        (ensure_logical_tools shell_script provided_world package_options ("uv" ∷ []) []).0
ensure_logical_tools-Provides_example =
    ensure_logical_tools-Provides shell_script provided_world package_options ("uv" ∷ []) []
