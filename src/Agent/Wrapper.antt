-- ===== src/Agent/Wrapper.antt =====
-- agent.go: the wrapper script of an agent and the script that puts the wrappers into a guest.
use Prim.Native.String.{◌++◌ as ◌<>◌}
use lima_jailed_agents.Base.{
  String, false, List, [], ◌∷◌, ◌++◌, map, FilePath, Result, ok, err, lja, ◌>>=◌,
}
use lima_jailed_agents.Base.{◌==◌, string_eq, contains, if◌then◌else◌}
use lima_jailed_agents.Agent.{
  agent_spec, agent_names, codex_agent_name, claude_agent_name, codex_no_daemon_flag,
}
use lima_jailed_agents.Agent.Invocation.{permission_option_patterns}
use lima_jailed_agents.Agent.State.{ordered_agent_environment}
use lima_jailed_agents.Host.{Host, PathText}
use lima_jailed_agents.Packages.Quote.{shell_quote, join_with}
use lima_jailed_agents.Path.Text.{join, render, split_path}
use lima_jailed_agents.Process.{run_guest, default_process_options}
use lima_jailed_agents.Run.{word, Worlds, M, ◌>>=◌ as ◌>>>=◌, query, pure}

-- `AgentExecutable`
pub record AgentExecutable : Type 0 where
  pub name : String
  pub path : String

-- `agentStateEnvironmentNames`
abbrev pub agent_state_environment_names : List String
agent_state_environment_names =
    "CODEX_HOME" ∷ "CLAUDE_CONFIG_DIR" ∷ "DISABLE_AUTOUPDATER" ∷ "OPENCODE_CONFIG_DIR"
    ∷ "XDG_CONFIG_HOME" ∷ "XDG_DATA_HOME" ∷ "XDG_STATE_HOME" ∷ "XDG_CACHE_HOME"
    ∷ "OPENCODE_CONFIG_CONTENT" ∷ []

-- `strings.Join(lines, "\n") + "\n"`
abbrev pub script_of : List String → String
script_of lines = join_with "\n" lines <> "\n"

abbrev pub export_line : String × String → String
export_line (name, value) = "export " <> name <> "=" <> shell_quote value

-- The lines that keep `--no-daemon` from being given twice.
abbrev pub daemon_lines : List String
daemon_lines =
    ("if [ \"${1-}\" = " <> shell_quote codex_no_daemon_flag <> " ]; then shift; fi")
    ∷ ("daemon_flag=" <> shell_quote codex_no_daemon_flag)
    ∷ "for argument in \"$@\"; do"
    ∷ "    case \"$argument\" in"
    ∷ ("        " <> codex_no_daemon_flag <> ") daemon_flag='' ;;")
    ∷ "    esac"
    ∷ "done"
    ∷ []

abbrev pub quoted_executable : String → String → String
quoted_executable agent path =
    if agent == codex_agent_name
    then shell_quote path <> " ${daemon_flag:+\"$daemon_flag\"}"
    else shell_quote path

abbrev pub login_subcommand : String → String
login_subcommand agent = if agent == claude_agent_name then "auth" else "login"

-- The lines that look for an option that sets the permissions, and for a login.
abbrev pub permission_lines : String → String → List String
permission_lines agent executable =
    "has_explicit_permission_option() {"
    ∷ "    for argument in \"$@\"; do"
    ∷ "        case \"$argument\" in"
    ∷ ("            " <> join_with "|" (permission_option_patterns agent) <> ") return 0 ;;")
    ∷ "        esac"
    ∷ "    done"
    ∷ "    return 1"
    ∷ "}"
    ∷ ("if [ \"${1-}\" = " <> shell_quote (login_subcommand agent) <> " ]; then")
    ∷ ("    exec " <> executable <> " \"$@\"")
    ∷ "fi"
    ∷ "if has_explicit_permission_option \"$@\"; then"
    ∷ ("    exec " <> executable <> " \"$@\"")
    ∷ "fi"
    ∷ []

abbrev pub exec_lines : String → String → String → List String
exec_lines agent executable flag =
    if agent == codex_agent_name
    then ("if [ \"${1-}\" = " <> shell_quote "exec" <> " ]; then")
      ∷ "    first_argument=\"$1\""
      ∷ "    shift"
      ∷ ("    exec " <> executable <> " \"$first_argument\" " <> shell_quote flag <> " \"$@\"")
      ∷ "fi"
      ∷ []
    else []

-- What a wrapper runs after its environment is set.
unfoldable pub launch_lines : String → String → String → List String
unfolding shell_quote permission_option_patterns
launch_lines agent executable flag =
    if flag == ""
    then ("exec " <> executable <> " \"$@\"") ∷ []
    else permission_lines agent executable
      ++ (exec_lines agent executable flag
          ++ (("exec " <> executable <> " " <> shell_quote flag <> " \"$@\"") ∷ []))

-- `agentWrapperContent`
unfoldable pub agent_wrapper_content : Host → PathText → String → String → Result String
unfolding shell_quote launch_lines
agent_wrapper_content h state_root agent path = do
  spec ← agent_spec agent
  environment ← ordered_agent_environment h state_root agent
  ok (
      script_of (
        "#!/bin/sh"
        ∷ "set -eu"
        ∷ ("unset " <> join_with " " agent_state_environment_names)
        ∷ (map export_line environment
            ++ ((if agent == codex_agent_name then daemon_lines else [])
                ++ launch_lines agent (quoted_executable agent path) spec.permission_flag))))

-- `agentWrapperDirectory`
abbrev pub agent_wrapper_directory : String → FilePath
agent_wrapper_directory vm = join ("tmp" ∷ "lja" ∷ []) (split_path vm ++ ("bin" ∷ []))

abbrev pub wrapper_path : String → String → String
wrapper_path vm agent = render (join (agent_wrapper_directory vm) (split_path agent))

abbrev pub setup_lines : String → List String
setup_lines vm =
    "set -eu"
    ∷ "temporary_path="
    ∷ "cleanup() {"
    ∷ "    if [ -n \"$temporary_path\" ]; then"
    ∷ "        rm -f -- \"$temporary_path\""
    ∷ "    fi"
    ∷ "}"
    ∷ "trap cleanup EXIT HUP INT TERM"
    ∷ ("wrapper_directory=" <> shell_quote (render (agent_wrapper_directory vm)))
    ∷ "mkdir -p -- \"$wrapper_directory\""
    ∷ "chmod 700 \"$wrapper_directory\""
    ∷ []

unfoldable pub check_requested : List AgentExecutable → Result (List String)
check_requested [] = ok []
check_requested (executable ∷ executables) = do
  spec ← agent_spec executable.name
  others ← check_requested executables
  ok (executable.name ∷ others)

-- The wrappers of agents that are not requested are removed.
unfoldable pub removal_lines : String → List String → List String → List String
unfolding shell_quote
removal_lines vm requested [] = []
removal_lines vm requested (name ∷ names) =
    let others = removal_lines vm requested names in
    if contains requested name
    then others
    else ("rm -f -- " <> shell_quote (wrapper_path vm name)) ∷ others

-- The wrapper is written to a temporary file, which takes its place.
abbrev pub wrapper_lines : String → String → String → List String
wrapper_lines vm agent content =
    ("temporary_path=$(mktemp " <> shell_quote (wrapper_path vm agent <> ".XXXXXX") <> ")")
    ∷ ("printf '%s' " <> shell_quote content <> " > \"$temporary_path\"")
    ∷ "chmod 700 \"$temporary_path\""
    ∷ ("mv -f -- \"$temporary_path\" " <> shell_quote (wrapper_path vm agent))
    ∷ "temporary_path="
    ∷ []

unfoldable pub installation_lines :
    Host → PathText → String → List AgentExecutable → Result (List String)
unfolding shell_quote
installation_lines h state_root vm [] = ok []
installation_lines h state_root vm (executable ∷ executables) = do
  content ← agent_wrapper_content h state_root executable.name executable.path
  others ← installation_lines h state_root vm executables
  ok (wrapper_lines vm executable.name content ++ others)

-- `agentWrapperSetupScript`
unfoldable pub agent_wrapper_setup_script :
    Host → PathText → String → List AgentExecutable → Result String
unfolding shell_quote
agent_wrapper_setup_script h state_root vm [] =
    err (lja "cannot prepare agent wrappers without requested agents" [])
agent_wrapper_setup_script h state_root vm (first ∷ rest) = do
  requested ← check_requested (first ∷ rest)
  installation ← installation_lines h state_root vm (first ∷ rest)
  ok (script_of (setup_lines vm ++ (removal_lines vm requested agent_names ++ installation)))

module _ (script : String) (w : Worlds) where
  -- `PrepareAgentWrappers`
  unfoldable pub prepare_agent_wrappers :
      PathText → String → PathText → List AgentExecutable → String → M (Unit {0})
  prepare_agent_wrappers project vm state_root executables lima =
      query w (λ h. agent_wrapper_setup_script h state_root vm executables) >>>= λ setup.
      run_guest script w project vm (word "sh" ∷ word "-c" ∷ word setup ∷ [])
        (default_process_options lima false) []
      >>>= λ r. pure tt
