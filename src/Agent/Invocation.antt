-- ===== src/Agent/Invocation.antt =====
-- agent.go: `BuildAgentInvocation` and the tests on arguments that it uses.
pub mod Laws
pub mod Daemon
use Prim.Native.String.{◌++◌ as ◌<>◌}
use text.Mathlib.Text.{starts_with}
use lima_jailed_agents.Base.{String, Bool, true, false, not, ◌&&◌, ◌||◌, List, [], ◌∷◌, ◌++◌}
use lima_jailed_agents.Base.{Result, ok, err, ◌>>=◌, ◌==◌, string_eq, if◌then◌else◌}
use lima_jailed_agents.Base.Dict.{Dict, insert}
use lima_jailed_agents.Agent.{
  AgentSpec, agent_spec, codex_agent_name, claude_agent_name, open_code_agent_name,
}
use lima_jailed_agents.Agent.{codex_no_daemon_flag, codex_permission_flag, claude_permission_flag}

-- `permissionOptions`
unfoldable pub permission_options : String → List String
permission_options agent =
    if agent == codex_agent_name
    then codex_permission_flag ∷ "--yolo" ∷ "--ask-for-approval" ∷ "-a" ∷ "--sandbox" ∷ "-s" ∷ []
    else claude_permission_flag ∷ "--allow-dangerously-skip-permissions" ∷ "--permission-mode" ∷ []

-- The patterns of one option, of `permissionOptionPatterns`.
abbrev option_patterns : String → List String
option_patterns option =
    if starts_with option "--" then option ∷ (option <> "=*") ∷ [] else option ∷ []

abbrev patterns_of : List String → List String
patterns_of [] = []
patterns_of (option ∷ options) = option_patterns option ++ patterns_of options

-- `permissionOptionPatterns`
unfoldable pub permission_option_patterns : String → List String
permission_option_patterns agent = patterns_of (permission_options agent)

-- `isLoginCommand`
unfoldable pub is_login_command : String → List String → Bool
is_login_command agent [] = false
is_login_command agent (first ∷ rest) =
    if agent == codex_agent_name
    then first == "login"
    else if agent == claude_agent_name
    then first == "auth"
    else false

-- The argument is one of the options, or sets one by `=`.
unfoldable pub is_option : String → List String → Bool
is_option argument [] = false
is_option argument (option ∷ options) =
    (argument == option || starts_with argument (option <> "=")) || is_option argument options

-- `hasOption`
unfoldable pub has_option : List String → List String → Bool
has_option [] options = false
has_option (argument ∷ arguments) options =
    is_option argument options || has_option arguments options

-- A leading `--no-daemon` is dropped for codex.
unfoldable pub user_arguments : String → List String → List String
user_arguments agent [] = []
user_arguments agent (first ∷ rest) =
    if agent == codex_agent_name && first == codex_no_daemon_flag then rest else first ∷ rest

-- The flag goes to the front, but behind `exec` for codex.
unfoldable pub insert_flag : String → String → List String → List String
insert_flag agent flag [] = flag ∷ []
insert_flag agent flag (first ∷ rest) =
    if agent == codex_agent_name && first == "exec"
    then first ∷ flag ∷ rest
    else flag ∷ first ∷ rest

unfoldable pub add_permission : String → String → List String → List String
add_permission agent flag arguments =
    if not (flag == "")
      && (not (is_login_command agent arguments)
          && not (has_option arguments (permission_options agent)))
    then insert_flag agent flag arguments
    else arguments

unfoldable pub add_no_daemon : String → List String → List String
add_no_daemon agent invocation =
    if agent == codex_agent_name && not (has_option invocation (codex_no_daemon_flag ∷ []))
    then codex_no_daemon_flag ∷ invocation
    else invocation

unfoldable pub invocation_environment : String → Dict String String
invocation_environment agent =
    if agent == open_code_agent_name
    then insert "OPENCODE_CONFIG_CONTENT" "{\"permission\":\"allow\"}" []
    else if agent == claude_agent_name
    then insert "DISABLE_AUTOUPDATER" "1" []
    else []

-- `BuildAgentInvocation`
unfoldable pub build_agent_invocation :
    String → List String → Result (List String × Dict String String)
build_agent_invocation agent arguments = agent_spec agent >>= λ spec. ok (
  add_no_daemon agent (add_permission agent spec.permission_flag (user_arguments agent arguments)),
  invocation_environment agent,
)
