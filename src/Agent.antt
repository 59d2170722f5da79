-- ===== src/Agent.antt =====
-- agent.go: the agents, their names in a launch, and the command line of an agent.
pub mod Names
pub mod Invocation
pub mod State
pub mod Install
pub mod Wrapper
pub mod Instructions
pub mod Prepare
use lima_jailed_agents.Base.{
  String, Bool, true, false, List, [], ◌∷◌, Result, ok, err, lja, str, ◌>>=◌, ◌==◌, string_eq,
  if◌then◌else◌,
}
use lima_jailed_agents.Base.{contains}

pub record AgentSpec : Type 0 where
  pub name : String
  pub package_name : String
  pub executable : String
  pub permission_flag : String

abbrev pub codex_agent_name : String
codex_agent_name = "codex"

abbrev pub claude_agent_name : String
claude_agent_name = "claude"

abbrev pub open_code_agent_name : String
open_code_agent_name = "opencode"

abbrev pub codex_no_daemon_flag : String
codex_no_daemon_flag = "--no-daemon"

abbrev pub codex_permission_flag : String
codex_permission_flag = "--dangerously-bypass-approvals-and-sandbox"

abbrev pub claude_permission_flag : String
claude_permission_flag = "--dangerously-skip-permissions"

-- `AgentSpecByName`
unfoldable pub agent_spec : String → Result AgentSpec
agent_spec name =
    if name == codex_agent_name
    then ok (record {
      name = name;
      package_name = "@openai/codex";
      executable = "codex";
      permission_flag = codex_permission_flag;
    })
    else if name == claude_agent_name
    then ok (record {
      name = name;
      package_name = "@anthropic-ai/claude-code";
      executable = "claude";
      permission_flag = claude_permission_flag;
    })
    else if name == open_code_agent_name
    then ok (record {
      name = name;
      package_name = "@opencode/cli";
      executable = "opencode";
      permission_flag = "";
    })
    else err (lja "unknown agent %s; expected one of codex, claude, opencode" (str name ∷ []))

-- `AgentNames`
abbrev pub agent_names : List String
agent_names = codex_agent_name ∷ claude_agent_name ∷ open_code_agent_name ∷ []
