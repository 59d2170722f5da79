-- ===== src/Tools.antt =====
-- tools.go: logical tools, the plan that installs them with their prerequisites, and agent.go's
-- `guestExecutableVersion`.
pub mod Resolve
pub mod Ensure
use lima_jailed_agents.Base.{
  String, Bool, true, false, not, List, [], ◌∷◌, ◌++◌, Result, ok, err, Error, lja, str,
}
use lima_jailed_agents.Base.{◌==◌, string_eq, contains, if◌then◌else◌}

pub record LogicalToolDefinition : Type 0 where
  pub name : String
  pub executable : String
  pub native_packages : List String
  pub prerequisites : List String
  pub install_arguments : List String

pub record LogicalToolPlan : Type 0 where
  pub native_packages : List String
  pub tools : List LogicalToolDefinition

abbrev pub logical_tool_uv : String
logical_tool_uv = "uv"

abbrev pub logical_tool_prek : String
logical_tool_prek = "prek"

abbrev pub pipx_command : String
pipx_command = "pipx"

abbrev pub uv_definition : LogicalToolDefinition
uv_definition = record {
  name = logical_tool_uv;
  executable = "uv";
  native_packages = pipx_command ∷ [];
  prerequisites = [];
  install_arguments = pipx_command ∷ "install" ∷ "uv" ∷ [];
}

abbrev pub prek_definition : LogicalToolDefinition
prek_definition = record {
  name = logical_tool_prek;
  executable = "prek";
  native_packages = [];
  prerequisites = logical_tool_uv ∷ [];
  install_arguments = "uv" ∷ "tool" ∷ "install" ∷ "prek" ∷ [];
}

abbrev pub unknown_tool : String → Error
unknown_tool name =
    lja "unknown logical tool %s; expected one of %s, %s" (str name ∷ str "uv" ∷ str "prek" ∷ [])

-- `logicalToolDefinitionByName`
unfoldable pub logical_tool_definition : String → Result LogicalToolDefinition
logical_tool_definition name =
    if name == logical_tool_uv
    then ok uv_definition
    else if name == logical_tool_prek
    then ok prek_definition
    else err (unknown_tool name)

-- `appendUniqueString`
abbrev pub append_unique : List String → String → List String
append_unique values value = if contains values value then values else values ++ (value ∷ [])

abbrev pub append_each : List String → List String → List String
append_each values [] = values
append_each values (name ∷ names) = append_each (append_unique values name) names
