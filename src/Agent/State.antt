-- ===== src/Agent/State.antt =====
-- lock.go: where an agent keeps its state: `agentStateEnvironment`, `agentStateDirectories`,
-- `EnsureAgentStateDirectories`; and agent.go's `orderedAgentEnvironment`.
pub mod Laws
pub mod Events
use lima_jailed_agents.Base.{
  String, Bool, true, false, not, Option, none, some, List, [], ◌∷◌, ◌++◌, FilePath,
}
use lima_jailed_agents.Base.{
  Result, ok, err, Error, lja, wrap, str, loc, ◌>>=◌, ◌==◌, string_eq, if◌then◌else◌,
}
use lima_jailed_agents.Base.Dict.{Dict, lookup}
use lima_jailed_agents.Agent.{
  AgentSpec, agent_spec, codex_agent_name, claude_agent_name, open_code_agent_name,
}
use lima_jailed_agents.Host.{Host, PathText, is_directory, FileInfo, to_result}
use lima_jailed_agents.Path.Canonical.{canonical_path}
use lima_jailed_agents.Path.Text.{join, path_text, render}
use lima_jailed_agents.Path.Within.{path_is_within}
use lima_jailed_agents.Run.{
  Event, made_dir, World, Worlds, M, pure, query, act, lift, reject_if, map_failure,
}
use lima_jailed_agents.Run.{◌>>=◌ as ◌>>>=◌, ◌>>◌ as ◌>>>◌}

abbrev pub open_code_directories : List String
open_code_directories = "config" ∷ "data" ∷ "state" ∷ "cache" ∷ []

abbrev pub under_each : FilePath → List String → List FilePath
under_each directory [] = []
under_each directory (name ∷ names) = join directory (name ∷ []) ∷ under_each directory names

-- The directories of an agent in a canonical state root.
unfoldable pub state_directories : FilePath → String → List FilePath
state_directories state agent =
    if agent == codex_agent_name
    then join state (".codex" ∷ []) ∷ []
    else if agent == claude_agent_name
    then join state (".claude" ∷ []) ∷ []
    else join state (".opencode" ∷ [])
      ∷ under_each (join state (".opencode" ∷ [])) open_code_directories

-- `agentStateDirectories`
unfoldable pub agent_state_directories : Host → PathText → String → Result (List FilePath)
agent_state_directories h state_root agent = canonical_path h state_root >>= λ state.
    agent_spec agent >>= λ spec. ok (state_directories state agent)

-- The environment of an agent in a canonical state root.
unfoldable pub state_environment : FilePath → String → Dict String String
state_environment state agent =
    if agent == codex_agent_name
    then ("CODEX_HOME", render (join state (".codex" ∷ []))) ∷ []
    else if agent == claude_agent_name
    then ("CLAUDE_CONFIG_DIR", render (join state (".claude" ∷ [])))
      ∷ ("DISABLE_AUTOUPDATER", "1")
      ∷ []
    else (let directory = join state (".opencode" ∷ []) in
        ("OPENCODE_CONFIG_DIR", render directory)
        ∷ ("XDG_CONFIG_HOME", render (join directory ("config" ∷ [])))
        ∷ ("XDG_DATA_HOME", render (join directory ("data" ∷ [])))
        ∷ ("XDG_STATE_HOME", render (join directory ("state" ∷ [])))
        ∷ ("XDG_CACHE_HOME", render (join directory ("cache" ∷ [])))
        ∷ [])

-- `agentStateEnvironment`
unfoldable pub agent_state_environment : Host → PathText → String → Result (Dict String String)
agent_state_environment h state_root agent = canonical_path h state_root >>= λ state.
    agent_spec agent >>= λ spec. ok (state_environment state agent)

abbrev pub environment_order : String → List String
environment_order agent =
    if agent == codex_agent_name
    then "CODEX_HOME" ∷ []
    else if agent == claude_agent_name
    then "CLAUDE_CONFIG_DIR" ∷ "DISABLE_AUTOUPDATER" ∷ []
    else "OPENCODE_CONFIG_DIR" ∷ "XDG_CONFIG_HOME" ∷ "XDG_DATA_HOME" ∷ "XDG_STATE_HOME"
      ∷ "XDG_CACHE_HOME" ∷ []

abbrev pub value_or_empty : Option String → String
value_or_empty none = ""
value_or_empty (some value) = value

abbrev pub entries_of : Dict String String → List String → List (String × String)
entries_of values [] = []
entries_of values (name ∷ names) =
    (name, value_or_empty (lookup name values)) ∷ entries_of values names

abbrev pub content_entry : String → List (String × String)
content_entry agent =
    if agent == open_code_agent_name
    then ("OPENCODE_CONFIG_CONTENT", "{\"permission\":\"allow\"}") ∷ []
    else []

-- `orderedAgentEnvironment`
unfoldable pub ordered_agent_environment :
    Host → PathText → String → Result (List (String × String))
ordered_agent_environment h state_root agent =
    agent_state_environment h state_root agent >>= λ values.
    ok (entries_of values (environment_order agent) ++ content_entry agent)

abbrev pub outside_error : FilePath → Error
outside_error directory =
    lja "agent state directory would leave state root: %s" (loc directory ∷ [])

abbrev pub inspect_error : FilePath → Error → Error
inspect_error directory = wrap "cannot inspect agent state directory %s: %w" (loc directory ∷ [])

abbrev pub kind_error : FilePath → Error
kind_error directory = lja "agent state path is not a directory: %s" (loc directory ∷ [])

module _ (w : Worlds) where
  -- The directory, made canonical, must lie in the state root.
  unfoldable pub check_within : FilePath → FilePath → M (Unit {0})
  check_within state directory =
      query w (λ h. canonical_path h (path_text directory)) >>>= λ resolved.
      reject_if (not (path_is_within resolved state)) (outside_error directory)

  abbrev pub inspect_directory : FilePath → M (Unit {0})
  inspect_directory directory =
      map_failure (inspect_error directory) (query w (λ h. to_result (h.stat directory)))
      >>>= λ info. reject_if (not (is_directory info.kind)) (kind_error directory)

  -- `ensurePrivateDirectory`
  abbrev pub make_directory : FilePath → M (Unit {0})
  make_directory directory =
      act w (made_dir directory) (λ x. x.mkdir_all directory)
        (wrap "cannot create state directory %s: %w" (loc directory ∷ []))

  -- One round of the loop: the check is made again when the directory is there.
  unfoldable pub ensure_directory : FilePath → FilePath → M (Unit {0})
  ensure_directory state directory =
      check_within state directory
      >>> (make_directory directory
          >>> (inspect_directory directory >>> check_within state directory))

  unfoldable pub ensure_directories : FilePath → List FilePath → M (Unit {0})
  ensure_directories state [] = pure tt
  ensure_directories state (directory ∷ directories) =
      ensure_directory state directory >>> ensure_directories state directories

  -- `EnsureAgentStateDirectories`
  unfoldable pub ensure_agent_state_directories : PathText → String → M (List FilePath)
  ensure_agent_state_directories state_root agent =
      query w (λ h. canonical_path h state_root) >>>= λ state.
      query w (λ h. agent_state_directories h (path_text state) agent) >>>= λ directories.
      (ensure_directories state directories >>> pure directories)
