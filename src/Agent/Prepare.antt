-- ===== src/Agent/Prepare.antt =====
-- agent.go: the preparation of agents in a VM: their installation, their state on the host, the directories
-- that they trust, and their wrappers.
pub mod Laws
use Prim.Native.Char.{Char}
use lima_jailed_agents.Base.{
  String, Bool, true, false, not, ◌&&◌, none, some, List, [], ◌∷◌, Result, ok, err, Option, Error,
  wrap, str, ◌==◌, string_eq, contains, if◌then◌else◌,
}
use lima_jailed_agents.Agent.{agent_spec, codex_agent_name, claude_agent_name}
use lima_jailed_agents.Agent.Install.{install_agent}
use lima_jailed_agents.Agent.Instructions.{refresh_agent_instructions}
use lima_jailed_agents.Agent.Names.{configured_agent_names}
use lima_jailed_agents.Agent.State.{ensure_agent_state_directories}
use lima_jailed_agents.Agent.Wrapper.{AgentExecutable, prepare_agent_wrappers}
use lima_jailed_agents.Claude.{Object, ensure_claude_directory_trust}
use lima_jailed_agents.Codex.{TomlValue, ensure_codex_configuration}
use lima_jailed_agents.Host.{PathText}
use lima_jailed_agents.Lima.Json.{Json}
use lima_jailed_agents.Path.Canonical.{is_empty}
use lima_jailed_agents.Run.{Worlds, M, ◌>>=◌, ◌>>◌, pure, lift, map_failure, when}
use lima_jailed_agents.Tools.Ensure.{GuestPackageOptions}
use lima_jailed_agents.Path.Text.{path_text}
use lima_jailed_agents.Workflow.{Workflow}
use lima_jailed_agents.Base.{FilePath}

-- `agentPreparationOptions`; `agents` are those of its development configuration
pub record AgentPreparation : Type 0 where
  pub project : PathText
  pub vm_name : String
  pub state_root : PathText
  pub agents : List String
  pub trust_directories : List PathText
  pub lock_directory : PathText
  pub limactl_command : String
  pub update_agent_name : String
  pub prepare_wrappers : Bool
  pub has_context : Bool

-- The libraries: `unicode.ToLower`, `strconv.Unquote`, `utf8.Valid`, `encoding/json`, and the TOML editor
-- with its documents.
pub record Libraries (D : Type 0) : Type 0 where
  pub lower : Char → Char
  pub unquote : String → Result String
  pub valid : String → Bool
  pub decode : String → Result Json
  pub encode : Object → String
  pub parse : String → Result D
  pub get : D → List String → Option TomlValue
  pub set : D → List String → String → Result D
  pub bytes : D → String

-- The state root is the project, if none is given.
abbrev pub root_of : AgentPreparation → PathText
root_of o = if is_empty o.state_root then o.project else o.state_root

abbrev pub packages_of : AgentPreparation → GuestPackageOptions
packages_of o = record {
  project = o.project;
  vm_name = o.vm_name;
  limactl_command = o.limactl_command;
  has_context = o.has_context;
}

abbrev prepare_failed : AgentPreparation → String → Error → Error
prepare_failed o name = wrap "cannot prepare agent %s in VM %s: %w" (str name ∷ str o.vm_name ∷ [])

abbrev has_any : {A : Type 0} → List A → Bool
has_any [] = false
has_any (x ∷ xs) = true

module _ {D : Type 0} (x : Libraries D) (script : String) (w : Worlds) (o : AgentPreparation) where
  -- One round of the loop of `prepareAgentNamesLocked`.
  unfoldable pub prepare_agent : String → M AgentExecutable
  prepare_agent name = do
    path ← map_failure (prepare_failed o name) (do
      agent ← lift (agent_spec name)
      path ←
          install_agent x.lower x.unquote script w (packages_of o) agent
            (name == o.update_agent_name)
      _ ← ensure_agent_state_directories w (root_of o) name
      _ ← refresh_agent_instructions w (root_of o) name none
      pure path)
    pure (record { name = name; path = path })

  unfoldable pub prepare_each : List String → M (List AgentExecutable)
  prepare_each [] = pure []
  prepare_each (name ∷ names) = do
    executable ← prepare_agent name
    executables ← prepare_each names
    pure (executable ∷ executables)

  unfoldable pub trust_in_codex : List String → M (Unit {0})
  trust_in_codex names = when (contains names codex_agent_name && has_any o.trust_directories) (
      map_failure (prepare_failed o codex_agent_name) (
        ensure_codex_configuration x.parse x.get x.set x.bytes x.valid w (root_of o)
          o.trust_directories o.lock_directory))

  unfoldable pub trust_in_claude : List String → M (Unit {0})
  trust_in_claude names = when (contains names claude_agent_name && has_any o.trust_directories) (
      map_failure (prepare_failed o claude_agent_name) (
        ensure_claude_directory_trust x.decode x.encode x.valid w (root_of o) o.trust_directories
          o.lock_directory))

  unfoldable pub wrap_agents : List AgentExecutable → M (Unit {0})
  wrap_agents executables = when (o.prepare_wrappers && has_any executables) (
      map_failure (wrap "cannot prepare agent wrappers in VM %s: %w" (str o.vm_name ∷ [])) (
        prepare_agent_wrappers script w o.project o.vm_name (root_of o) executables
          o.limactl_command))

  -- `prepareAgentNamesLocked`
  unfoldable pub prepare_agent_names : List String → M (Unit {0})
  prepare_agent_names names = do
    executables ← prepare_each names
    trust_in_codex names
    trust_in_claude names
    wrap_agents executables

  -- `prepareConfiguredAgentsLocked`
  unfoldable pub prepare_configured_agents : M (Unit {0})
  prepare_configured_agents = do
    names ← lift (configured_agent_names o.agents)
    prepare_agent_names names

-- What `WorkflowOptions` has for agents, beside the fields of a `Workflow`.
pub record AgentSettings : Type 0 where
  pub agents : List String
  pub trust_directories : List PathText
  pub lock_directory : PathText

-- `agentPreparation`
abbrev pub agent_preparation :
    Workflow → AgentSettings → FilePath → String → Bool → String → AgentPreparation
agent_preparation f settings project vm wrappers update = record {
  project = path_text project;
  vm_name = vm;
  state_root = f.state_root;
  agents = settings.agents;
  trust_directories = settings.trust_directories;
  lock_directory = settings.lock_directory;
  limactl_command = f.lima_command;
  update_agent_name = update;
  prepare_wrappers = wrappers;
  has_context = f.has_gpg_context;
}

-- The workflow whose agents are prepared as agent.go does it.
unfoldable pub with_agents :
    {D : Type 0} → Libraries D → String → Worlds → AgentSettings → Workflow → Workflow
with_agents x script w settings f = record f {
  configured_agents = configured_agent_names settings.agents;
  prepare_agents = λ project vm wrappers update.
      prepare_configured_agents x script w
        (agent_preparation f settings project vm wrappers update);
}
