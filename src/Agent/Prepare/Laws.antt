-- ===== src/Agent/Prepare/Laws.antt =====
-- The events of `prepareAgentNamesLocked`, and a workflow that prepares its agents by it.
use lima_jailed_agents.Base.{String, List, [], ◌∷◌, FilePath}
use lima_jailed_agents.Agent.Names.{configured_agent_names}
use lima_jailed_agents.Agent.Install.Laws.{install_agent-IsBenign}
use lima_jailed_agents.Agent.Instructions.Events.{refresh_agent_instructions-Emits}
use lima_jailed_agents.Agent.Prepare.{
  AgentPreparation, Libraries, prepare_agent, prepare_each, trust_in_codex, trust_in_claude,
  wrap_agents, prepare_agent_names, prepare_configured_agents, agent_preparation, with_agents,
  AgentSettings, root_of,
}
use lima_jailed_agents.Agent.State.Events.{ensure_agent_state_directories-Emits}
use lima_jailed_agents.Agent.Wrapper.{AgentExecutable, prepare_agent_wrappers}
use lima_jailed_agents.AgentConfig.Events.{ensure_config-Emits}
use lima_jailed_agents.Claude.{ensure_claude_directory_trust}
use lima_jailed_agents.Codex.{ensure_codex_configuration}
use lima_jailed_agents.Host.{PathText}
use lima_jailed_agents.Lima.Prepare.Laws.{shell-IsBenign}
use lima_jailed_agents.Lock.Events.{AllowsLocks}
use lima_jailed_agents.Process.Laws.{run_guest-Emits}
use lima_jailed_agents.Run.{FileCall, filed, made_dir, Worlds}
use lima_jailed_agents.Run.Rules.{Emits, Emits-lift, Emits-bind, Emits-then, emits_rules}
use lima_jailed_agents.Workflow.{Workflow, GuestOnly, IsBenign}

locks-IsBenign : AllowsLocks IsBenign
unfolding IsBenign
locks-IsBenign = record {
  directory = λ path. tt;
  open_file = λ path. tt;
  lock = λ path. tt;
  unlock = λ path. tt;
  close = λ path. tt;
}

files-IsBenign : (call : FileCall) → IsBenign (filed call)
unfolding IsBenign
files-IsBenign call = tt

made-IsBenign : (path : FilePath) → IsBenign (made_dir path)
unfolding IsBenign
made-IsBenign path = tt

module _ {D : Type 0} (x : Libraries D) (script : String) (w : Worlds) where
  module _ (o : AgentPreparation) where
    prepare_agent-IsBenign : (name : String) → Emits IsBenign (prepare_agent x script w o name)
    unfolding prepare_agent
    prepare_agent-IsBenign name =
        search
          (
            emits_rules,
            install_agent-IsBenign,
            ensure_agent_state_directories-Emits w IsBenign made-IsBenign,
            refresh_agent_instructions-Emits w IsBenign files-IsBenign made-IsBenign,
          )
          depth 16

    prepare_each-IsBenign : (names : List String) → Emits IsBenign (prepare_each x script w o names)
    unfolding prepare_each
    prepare_each-IsBenign [] = search emits_rules
    prepare_each-IsBenign (name ∷ names) =
        Emits-bind IsBenign (prepare_agent-IsBenign name) (λ executable.
          Emits-bind IsBenign (prepare_each-IsBenign names) (λ executables. search emits_rules))

    trust_in_codex-IsBenign :
        (names : List String) → Emits IsBenign (trust_in_codex x script w o names)
    unfolding trust_in_codex ensure_codex_configuration
    trust_in_codex-IsBenign names =
        search (emits_rules, ensure_config-Emits w IsBenign locks-IsBenign files-IsBenign) depth 12

    claude-IsBenign :
        (directories : List PathText)
        → Emits IsBenign (
            ensure_claude_directory_trust x.decode x.encode x.valid w
              (root_of o)
              directories
              o.lock_directory)
    unfolding ensure_claude_directory_trust
    claude-IsBenign [] = search emits_rules
    claude-IsBenign (directory ∷ directories) =
        ensure_config-Emits w IsBenign locks-IsBenign files-IsBenign _ (root_of o) o.lock_directory

    trust_in_claude-IsBenign :
        (names : List String) → Emits IsBenign (trust_in_claude x script w o names)
    unfolding trust_in_claude
    trust_in_claude-IsBenign names = search (emits_rules, claude-IsBenign) depth 12

    wrap_agents-IsBenign :
        (executables : List AgentExecutable) → Emits IsBenign (wrap_agents x script w o executables)
    unfolding wrap_agents prepare_agent_wrappers
    wrap_agents-IsBenign executables =
        search (emits_rules, run_guest-Emits, shell-IsBenign) depth 16

    prepare_agent_names-IsBenign :
        (names : List String) → Emits IsBenign (prepare_agent_names x script w o names)
    unfolding prepare_agent_names
    prepare_agent_names-IsBenign names =
        Emits-bind IsBenign (prepare_each-IsBenign names) (λ executables.
          Emits-then IsBenign (trust_in_codex-IsBenign names) (
            Emits-then IsBenign (trust_in_claude-IsBenign names)
              (wrap_agents-IsBenign executables)))

    pub prepare_configured_agents-IsBenign : Emits IsBenign (prepare_configured_agents x script w o)
    unfolding prepare_configured_agents
    prepare_configured_agents-IsBenign =
        Emits-bind IsBenign (Emits-lift IsBenign (configured_agent_names o.agents))
          prepare_agent_names-IsBenign

  -- Whatever limactl and the file system answer: a workflow that prepares its agents as agent.go does, on the
  -- host and in the VM, acts in guests and on the host's files alone, if its other four parts do. So what
  -- holds of replacements by such workflows holds of those by this one.
  pub with_agents-GuestOnly :
      (settings : AgentSettings) (f : Workflow)
      → ((project : FilePath) (vm : String) → Emits IsBenign (f.prepare_development project vm))
      → Emits IsBenign f.close_session
      → Emits IsBenign f.ensure_github
      → Emits IsBenign f.resolve_environment
      → GuestOnly (with_agents x script w settings f)
  unfolding with_agents
  with_agents-GuestOnly settings f development session github environment = record {
    development = development;
    agents = λ project vm wrappers update.
        prepare_configured_agents-IsBenign
          (agent_preparation f settings project vm wrappers update);
    session = session;
    github = github;
    environment = environment;
  }
