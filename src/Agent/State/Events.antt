-- ===== src/Agent/State/Events.antt =====
-- Which events the directories of an agent's state add: they are made, and nothing else.
use lima_jailed_agents.Base.{String, List, [], ◌∷◌, FilePath}
use lima_jailed_agents.Agent.State.{
  ensure_agent_state_directories, ensure_directories, ensure_directory, check_within,
  inspect_directory, make_directory,
}
use lima_jailed_agents.Host.{PathText}
use lima_jailed_agents.Run.{Event, made_dir, Worlds}
use lima_jailed_agents.Run.Rules.{Emits, Emits-then, emits_rules}

module _ (w : Worlds) (Q : Event → Type 0) where
  pub check_within-Emits : (state directory : FilePath) → Emits Q (check_within w state directory)
  unfolding check_within
  check_within-Emits state directory = search emits_rules

  inspect-Emits : (directory : FilePath) → Emits Q (inspect_directory w directory)
  inspect-Emits directory = search emits_rules depth 12

  module _ (made : (path : FilePath) → Q (made_dir path)) where
    make-Emits : (directory : FilePath) → Emits Q (make_directory w directory)
    make-Emits directory = search (emits_rules, made)

    ensure_directory-Emits :
        (state directory : FilePath) → Emits Q (ensure_directory w state directory)
    unfolding ensure_directory
    ensure_directory-Emits state directory = Emits-then Q (check_within-Emits state directory) (
        Emits-then Q (make-Emits directory)
          (Emits-then Q (inspect-Emits directory) (check_within-Emits state directory)))

    ensure_directories-Emits :
        (state : FilePath) (directories : List FilePath)
        → Emits Q (ensure_directories w state directories)
    unfolding ensure_directories
    ensure_directories-Emits state [] = search emits_rules
    ensure_directories-Emits state (directory ∷ directories) =
        Emits-then Q (ensure_directory-Emits state directory)
          (ensure_directories-Emits state directories)

    pub ensure_agent_state_directories-Emits :
        (state_root : PathText) (agent : String)
        → Emits Q (ensure_agent_state_directories w state_root agent)
    unfolding ensure_agent_state_directories
    ensure_agent_state_directories-Emits state_root agent =
        search (emits_rules, ensure_directories-Emits) depth 12
