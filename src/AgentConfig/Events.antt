-- ===== src/AgentConfig/Events.antt =====
-- Which events the update of an agent's configuration adds.
use lima_jailed_agents.Base.{String, ℕ, FilePath}
use lima_jailed_agents.Agent.State.Events.{ensure_agent_state_directories-Emits}
use lima_jailed_agents.AgentConfig.{ConfigFile, write_updated, update_config, ensure_config}
use lima_jailed_agents.Files.Events.{replace_file-Emits}
use lima_jailed_agents.Host.{PathText}
use lima_jailed_agents.Lock.Events.{AllowsLocks, with_advisory_lock-Emits}
use lima_jailed_agents.Run.{FileCall, Event, filed, Worlds}
use lima_jailed_agents.Run.Rules.{Emits, emits_rules}

module _ (w : Worlds) (Q : Event → Type 0) (locks : AllowsLocks Q)
    (files : (call : FileCall) → Q (filed call)) (f : ConfigFile) where
  write_updated-Emits :
      (state : FilePath) (mode : ℕ) (original updated : String)
      → Emits Q (write_updated w f state mode original updated)
  unfolding write_updated
  write_updated-Emits state mode original updated = search (emits_rules, replace_file-Emits, files)

  update_config-Emits : (state : FilePath) → Emits Q (update_config w f state)
  unfolding update_config
  update_config-Emits state =
      search
        (emits_rules, ensure_agent_state_directories-Emits, locks.directory, write_updated-Emits)
        depth 16

  pub ensure_config-Emits :
      (state_root lock_directory : PathText) → Emits Q (ensure_config w f state_root lock_directory)
  unfolding ensure_config
  ensure_config-Emits state_root lock_directory =
      search (emits_rules, with_advisory_lock-Emits, locks, update_config-Emits) depth 12
