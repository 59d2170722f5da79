-- ===== src/Agent/Instructions/Events.antt =====
-- Which events the copy of an agent's instructions adds.
use lima_jailed_agents.Base.{String, Bool, true, false, Option, FilePath, Result, ok, err}
use lima_jailed_agents.Base.Dict.{Dict}
use lima_jailed_agents.Agent.Instructions.{
  InstructionPaths, copy_opened, copy_and_rename, copy_instructions, refresh_from, refresh_paths,
  refresh_agent_instructions,
}
use lima_jailed_agents.Files.Events.{create_temporary-Emits, or_remove-Emits}
use lima_jailed_agents.Host.{PathText}
use lima_jailed_agents.Run.{FileCall, Event, filed, made_dir, Worlds}
use lima_jailed_agents.Run.Rules.{Emits, Emits-bind, Emits-map_failure, emits_rules}

module _ (w : Worlds) (Q : Event → Type 0) (files : (call : FileCall) → Q (filed call))
    (made : (path : FilePath) → Q (made_dir path)) where
  module _ (p : InstructionPaths) where
    copy_opened-Emits : (path : FilePath) (r : Result (Unit {0})) → Emits Q (copy_opened w p path r)
    unfolding copy_opened
    copy_opened-Emits path (ok u) = search (emits_rules, files) depth 16
    copy_opened-Emits path (err e) = search (emits_rules, files) depth 12

    copy_and_rename-Emits : (path : FilePath) → Emits Q (copy_and_rename w p path)
    unfolding copy_and_rename
    copy_and_rename-Emits path = search (emits_rules, files, copy_opened-Emits path) depth 12

    copy_instructions-Emits : Emits Q (copy_instructions w p)
    unfolding copy_instructions
    copy_instructions-Emits =
        Emits-bind Q (Emits-map_failure Q _ (create_temporary-Emits w Q files _ _))
          (λ path. or_remove-Emits w Q files path (copy_and_rename-Emits path))

    refresh_from-Emits :
        (state : FilePath) (present : Bool) → Emits Q (refresh_from w p state present)
    unfolding refresh_from
    refresh_from-Emits state true = search (emits_rules, made, copy_instructions-Emits) depth 12
    refresh_from-Emits state false = search emits_rules

    refresh_paths-Emits : (state : FilePath) → Emits Q (refresh_paths w state p)
    unfolding refresh_paths
    refresh_paths-Emits state = search (emits_rules, refresh_from-Emits) depth 12

  pub refresh_agent_instructions-Emits :
      (state_root : PathText) (agent : String) (environment : Option (Dict String String))
      → Emits Q (refresh_agent_instructions w state_root agent environment)
  unfolding refresh_agent_instructions
  refresh_agent_instructions-Emits state_root agent environment =
      search (emits_rules, refresh_paths-Emits) depth 12
