-- ===== src/Workflow.antt =====
-- agent.go's `WorkflowOptions`, and the parts of the workflow that run inside a prepared VM. Those parts
-- enter as computations: what the VM code needs of them is which events they add (`GuestOnly`).
use lima_jailed_agents.Base.{String, Bool, List, FilePath, Result, ◌≡◌, ◌⊎◌, ◌∷◌}
use lima_jailed_agents.Host.{PathText}
use lima_jailed_agents.Run.{word, Event, ran, M}
use lima_jailed_agents.Run.Rules.{Emits}

pub record Workflow : Type 0 where
  pub recreate : Bool
  pub state_root : PathText
  pub lima_command : String
  -- whether `gpg.processOptions` carries the context of a GPG session
  pub has_gpg_context : Bool
  -- `configuredAgentNames(options.Development)`
  pub configured_agents : Result (List String)
  pub agent_update_name : String
  -- `limaCreationInput` of the development configuration: whether it can be encoded
  pub creation_input : Result (Unit {0})
  -- `ensureGitHub`
  pub ensure_github : M (Unit {0})
  -- `ResolveEnvironment`, where no environment is given
  pub resolve_environment : M (Unit {0})
  -- `prepareDevelopment` in the VM
  pub prepare_development : FilePath → String → M (Unit {0})
  -- `prepareConfiguredAgentsLocked` in the VM, with wrappers or without, updating the agent named or none ("")
  pub prepare_agents : FilePath → String → Bool → String → M (Unit {0})
  -- `gpg.closeSession`
  pub close_session : M (Unit {0})

-- An event that leaves the set of VMs and their states as they are: a command in a guest, a look at the
-- VMs, a directory, a lock or a line of output.
unfoldable pub IsBenign : Event → Type 0
IsBenign (ran (word name ∷ rest) o) = (name ≡ "shell") ⊎ (name ≡ "list")
IsBenign (ran _ o) = ⊥
IsBenign _ = Unit

-- What the VM code relies on: the other parts act in guests and on the host's files alone.
pub record GuestOnly (f : Workflow) : Type 0 where
  pub development :
      (project : FilePath) (vm : String) → Emits IsBenign (f.prepare_development project vm)
  pub agents :
      (project : FilePath) (vm : String) (wrappers : Bool) (update : String)
      → Emits IsBenign (f.prepare_agents project vm wrappers update)
  pub session : Emits IsBenign f.close_session
  pub github : Emits IsBenign f.ensure_github
  pub environment : Emits IsBenign f.resolve_environment
