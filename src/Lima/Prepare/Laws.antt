-- ===== src/Lima/Prepare/Laws.antt =====
-- Which calls of limactl the preparation of a VM makes.
use lima_jailed_agents.Base.{
  String, Bool, Option, none, some, List, [], ◌∷◌, FilePath, refl, inl, inr,
}
use lima_jailed_agents.Base.{string_eq}
use lima_jailed_agents.Lima.Inspect.Laws.{inspect_lima-Emits}
use lima_jailed_agents.Lima.Inspect.{list_words, inspect_lima}
use lima_jailed_agents.Lima.Instances.{LimaInstance}
use lima_jailed_agents.Lima.Json.{Payload}
use lima_jailed_agents.Lima.Lifecycle.Laws.{operation-Emits}
use lima_jailed_agents.Lima.Prepare.{
  prepare_named_vm, obtain_vm, create_vm, start_if_stopped, check_running, check_mounts,
}
use lima_jailed_agents.Lima.Prepare.{
  check_found, make_state_directory, create_if_absent, create_words,
}
use lima_jailed_agents.Process.Laws.{run_lima-Emits}
use lima_jailed_agents.Run.{Word, word, ProcessOptions, Event, ran, made_dir, Worlds}
use lima_jailed_agents.Run.Rules.{Emits, emits_rules, Emits-weaken}
use lima_jailed_agents.Workflow.{Workflow, IsBenign, GuestOnly}

pub list-IsBenign : (p : ProcessOptions) → IsBenign (ran list_words p)
unfolding IsBenign
list-IsBenign p = inr refl

pub shell-IsBenign :
    (rest : List Word) (p : ProcessOptions) → IsBenign (ran (word "shell" ∷ rest) p)
unfolding IsBenign
shell-IsBenign rest p = inl refl

pub made_dir-IsBenign : (path : FilePath) → IsBenign (made_dir path)
unfolding IsBenign
made_dir-IsBenign path = tt

module _ (script : String) (decode : String → Payload) (w : Worlds) (f : Workflow)
    (guests : GuestOnly f) (Q : Event → Type 0) (benign : (e : Event) → IsBenign e → Q e)
    (project : FilePath) (vm : String)
    (creates : (paths : List FilePath) (p : ProcessOptions) → Q (ran (create_words vm paths) p))
    (starts : (p : ProcessOptions) → Q (ran (word "start" ∷ word vm ∷ []) p)) where
  inspect-Emits : Emits Q (inspect_lima script decode w vm f.lima_command)
  inspect-Emits =
      inspect_lima-Emits script decode w Q (λ p. benign _ (list-IsBenign p)) vm f.lima_command

  check_found-Emits :
      (found : Option LimaInstance) → Emits Q (check_found script decode w f project found)
  unfolding check_found check_mounts
  check_found-Emits none = search emits_rules
  check_found-Emits (some i) = search emits_rules

  make_state_directory-Emits :
      (paths : List FilePath) → Emits Q (make_state_directory script decode w f paths)
  unfolding make_state_directory
  make_state_directory-Emits (p ∷ s ∷ rest) = search (emits_rules, benign _ (made_dir-IsBenign s))
  make_state_directory-Emits _ = search emits_rules

  create_if_absent-Emits :
      (paths : List FilePath) (found : Option LimaInstance)
      → Emits Q (create_if_absent script decode w f project vm paths found)
  unfolding create_if_absent create_vm
  create_if_absent-Emits paths none = search (emits_rules, run_lima-Emits, inspect-Emits, creates)
  create_if_absent-Emits paths (some i) = search emits_rules

  obtain_vm-Emits : Emits Q (obtain_vm script decode w f project vm)
  unfolding obtain_vm check_mounts
  obtain_vm-Emits =
      search
        (
          emits_rules, inspect-Emits, check_found-Emits, make_state_directory-Emits,
          create_if_absent-Emits,
        )
        depth 12

  start_if_stopped-Emits :
      (status : String) → Emits Q (start_if_stopped script decode w f vm status)
  unfolding start_if_stopped
  start_if_stopped-Emits status = search (emits_rules, operation-Emits, starts)

  check_running-Emits : Emits Q (check_running script decode w f project vm)
  unfolding check_running check_mounts
  check_running-Emits = search (emits_rules, inspect-Emits) depth 8

  development-Emits : Emits Q (f.prepare_development project vm)
  development-Emits = Emits-weaken IsBenign Q benign (guests.development project vm)

  agents-Emits :
      (wrappers : Bool) (update : String) → Emits Q (f.prepare_agents project vm wrappers update)
  agents-Emits wrappers update =
      Emits-weaken IsBenign Q benign (guests.agents project vm wrappers update)

  -- Preparing a VM adds only benign events, and calls of limactl that create or start that VM.
  pub prepare_named_vm-Emits :
      (wrappers : Bool) → Emits Q (prepare_named_vm script decode w f project vm wrappers)
  unfolding prepare_named_vm
  prepare_named_vm-Emits wrappers =
      search
        (
          emits_rules, obtain_vm-Emits, start_if_stopped-Emits, check_running-Emits,
          development-Emits, agents-Emits,
        )
        depth 12
