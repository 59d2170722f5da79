-- ===== src/Process/Laws.antt =====
-- Which events the calls of process.go add.
use lima_jailed_agents.Base.{
  String, Bool, true, false, List, [], ◌∷◌, ◌++◌, ◌≡◌, ◌⊎◌, inl, inr, refl, FilePath, if◌then◌else◌,
}
use lima_jailed_agents.Base.Dict.{Dict}
use lima_jailed_agents.Host.{PathText}
use lima_jailed_agents.Run.{Word, word, file, ProcessOptions, Event, ran, Worlds}
use lima_jailed_agents.Run.Rules.{Emits, emits_rules, same, more}
use lima_jailed_agents.Base.{ExitStatus, exited, signaled, arith}
use lima_jailed_agents.Process.{
  exited_with, run_lima, run_guest, verify_guest_connection, guest_executable_path,
  guest_executable_available,
}

pub exited_with-zero : (s : ExitStatus) → exited_with s ≡ true → s ≡ exited 0
exited_with-zero (exited n) e = ground arith
exited_with-zero signaled e = cc

module _ (script : String) (w : Worlds) (Q : Event → Type 0) where
  pub run_lima-Emits :
      (arguments : List Word) (o : ProcessOptions)
      → ((p : ProcessOptions) → Q (ran arguments p))
      → Emits Q (run_lima script w arguments o)
  unfolding run_lima
  run_lima-Emits [] o q = record { at = λ t. same }
  run_lima-Emits (name ∷ rest) o q = record { at = λ t. more (q _) same }

  -- What runs in the guest of a VM add.
  abbrev pub GuestRuns : String → Type 0
  GuestRuns vm =
      (project : PathText) (arguments : List Word) (o : ProcessOptions) (env : Dict String String)
      → Emits Q (run_guest script w project vm arguments o env)

  module _ (vm : String) (guests : GuestRuns vm) where
    pub verify-In :
        (project : PathText) (o : ProcessOptions)
        → Emits Q (verify_guest_connection script w project vm o)
    unfolding verify_guest_connection
    verify-In project o = search (emits_rules, guests)

    pub path-In :
        (project : PathText) (executable : String) (o : ProcessOptions)
        → Emits Q (guest_executable_path script w project vm executable o)
    unfolding guest_executable_path
    path-In project executable o = search (emits_rules, guests, verify-In) depth 12

    pub available-In :
        (project : PathText) (executable : String) (o : ProcessOptions)
        → Emits Q (guest_executable_available script w project vm executable o)
    unfolding guest_executable_available
    available-In project executable o = search (emits_rules, path-In) depth 12

  -- Runs in a guest add only calls of `limactl shell`.
  module _
      (shells : (rest : List Word) (p : ProcessOptions) → Q (ran (word "shell" ∷ rest) p)) where
    pub run_guest-Emits :
        (project : PathText) (vm : String) (arguments : List Word) (o : ProcessOptions)
        (env : Dict String String)
        → Emits Q (run_guest script w project vm arguments o env)
    unfolding run_guest
    run_guest-Emits project vm arguments o env = search (emits_rules, run_lima-Emits, shells)

    pub shell_runs : (vm : String) → GuestRuns vm
    shell_runs vm project = run_guest-Emits project vm

    pub verify_guest_connection-Emits :
        (project : PathText) (vm : String) (o : ProcessOptions)
        → Emits Q (verify_guest_connection script w project vm o)
    verify_guest_connection-Emits project vm = verify-In vm (shell_runs vm) project

    pub guest_executable_path-Emits :
        (project : PathText) (vm executable : String) (o : ProcessOptions)
        → Emits Q (guest_executable_path script w project vm executable o)
    guest_executable_path-Emits project vm = path-In vm (shell_runs vm) project

-- A command that limactl runs in the guest of the VM; no other event.
unfoldable pub RunsIn : String → Event → Type 0
RunsIn vm (ran words o) =
    (project : FilePath) × (rest : List Word) × ((words
        ≡ word "shell" ∷ word "--workdir" ∷ file project ∷ word vm ∷ rest)
      ⊎ (words
          ≡ word "shell" ∷ word "--tty=false" ∷ word "--workdir" ∷ file project ∷ word vm ∷ rest))
RunsIn vm event = ⊥

module _ (script : String) (w : Worlds) (vm : String) where
  shell_words-RunsIn :
      (project : FilePath) (rest : List Word) (has_input : Bool) (p : ProcessOptions)
      → RunsIn vm (
          ran
            ((word "shell"
                ∷ ((if has_input then word "--tty=false" ∷ [] else [])
                    ++ (word "--workdir" ∷ file project ∷ word vm ∷ [])))
              ++ rest)
            p)
  unfolding RunsIn
  shell_words-RunsIn project rest true p = (project, rest, inr refl)
  shell_words-RunsIn project rest false p = (project, rest, inl refl)

  pub run_guest-RunsIn : GuestRuns script w (RunsIn vm) vm
  unfolding run_guest
  run_guest-RunsIn project arguments o env =
      search (emits_rules, run_lima-Emits, shell_words-RunsIn) depth 12
