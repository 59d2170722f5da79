-- ===== src/Recreate/Events.antt =====
-- Which calls of limactl the parts of a replacement make: a lemma for each part over any kind `Q` of
-- events that takes in the calls of that part.
use lima_jailed_agents.Base.{
  String, Bool, true, false, Option, none, some, List, FilePath, Error, Result, ok, err,
}
use lima_jailed_agents.Host.{PathText}
use lima_jailed_agents.Lima.Inspect.{inspect_lima, capturing}
use lima_jailed_agents.Lima.Inspect.Laws.{inspect_lima-Emits}
use lima_jailed_agents.Lima.Instances.{LimaInstance}
use lima_jailed_agents.Lima.Json.{Payload}
use lima_jailed_agents.Lima.Lifecycle.{operation}
use lima_jailed_agents.Lima.Lifecycle.Laws.{operation-Emits}
use lima_jailed_agents.Lima.Prepare.{prepare_named_vm, check_mounts, create_words}
use lima_jailed_agents.Lima.Prepare.Laws.{prepare_named_vm-Emits, list-IsBenign, shell-IsBenign}
use lima_jailed_agents.Process.{run_lima, verify_guest_connection}
use lima_jailed_agents.Process.Laws.{run_lima-Emits, verify_guest_connection-Emits}
use lima_jailed_agents.Recreate.{
  Replacement, rename, remove_found, remove_candidate, restart_found, restore_running,
}
use lima_jailed_agents.Recreate.{
  start_and_validate, stop_failed, rollback, clean_up, stop_old, stage, swap, finish,
}
use lima_jailed_agents.Recreate.{
  promote, free_found, require_free, replace_vm, recover, recover_result, fail_after,
}
use lima_jailed_agents.Recreate.{help_words, stop_words, start_words, delete_words, rename_words}
use lima_jailed_agents.Run.{Word, ProcessOptions, Event, ran, Worlds, M, Trace}
use lima_jailed_agents.Run.Rules.{
  Emits, emits_rules, Emits-weaken, Emits-bind, Emits-map_failure, Emits-pure, Emits-fail,
  Emits-then, Adds, Adds-trans, same,
}
use lima_jailed_agents.Workflow.{Workflow, IsBenign, GuestOnly}

module _ {A : Type 0} (Q : Event → Type 0) where
  pub Emits-fail_after :
      {m : M (Unit {0})} (e : Error) → Emits Q m → Emits {A = A} Q (fail_after e m)
  Emits-fail_after e k = record { at = λ t. k.at t }

  recover_result-Adds :
      {handle : Error → M A} (r : Result A) (t : Trace)
      → ((e : Error) → Emits Q (handle e))
      → Adds Q t (recover_result handle r t).1
  recover_result-Adds (ok a) t k = same
  recover_result-Adds (err e) t k = (k e).at t

  pub Emits-recover :
      {m : M A} {handle : Error → M A}
      → Emits Q m
      → ((e : Error) → Emits Q (handle e))
      → Emits Q (recover m handle)
  Emits-recover {m} j k = record {
    at = λ t. Adds-trans Q (j.at t) (recover_result-Adds (m t).0 (m t).1 k);
  }

abbrev pub Allows : (Event → Type 0) → List Word → Type 0
Allows Q arguments = (p : ProcessOptions) → Q (ran arguments p)

module _ (script : String) (decode : String → Payload) (w : Worlds) (f : Workflow)
    (guests : GuestOnly f) (r : Replacement) (Q : Event → Type 0)
    (benign : (e : Event) → IsBenign e → Q e) where
  look-Emits : (vm : String) → Emits Q (inspect_lima script decode w vm f.lima_command)
  look-Emits vm =
      inspect_lima-Emits script decode w Q (λ p. benign _ (list-IsBenign p)) vm f.lima_command

  run-Emits :
      (arguments : List Word)
      → Allows Q arguments
      → Emits Q (operation script decode w f.lima_command arguments)
  run-Emits arguments q = operation-Emits script decode w f.lima_command Q arguments q

  pub rename-Emits :
      (source target : String)
      → Allows Q (rename_words source target)
      → Emits Q (rename script decode w f r source target)
  unfolding rename
  rename-Emits source target q = Emits-map_failure Q _ (run-Emits _ q)

  verify-Emits :
      (project : PathText) (vm : String) (o : ProcessOptions)
      → Emits Q (verify_guest_connection script w project vm o)
  verify-Emits =
      verify_guest_connection-Emits script w Q (λ rest p. benign _ (shell-IsBenign rest p))

  session-Emits : Emits Q f.close_session
  session-Emits = Emits-weaken IsBenign Q benign guests.session

  agents-Emits :
      (project : FilePath) (vm : String) (wrappers : Bool) (update : String)
      → Emits Q (f.prepare_agents project vm wrappers update)
  agents-Emits project vm wrappers update =
      Emits-weaken IsBenign Q benign (guests.agents project vm wrappers update)

  module _ (deletes_candidate : Allows Q (delete_words r.candidate)) where
    remove_found-Emits :
        (found : Option LimaInstance) → Emits Q (remove_found script decode w f r found)
    unfolding remove_found
    remove_found-Emits none = search emits_rules
    remove_found-Emits (some i) = run-Emits _ deletes_candidate

    pub remove_candidate-Emits : Emits Q (remove_candidate script decode w f r)
    unfolding remove_candidate
    remove_candidate-Emits = Emits-bind Q (look-Emits r.candidate) remove_found-Emits

    pub clean_up-Emits : {A : Type 0} (e : Error) → Emits {A = A} Q (clean_up script decode w f r e)
    unfolding clean_up
    clean_up-Emits e = search (emits_rules, Emits-fail_after, session-Emits, remove_candidate-Emits)

  module _ (starts_old : Allows Q (start_words r.old.name)) where
    start_old-Emits : Emits Q (operation script decode w f.lima_command (start_words r.old.name))
    start_old-Emits = run-Emits _ starts_old

    restart_found-Emits :
        (found : Option LimaInstance) → Emits Q (restart_found script decode w f r found)
    unfolding restart_found
    restart_found-Emits none = search emits_rules
    restart_found-Emits (some i) = search (emits_rules, start_old-Emits)

    pub restore_running-Emits : Emits Q (restore_running script decode w f r)
    unfolding restore_running
    restore_running-Emits = search (emits_rules, look-Emits, restart_found-Emits)

    pub start_and_validate-Emits : Emits Q (start_and_validate script decode w f r)
    unfolding start_and_validate check_mounts
    start_and_validate-Emits =
        search (emits_rules, start_old-Emits, look-Emits, verify-Emits) depth 12

    module _ (deletes_candidate : Allows Q (delete_words r.candidate))
        (stops_old : Allows Q (stop_words r.old.name))
        (moves_new : Allows Q (rename_words r.old.name r.candidate))
        (moves_back : Allows Q (rename_words r.backup r.old.name)) where
      stop_failed-Emits : (i : LimaInstance) → Emits Q (stop_failed script decode w f r i)
      unfolding stop_failed
      stop_failed-Emits i = search (emits_rules, run-Emits, stops_old)

      pub rollback-Emits : Emits Q (rollback script decode w f r)
      unfolding rollback
      rollback-Emits =
          search
            (
              emits_rules, look-Emits, stop_failed-Emits, rename-Emits, moves_new, moves_back,
              restore_running-Emits, remove_candidate-Emits, deletes_candidate,
            )
            depth 14

-- The calls that bring up the candidate and stop the old VM, or undo that.
pub record StageCalls (r : Replacement) (Q : Event → Type 0) : Type 0 where
  pub benign : (e : Event) → IsBenign e → Q e
  pub creates : (paths : List FilePath) → Allows Q (create_words r.candidate paths)
  pub starts_candidate : Allows Q (start_words r.candidate)
  pub stops_candidate : Allows Q (stop_words r.candidate)
  pub deletes_candidate : Allows Q (delete_words r.candidate)
  pub starts_old : Allows Q (start_words r.old.name)
  pub stops_old : Allows Q (stop_words r.old.name)

-- The calls that change names.
pub record SwapCalls (r : Replacement) (Q : Event → Type 0) : Type 0 where
  pub help : Allows Q help_words
  pub moves_old : Allows Q (rename_words r.old.name r.backup)
  pub moves_new : Allows Q (rename_words r.candidate r.old.name)
  pub moves_failed : Allows Q (rename_words r.old.name r.candidate)
  pub moves_back : Allows Q (rename_words r.backup r.old.name)

module _ (script : String) (decode : String → Payload) (w : Worlds) (f : Workflow)
    (guests : GuestOnly f) (r : Replacement) (Q : Event → Type 0) (calls : StageCalls r Q) where
  free_found-Emits :
      (name : String) (found : Option LimaInstance)
      → Emits Q (free_found script decode w f r name found)
  unfolding free_found
  free_found-Emits name none = Emits-pure Q tt
  free_found-Emits name (some i) = Emits-fail Q _

  pub free-Emits : (name : String) → Emits Q (require_free script decode w f r name)
  unfolding require_free
  free-Emits name =
      Emits-bind Q (look-Emits script decode w f guests r Q calls.benign name)
        (free_found-Emits name)

  stop_candidate-Emits : Emits Q (operation script decode w f.lima_command (stop_words r.candidate))
  stop_candidate-Emits = run-Emits script decode w f guests r Q calls.benign _ calls.stops_candidate

  stop_old_run-Emits : Emits Q (operation script decode w f.lima_command (stop_words r.old.name))
  stop_old_run-Emits = run-Emits script decode w f guests r Q calls.benign _ calls.stops_old

  restored-Emits : Emits Q (restore_running script decode w f r)
  restored-Emits = restore_running-Emits script decode w f guests r Q calls.benign calls.starts_old

  stop_old-Emits : Emits Q (stop_old script decode w f r)
  unfolding stop_old
  stop_old-Emits =
      search (emits_rules, Emits-recover, Emits-fail_after, stop_old_run-Emits, restored-Emits)

  prepared-Emits : Emits Q (prepare_named_vm script decode w f r.project r.candidate false)
  prepared-Emits =
      prepare_named_vm-Emits script decode w f guests Q calls.benign r.project r.candidate
        calls.creates calls.starts_candidate false

  close-Emits : Emits Q f.close_session
  close-Emits = session-Emits script decode w f guests r Q calls.benign

  pub stage-Emits : Emits Q (stage script decode w f r)
  unfolding stage
  stage-Emits =
      search (emits_rules, prepared-Emits, close-Emits, stop_candidate-Emits, stop_old-Emits) depth
        12

  pub staged-Emits : Emits Q (recover (stage script decode w f r) (clean_up script decode w f r))
  staged-Emits =
      Emits-recover Q stage-Emits
        (clean_up-Emits script decode w f guests r Q calls.benign calls.deletes_candidate)

  module _ (names : SwapCalls r Q) where
    pub swap-Emits : Emits Q (swap script decode w f r)
    unfolding swap
    swap-Emits =
        Emits-then Q (rename-Emits script decode w f guests r Q calls.benign _ _ names.moves_old)
          (rename-Emits script decode w f guests r Q calls.benign _ _ names.moves_new)

    pub rolled_back-Emits :
        {A : Type 0} (e : Error) → Emits {A = A} Q (fail_after e (rollback script decode w f r))
    rolled_back-Emits e = Emits-fail_after Q e (
        rollback-Emits script decode w f guests r Q calls.benign calls.starts_old
          calls.deletes_candidate calls.stops_old names.moves_failed names.moves_back)

    validated-Emits : Emits Q (
        recover
          (start_and_validate script decode w f r)
          (λ e. fail_after e (rollback script decode w f r)))
    validated-Emits =
        Emits-recover Q
          (start_and_validate-Emits script decode w f guests r Q calls.benign calls.starts_old)
          rolled_back-Emits

    pub help-Emits : Emits Q (run_lima script w help_words (capturing f.lima_command))
    help-Emits = run_lima-Emits script w Q _ _ names.help

    pub finish-Emits :
        Allows Q (delete_words r.backup)
        → (i : LimaInstance) → Emits Q (finish script decode w f r i)
    unfolding finish
    finish-Emits deletes i =
        Emits-then Q
          (Emits-map_failure Q _ (run-Emits script decode w f guests r Q calls.benign _ deletes))
          (Emits-then Q
            (Emits-map_failure Q _
              (agents-Emits script decode w f guests r Q calls.benign r.project i.name true ""))
            (Emits-pure Q i))

    promote-Emits : Allows Q (delete_words r.backup) → Emits Q (promote script decode w f r)
    unfolding promote
    promote-Emits deletes = Emits-bind Q validated-Emits (finish-Emits deletes)

    -- A replacement adds only benign events, the calls of `StageCalls` and `SwapCalls`, and the deletion of the backup.
    pub replace_vm-Emits :
        Allows Q (delete_words r.backup) → Emits Q (replace_vm script decode w f r)
    unfolding replace_vm
    replace_vm-Emits deletes =
        search
          (emits_rules, help-Emits, free-Emits, staged-Emits, swap-Emits, promote-Emits, deletes)
          depth 14
