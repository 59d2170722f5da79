-- ===== src/Recreate.antt =====
-- recreate.go: replacing the VM of a project by a new one, with a backup that is kept until the new one
-- runs; and `createVMLocked`, which creates, prepares or replaces.
pub mod Started
pub mod Events
pub mod Safety
pub mod Backup
use Prim.Native.String.{◌++◌ as ◌<>◌}
use lima_jailed_agents.Base.{
  String, Bool, true, false, not, Option, none, some, List, [], ◌∷◌, ◌++◌, FilePath,
}
use lima_jailed_agents.Base.{
  Result, ok, err, Error, lja, wrap, join, str, loc, ◌==◌, string_eq, if◌then◌else◌,
}
use lima_jailed_agents.Lima.Inspect.{inspect_lima, capturing}
use lima_jailed_agents.Lima.Instances.{
  LimaInstance, status_stopped, status_running, status_installing,
}
use lima_jailed_agents.Lima.Json.{Payload}
use lima_jailed_agents.Lima.Lifecycle.{operation, incompatible_state}
use lima_jailed_agents.Lima.Prepare.{check_mounts, prepare_named_vm, require_instance}
use lima_jailed_agents.Path.Text.{path_text}
use lima_jailed_agents.Process.{run_lima, verify_guest_connection, default_process_options}
use lima_jailed_agents.Run.{
  Word, word, Event, World, Worlds, M, ◌>>=◌, ◌>>◌, pure, fail, lift, map_failure, attempt,
}
use lima_jailed_agents.Run.{reject_if, when}
use lima_jailed_agents.Workflow.{Workflow}

-- `vmReplacement`, with the names that the random texts give
pub record Replacement : Type 0 where
  pub project : FilePath
  pub old : LimaInstance
  pub candidate : String
  pub backup : String

-- `replacementNamePrefix` and `backupNamePrefix` before a random text
abbrev pub candidate_name : String → String
candidate_name random = "lja-new-" <> random

abbrev pub backup_name : String → String
backup_name random = "lja-old-" <> random

abbrev pub stop_words : String → List Word
stop_words vm = word "stop" ∷ word vm ∷ []

abbrev pub start_words : String → List Word
start_words vm = word "start" ∷ word vm ∷ []

abbrev pub delete_words : String → List Word
delete_words vm = word "delete" ∷ word "-f" ∷ word vm ∷ []

abbrev pub rename_words : String → String → List Word
rename_words source target = word "rename" ∷ word "--tty=false" ∷ word source ∷ word target ∷ []

abbrev pub help_words : List Word
help_words = word "rename" ∷ word "--help" ∷ []

-- `errors.Join(err, other)`, where `other` may be nil
abbrev pub join_result : Error → Result (Unit {0}) → Error
join_result e (ok _) = e
join_result e (err other) = join e other

-- `return errors.Join(err, m)`: the computation fails after `m` has run.
abbrev pub fail_after : {A : Type 0} → Error → M (Unit {0}) → M A
fail_after e m t = (err (join_result e (m t).0), (m t).1)

abbrev pub recover_result : {A : Type 0} → (Error → M A) → Result A → M A
recover_result handle (ok a) t = (ok a, t)
recover_result handle (err e) t = handle e t

-- The computation, or what is to be done with its error.
abbrev pub recover : {A : Type 0} → M A → (Error → M A) → M A
recover m handle t = recover_result handle (m t).0 (m t).1

module _ (script : String) (decode : String → Payload) (w : Worlds) (f : Workflow) where
  abbrev pub run : List Word → M (Unit {0})
  run arguments = operation script decode w f.lima_command arguments

  abbrev pub look : String → M (Option LimaInstance)
  look vm = inspect_lima script decode w vm f.lima_command

  module _ (r : Replacement) where
    -- `rename`
    unfoldable pub rename : String → String → M (Unit {0})
    rename source target =
        map_failure
          (wrap
            "rename %s to %s failed and may be partial; preserved VM directories for manual recovery (original=%s replacement=%s backup=%s). Inspect them with limactl list and recover the complete VM with limactl rename before retrying; do not delete either side of a partial rename: %w"
            (str source ∷ str target ∷ str r.old.name ∷ str r.candidate ∷ str r.backup ∷ []))
          (run (rename_words source target))

    unfoldable pub remove_found : Option LimaInstance → M (Unit {0})
    remove_found none = pure tt
    remove_found (some _) = run (delete_words r.candidate)

    -- `removeCandidate`
    unfoldable pub remove_candidate : M (Unit {0})
    remove_candidate = do found ← look r.candidate; remove_found found

    unfoldable pub restart_found : Option LimaInstance → M (Unit {0})
    restart_found none = fail (lja "cannot restore missing original VM %s" (str r.old.name ∷ []))
    restart_found (some i) =
        if i.status == status_running then pure tt else run (start_words r.old.name)

    -- `restoreRunning`
    unfoldable pub restore_running : M (Unit {0})
    restore_running =
        if r.old.status == status_running
        then (do found ← look r.old.name; restart_found found)
        else pure tt

    -- `startAndValidate`
    unfoldable pub start_and_validate : M LimaInstance
    start_and_validate = do
      run (start_words r.old.name)
      found ← look r.old.name
      i ← lift (require_instance (lja "replacement VM %s disappeared" (str r.old.name ∷ [])) found)
      check_mounts script decode w f r.project i
      reject_if (not (i.status == status_running))
          (lja "replacement VM %s did not reach Running state" (str i.name ∷ []))
      verify_guest_connection script w (path_text r.project) i.name
          (default_process_options f.lima_command false)
      pure i

    unfoldable pub stop_failed : LimaInstance → M (Unit {0})
    stop_failed i = when (not (i.status == status_stopped)) (
        map_failure
          (wrap "cannot stop failed replacement; backup retained as %s: %w" (str r.backup ∷ []))
          (run (stop_words r.old.name)))

    -- `rollback`
    unfoldable pub rollback : M (Unit {0})
    rollback = do
      found ←
          map_failure
            (wrap "cannot inspect failed replacement; backup retained as %s: %w"
              (str r.backup ∷ []))
            (look r.old.name)
      i ← lift (
          require_instance
            (lja "replacement disappeared; backup retained as %s" (str r.backup ∷ [])) found)
      stop_failed i
      rename r.old.name r.candidate
      rename r.backup r.old.name
      map_failure
          (wrap
            "original VM name restored but restarting it failed; failed replacement retained as %s: %w"
            (str r.candidate ∷ []))
          restore_running
      map_failure
          (wrap "original VM restored but failed replacement %s could not be deleted: %w"
            (str r.candidate ∷ []))
          remove_candidate

    -- The deferred clean-up after a failure before the first rename.
    unfoldable pub clean_up : {A : Type 0} → Error → M A
    clean_up e = do
      closed ← attempt f.close_session
      fail_after (join_result e closed) (
          map_failure (wrap "cannot remove failed replacement %s: %w" (str r.candidate ∷ []))
            remove_candidate)

    unfoldable pub stop_old : M (Unit {0})
    stop_old =
        if r.old.status == status_running
        then recover (run (stop_words r.old.name)) (λ e. fail_after e restore_running)
        else pure tt

    -- The candidate is prepared under its own name and stopped, and the old VM is stopped.
    unfoldable pub stage : M (Unit {0})
    stage = do
      _ ← prepare_named_vm script decode w f r.project r.candidate false
      f.close_session
      run (stop_words r.candidate)
      stop_old

    -- The old VM becomes the backup, and the candidate takes its name.
    unfoldable pub swap : M (Unit {0})
    swap = do rename r.old.name r.backup; rename r.candidate r.old.name

    -- What follows when the new VM runs under the old name: the backup goes.
    unfoldable pub finish : LimaInstance → M LimaInstance
    finish i = do
      map_failure
          (wrap "replacement VM %s is ready, but backup %s could not be deleted: %w"
            (str r.old.name ∷ str r.backup ∷ []))
          (run (delete_words r.backup))
      map_failure
          (wrap "replacement VM %s is ready, but configured agent preparation failed: %w"
            (str r.old.name ∷ []))
          (f.prepare_agents r.project i.name true "")
      pure i

    unfoldable pub promote : M LimaInstance
    promote = do i ← recover start_and_validate (λ e. fail_after e rollback); finish i

    unfoldable pub free_found : String → Option LimaInstance → M (Unit {0})
    free_found name none = pure tt
    free_found name (some _) =
        fail (lja "temporary VM name %s already exists; retry recreation" (str name ∷ []))

    -- Neither temporary name may be in use.
    unfoldable pub require_free : String → M (Unit {0})
    require_free name = do found ← look name; free_found name found

    -- `replaceVMLocked`
    unfoldable pub replace_vm : M LimaInstance
    replace_vm = do
      reject_if (r.old.status == status_installing)
          (lja "VM %s is still installing; wait before recreating it" (str r.old.name ∷ []))
      _ ←
          map_failure (wrap "VM recreation requires limactl rename: %w" [])
            (run_lima script w help_words (capturing f.lima_command))
      require_free r.candidate
      require_free r.backup
      recover stage clean_up
      swap
      promote

  replace_found : FilePath → String → String → String → Option LimaInstance → M LimaInstance
  replace_found project vm candidate backup none =
      prepare_named_vm script decode w f project vm true
  replace_found project vm candidate backup (some old) =
      replace_vm (record { project = project; old = old; candidate = candidate; backup = backup })

  -- `prepareVMLocked`, with the two temporary names that a replacement would draw
  unfoldable pub prepare_vm : FilePath → String → String → String → M LimaInstance
  unfolding replace_found
  prepare_vm project vm candidate backup =
      if f.recreate
      then (do old ← look vm; replace_found project vm candidate backup old)
      else prepare_named_vm script decode w f project vm true

  -- `startExistingVMLocked`
  unfoldable pub start_existing_vm : String → LimaInstance → M LimaInstance
  start_existing_vm vm i = if not (i.status == status_stopped) then pure i else (do
    _ ←
        run_lima script w (start_words vm)
          (default_process_options f.lima_command f.has_gpg_context)
    found ← look vm
    lift (
        require_instance (lja "Lima VM %s disappeared during agent preparation" (str vm ∷ []))
          found))

  -- `prepareExistingVMLocked` for a development configuration with agents
  prepare_started : FilePath → String → LimaInstance → M LimaInstance
  prepare_started project vm i = do
    f.ensure_github
    started ← start_existing_vm vm i
    reject_if (not (started.status == status_running)) (incompatible_state vm started.status)
    f.prepare_agents project vm true ""
    pure started

  unfoldable pub prepare_existing_vm : FilePath → String → LimaInstance → M LimaInstance
  unfolding prepare_started
  prepare_existing_vm project vm i = do
    check_mounts script decode w f project i
    agents ← lift f.configured_agents
    elim agents [ [] ↦ pure i | _ ↦ prepare_started project vm i ]

  create_new : FilePath → String → String → String → M LimaInstance
  create_new project vm candidate backup = do
    f.ensure_github
    f.resolve_environment
    prepare_vm project vm candidate backup

  create_found : FilePath → String → String → String → Option LimaInstance → M LimaInstance
  unfolding create_new
  create_found project vm candidate backup none = create_new project vm candidate backup
  create_found project vm candidate backup (some i) = prepare_existing_vm project vm i

  -- `createVMLocked`
  unfoldable pub create_vm_locked : FilePath → String → String → String → M LimaInstance
  unfolding create_found create_new
  create_vm_locked project vm candidate backup =
      if f.recreate
      then create_new project vm candidate backup
      else (do found ← look vm; create_found project vm candidate backup found)
