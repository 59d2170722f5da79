-- ===== src/Lima/Lifecycle.antt =====
-- lima.go: stopping and deleting VMs; discovery.go: `StopVM` under its lock, and `ShowStatus`.
pub mod Laws
use lima_jailed_agents.Base.{
  String, Bool, true, false, not, ◌&&◌, Option, none, some, List, [], ◌∷◌, FilePath,
}
use lima_jailed_agents.Base.{
  Result, ok, err, Error, lja, wrap, str, loc, written, ◌==◌, string_eq, if◌then◌else◌,
}
use lima_jailed_agents.Host.{Host, PathText}
use lima_jailed_agents.Lima.Inspect.{inspect_lima, lja_instances}
use lima_jailed_agents.Lima.Instances.{LimaInstance, status_stopped, status_running}
use lima_jailed_agents.Lima.Json.{Payload}
use lima_jailed_agents.Lima.Mounts.{validate_project_mount}
use lima_jailed_agents.Path.Canonical.{canonical_path, is_empty}
use lima_jailed_agents.Path.Text.{path_text}
use lima_jailed_agents.Process.{run_lima, default_process_options}
use lima_jailed_agents.Run.{
  Word, word, Event, printed, World, Worlds, M, ◌>>=◌, ◌>>◌, pure, fail, lift, query, act, when,
}
use lima_jailed_agents.Run.{map_failure, reject_if}

abbrev pub incompatible_state : String → String → Error
incompatible_state vm status = lja "VM %s is in incompatible state %s" (str vm ∷ str status ∷ [])

module _ (script : String) (decode : String → Payload) (w : Worlds) (lima : String) where
  -- One call of limactl with default options, for its effect.
  unfoldable pub operation : List Word → M (Unit {0})
  operation arguments = do
    _ ← run_lima script w arguments (default_process_options lima false)
    pure tt

  -- `reportAbsentVM`, after a deletion
  unfoldable pub report_absent_vm : String → M (Unit {0})
  report_absent_vm vm =
      act w (printed "vm: %s\nstatus: Absent\n" (str vm ∷ [])) World.print
        (wrap "cannot report deleted VM %s: %w" (str vm ∷ []))

  -- `reportVMStatus`
  unfoldable pub report_vm_status : String → String → M (Unit {0})
  report_vm_status vm status =
      act w (printed "vm: %s\nstatus: %s\n" (str vm ∷ str status ∷ [])) World.print
        (wrap "cannot report VM %s status: %w" (str vm ∷ []))

  -- The method `delete` of an instance.
  unfoldable pub delete_instance : LimaInstance → M (Unit {0})
  delete_instance i = do
    operation (word "delete" ∷ word "-f" ∷ word i.name ∷ [])
    report_absent_vm i.name

  unfoldable pub delete_each : List LimaInstance → M (Unit {0})
  delete_each [] = pure tt
  delete_each (i ∷ rest) = do delete_instance i; delete_each rest

  -- `DeleteAllVMs`
  unfoldable pub delete_all_vms : M (Unit {0})
  delete_all_vms = do instances ← lja_instances script decode w lima; delete_each instances

  delete_found : String → Option LimaInstance → M (Unit {0})
  delete_found vm none = report_absent_vm vm
  delete_found vm (some i) = delete_instance i

  -- `DeleteVM`, for the VM name of the project
  unfoldable pub delete_vm : String → M (Unit {0})
  unfolding delete_found
  delete_vm vm = do found ← inspect_lima script decode w vm lima; delete_found vm found

  -- The first loop of `StopAllVMs`: every VM must be stopped or running.
  unfoldable pub check_stoppable : List LimaInstance → Result (Unit {0})
  check_stoppable [] = ok tt
  check_stoppable (i ∷ rest) =
      let others = check_stoppable rest in
      if not (i.status == status_stopped) && not (i.status == status_running)
      then err (incompatible_state i.name i.status)
      else others

  unfoldable pub stop_each : List LimaInstance → M (Unit {0})
  stop_each [] = pure tt
  stop_each (i ∷ rest) = do
    when (i.status == status_running) (operation (word "stop" ∷ word i.name ∷ []))
    report_vm_status i.name status_stopped
    stop_each rest

  -- `StopAllVMs`
  unfoldable pub stop_all_vms : M (Unit {0})
  stop_all_vms = do
    instances ← lja_instances script decode w lima
    lift (check_stoppable instances)
    stop_each instances

  stop_status : String → String → M (Unit {0})
  stop_status vm status =
      if status == status_stopped
      then report_vm_status vm status_stopped
      else if status == status_running
      then (do operation (word "stop" ∷ word vm ∷ []); report_vm_status vm status_stopped)
      else fail (incompatible_state vm status)

  stop_found : FilePath → PathText → String → Option LimaInstance → M (Unit {0})
  stop_found project state_root vm none = report_vm_status vm "Absent"
  stop_found project state_root vm (some i) = do
    query w (λ h. validate_project_mount h i (path_text project) state_root)
    stop_status vm i.status

  -- What `StopVM` does under the lock of the VM.
  unfoldable pub stop_vm_locked : FilePath → PathText → String → M (Unit {0})
  unfolding stop_found stop_status
  stop_vm_locked project state_root vm = do
    found ← inspect_lima script decode w vm lima
    stop_found project state_root vm found

  status_of : FilePath → PathText → Option LimaInstance → M String
  status_of project state_root none = pure "Absent"
  status_of project state_root (some i) = do
    query w (λ h. validate_project_mount h i (path_text project) state_root)
    pure i.status

  -- `ShowStatus`, from the canonical project and its VM name on
  unfoldable pub show_status : FilePath → PathText → String → M (Unit {0})
  unfolding status_of
  show_status project state_root vm = do
    found ← inspect_lima script decode w vm lima
    status ← status_of project state_root found
    act w
        (printed "project: %s\nstate: %s\nvm: %s\nstatus: %s\n" (
          loc project
          ∷ written (if is_empty state_root then path_text project else state_root)
          ∷ str vm
          ∷ str status
          ∷ []))
        World.print (wrap "cannot report project status: %w" [])
