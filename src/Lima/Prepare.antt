-- ===== src/Lima/Prepare.antt =====
-- lima.go: `prepareNamedVMLocked`, which brings a VM of a project to the state Running.
pub mod Laws
use lima_jailed_agents.Base.{
  String, Bool, true, false, not, Option, none, some, List, [], ◌∷◌, ◌++◌, FilePath,
}
use lima_jailed_agents.Base.{
  Result, ok, err, Error, lja, wrap, str, loc, ◌==◌, string_eq, if◌then◌else◌,
}
use lima_jailed_agents.Host.{Host}
use lima_jailed_agents.Lima.Inspect.{inspect_lima}
use lima_jailed_agents.Lima.Instances.{LimaInstance, status_stopped, status_running}
use lima_jailed_agents.Lima.Json.{Payload}
use lima_jailed_agents.Lima.Lifecycle.{operation, incompatible_state}
use lima_jailed_agents.Lima.Mounts.{expected_mount_paths, validate_project_mount}
use lima_jailed_agents.Path.Policy.{validate_project_directory}
use lima_jailed_agents.Path.Text.{path_text}
use lima_jailed_agents.Process.{run_lima, default_process_options}
use lima_jailed_agents.Run.{
  Word, word, mounts, Event, made_dir, World, Worlds, M, ◌>>=◌, ◌>>◌, pure, fail, lift, query, act,
}
use lima_jailed_agents.Run.{ProcessOptions}
use lima_jailed_agents.Workflow.{Workflow}

-- The options of the call that creates a VM: its input is the YAML of `limaCreationInput`.
abbrev pub creation_options : String → FilePath → ProcessOptions
creation_options command project = record (default_process_options command false) {
  work_dir = some project;
  has_input = true;
}

abbrev pub create_words : String → List FilePath → List Word
create_words vm paths =
    word "create"
    ∷ word "--tty=false"
    ∷ word "--name"
    ∷ word vm
    ∷ word "--mount-only"
    ∷ mounts paths
    ∷ word "-"
    ∷ []

abbrev pub require_instance : Error → Option LimaInstance → Result LimaInstance
require_instance e none = err e
require_instance e (some i) = ok i

module _ (script : String) (decode : String → Payload) (w : Worlds) (f : Workflow) where
  -- The check of an instance's mounts, in the world as it is then.
  unfoldable pub check_mounts : FilePath → LimaInstance → M (Unit {0})
  check_mounts project i =
      query w (λ h. validate_project_mount h i (path_text project) f.state_root)

  unfoldable pub check_found : FilePath → Option LimaInstance → M (Unit {0})
  check_found project none = pure tt
  check_found project (some i) = check_mounts project i

  -- The directory of a state root that is mounted beside the project.
  unfoldable pub make_state_directory : List FilePath → M (Unit {0})
  make_state_directory (project ∷ state ∷ rest) =
      act w (made_dir state) (λ x. World.mkdir_all x state)
        (wrap "cannot create state directory %s: %w" (loc state ∷ []))
  make_state_directory _ = pure tt

  unfoldable pub create_vm : FilePath → String → List FilePath → M LimaInstance
  create_vm project vm paths = do
    lift f.creation_input
    _ ← run_lima script w (create_words vm paths) (creation_options f.lima_command project)
    created ← inspect_lima script decode w vm f.lima_command
    lift (require_instance (lja "Lima did not report newly created VM %s" (str vm ∷ [])) created)

  unfoldable pub create_if_absent :
      FilePath → String → List FilePath → Option LimaInstance → M LimaInstance
  create_if_absent project vm paths none = create_vm project vm paths
  create_if_absent project vm paths (some i) = pure i

  -- A stopped VM is started; one that is neither stopped nor running is refused.
  unfoldable pub start_if_stopped : String → String → M (Unit {0})
  start_if_stopped vm status =
      if status == status_stopped
      then operation script decode w f.lima_command (word "start" ∷ word vm ∷ [])
      else if status == status_running
      then pure tt
      else fail (incompatible_state vm status)

  -- The VM as it is found at the end, which must be there, have the mounts, and run.
  unfoldable pub check_running : FilePath → String → M LimaInstance
  check_running project vm = do
    found ← inspect_lima script decode w vm f.lima_command
    i ←
        lift
          (require_instance (lja "Lima VM %s disappeared during preparation" (str vm ∷ [])) found)
    check_mounts project i
    if i.status == status_running
        then pure i
        else fail (
            lja "VM %s did not reach Running state; current state is %s"
              (str vm ∷ str i.status ∷ []))

  -- The VM before it is started: found or created, with the mounts that are expected.
  unfoldable pub obtain_vm : FilePath → String → M LimaInstance
  obtain_vm project vm = do
    query w (λ h. validate_project_directory h (path_text project))
    paths ← query w (λ h. expected_mount_paths h (path_text project) f.state_root)
    found ← inspect_lima script decode w vm f.lima_command
    check_found project found
    make_state_directory paths
    i ← create_if_absent project vm paths found
    check_mounts project i
    pure i

  -- `prepareNamedVMLocked`
  unfoldable pub prepare_named_vm : FilePath → String → Bool → M LimaInstance
  prepare_named_vm project vm wrappers = do
    i ← obtain_vm project vm
    start_if_stopped vm i.status
    running ← check_running project vm
    f.prepare_development project vm
    f.prepare_agents project vm wrappers f.agent_update_name
    pure running
