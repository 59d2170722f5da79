-- ===== src/Tests/Sample.antt =====
-- A host with the user's home directory and one project in it, a limactl that lists the VM of the project,
-- and a workflow whose other parts do nothing.
use Prim.Native.String.{◌++◌ as ◌<>◌}
use lima_jailed_agents.Base.{String, true, false, none, some, List, [], ◌∷◌, ◌++◌, FilePath}
use lima_jailed_agents.Base.{
  ok, Error, external, exited, ◌==◌, strings_eq, string_eq, if◌then◌else◌,
}
use lima_jailed_agents.Host.{
  Host, PathText, FileInfo, Outcome, found, not_exist, directory, regular,
}
use lima_jailed_agents.Lima.Instances.{LimaInstance, LimaMount}
use lima_jailed_agents.Lima.Json.{
  Json, Payload, object, string, boolean, array, field, end, cons, nil,
}
use lima_jailed_agents.Path.Policy.{Policy}
use lima_jailed_agents.Run.{Word, ProcessOptions, Reply, completed, World, Worlds, pure}
use lima_jailed_agents.Run.Rules.{Emits-pure}
use lima_jailed_agents.Recreate.{Replacement}
use lima_jailed_agents.Workflow.{Workflow, GuestOnly, IsBenign}

abbrev pub home : FilePath
home = "home" ∷ "u" ∷ []

abbrev pub project : FilePath
project = "home" ∷ "u" ∷ "work" ∷ []

abbrev pub project_text : PathText
project_text = "" ∷ "home" ∷ "u" ∷ "work" ∷ []

abbrev pub absent : Error
absent = external "no such file or directory"

abbrev pub own_directory : FileInfo
own_directory = record { kind = directory; owner = some 1000 }

abbrev pub own_file : FileInfo
own_file = record { kind = regular; owner = some 1000 }

-- The project and the home directory are there, and have no links.
unfoldable pub resolve : FilePath → Outcome FilePath
resolve p =
    if p == project then found project else if p == home then found home else not_exist absent

unfoldable pub stat_sample : FilePath → Outcome FileInfo
stat_sample p =
    if p == project
    then found own_directory
    else if p == home
    then found own_directory
    else not_exist absent

abbrev pub sample_host : Host
sample_host = record {
  user_home_dir = ok ("" ∷ "home" ∷ "u" ∷ []);
  getwd = ok project_text;
  temp_dir = "" ∷ "tmp" ∷ [];
  environ = [];
  is_darwin = false;
  uid = 1000;
  eval_symlinks = resolve;
  lstat = stat_sample;
  stat = stat_sample;
  sha256_hex = λ p. "0123456789abcdef";
}

abbrev pub sample_policy : Policy
sample_policy = record { home = home; uid = 1000; stat = stat_sample }

abbrev pub sample_vm : String
sample_vm = "lja-work-0123456789ab"

abbrev pub sample_mount : LimaMount
sample_mount = record { location = "/home/u/work"; mount_point = "/home/u/work"; writable = true }

abbrev pub sample_instance : LimaInstance
sample_instance = record { name = sample_vm; status = "Running"; mounts = sample_mount ∷ [] }

abbrev instance_json : String → String → Json
instance_json name status = object (
    field "name" (string name) (
      field "status" (string status) (
        field "config"
          (object (
            field "mounts"
              (array (
                cons
                  (object (
                    field "location" (string "/home/u/work") (field "writable" (boolean true) end)))
                  nil))
              end))
          end)))

-- What an output is read as: one VM, in the state that the output names.
abbrev pub sample_decode : String → Payload
sample_decode output = record {
  is_blank = false;
  whole = ok (instance_json sample_vm output);
  lines = [];
}

abbrev pub shell_script : String
shell_script = "exec \"$@\""

-- limactl succeeds, whatever it is asked, and its output names the state of the VM.
abbrev pub lima_reply : String → List Word → ProcessOptions → Reply
lima_reply status arguments o =
    completed (record { stdout = status; stderr = ""; exit_code = exited 0 })

abbrev pub world_of : String → World
world_of status = record {
  host = sample_host;
  lima = lima_reply status;
  mkdir_all = λ p. none;
  open_file = λ p. none;
  flock_exclusive = λ p. none;
  flock_unlock = λ p. none;
  close_file = λ p. none;
  print = none;
  read_file = λ p. not_exist (external "no such file");
  permissions = λ p. 384;
  temp_file = λ directory prefix. directory ++ (prefix <> "1") ∷ [];
  change_file = λ c. none;
  host_program = λ arguments. completed (record { stdout = ""; stderr = ""; exit_code = exited 0 });
}

abbrev pub running_world : Worlds
running_world t = world_of "Running"

abbrev pub broken_world : Worlds
broken_world t = world_of "Broken"

abbrev pub sample_workflow : Workflow
sample_workflow = record {
  recreate = false;
  state_root = "" ∷ [];
  lima_command = "limactl";
  has_gpg_context = false;
  configured_agents = ok [];
  agent_update_name = "";
  creation_input = ok tt;
  ensure_github = pure tt;
  resolve_environment = pure tt;
  prepare_development = λ p vm. pure tt;
  prepare_agents = λ p vm b update. pure tt;
  close_session = pure tt;
}

pub sample_guests : GuestOnly sample_workflow
sample_guests = record {
  development = λ p vm. Emits-pure IsBenign tt;
  agents = λ p vm b update. Emits-pure IsBenign tt;
  session = Emits-pure IsBenign tt;
  github = Emits-pure IsBenign tt;
  environment = Emits-pure IsBenign tt;
}

abbrev pub sample_replacement : Replacement
sample_replacement = record {
  project = project;
  old = sample_instance;
  candidate = "lja-new-1";
  backup = "lja-old-1";
}
