-- ===== src/StateRoot.antt =====
-- lock.go: `resolveStateRoot`, the directory that holds the state of the agents.
pub mod Laws
use lima_jailed_agents.Base.{
  String, Bool, true, false, ◌||◌, Option, none, some, List, [], ◌∷◌, ◌++◌, FilePath,
}
use lima_jailed_agents.Base.{
  Result, ok, err, Error, lja, wrap, str, loc, ◌>>=◌, ◌>>◌, require, ◌==◌, string_eq, if◌then◌else◌,
}
use lima_jailed_agents.Base.Dict.{Dict, lookup}
use lima_jailed_agents.Host.{
  Host, PathText, FileInfo, Outcome, found, not_exist, failed, is_directory,
}
use lima_jailed_agents.Path.Canonical.{canonical_path, home_directory, configured_host_directory}
use lima_jailed_agents.Path.Text.{join, path_text}
use lima_jailed_agents.Path.Within.{path_is_within}

abbrev pub state_directory_env : String
state_directory_env = "LJA_STATE_DIR"

abbrev pub xdg_data_home_env : String
xdg_data_home_env = "XDG_DATA_HOME"

-- The root of the user's data: what the environment names, or `.local/share` in the home directory.
unfoldable pub data_root : Host → Dict String String → PathText → Result FilePath
data_root h environment home = elim (lookup xdg_data_home_env environment) [
  | some value ↦
      configured_host_directory h environment xdg_data_home_env (home ++ (".local" ∷ "share" ∷ []))
  | none ↦ canonical_path h (home ++ (".local" ∷ "share" ∷ []))
]

unfoldable pub default_state_root : Host → Dict String String → Result FilePath
default_state_root h environment = do
  home ← home_directory h
  root ← data_root h environment home
  canonical_path h (path_text (join root ("lja" ∷ "agents" ∷ [])))

-- `resolveConfiguredStateRoot`: the option, else the environment, else the default
unfoldable pub resolve_configured_state_root :
    Host → FilePath → Option String → Dict String String → Result FilePath
resolve_configured_state_root h project (some state_directory) environment =
    if state_directory == ""
    then err (lja "host environment %s must be a non-empty path" (str state_directory_env ∷ []))
    else configured_host_directory h ((state_directory_env, state_directory) ∷ [])
        state_directory_env (path_text project)
resolve_configured_state_root h project none environment =
    elim (lookup state_directory_env environment) [
      | some value ↦ configured_host_directory h environment state_directory_env (path_text project)
      | none ↦ default_state_root h environment
    ]

-- A root that is there is a directory.
unfoldable pub check_root : FilePath → Outcome FileInfo → Result (Unit {0})
check_root root (found info) =
    require (is_directory info.kind) (lja "state root is not a directory: %s" (loc root ∷ []))
check_root root (not_exist e) = ok tt
check_root root (failed e) = err (wrap "cannot inspect state root %s: %w" (loc root ∷ []) e)

unfoldable pub check_overlap : FilePath → FilePath → Result (Unit {0})
check_overlap project root =
    if path_is_within root project || path_is_within project root
    then err (
        lja "shared state root overlaps project: %s; use %s"
          (loc root ∷ str "--project-state" ∷ []))
    else ok tt

abbrev pub shared_state_root :
    Host → FilePath → Option String → Dict String String → Result FilePath
shared_state_root h project state_directory environment = do
  root ← resolve_configured_state_root h project state_directory environment
  check_overlap project root
  check_root root (h.stat root)
  ok root

environment_or : Host → Option (Dict String String) → Dict String String
environment_or h none = h.environ
environment_or h (some environment) = environment

-- `resolveStateRoot`; no environment means the one of the process
unfoldable pub resolve_state_root :
    Host → PathText → Option String → Bool → Option (Dict String String) → Result FilePath
unfolding environment_or
resolve_state_root h project state_directory project_state environment = do
  canonical_project ← canonical_path h project
  if project_state
      then ok canonical_project
      else shared_state_root h canonical_project state_directory (environment_or h environment)
