-- ===== src/Lima/Mounts.antt =====
-- lima.go: `ExpectedMountPaths` and `ValidateProjectMount`.
pub mod Laws
use lima_jailed_agents.Base.{
  String, Bool, true, false, not, ◌&&◌, ◌||◌, List, [], ◌∷◌, map, FilePath, ℕ,
}
use lima_jailed_agents.Base.{
  Result, ok, err, Error, lja, str, loc, locs, ◌>>=◌, ◌>>◌, ◌==◌, string_eq, if◌then◌else◌,
}
use lima_jailed_agents.Base.{
  Eq, contains, strings_eq, string_discrete, strings_discrete, length, nat_eq, require,
}
use lima_jailed_agents.Base.Unique.{unique}
use lima_jailed_agents.Host.{PathText, Host}
use lima_jailed_agents.Path.Canonical.{canonical_path, is_empty}
use lima_jailed_agents.Path.Text.{split_path, render}
use lima_jailed_agents.Path.Within.{path_is_within}
use lima_jailed_agents.Lima.Instances.{LimaInstance, LimaMount}
use mathlib.Core.Bool.{Bool-discrete}

-- The two mounts of a project and a state root that differ.
unfoldable pub apart : FilePath → FilePath → Result (List FilePath)
apart project state =
    if path_is_within state project || path_is_within project state
    then err (lja "shared state root overlaps project: %s" (loc state ∷ []))
    else ok (project ∷ state ∷ [])

unfoldable pub mount_paths_of : FilePath → FilePath → Result (List FilePath)
mount_paths_of project state = if state == project then ok (project ∷ []) else apart project state

unfoldable pub with_state_root : Host → FilePath → PathText → Result (List FilePath)
with_state_root h project state_root =
    if is_empty state_root
    then ok (project ∷ [])
    else (do state ← canonical_path h state_root; mount_paths_of project state)

-- `ExpectedMountPaths`; no state root is the text ""
unfoldable pub expected_mount_paths : Host → PathText → PathText → Result (List FilePath)
expected_mount_paths h project state_root = do
  canonical_project ← canonical_path h project
  with_state_root h canonical_project state_root

-- `mountKey`
pub record MountKey : Type 0 where
  pub location : FilePath
  pub mount_point : String
  pub writable : Bool

unfoldable pub mount_key_discrete : Discrete MountKey
unfolding string_discrete strings_discrete
mount_key_discrete = hlevel (string_discrete, strings_discrete, Bool-discrete)

instance unfoldable pub mount_key_eq : Eq MountKey
unfolding mount_key_discrete
mount_key_eq = record { dec = mount_key_discrete }

abbrev pub expected_key : FilePath → MountKey
expected_key path = record { location = path; mount_point = render path; writable = true }

-- The keys of an instance's mounts, their locations made canonical.
unfoldable pub actual_keys : Host → List LimaMount → Result (List MountKey)
actual_keys h [] = ok []
actual_keys h (m ∷ ms) = do
  location ← canonical_path h (split_path m.location)
  keys ← actual_keys h ms
  ok (record { location = location; mount_point = m.mount_point; writable = m.writable } ∷ keys)

unfoldable pub contains_all : List MountKey → List MountKey → Bool
contains_all actual [] = true
contains_all actual (k ∷ ks) = contains actual k && contains_all actual ks

-- The comparisons of the two lists and of the two sets.
unfoldable pub same_mounts : List MountKey → List MountKey → Bool
same_mounts expected actual =
    nat_eq (length actual) (length expected)
    && (nat_eq (length (unique actual)) (length (unique expected))
        && contains_all actual (unique expected))

abbrev mismatch : LimaInstance → List FilePath → Error
mismatch instance_ expected =
    lja
      "VM %s mounts do not exactly match selected writable paths: %s. For an existing project-local VM, use %s. To change storage, use lja create --recreate for VM %s; host state is not migrated automatically."
      (str instance_.name ∷ locs expected ∷ str "--project-state" ∷ str instance_.name ∷ [])

-- `ValidateProjectMount`
unfoldable pub validate_project_mount :
    Host → LimaInstance → PathText → PathText → Result (Unit {0})
validate_project_mount h instance_ project state_root = do
  expected ← expected_mount_paths h project state_root
  actual ← actual_keys h instance_.mounts
  require (same_mounts (map expected_key expected) actual) (mismatch instance_ expected)
