-- ===== src/Tests/Locks.antt =====
-- Locks and state roots of the sample host.
use lima_jailed_agents.Base.{true, false, none, some, List, [], ◌∷◌, FilePath, ◌≡◌, refl, ◌⊎◌}
use lima_jailed_agents.Base.{ok, string_eq, string_discrete, strings_eq, strings_discrete}
use lima_jailed_agents.Host.{PathText}
use lima_jailed_agents.Lima.Mounts.{expected_mount_paths}
use lima_jailed_agents.Lock.{
  AdvisoryLockOptions, LockPlace, default_lock_directory, lock_place, with_advisory_lock,
}
use lima_jailed_agents.Lock.Laws.{
  IsOutside, lock_place-IsOutside, Bracketed, with_advisory_lock-Bracketed,
}
use lima_jailed_agents.Path.Canonical.{canonical_path}
use lima_jailed_agents.Path.Text.{path_text}
use lima_jailed_agents.Run.{pure}
use lima_jailed_agents.StateRoot.{resolve_state_root}
use lima_jailed_agents.StateRoot.Laws.{IsShared, resolve_state_root-IsShared}
use lima_jailed_agents.Tests.Sample.{project, project_text, sample_host, sample_vm, running_world}

abbrev lock_options : AdvisoryLockOptions
lock_options = record {
  project = project_text;
  vm_name = sample_vm;
  state_root = "" ∷ [];
  lock_directory = "" ∷ [];
}

abbrev locks : PathText
locks = "" ∷ "tmp" ∷ "lja" ∷ "locks" ∷ []

chosen : default_lock_directory sample_host project_text ("" ∷ []) ≡ ok locks
unfolding lima_jailed_agents.Lock.inside_any lima_jailed_agents.Lock.choose_lock_directory
    lima_jailed_agents.Lock.default_lock_directory lima_jailed_agents.Lock.lock_directory_of
    lima_jailed_agents.Lock.lock_place lima_jailed_agents.Lima.Mounts.expected_mount_paths
    lima_jailed_agents.Lima.Mounts.with_state_root lima_jailed_agents.Lima.Mounts.mount_paths_of
    lima_jailed_agents.Lima.Mounts.apart lima_jailed_agents.Path.Canonical.canonical_path
    lima_jailed_agents.Path.Canonical.canonical_given lima_jailed_agents.Path.Canonical.expand_home
    lima_jailed_agents.Path.Canonical.expand_first lima_jailed_agents.Path.Canonical.absolute_path
    lima_jailed_agents.Path.Canonical.resolve_absolute lima_jailed_agents.Path.Canonical.probe_loop
    lima_jailed_agents.Path.Canonical.resolve_probe
    lima_jailed_agents.Path.Canonical.normalize_darwin lima_jailed_agents.Path.Canonical.is_alias
    lima_jailed_agents.Path.Canonical.home_directory lima_jailed_agents.Path.Text.clean
    lima_jailed_agents.Path.Text.clean_onto lima_jailed_agents.Path.Text.enter
    lima_jailed_agents.Path.Text.join lima_jailed_agents.Path.Text.relative
    lima_jailed_agents.Path.Text.path_text lima_jailed_agents.Path.Text.split_path
    lima_jailed_agents.Path.Within.path_is_within lima_jailed_agents.Path.Within.leads_down
    string_eq string_discrete strings_eq strings_discrete lima_jailed_agents.Tests.Sample.resolve
    lima_jailed_agents.Tests.Sample.stat_sample
chosen = refl

abbrev place : LockPlace
place = record {
  directory = "tmp" ∷ "lja" ∷ "locks" ∷ [];
  path = "tmp" ∷ "lja" ∷ "locks" ∷ "lja-work-0123456789ab.lock" ∷ [];
}

placed : lock_place sample_host lock_options ≡ ok place
unfolding lima_jailed_agents.Lock.inside_any lima_jailed_agents.Lock.choose_lock_directory
    lima_jailed_agents.Lock.default_lock_directory lima_jailed_agents.Lock.lock_directory_of
    lima_jailed_agents.Lock.lock_place lima_jailed_agents.Lima.Mounts.expected_mount_paths
    lima_jailed_agents.Lima.Mounts.with_state_root lima_jailed_agents.Lima.Mounts.mount_paths_of
    lima_jailed_agents.Lima.Mounts.apart lima_jailed_agents.Path.Canonical.canonical_path
    lima_jailed_agents.Path.Canonical.canonical_given lima_jailed_agents.Path.Canonical.expand_home
    lima_jailed_agents.Path.Canonical.expand_first lima_jailed_agents.Path.Canonical.absolute_path
    lima_jailed_agents.Path.Canonical.resolve_absolute lima_jailed_agents.Path.Canonical.probe_loop
    lima_jailed_agents.Path.Canonical.resolve_probe
    lima_jailed_agents.Path.Canonical.normalize_darwin lima_jailed_agents.Path.Canonical.is_alias
    lima_jailed_agents.Path.Canonical.home_directory lima_jailed_agents.Path.Text.clean
    lima_jailed_agents.Path.Text.clean_onto lima_jailed_agents.Path.Text.enter
    lima_jailed_agents.Path.Text.join lima_jailed_agents.Path.Text.relative
    lima_jailed_agents.Path.Text.path_text lima_jailed_agents.Path.Text.split_path
    lima_jailed_agents.Path.Within.path_is_within lima_jailed_agents.Path.Within.leads_down
    string_eq string_discrete strings_eq strings_discrete lima_jailed_agents.Tests.Sample.resolve
    lima_jailed_agents.Tests.Sample.stat_sample
placed = refl

lock_place-IsOutside_example :
    (canonical : FilePath) × (mounts : List FilePath) × (canonical_path sample_host project_text
      ≡ ok canonical)
    × (expected_mount_paths sample_host (path_text canonical) ("" ∷ []) ≡ ok mounts)
    × IsOutside mounts place.path
lock_place-IsOutside_example = lock_place-IsOutside sample_host lock_options placed

with_advisory_lock-Bracketed_example :
    Bracketed running_world
      (λ path. pure tt)
      []
      (with_advisory_lock running_world lock_options (λ path. pure tt) [])
with_advisory_lock-Bracketed_example =
    with_advisory_lock-Bracketed running_world (λ path. pure tt) lock_options []

abbrev shared : FilePath
shared = "srv" ∷ "agents" ∷ []

resolved_shared :
    resolve_state_root sample_host project_text (some "/srv/agents") false none ≡ ok shared
unfolding lima_jailed_agents.StateRoot.resolve_state_root
    lima_jailed_agents.StateRoot.resolve_configured_state_root
    lima_jailed_agents.StateRoot.check_overlap lima_jailed_agents.StateRoot.check_root
    lima_jailed_agents.Path.Canonical.configured_host_directory
    lima_jailed_agents.Path.Canonical.canonical_path
    lima_jailed_agents.Path.Canonical.canonical_given lima_jailed_agents.Path.Canonical.expand_home
    lima_jailed_agents.Path.Canonical.expand_first lima_jailed_agents.Path.Canonical.absolute_path
    lima_jailed_agents.Path.Canonical.resolve_absolute lima_jailed_agents.Path.Canonical.probe_loop
    lima_jailed_agents.Path.Canonical.resolve_probe
    lima_jailed_agents.Path.Canonical.normalize_darwin lima_jailed_agents.Path.Canonical.is_alias
    lima_jailed_agents.Path.Canonical.home_directory lima_jailed_agents.Path.Text.clean
    lima_jailed_agents.Path.Text.clean_onto lima_jailed_agents.Path.Text.enter
    lima_jailed_agents.Path.Text.join lima_jailed_agents.Path.Text.relative
    lima_jailed_agents.Path.Text.path_text lima_jailed_agents.Path.Text.split_path
    lima_jailed_agents.Path.Within.path_is_within lima_jailed_agents.Path.Within.leads_down
    string_eq string_discrete strings_eq strings_discrete lima_jailed_agents.Tests.Sample.resolve
    lima_jailed_agents.Tests.Sample.stat_sample
resolved_shared = refl

resolve_state_root-IsShared_example :
    (canonical : FilePath) × (canonical_path sample_host project_text ≡ ok canonical)
    × (((false ≡ true) × (shared ≡ canonical))
        ⊎ ((false ≡ false) × IsShared sample_host canonical shared))
resolve_state_root-IsShared_example =
    resolve_state_root-IsShared sample_host project_text (some "/srv/agents") false none
      resolved_shared
