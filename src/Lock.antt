-- ===== src/Lock.antt =====
-- lock.go: `withAdvisoryLock`, and path.go's `defaultLockDirectory`.
pub mod Laws
pub mod Events
use Prim.Native.String.{◌++◌ as ◌<>◌}
use lima_jailed_agents.Base.{
  String, Bool, true, false, ◌||◌, Option, none, some, List, [], ◌∷◌, ◌++◌, FilePath,
}
use lima_jailed_agents.Base.{
  Result, ok, err, Error, lja, wrap, join, loc, written, ◌>>=◌, ◌>>◌, require, if◌then◌else◌,
}
use lima_jailed_agents.Host.{Host, PathText}
use lima_jailed_agents.Lima.Mounts.{expected_mount_paths}
use lima_jailed_agents.Path.Canonical.{canonical_path, home_directory, is_empty}
use lima_jailed_agents.Path.Text.{join as join_path, path_text, split_path}
use lima_jailed_agents.Path.Within.{path_is_within}
use lima_jailed_agents.Run.{
  Event, made_dir, opened, locked, unlocked, closed, Trace, World, Worlds, M, of_option, query, act,
}
use lima_jailed_agents.Run.{◌>>=◌ as ◌>>>=◌, ◌>>◌ as ◌>>>◌}

-- `AdvisoryLockOptions`; the empty text stands for no state root and no lock directory
pub record AdvisoryLockOptions : Type 0 where
  pub project : PathText
  pub vm_name : String
  pub state_root : PathText
  pub lock_directory : PathText

-- Whether some mount has the path in it.
unfoldable pub inside_any : FilePath → List FilePath → Bool
inside_any path [] = false
inside_any path (mount ∷ mounts) = path_is_within path mount || inside_any path mounts

-- The first of the candidates that is in no mount.
unfoldable pub choose_lock_directory :
    Host → PathText → List FilePath → List PathText → Result PathText
choose_lock_directory h project mounts [] =
    err (lja "cannot choose a host lock directory outside mounts for %s" (written project ∷ []))
choose_lock_directory h project mounts (candidate ∷ candidates) =
    let rest = choose_lock_directory h project mounts candidates in
    canonical_path h candidate >>= λ resolved.
    if inside_any resolved mounts then rest else ok candidate

abbrev pub lock_candidates : Host → PathText → List PathText
lock_candidates h home =
    (h.temp_dir ++ ("lja" ∷ "locks" ∷ []))
    ∷ ("" ∷ "var" ∷ "tmp" ∷ "lja" ∷ "locks" ∷ [])
    ∷ (home ++ (".cache" ∷ "lja" ∷ "locks" ∷ []))
    ∷ []

-- `defaultLockDirectory`; the candidates are cleaned when they are made canonical
unfoldable pub default_lock_directory : Host → PathText → PathText → Result PathText
default_lock_directory h project state_root = do
  home ← home_directory h
  mounts ← expected_mount_paths h project state_root
  choose_lock_directory h project mounts (lock_candidates h home)

-- The directory of a lock and the lock itself.
pub record LockPlace : Type 0 where
  pub directory : FilePath
  pub path : FilePath

unfoldable pub lock_directory_of : Host → AdvisoryLockOptions → FilePath → Result PathText
lock_directory_of h o project =
    if is_empty o.lock_directory
    then default_lock_directory h (path_text project) o.state_root
    else ok o.lock_directory

-- `filepath.Join(canonicalLockDirectory, options.VMName+lockFileSuffix)`
abbrev pub lock_text : AdvisoryLockOptions → FilePath → PathText
lock_text o directory = path_text (join_path directory (split_path (o.vm_name <> ".lock")))

-- The part of `withAdvisoryLock` before it acts: the lock must be in no mount.
unfoldable pub lock_place : Host → AdvisoryLockOptions → Result LockPlace
lock_place h o = do
  project ← canonical_path h o.project
  given ← lock_directory_of h o project
  directory ← canonical_path h given
  path ← canonical_path h (lock_text o directory)
  mounts ← expected_mount_paths h (path_text project) o.state_root
  if inside_any path mounts
      then err (lja "host lock path would be inside project or state mount: %s" (loc path ∷ []))
      else ok (record { directory = directory; path = path })

-- `errors.Join(returnErr, err)`, where each may be nil
unfoldable pub join_results : Result (Unit {0}) → Result (Unit {0}) → Result (Unit {0})
join_results (ok _) second = second
join_results (err e) (ok _) = err e
join_results (err e) (err other) = err (join e other)

module _ (w : Worlds) where
  -- The deferred function, after a result: the file is unlocked if it was locked, and closed.
  unfoldable pub close_lock : FilePath → Result (Unit {0}) × Trace → Result (Unit {0}) × Trace
  close_lock path (r, t) = (
    join_results r
        (of_option (wrap "cannot close host lock %s: %w" (loc path ∷ [])) ((w t).close_file path)),
    closed path ∷ t,
  )

  unfoldable pub unlock : FilePath → Result (Unit {0}) × Trace → Result (Unit {0}) × Trace
  unlock path (r, t) = (
    join_results r (
        of_option (wrap "cannot unlock host lock %s: %w" (loc path ∷ []))
          ((w t).flock_unlock path)),
    unlocked path ∷ t,
  )

  -- What follows the attempt to lock: the function runs if it succeeded.
  unfoldable pub hold :
      FilePath → (FilePath → M (Unit {0})) → Option Error → Trace → Result (Unit {0}) × Trace
  hold path function none t = close_lock path (unlock path (function path t))
  hold path function (some e) t =
      close_lock path (err (wrap "cannot lock host lock %s: %w" (loc path ∷ []) e), t)

  -- From the opened file on.
  unfoldable pub lock_opened : FilePath → (FilePath → M (Unit {0})) → M (Unit {0})
  lock_opened path function t = hold path function ((w t).flock_exclusive path) (locked path ∷ t)

  abbrev pub make_lock_directory : LockPlace → M (Unit {0})
  make_lock_directory place =
      act w (made_dir place.directory) (λ x. x.mkdir_all place.directory)
        (wrap "cannot open host lock %s: %w" (loc place.path ∷ []))

  abbrev pub open_lock : LockPlace → M (Unit {0})
  open_lock place =
      act w (opened place.path) (λ x. x.open_file place.path)
        (wrap "cannot open host lock %s: %w" (loc place.path ∷ []))

  unfoldable pub lock_at : (FilePath → M (Unit {0})) → LockPlace → M (Unit {0})
  lock_at function place =
      make_lock_directory place >>> (open_lock place >>> lock_opened place.path function)

  -- `withAdvisoryLock`
  unfoldable pub with_advisory_lock : AdvisoryLockOptions → (FilePath → M (Unit {0})) → M (Unit {0})
  with_advisory_lock o function = query w (λ h. lock_place h o) >>>= lock_at function
