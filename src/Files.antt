-- ===== src/Files.antt =====
-- How lock.go, claude.go and codex.go replace a file: a temporary file beside it is filled and synced, and
-- renamed onto it; after a failure the temporary file is removed.
pub mod Laws
pub mod Events
use lima_jailed_agents.Base.{String, ℕ, Bool, true, false, Option, none, some, FilePath, ◌∷◌}
use lima_jailed_agents.Base.{Result, ok, err, Error}
use lima_jailed_agents.Run.{
  FileCall, create_temp, chmod, write, sync, close, rename, remove, Event, filed, World, Worlds,
  Trace, M, ◌>>=◌, ◌>>◌, pure, fail, lift, ask, act, attempt,
}

-- The error of a file that was filled and closed: `both` joins two errors.
unfoldable pub written_and_closed :
    (Error → Error → Error) → Result (Unit {0}) → Result (Unit {0}) → Result (Unit {0})
written_and_closed both (ok _) closed = closed
written_and_closed both (err e) (ok _) = err e
written_and_closed both (err e) (err other) = err (both e other)

module _ (w : Worlds) where
  abbrev pub change : FileCall → M (Unit {0})
  change call = act w (filed call) (λ x. World.change_file x call) (λ e. e)

  -- `os.CreateTemp(directory, prefix + "*")`
  unfoldable pub create_temporary : FilePath → String → M FilePath
  create_temporary directory prefix = do
    path ← ask w (λ x. x.temp_file directory prefix)
    change (create_temp path)
    pure path

  -- The deferred function while the temporary file is to be removed; that it fails is only logged.
  unfoldable pub or_remove : {A : Type 0} → FilePath → Result A × Trace → Result A × Trace
  or_remove path (ok u, t) = (ok u, t)
  or_remove path (err e, t) = (err e, filed (remove path) ∷ t)

  -- An error of `Chmod`: the file is closed.
  unfoldable pub close_failed : (Error → Error → Error) → FilePath → Error → M (Unit {0})
  unfolding written_and_closed
  close_failed both path e = do
    closed ← attempt (change (close path))
    lift (written_and_closed both (err e) closed)

  unfoldable pub fill_changed :
      (Error → Error → Error) → FilePath → String → Result (Unit {0}) → M (Unit {0})
  unfolding written_and_closed close_failed
  fill_changed both path content (err e) = close_failed both path e
  fill_changed both path content (ok _) = do
    written ← attempt (change (write path content) >> change (sync path))
    closed ← attempt (change (close path))
    lift (written_and_closed both written closed)

  -- The temporary file gets its mode and content, is synced and closed, and takes the place of the target.
  unfoldable pub fill_and_rename :
      (Error → Error → Error) → FilePath → FilePath → ℕ → String → M (Unit {0})
  unfolding fill_changed written_and_closed close_failed
  fill_and_rename both target path mode content = do
    changed ← attempt (change (chmod path mode))
    fill_changed both path content changed
    change (rename path target)

  -- The replacement of a file in a directory by one with the content.
  unfoldable pub replace_file :
      (Error → Error → Error) → FilePath → String → FilePath → ℕ → String → M (Unit {0})
  replace_file both directory prefix target mode content =
      create_temporary directory prefix >>= λ path t.
      or_remove path (fill_and_rename both target path mode content t)
