-- ===== src/AgentConfig.antt =====
-- What claude.go and codex.go share: the directories to trust, and the locked update of a configuration file.
pub mod Laws
pub mod Events
use Prim.Native.String.{◌++◌ as ◌<>◌}
use lima_jailed_agents.Base.{
  String, ℕ, Bool, true, false, not, List, [], ◌∷◌, FilePath, Result, ok, err, Error, lja, wrap,
  loc,
}
use lima_jailed_agents.Base.{◌>>=◌ as ◌>>>=◌}
use lima_jailed_agents.Base.{◌==◌, string_eq, strings_eq, contains, if◌then◌else◌}
use lima_jailed_agents.Agent.State.{ensure_agent_state_directories}
use lima_jailed_agents.Files.{replace_file}
use lima_jailed_agents.Host.{
  Host, PathText, FileInfo, Outcome, found, not_exist, failed, is_symlink, to_result,
}
use lima_jailed_agents.Lock.{AdvisoryLockOptions, with_advisory_lock}
use lima_jailed_agents.Path.Canonical.{canonical_path}
use lima_jailed_agents.Path.Text.{join, path_text, render}
use lima_jailed_agents.Run.{
  World, Worlds, M, pure, fail, lift, query, ask, map_failure, ◌>>=◌, ◌>>◌,
}

-- The loop of `canonicalClaudeDirectories` and `canonicalCodexDirectories`.
unfoldable pub canonical_from : Host → List FilePath → List PathText → Result (List FilePath)
canonical_from h seen [] = ok []
canonical_from h seen (directory ∷ directories) = canonical_path h directory >>>= λ canonical.
    let known = canonical_from h seen directories in
    let fresh = canonical_from h (canonical ∷ seen) directories in
    if contains seen canonical then known else (fresh >>>= λ rest. ok (canonical ∷ rest))

unfoldable pub canonical_directories : Host → List PathText → Result (List FilePath)
canonical_directories h directories = canonical_from h [] directories

-- A configuration file of an agent, and how its content is updated.
pub record ConfigFile : Type 0 where
  pub agent : String
  pub directory_name : String
  pub file_name : String
  pub lock_prefix : String
  pub temporary_prefix : String
  pub symlink_error : Error
  -- the error of a failed change and of a failed `Close` after it
  pub both : Error → Error → Error
  pub failure : String
  -- whether `utf8.Valid` holds of a content
  pub is_valid : String → Bool
  pub configure : Host → String → Result String

abbrev pub config_directory : ConfigFile → FilePath → FilePath
config_directory f state = join state (f.directory_name ∷ [])

abbrev pub config_path : ConfigFile → FilePath → FilePath
config_path f state = join (config_directory f state) (f.file_name ∷ [])

-- The mode of a file that is made anew: 0o600.
abbrev pub default_mode : ℕ
default_mode = 384

module _ (w : Worlds) (f : ConfigFile) where
  -- The file must not be a link.
  unfoldable pub check_link : Outcome FileInfo → Result (Unit {0})
  check_link (found info) = if is_symlink info.kind then err f.symlink_error else ok tt
  check_link (not_exist e) = ok tt
  check_link (failed e) = err e

  unfoldable pub valid_content : ℕ → String → Result (ℕ × String)
  valid_content mode content =
      if f.is_valid content
      then ok (mode, content)
      else err (lja "configuration is not valid UTF-8" [])

  -- The mode and the content of the file, or those of a new one.
  unfoldable pub original_of : World → FilePath → Outcome FileInfo → Result (ℕ × String)
  original_of x path (found info) =
      to_result (x.read_file path) >>>= λ content. valid_content (x.permissions path) content
  original_of x path (not_exist e) = ok (default_mode, "")
  original_of x path (failed e) = err e

  unfoldable pub write_updated : FilePath → ℕ → String → String → M (Unit {0})
  write_updated state mode original updated =
      if updated == original
      then pure tt
      else replace_file w f.both (config_directory f state) f.temporary_prefix (config_path f state)
          mode updated

  -- What is done while the lock is held.
  unfoldable pub update_config : FilePath → M (Unit {0})
  update_config state = do
    _ ← ensure_agent_state_directories w (path_text state) f.agent
    query w (λ h. check_link (h.lstat (config_path f state)))
    read ← ask w (λ x. original_of x (config_path f state) (x.host.stat (config_path f state)))
    (mode, original) ← lift read
    updated ← query w (λ h. f.configure h original)
    write_updated state mode original updated

  abbrev pub config_lock : Host → FilePath → PathText → AdvisoryLockOptions
  config_lock h state lock_directory = record {
    project = path_text state;
    vm_name = f.lock_prefix <> h.sha256_hex state;
    state_root = "" ∷ [];
    lock_directory = lock_directory;
  }

  -- The update of a configuration file under its lock.
  unfoldable pub ensure_config : PathText → PathText → M (Unit {0})
  ensure_config state_root lock_directory = do
    state ← query w (λ h. canonical_path h state_root)
    o ← ask w (λ x. config_lock x.host state lock_directory)
    map_failure (wrap f.failure (loc (config_path f state) ∷ []))
        (with_advisory_lock w o (λ _. update_config state))
