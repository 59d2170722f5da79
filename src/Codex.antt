-- ===== src/Codex.antt =====
-- codex.go: the directories that Codex trusts, and the settings that it must not have. The TOML editor is a
-- library: `parse`, `get`, `set` and `bytes` are its operations on a document.
pub mod Read
pub mod Trust
pub mod Laws
use lima_jailed_agents.Base.{
  String, Bool, true, false, ◌||◌, Option, none, some, List, [], ◌∷◌, FilePath, Result, ok, err,
  Error, lja, wrap, join, str, ◌>>=◌, ◌>>◌, map_error, require,
}
use lima_jailed_agents.Base.{◌==◌, string_eq, if◌then◌else◌}
use lima_jailed_agents.AgentConfig.{ConfigFile, canonical_directories, ensure_config}
use lima_jailed_agents.Host.{Host, PathText}
use lima_jailed_agents.Path.Text.{render}
use lima_jailed_agents.Run.{Worlds, M, pure}

-- What a document holds at a path, as the tests of codex.go tell it.
pub data TomlValue : Type 0 where
  table : TomlValue
  text : String → TomlValue
  boolean : Bool → TomlValue
  other : TomlValue

abbrev pub project_path : String → List String
project_path directory = "projects" ∷ directory ∷ []

abbrev pub trust_path : String → List String
trust_path directory = "projects" ∷ directory ∷ "trust_level" ∷ []

abbrev pub update_check_path : List String
update_check_path = "check_for_update_on_startup" ∷ []

abbrev pub daemon_path : List String
daemon_path = "features" ∷ "daemon_auto_start" ∷ []

abbrev pub update_setting_name : String
update_setting_name = "Codex update check setting"

abbrev pub daemon_setting_name : String
daemon_setting_name = "Codex daemon auto-start setting"

-- A value that is there must be a table.
unfoldable pub require_table : Error → Option TomlValue → Result (Unit {0})
require_table e none = ok tt
require_table e (some table) = ok tt
require_table e (some value) = err e

-- `codexTrustValue`
unfoldable pub codex_trust_value : String → TomlValue → Result String
codex_trust_value directory (text trust) =
    if trust == "trusted" || trust == "untrusted"
    then ok trust
    else err (lja "unsupported Codex trust value for %s: %s" (str directory ∷ str trust ∷ []))
codex_trust_value directory value =
    err (lja "Codex trust setting for %s must be a string" (str directory ∷ []))

-- Whether a directory is trusted already.
unfoldable pub is_trusted : String → Option TomlValue → Result Bool
is_trusted directory none = ok false
is_trusted directory (some value) =
    codex_trust_value directory value >>= λ trust. ok (trust == "trusted")

-- Whether a setting is off already.
unfoldable pub is_disabled : String → Option TomlValue → Result Bool
is_disabled name none = ok false
is_disabled name (some (boolean true)) = ok false
is_disabled name (some (boolean false)) = ok true
is_disabled name (some value) = err (lja "%s must be a boolean" (str name ∷ []))

unfoldable pub trust_after_edit : String → Option TomlValue → Result (Unit {0})
trust_after_edit directory none =
    err (lja "Codex trust setting missing after edit for %s" (str directory ∷ []))
trust_after_edit directory (some value) = codex_trust_value directory value >>= λ trust.
    require (trust == "trusted")
      (lja "Codex trust setting for %s is not trusted after edit" (str directory ∷ []))

-- `validateCodexSuppression`, of the value in the document
unfoldable pub suppression_after_edit : String → Option TomlValue → Result (Unit {0})
suppression_after_edit name none = err (lja "%s missing after edit" (str name ∷ []))
suppression_after_edit name (some (boolean enabled)) =
    if enabled then err (lja "%s is enabled after edit" (str name ∷ [])) else ok tt
suppression_after_edit name (some value) = err (lja "%s must be a boolean" (str name ∷ []))

module _ {D : Type 0} (parse : String → Result D) (get : D → List String → Option TomlValue)
    (set : D → List String → String → Result D) (bytes : D → String) (valid : String → Bool) where
  abbrev edit_failed : String → String → Error → Error
  edit_failed format name = wrap format (str name ∷ [])

  -- `codexSetDirectoryTrust`
  unfoldable pub set_directory_trust : String → D → Result (D × Bool)
  set_directory_trust directory document = do
    require_table (lja "Codex projects must be a table" []) (get document ("projects" ∷ []))
    require_table (lja "Codex project %s must be a table" (str directory ∷ []))
        (get document (project_path directory))
    trusted ← is_trusted directory (get document (trust_path directory))
    if trusted then ok (document, false) else (do
      next ←
          map_error (edit_failed "cannot edit Codex trust for %s: %w" directory)
            (set document (trust_path directory) "\"trusted\"")
      ok (next, true))

  unfoldable pub trust_each : List FilePath → D → Result (D × Bool)
  trust_each [] document = ok (document, false)
  trust_each (directory ∷ directories) document =
      set_directory_trust (render directory) document >>= λ (next, changed).
      trust_each directories next >>= λ (last, others). ok (last, changed || others)

  -- `codexSetSuppression`
  unfoldable pub set_suppression : List String → String → D → Result (D × Bool)
  set_suppression path name document = do
    disabled ← is_disabled name (get document path)
    if disabled then ok (document, false) else (do
      next ← map_error (edit_failed "cannot edit %s: %w" name) (set document path "false")
      ok (next, true))

  -- `validateCodexTrust`
  unfoldable pub validate_trust : D → List FilePath → Result (Unit {0})
  validate_trust document [] = ok tt
  validate_trust document (directory ∷ directories) =
      trust_after_edit (render directory) (get document (trust_path (render directory)))
      >> validate_trust document directories

  -- `codexTrustedConfig` for canonical directories, from the parsing on
  unfoldable pub trusted_config : String → List FilePath → Result String
  trusted_config content directories = do
    document ← map_error (wrap "invalid Codex TOML: %w" []) (parse content)
    (edited, changed) ← trust_each directories document
    validated ← map_error (wrap "edited Codex TOML is invalid: %w" []) (parse (bytes edited))
    validate_trust validated directories
    ok (if changed then bytes edited else content)

  unfoldable pub codex_trusted_config : List PathText → Host → String → Result String
  codex_trusted_config directories h content = do
    require (valid content) (lja "configuration is not valid UTF-8" [])
    canonical ← canonical_directories h directories
    trusted_config content canonical

  unfoldable pub validate_suppressions : D → Result (Unit {0})
  validate_suppressions document =
      suppression_after_edit update_setting_name (get document update_check_path)
      >> suppression_after_edit daemon_setting_name (get document daemon_path)

  unfoldable pub suppress_each : D → Result (D × Bool)
  suppress_each document =
      set_suppression update_check_path update_setting_name document >>= λ (next, first).
      set_suppression daemon_path daemon_setting_name next >>= λ (last, second).
      ok (last, first || second)

  -- The second part of `codexConfiguredConfig`.
  unfoldable pub suppressed_config : String → Result String
  suppressed_config updated = do
    document ← map_error (wrap "invalid Codex TOML: %w" []) (parse updated)
    require_table (lja "Codex features must be a table" []) (get document ("features" ∷ []))
    (edited, changed) ← suppress_each document
    validated ← map_error (wrap "edited Codex TOML is invalid: %w" []) (parse (bytes edited))
    validate_suppressions validated
    ok (if changed then bytes edited else updated)

  -- `codexConfiguredConfig`
  unfoldable pub codex_configured_config : List PathText → Host → String → Result String
  codex_configured_config directories h content = do
    updated ← codex_trusted_config directories h content
    require (valid updated) (lja "configuration is not valid UTF-8" [])
    suppressed_config updated

  abbrev pub codex_file : List PathText → ConfigFile
  codex_file directories = record {
    agent = "codex";
    directory_name = ".codex";
    file_name = "config.toml";
    lock_prefix = "codex-config-";
    temporary_prefix = ".config-";
    symlink_error = lja "Codex configuration must not be a symlink" [];
    both = λ first closing. wrap "%w; closing temporary config: %w" [] (join first closing);
    failure = "cannot configure Codex state in %s: %w";
    is_valid = valid;
    configure = codex_configured_config directories;
  }

  -- `ensureCodexConfiguration`
  unfoldable pub ensure_codex_configuration :
      Worlds → PathText → List PathText → PathText → M (Unit {0})
  ensure_codex_configuration w state_root directories lock_directory =
      ensure_config w (codex_file directories) state_root lock_directory

  -- `ensureCodexDirectoryTrust`
  unfoldable pub ensure_codex_directory_trust :
      Worlds → PathText → List PathText → PathText → M (Unit {0})
  ensure_codex_directory_trust w state_root [] lock_directory = pure tt
  ensure_codex_directory_trust w state_root (directory ∷ directories) lock_directory =
      ensure_codex_configuration w state_root (directory ∷ directories) lock_directory
