-- ===== src/Claude.antt =====
-- claude.go: the directories that Claude trusts, in its global configuration. A JSON text is what
-- `encoding/json` reads in it, and `encode` is `json.MarshalIndent` of a map, with a line end.
pub mod Read
pub mod Laws
use Prim.Native.String.{◌++◌ as ◌<>◌}
use lima_jailed_agents.Base.{
  String, Bool, true, false, ◌||◌, Option, none, some, List, [], ◌∷◌, FilePath, Result, ok, err,
  Error, lja, wrap, external, join, str, ◌>>=◌, ◌>>◌, map_error, require,
}
use lima_jailed_agents.Base.{◌==◌, string_eq, if◌then◌else◌}
use lima_jailed_agents.Base.Chars.{trim_space}
use lima_jailed_agents.Base.Dict.{Dict, lookup, insert}
use lima_jailed_agents.AgentConfig.{ConfigFile, canonical_directories, ensure_config}
use lima_jailed_agents.Host.{Host, PathText}
use lima_jailed_agents.Lima.Json.{Json, Fields, null, boolean, object, end, field}
use lima_jailed_agents.Path.Text.{render}
use lima_jailed_agents.Run.{Worlds, M, pure}

-- A Go map of raw values.
abbrev pub Object : Type 0
Object = Dict String Json

-- The map that an object is read into, and back.
unfoldable pub entries_onto : Object → Fields → Object
entries_onto d end = d
entries_onto d (field name value rest) = entries_onto (insert name value d) rest

unfoldable pub fields_of : Object → Fields
fields_of [] = end
fields_of ((name, value) ∷ d) = field name value (fields_of d)

-- `claudeObject`
unfoldable pub claude_object : String → Json → Result Object
unfolding entries_onto
claude_object name (object fields) = ok (entries_onto [] fields)
claude_object name other = err (lja "Claude %s must be an object" (str name ∷ []))

-- `claudeTrustValue`
unfoldable pub claude_trust_value : String → Json → Result Bool
claude_trust_value directory (boolean trust) = ok trust
claude_trust_value directory other =
    err (lja "Claude trust setting for %s must be a boolean" (str directory ∷ []))

abbrev pub trust_key : String
trust_key = "hasTrustDialogAccepted"

abbrev pub projects_key : String
projects_key = "projects"

-- The value of a key as an object, or an empty one where the key is missing.
unfoldable pub object_at : String → Option Json → Result Object
object_at name none = ok []
object_at name (some value) = claude_object name value

abbrev pub project_name : String → String
project_name directory = "project " <> directory

-- Whether a project is trusted already.
unfoldable pub trusted_already : String → Option Json → Result Bool
trusted_already directory none = ok false
trusted_already directory (some value) = claude_trust_value directory value

-- One round of the loop: the projects, with the directory trusted, and whether that changed them.
unfoldable pub trust_directory : String → Object → Result (Object × Bool)
unfolding fields_of
trust_directory directory projects = do
  project ← object_at (project_name directory) (lookup directory projects)
  trusted ← trusted_already directory (lookup trust_key project)
  if trusted
      then ok (projects, false)
      else ok (
        insert directory (object (fields_of (insert trust_key (boolean true) project))) projects,
        true,
      )

unfoldable pub trust_each : List FilePath → Object → Result (Object × Bool)
trust_each [] projects = ok (projects, false)
trust_each (directory ∷ directories) projects =
    trust_directory (render directory) projects >>= λ (next, changed).
    trust_each directories next >>= λ (last, others). ok (last, changed || others)

not_an_object : String → Error
not_an_object message = wrap (message <> ": %w") [] (external "json: cannot unmarshal into a map")

-- `json.Unmarshal` into a map: `null` makes it nil.
unfoldable pub root_of : String → Json → Result Object
unfolding entries_onto not_an_object
root_of message (object fields) = ok (entries_onto [] fields)
root_of message null = err (lja (message <> ": top-level value must be an object") [])
root_of message other = err (not_an_object message)

unfoldable pub require_trusted : String → Bool → Result (Unit {0})
require_trusted directory trusted =
    require trusted
      (lja "Claude trust setting for %s is not accepted after edit" (str directory ∷ []))

unfoldable pub trust_at : String → Option Json → Result (Unit {0})
unfolding require_trusted
trust_at directory none =
    err (lja "Claude trust setting missing after edit for %s" (str directory ∷ []))
trust_at directory (some value) = claude_trust_value directory value >>= require_trusted directory

unfoldable pub project_at : String → Option Json → Result (Unit {0})
unfolding trust_at
project_at directory none =
    err (lja "Claude project missing after edit for %s" (str directory ∷ []))
project_at directory (some value) = claude_object (project_name directory) value >>= λ project.
    trust_at directory (lookup trust_key project)

unfoldable pub validate_each : List FilePath → Object → Result (Unit {0})
unfolding project_at
validate_each [] projects = ok tt
validate_each (directory ∷ directories) projects =
    project_at (render directory) (lookup (render directory) projects)
    >> validate_each directories projects

unfoldable pub projects_of : Option Json → Result Object
projects_of none = err (lja "Claude projects missing after edit" [])
projects_of (some value) = claude_object projects_key value

module _ (decode : String → Result Json) (encode : Object → String) (valid : String → Bool) where
  unfoldable pub read_root : String → String → Result Object
  read_root message content =
      map_error (wrap (message <> ": %w") []) (decode content) >>= root_of message

  -- The root of a configuration, empty for a blank text.
  unfoldable pub original_root : String → Result Object
  original_root content =
      if trim_space content == "" then ok [] else read_root "invalid Claude configuration" content

  -- `validateClaudeTrustedConfig`
  unfoldable pub validate_claude_trusted_config : String → List FilePath → Result (Unit {0})
  unfolding projects_of
  validate_claude_trusted_config content directories = do
    root ← read_root "invalid Claude configuration after edit" content
    projects ← projects_of (lookup projects_key root)
    validate_each directories projects

  -- The end of `claudeTrustedConfig`, after the loop.
  unfoldable pub encode_changed : String → List FilePath → Object → Object × Bool → Result String
  unfolding fields_of
  encode_changed content directories root (projects, false) = ok content
  encode_changed content directories root (projects, true) =
      let updated = encode (insert projects_key (object (fields_of projects)) root) in
      validate_claude_trusted_config updated directories >> ok updated

  -- `claudeTrustedConfig`
  unfoldable pub claude_trusted_config : List PathText → Host → String → Result String
  claude_trusted_config directories h content = do
    require (valid content) (lja "configuration is not valid UTF-8" [])
    canonical ← canonical_directories h directories
    root ← original_root content
    projects ← object_at projects_key (lookup projects_key root)
    trusted ← trust_each canonical projects
    encode_changed content canonical root trusted

  abbrev pub claude_file : List PathText → ConfigFile
  claude_file directories = record {
    agent = "claude";
    directory_name = ".claude";
    file_name = ".claude.json";
    lock_prefix = "claude-config-";
    temporary_prefix = ".claude.json-";
    symlink_error = lja "Claude configuration must not be a symlink" [];
    both = λ first closing. wrap "%v; closing temporary Claude config: %w" [] (join first closing);
    failure = "cannot configure Claude directory trust in %s: %w";
    is_valid = valid;
    configure = claude_trusted_config directories;
  }

  -- `ensureClaudeDirectoryTrust`
  unfoldable pub ensure_claude_directory_trust :
      Worlds → PathText → List PathText → PathText → M (Unit {0})
  ensure_claude_directory_trust w state_root [] lock_directory = pure tt
  ensure_claude_directory_trust w state_root (directory ∷ directories) lock_directory =
      ensure_config w (claude_file (directory ∷ directories)) state_root lock_directory
