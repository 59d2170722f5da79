-- ===== src/Agent/Instructions.antt =====
-- lock.go: `RefreshAgentInstructions`, which copies the user's instructions for an agent into its state.
pub mod Place
pub mod Laws
pub mod Events
use Prim.Native.String.{◌++◌ as ◌<>◌}
use lima_jailed_agents.Base.{
  String, Bool, true, false, not, Option, none, some, List, [], ◌∷◌, ◌++◌, FilePath,
}
use lima_jailed_agents.Base.{
  Result, ok, err, Error, lja, wrap, join as join_errors, external, loc, map_error, ◌==◌, string_eq,
  if◌then◌else◌,
}
use lima_jailed_agents.Base.{◌>>=◌ as ◌>>>=◌}
use lima_jailed_agents.Base.Dict.{Dict, lookup}
use lima_jailed_agents.Agent.{AgentSpec, agent_spec, codex_agent_name, claude_agent_name}
use lima_jailed_agents.Agent.State.{make_directory}
use lima_jailed_agents.Files.{change, create_temporary, or_remove}
use lima_jailed_agents.Host.{
  Host, PathText, FileInfo, Outcome, found, not_exist, failed, is_symlink, is_regular,
}
use lima_jailed_agents.Path.Canonical.{canonical_path, home_directory, configured_host_directory}
use lima_jailed_agents.Path.Text.{join, dir, base, path_text}
use lima_jailed_agents.Path.Within.{path_is_within}
use lima_jailed_agents.Run.{
  FileCall, copy_from, open_read, sync, close, rename, Worlds, Trace, M, ◌>>=◌, ◌>>◌, pure, fail,
  lift, query, ask, attempt, map_failure, reject_if,
}

-- Where the instructions of an agent come from, and where they go.
pub record InstructionPaths : Type 0 where
  pub source : FilePath
  pub destination : FilePath

abbrev instructions : FilePath → FilePath → String → InstructionPaths
instructions source_directory directory name = record {
  source = join source_directory (name ∷ []);
  destination = join directory (name ∷ []);
}

-- `$XDG_CONFIG_HOME`, or `.config` in the home directory
unfoldable pub config_home : Host → PathText → Dict String String → Result FilePath
config_home h home environment = elim (lookup "XDG_CONFIG_HOME" environment) [
  | some value ↦
      configured_host_directory h environment "XDG_CONFIG_HOME" (home ++ (".config" ∷ []))
  | none ↦ canonical_path h (home ++ (".config" ∷ []))
]

open_code_instructions : Host → FilePath → PathText → Dict String String → Result InstructionPaths
open_code_instructions h state home environment = config_home h home environment >>>= λ configs.
    configured_host_directory h environment "OPENCODE_CONFIG_DIR"
      (path_text (join configs ("opencode" ∷ [])))
    >>>= λ source.
        ok (instructions source (join state (".opencode" ∷ "config" ∷ "opencode" ∷ [])) "AGENTS.md")

abbrev environment_or : Host → Option (Dict String String) → Dict String String
environment_or h none = h.environ
environment_or h (some environment) = environment

-- The paths for an agent, in a canonical state root.
unfoldable pub paths_in : Host → FilePath → String → Dict String String → Result InstructionPaths
unfolding open_code_instructions
paths_in h state agent environment = home_directory h >>>= λ home.
    if agent == codex_agent_name
    then (configured_host_directory h environment "CODEX_HOME" (home ++ (".codex" ∷ []))
        >>>= λ source. ok (instructions source (join state (".codex" ∷ [])) "AGENTS.md"))
    else if agent == claude_agent_name
    then (configured_host_directory h environment "CLAUDE_CONFIG_DIR" (home ++ (".claude" ∷ []))
        >>>= λ source. ok (instructions source (join state (".claude" ∷ [])) "CLAUDE.md"))
    else open_code_instructions h state home environment

-- `agentInstructionPaths`; no environment means the one of the process
unfoldable pub agent_instruction_paths :
    Host → PathText → String → Option (Dict String String) → Result InstructionPaths
agent_instruction_paths h state_root agent environment = canonical_path h state_root >>>= λ state.
    agent_spec agent >>>= λ spec. paths_in h state agent (environment_or h environment)

destination_kind : FilePath → Outcome FileInfo → Result (Unit {0})
destination_kind destination (found info) =
    if is_symlink info.kind
    then err (lja "instruction destination is a symbolic link: %s" (loc destination ∷ []))
    else if not (is_regular info.kind)
    then err (lja "instruction destination is not a regular file: %s" (loc destination ∷ []))
    else ok tt
destination_kind destination (not_exist e) = ok tt
destination_kind destination (failed e) =
    err (wrap "cannot inspect instruction destination %s: %w" (loc destination ∷ []) e)

-- `validateInstructionDestination`
unfoldable pub validate_instruction_destination : Host → PathText → FilePath → Result (Unit {0})
unfolding destination_kind
validate_instruction_destination h state_root destination =
    canonical_path h state_root >>>= λ state.
    canonical_path h (path_text destination) >>>= λ resolved.
    if not (path_is_within resolved state)
    then err (lja "instruction destination leaves state root: %s" (loc destination ∷ []))
    else destination_kind destination (h.lstat destination)

-- Whether there are instructions to copy.
unfoldable pub source_kind : FilePath → Outcome FileInfo → Result Bool
source_kind source (found info) =
    if is_regular info.kind
    then ok true
    else err (lja "instruction source is not a regular file: %s" (loc source ∷ []))
source_kind source (not_exist e) = ok false
source_kind source (failed e) =
    err (wrap "cannot inspect instruction source %s: %w" (loc source ∷ []) e)

-- `firstError`, of the four results after a copy
abbrev first_error :
    Result (Unit {0})
    → Result (Unit {0})
    → Result (Unit {0})
    → Result (Unit {0})
    → Result (Unit {0})
first_error (err e) second third fourth = err e
first_error (ok _) (err e) third fourth = err e
first_error (ok _) (ok _) (err e) fourth = err e
first_error (ok _) (ok _) (ok _) fourth = fourth

abbrev unread_error : FilePath → Error → Result (Unit {0}) → Error
unread_error source e (ok _) = wrap "cannot read instruction source %s: %w" (loc source ∷ []) e
unread_error source e (err closing) =
    join_errors (wrap "cannot read instruction source %s: %w" (loc source ∷ []) e) closing

module _ (w : Worlds) (p : InstructionPaths) where
  abbrev replace_error : Error → Error
  replace_error = wrap "cannot replace instruction destination %s: %w" (loc p.destination ∷ [])

  -- After the attempt to open the source; whatever happens, both files are closed.
  unfoldable pub copy_opened : FilePath → Result (Unit {0}) → M (Unit {0})
  copy_opened temporary (err e) = do
    closed ← attempt (change w (close temporary))
    fail (unread_error p.source e closed)
  copy_opened temporary (ok _) = do
    copied ← attempt (change w (copy_from p.source temporary))
    source_closed ← attempt (change w (close p.source))
    synced ← attempt (change w (sync temporary))
    closed ← attempt (change w (close temporary))
    map_failure replace_error (lift (first_error copied source_closed synced closed))

  -- The temporary file gets the instructions and takes the place of the destination.
  unfoldable pub copy_and_rename : FilePath → M (Unit {0})
  copy_and_rename temporary = do
    was_opened ← attempt (change w (open_read p.source))
    copy_opened temporary was_opened
    map_failure replace_error (change w (rename temporary p.destination))

  unfoldable pub copy_instructions : M (Unit {0})
  copy_instructions =
      map_failure replace_error
        (create_temporary w (dir p.destination) ("." <> base p.destination <> "."))
      >>= λ temporary t. or_remove w temporary (copy_and_rename temporary t)

  -- The copy when there are instructions: the destination is checked again after its directory was made.
  unfoldable pub refresh_from : FilePath → Bool → M Bool
  refresh_from state false = pure false
  refresh_from state true = do
    make_directory w (dir p.destination)
    query w (λ h. validate_instruction_destination h (path_text state) p.destination)
    copy_instructions
    pure true

module _ (w : Worlds) where
  unfoldable pub refresh_paths : FilePath → InstructionPaths → M Bool
  refresh_paths state p = do
    query w (λ h. validate_instruction_destination h (path_text state) p.destination)
    present ← query w (λ h. source_kind p.source (h.stat p.source))
    refresh_from w p state present

  -- `RefreshAgentInstructions`: whether the instructions were copied
  unfoldable pub refresh_agent_instructions :
      PathText → String → Option (Dict String String) → M Bool
  refresh_agent_instructions state_root agent environment = do
    state ← query w (λ h. canonical_path h state_root)
    p ← query w (λ h. agent_instruction_paths h (path_text state) agent environment)
    refresh_paths state p
