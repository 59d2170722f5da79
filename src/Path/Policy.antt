-- ===== src/Path/Policy.antt =====
-- path.go: which directories may be projects (`projectDirectoryPolicy`), and `ResolveProject`.
pub mod Laws
use lima_jailed_agents.Base.{
  String, Bool, true, false, not, Option, none, some, List, [], ◌∷◌, ℕ, FilePath,
}
use lima_jailed_agents.Base.{
  Result, ok, err, lja, wrap, str, loc, written, map_error, ◌>>=◌, ◌>>◌, require,
}
use lima_jailed_agents.Base.{◌==◌, string_eq, strings_eq, if◌then◌else◌, nat_eq}
use lima_jailed_agents.Host.{
  PathText, Host, FileInfo, Outcome, found, not_exist, failed, is_directory, to_result,
}
use lima_jailed_agents.Path.Canonical.{canonical_path, home_directory, is_empty}

pub record Policy : Type 0 where
  pub home : FilePath
  pub uid : ℕ
  pub stat : FilePath → Outcome FileInfo

unfoldable pub new_policy : Host → Result Policy
new_policy h = do
  home ← home_directory h
  canonical_home ← canonical_path h home
  ok (record { home = canonical_home; uid = h.uid; stat = h.stat })

owner_reason : Policy → FilePath → Option ℕ → Result String
owner_reason policy directory none =
    err (lja "cannot determine project directory owner: %s" (loc directory ∷ []))
owner_reason policy directory (some owner) =
    if nat_eq owner policy.uid
    then ok ""
    else ok "project directory is not owned by the current user"

info_reason : Policy → FilePath → FileInfo → Result String
unfolding owner_reason
info_reason policy directory info =
    if is_directory info.kind
    then owner_reason policy directory info.owner
    else ok "project is not a directory"

stat_reason : Policy → FilePath → Outcome FileInfo → Result String
unfolding info_reason
stat_reason policy directory (found info) = info_reason policy directory info
stat_reason policy directory (not_exist e) =
    err (wrap "cannot inspect project directory %s: %w" (loc directory ∷ []) e)
stat_reason policy directory (failed e) =
    err (wrap "cannot inspect project directory %s: %w" (loc directory ∷ []) e)

-- `rejection`: the reason why a directory is no project, "" if there is none
unfoldable pub rejection : Policy → FilePath → Result String
unfolding stat_reason
rejection policy directory =
    if directory == policy.home
    then ok "project must not be the user home directory"
    else stat_reason policy directory (policy.stat directory)

-- `validateProjectDirectory`
unfoldable pub validate_project_directory : Host → PathText → Result (Unit {0})
validate_project_directory h directory = do
  canonical ← canonical_path h directory
  policy ← new_policy h
  reason ← rejection policy canonical
  require (reason == "") (lja "%s: %s" (str reason ∷ loc canonical ∷ []))

abbrev or_else : PathText → PathText → PathText
or_else first second = if is_empty first then second else first

-- `ResolveProject`; the text "" stands for an argument that is not given
unfoldable pub resolve_project : Host → PathText → PathText → Result FilePath
resolve_project h project_argument current_directory = do
  candidate ←
      if is_empty (or_else project_argument current_directory)
      then map_error (wrap "cannot get current directory: %w" []) h.getwd
      else ok (or_else project_argument current_directory)
  project ←
      map_error (wrap "cannot resolve project %s: %w" (written candidate ∷ []))
        (canonical_path h candidate)
  info ←
      map_error (wrap "cannot resolve project %s: %w" (written candidate ∷ []))
        (to_result (h.stat project))
  require (is_directory info.kind) (lja "project is not a directory: %s" (loc project ∷ []))
  ok project
