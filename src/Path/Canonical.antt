-- ===== src/Path/Canonical.antt =====
-- path.go: `homeDirectory`, `expandHome`, `canonicalPath`, `configuredHostDirectory`.
pub mod Laws
use Prim.Native.String.{slice, len}
use mathlib.Core.List.{reverse}
use text.Mathlib.Text.{starts_with}
use lima_jailed_agents.Base.{String, Bool, true, false, none, some, List, [], ◌∷◌, ◌++◌, FilePath}
use lima_jailed_agents.Base.{
  ◌==◌, string_eq, if◌then◌else◌, Result, ok, err, lja, wrap, str, loc, written,
}
use lima_jailed_agents.Base.{map_error, ◌>>=◌}
use lima_jailed_agents.Base.Dict.{Dict, lookup}
use lima_jailed_agents.Host.{PathText, Host, found, not_exist, failed}
use lima_jailed_agents.Path.Text.{clean, join, split_path}

-- The text "".
abbrev pub is_empty : PathText → Bool
is_empty [] = true
is_empty (name ∷ []) = name == ""
is_empty (name ∷ next ∷ names) = false

-- A path that begins with a slash.
abbrev pub is_rooted : PathText → Bool
is_rooted [] = false
is_rooted (name ∷ []) = false
is_rooted (name ∷ next ∷ names) = name == ""

unfoldable pub home_directory : Host → Result PathText
home_directory h = do
  home ← map_error (wrap "cannot determine home directory: %w" []) h.user_home_dir
  if is_empty home then err (lja "home directory is empty" []) else ok home

-- A first element that begins with `~\`, as `path[:2]` and the rest.
unfoldable pub expand_first : Host → String → PathText → Result PathText
expand_first h name names =
    if starts_with name "~\\"
    then (do home ← home_directory h; ok (home ++ (slice name 2 (len name) ∷ names)))
    else ok (name ∷ names)

unfoldable pub expand_home : Host → PathText → Result PathText
expand_home h [] = ok []
expand_home h (name ∷ []) = if name == "~" then home_directory h else expand_first h name []
expand_home h (name ∷ next ∷ names) =
    if name == "~"
    then (do home ← home_directory h; ok (home ++ (next ∷ names)))
    else expand_first h name (next ∷ names)

-- `filepath.Abs`, which cleans its result
unfoldable pub absolute_path : Host → PathText → Result FilePath
absolute_path h p =
    if is_rooted p then ok (clean p) else (do directory ← h.getwd; ok (clean (directory ++ p)))

-- The aliases of `darwinPublicPathAliases`: /private/etc, /private/tmp and /private/var.
unfoldable pub is_alias : String → Bool
is_alias name = if name == "etc" then true else if name == "tmp" then true else name == "var"

unfoldable pub normalize_darwin : Bool → FilePath → FilePath
normalize_darwin true (first ∷ second ∷ names) =
    if first == "private"
    then (if is_alias second then second ∷ names else first ∷ second ∷ names)
    else first ∷ second ∷ names
normalize_darwin _ p = p

-- The nearest ancestor that is there, resolved, with the missing names behind it.
unfoldable pub resolve_probe : Host → PathText → FilePath → List String → Result FilePath
resolve_probe h p probe missing = elim (h.eval_symlinks probe) [
  | found resolved ↦ ok (normalize_darwin h.is_darwin (join resolved missing))
  | not_exist e ↦ err (wrap "cannot resolve path %s: %w" (written p ∷ []) e)
  | failed e ↦ err (wrap "cannot resolve path %s: %w" (written p ∷ []) e)
]

-- The loop over `probe`, whose names stand innermost first; `missing` is the Go slice backward.
unfoldable pub probe_loop : Host → PathText → FilePath → List String → List String → Result FilePath
probe_loop h p absolute [] missing = elim (h.lstat []) [
  | found _ ↦ resolve_probe h p [] missing
  | failed e ↦ err (wrap "cannot inspect path %s: %w" (loc [] ∷ []) e)
  | not_exist _ ↦ ok (normalize_darwin h.is_darwin absolute)
]
probe_loop h p absolute (name ∷ back) missing = elim (h.lstat (reverse (name ∷ back))) [
  | found _ ↦ resolve_probe h p (reverse (name ∷ back)) missing
  | failed e ↦ err (wrap "cannot inspect path %s: %w" (loc (reverse (name ∷ back)) ∷ []) e)
  | not_exist _ ↦ probe_loop h p absolute back (name ∷ missing)
]

unfoldable pub resolve_absolute : Host → PathText → FilePath → Result FilePath
resolve_absolute h p absolute = elim (h.eval_symlinks absolute) [
  | found resolved ↦ ok (normalize_darwin h.is_darwin resolved)
  | failed e ↦ err (wrap "cannot resolve path %s: %w" (written p ∷ []) e)
  | not_exist _ ↦ probe_loop h p absolute (reverse absolute) []
]

-- `canonicalPath` after its first test
unfoldable pub canonical_given : Host → PathText → Result FilePath
canonical_given h p = do
  expanded ← expand_home h p
  absolute ←
      map_error (wrap "cannot make path absolute %s: %w" (written p ∷ []))
        (absolute_path h expanded)
  resolve_absolute h p absolute

-- `canonicalPath`, which `canonicalProjectPath` and `canonicalHostPath` call
unfoldable pub canonical_path : Host → PathText → Result FilePath
canonical_path h p =
    if is_empty p then err (lja "path must not be empty" []) else canonical_given h p

-- `configuredHostDirectory`: the path that the environment names, or the default
unfoldable pub configured_host_directory :
    Host → Dict String String → String → PathText → Result FilePath
configured_host_directory h environment name default_path = elim (lookup name environment) [
  | none ↦ canonical_path h default_path
  | some value ↦
      if value == ""
      then err (lja "host environment %s must be a non-empty path" (str name ∷ []))
      else canonical_path h (split_path value)
]
