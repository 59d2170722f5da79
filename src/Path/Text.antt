-- ===== src/Path/Text.antt =====
-- The parts of Go's `path/filepath` that the program calls, over absolute paths: `Clean`, `Join`, `Dir`,
-- `Base` and `Rel`, and `strings.Split(path, "/")` with its inverse.
pub mod Laws
use Prim.Native.Char.{code}
use Prim.Native.String.{◌++◌ as ◌<>◌}
use mathlib.Core.List.{reverse}
use lima_jailed_agents.Base.{String, Bool, true, false, ◌||◌, List, [], ◌∷◌, ◌++◌, FilePath}
use lima_jailed_agents.Base.{◌==◌, string_eq, if◌then◌else◌, nat_eq, drop_last}
use lima_jailed_agents.Host.{PathText}

abbrev cons_char : String → PathText → PathText
cons_char c [] = c ∷ []
cons_char c (name ∷ names) = (c <> name) ∷ names

unfoldable pub split_path : String → PathText
split_path String.[] = "" ∷ []
split_path (String.◌∷◌ c s) =
    let names = split_path s in
    if nat_eq (code c) b'/' then "" ∷ names else cons_char (String.◌∷◌ c "") names

-- The path as text, with its leading slashes.
unfoldable pub render_names : FilePath → String
render_names [] = ""
render_names (name ∷ names) = "/" <> name <> render_names names

unfoldable pub render : FilePath → String
unfolding render_names
render [] = "/"
render (name ∷ names) = render_names (name ∷ names)

abbrev pub parent_names : List String → List String
parent_names [] = []
parent_names (name ∷ names) = names

-- One element of a rooted path, on the names kept so far, innermost first.
unfoldable pub enter : List String → String → List String
enter back name =
    if name == "" || name == "."
    then back
    else if name == ".."
    then parent_names back
    else name ∷ back

unfoldable pub clean_onto : List String → PathText → List String
clean_onto back [] = back
clean_onto back (name ∷ names) = clean_onto (enter back name) names

-- `filepath.Clean` of a rooted path
unfoldable pub clean : PathText → FilePath
clean names = reverse (clean_onto [] names)

-- `filepath.Join(directory, names...)`, for an absolute clean directory
unfoldable pub join : FilePath → PathText → FilePath
join directory names = reverse (clean_onto (reverse directory) names)

-- `filepath.Dir`
abbrev pub dir : FilePath → FilePath
dir = drop_last

-- `filepath.Base`
abbrev pub base : FilePath → String
base [] = "/"
base (name ∷ []) = name
base (name ∷ next ∷ names) = base (next ∷ names)

abbrev pub dots : FilePath → PathText
dots [] = []
dots (name ∷ names) = ".." ∷ dots names

-- `filepath.Rel(directory, path)` of two absolute clean paths, which never fails; "." is the empty list.
unfoldable pub relative : FilePath → FilePath → PathText
relative [] path = path
relative (d ∷ ds) [] = dots (d ∷ ds)
relative (d ∷ ds) (p ∷ ps) = if d == p then relative ds ps else dots (d ∷ ds) ++ (p ∷ ps)

-- The text of an absolute clean path, split at its slashes.
unfoldable pub path_text : FilePath → PathText
path_text [] = "" ∷ "" ∷ []
path_text (name ∷ names) = "" ∷ name ∷ names
