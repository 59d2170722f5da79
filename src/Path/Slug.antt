-- ===== src/Path/Slug.antt =====
-- path.go: `ProjectSlug` and `ProjectVMName`. `lower` is what `strings.ToLower` does to one rune.
pub mod Laws
use Prim.Native.Char.{Char, code}
use Prim.Native.String.{slice, ◌++◌ as ◌<>◌}
use lima_jailed_agents.Base.{String, Bool, true, false, ◌&&◌, ◌||◌, List, [], ◌∷◌, map, FilePath, ℕ}
use lima_jailed_agents.Base.Chars.{chars, from_chars}
use lima_jailed_agents.Base.{if◌then◌else◌, leb, nat_eq, take}
use lima_jailed_agents.Host.{Host}
use lima_jailed_agents.Path.Text.{base}

abbrev pub dash : Char
dash = "-"

abbrev pub is_dash : Char → Bool
is_dash c = nat_eq (code c) b'-'

abbrev pub is_slug_char : Char → Bool
is_slug_char c = leb b'a' (code c) && leb (code c) b'z' || leb b'0' (code c) && leb (code c) b'9'

abbrev pub vm_slug_max_length : ℕ
vm_slug_max_length = 20

abbrev pub default_project_slug : List Char
default_project_slug = "p" ∷ "r" ∷ "o" ∷ "j" ∷ "e" ∷ "c" ∷ "t" ∷ []

-- The loop that fills `builder`; `separator` says that a dash was written last.
unfoldable pub slug_loop : Bool → List Char → List Char
slug_loop separator [] = []
slug_loop separator (c ∷ cs) =
    let kept = slug_loop false cs in
    let dropped = slug_loop true cs in
    if is_slug_char c then c ∷ kept else if separator then dropped else dash ∷ dropped

unfoldable pub trim_left : List Char → List Char
trim_left [] = []
trim_left (c ∷ cs) = if is_dash c then trim_left cs else c ∷ cs

unfoldable pub keep : Char → List Char → List Char
keep c [] = if is_dash c then [] else c ∷ []
keep c (d ∷ ds) = c ∷ d ∷ ds

unfoldable pub trim_right : List Char → List Char
unfolding keep
trim_right [] = []
trim_right (c ∷ cs) = keep c (trim_right cs)

-- `strings.Trim(slug, "-")`
unfoldable pub trim_dashes : List Char → List Char
trim_dashes cs = trim_right (trim_left cs)

unfoldable pub or_default : List Char → List Char
or_default [] = default_project_slug
or_default (c ∷ cs) = c ∷ cs

module _ (lower : Char → Char) where
  unfoldable pub project_slug : FilePath → List Char
  project_slug project =
      or_default
        (trim_dashes (take vm_slug_max_length (slug_loop false (map lower (chars (base project))))))

  -- `ProjectVMName`, with the twelve first digits of the hash
  unfoldable pub project_vm_name : Host → FilePath → String
  project_vm_name h project =
      "lja-" <> from_chars (project_slug project) <> "-" <> slice (h.sha256_hex project) 0 12
