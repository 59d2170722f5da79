-- ===== src/Packages/OsRelease.antt =====
-- packages.go: the parser of /etc/os-release. `unquote` is `strconv.Unquote`.
use Prim.Native.Char.{Char}
use Prim.Native.String.{String}
use lima_jailed_agents.Base.{
  Bool, true, false, not, ◌||◌, Option, none, some, List, [], ◌∷◌, drop_last, Result, ok, err, lja,
  wrap,
}
use lima_jailed_agents.Base.{◌==◌, string_eq, if◌then◌else◌, map_error, ◌>>=◌}
use lima_jailed_agents.Base.Chars.{chars, from_chars, is_char, trim_space}
use lima_jailed_agents.Base.Dict.{Dict, lookup, insert}

-- `guestOSRelease`
pub record GuestOsRelease : Type 0 where
  pub id : String

abbrev last_is : Char → List Char → Bool
last_is quote [] = false
last_is quote (c ∷ []) = is_char (Prim.Native.Char.code quote) c
last_is quote (c ∷ d ∷ cs) = last_is quote (d ∷ cs)

abbrev is_quote : Char → Bool
is_quote c = is_char b'"' c || is_char b'\'' c

-- A quoted value of at least two characters, without or with the quotes of `strconv.Unquote`.
quoted_value : (String → Result String) → String → Char → List Char → Result String
unfolding from_chars
quoted_value unquote value quote rest =
    if not (last_is quote rest)
    then err (lja "invalid /etc/os-release quoting" [])
    else if is_char b'"' quote
    then map_error (wrap "invalid /etc/os-release quoted value: %w" []) (unquote value)
    else ok (from_chars (drop_last rest))

os_release_chars : (String → Result String) → String → List Char → Result String
unfolding quoted_value
os_release_chars unquote value [] = ok value
os_release_chars unquote value (c ∷ []) = ok value
os_release_chars unquote value (c ∷ d ∷ cs) =
    if is_quote c then quoted_value unquote value c (d ∷ cs) else ok value

-- `parseOSReleaseValue`
unfoldable pub parse_os_release_value : (String → Result String) → String → Result String
unfolding os_release_chars chars
parse_os_release_value unquote value = os_release_chars unquote value (chars value)

-- `strings.Cut(line, "=")` of the characters of a line
abbrev cons_name : Char → Option (List Char × List Char) → Option (List Char × List Char)
cons_name c none = none
cons_name c (some (name, value)) = some (c ∷ name, value)

unfoldable pub cut_line : List Char → Option (List Char × List Char)
cut_line [] = none
cut_line (c ∷ cs) =
    let rest = cut_line cs in if is_char b'=' c then some ([], cs) else cons_name c rest

-- `strings.Split(content, "\n")` as `bufio.Scanner` reads lines; that the last one has no carriage return
-- does not matter, since the lines are trimmed
abbrev cons_line : Char → List (List Char) → List (List Char)
cons_line c [] = (c ∷ []) ∷ []
cons_line c (line ∷ lines) = (c ∷ line) ∷ lines

unfoldable pub split_lines : List Char → List (List Char)
split_lines [] = []
split_lines (c ∷ cs) =
    let rest = split_lines cs in if is_char b'\n' c then [] ∷ rest else cons_line c rest

abbrev is_comment : List Char → Bool
is_comment [] = true
is_comment (c ∷ cs) = is_char b'#' c

module _ (unquote : String → Result String) where
  entry_of : Option (List Char × List Char) → Dict String String → Result (Dict String String)
  unfolding from_chars parse_os_release_value
  entry_of none values = err (lja "invalid /etc/os-release entry" [])
  entry_of (some (name, value)) values =
      let key = from_chars name in
      if key == "" || not (trim_space key == key)
      then err (lja "invalid /etc/os-release entry" [])
      else (do
        decoded ← parse_os_release_value unquote (from_chars value)
        ok (insert key decoded values))

  -- One line of the loop: blank lines and comments are skipped.
  read_line : List Char → Dict String String → Result (Dict String String)
  unfolding entry_of cut_line chars from_chars
  read_line line values =
      let trimmed = chars (trim_space (from_chars line)) in
      if is_comment trimmed then ok values else entry_of (cut_line trimmed) values

  unfoldable pub read_lines : List (List Char) → Dict String String → Result (Dict String String)
  unfolding read_line
  read_lines [] values = ok values
  read_lines (line ∷ lines) values = do next ← read_line line values; read_lines lines next

  abbrev value_of : Option String → String
  value_of none = ""
  value_of (some value) = value

  -- `parseGuestOSRelease`; `lower` is `unicode.ToLower`
  unfoldable pub parse_guest_os_release : (String → String) → String → Result GuestOsRelease
  unfolding read_lines split_lines chars
  parse_guest_os_release to_lower content = do
    values ← read_lines (split_lines (chars content)) []
    let id = value_of (lookup "ID" values)
    if id == "" then err (lja "/etc/os-release has no ID" []) else ok (record { id = to_lower id })
