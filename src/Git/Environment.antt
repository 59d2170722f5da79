-- ===== src/Git/Environment.antt =====
-- git.go: Git's configuration in the environment, `GIT_CONFIG_COUNT` and the keys and values by number, and what
-- GitHub needs there.
pub mod Names
pub mod Laws
use Prim.Native.String.{◌++◌ as ◌<>◌, slice, len}
use text.Mathlib.Text.{starts_with}
use lima_jailed_agents.Base.{
  String, ℕ, zero, suc, ◌+◌, Bool, true, false, not, ◌&&◌, ◌||◌, Option, none, some, List, [], ◌∷◌,
}
use lima_jailed_agents.Base.{
  Result, ok, err, Error, lja, str, num, ◌>>=◌, ◌>>◌, ◌==◌, string_eq, if◌then◌else◌, ltb, length,
  nat_eq,
}
use lima_jailed_agents.Base.Chars.{chars, any_char, is_char, is_space, is_control, has_nul}
use lima_jailed_agents.Base.Decimal.{itoa, atoi}
use lima_jailed_agents.Base.Dict.{Dict, lookup, insert}

-- `gitConfigEnvironmentEntry`
pub record GitConfigEnvironmentEntry : Type 0 where
  pub key : String
  pub value : String

abbrev pub count_env : String
count_env = "GIT_CONFIG_COUNT"

abbrev pub key_prefix : String
key_prefix = "GIT_CONFIG_KEY_"

abbrev pub value_prefix : String
value_prefix = "GIT_CONFIG_VALUE_"

-- `strings.TrimPrefix` of a name that has the prefix
abbrev pub after_prefix : String → String → String
after_prefix prefix name = slice name (len prefix) (len name)

-- The indices that some names carry behind a prefix.
abbrev pub has_index : List ℕ → ℕ → Bool
has_index [] i = false
has_index (j ∷ js) i = nat_eq i j || has_index js i

-- The number that a suffix spells, if it spells one as `Itoa` would.
index_of : String → Option ℕ → Option ℕ
index_of suffix none = none
index_of suffix (some i) = if itoa i == suffix then some i else none

unfoldable pub canonical_index : String → Option ℕ
unfolding index_of
canonical_index suffix = index_of suffix (atoi suffix)

-- `parseNames`: the indices of the names with a prefix. Go visits the names in any order, which can only
-- change which of several errors is reported.
add_index : String → String → Option ℕ → List ℕ → Result (List ℕ)
add_index prefix name none found =
    err (lja "invalid %s environment variable %s" (str prefix ∷ str name ∷ []))
add_index prefix name (some i) found =
    if has_index found i
    then err (lja "duplicate %s environment index %d" (str prefix ∷ num i ∷ []))
    else ok (i ∷ found)

unfoldable pub parse_names : String → Dict String String → List ℕ → Result (List ℕ)
unfolding add_index canonical_index
parse_names prefix [] found = ok found
parse_names prefix ((name, value) ∷ rest) found =
    let step =
      if starts_with name prefix
      then add_index prefix name (canonical_index (after_prefix prefix name)) found
      else ok found in
    step >>= λ next. parse_names prefix rest next

unfoldable pub check_below : (ℕ → Error) → ℕ → List ℕ → Result (Unit {0})
check_below outside count [] = ok tt
check_below outside count (i ∷ is) =
    let rest = check_below outside count is in if ltb i count then rest else err (outside i)

-- A key is a text without control characters, spaces and equals signs.
unfoldable pub is_valid_key : String → Bool
unfolding chars has_nul
is_valid_key key =
    not (key == "")
    && not (any_char (λ c. is_char b'=' c || is_control c || is_space c) (chars key))

missing_entry : ℕ → Error
missing_entry i = lja "%s is missing GIT_CONFIG entry %d" (str count_env ∷ num i ∷ [])

entry_of : ℕ → Option String → Option String → Result GitConfigEnvironmentEntry
unfolding missing_entry is_valid_key
entry_of i (some key) (some value) =
    if not (is_valid_key key)
    then err (lja "GIT_CONFIG_KEY_%d is invalid" (num i ∷ []))
    else if has_nul value
    then err (lja "GIT_CONFIG_VALUE_%d contains a NUL character" (num i ∷ []))
    else ok (record { key = key; value = value })
entry_of i _ _ = err (missing_entry i)

-- The entries from an index on, so many.
unfoldable pub read_entries : Dict String String → ℕ → ℕ → Result (List GitConfigEnvironmentEntry)
unfolding entry_of
read_entries environment i zero = ok []
read_entries environment i (suc n) =
    entry_of i (lookup (key_prefix <> itoa i) environment)
      (lookup (value_prefix <> itoa i) environment)
    >>= λ entry. read_entries environment (suc i) n >>= λ rest. ok (entry ∷ rest)

abbrev is_nil : List ℕ → Bool
is_nil [] = true
is_nil (x ∷ xs) = false

outside_key : ℕ → Error
outside_key i = lja "GIT_CONFIG_KEY_%d is outside %s" (num i ∷ str count_env ∷ [])

outside_value : ℕ → Error
outside_value i = lja "GIT_CONFIG_VALUE_%d is outside %s" (num i ∷ str count_env ∷ [])

counted : Dict String String → List ℕ → List ℕ → Option ℕ → Result (List GitConfigEnvironmentEntry)
unfolding outside_key outside_value
counted environment keys values none = err (lja "invalid %s value" (str count_env ∷ []))
counted environment keys values (some count) =
    if ltb (length environment) count
    then err (lja "%s is missing indexed entries" (str count_env ∷ []))
    else (check_below outside_key count keys
        >> (check_below outside_value count values >> read_entries environment 0 count))

entries_for :
    Dict String String → List ℕ → List ℕ → Option String → Result (List GitConfigEnvironmentEntry)
unfolding counted
entries_for environment keys values none =
    if is_nil keys && is_nil values
    then ok []
    else err (
        lja "%s is required when GIT_CONFIG_KEY_* or GIT_CONFIG_VALUE_* is set"
          (str count_env ∷ []))
entries_for environment keys values (some count) = counted environment keys values (atoi count)

-- `parseGitConfigEnvironment`
unfoldable pub parse_git_config_environment :
    Dict String String → Result (List GitConfigEnvironmentEntry)
unfolding entries_for
parse_git_config_environment environment = do
  keys ← parse_names key_prefix environment []
  values ← parse_names value_prefix environment []
  entries_for environment keys values (lookup count_env environment)

abbrev pub credential_key : String
credential_key = "credential.https://github.com.helper"

abbrev pub instead_of_key : String
instead_of_key = "url.https://github.com/.insteadOf"

-- The entries that make Git use HTTPS with the credentials of `gh` for GitHub.
abbrev pub managed_entries : List GitConfigEnvironmentEntry
managed_entries =
    record { key = credential_key; value = "" }
    ∷ record { key = credential_key; value = "!gh auth git-credential" }
    ∷ record { key = instead_of_key; value = "git@github.com:" }
    ∷ record { key = instead_of_key; value = "ssh://git@github.com/" }
    ∷ []

unfoldable pub write_entries :
    ℕ → List GitConfigEnvironmentEntry → Dict String String → Dict String String
write_entries i [] environment = environment
write_entries i (entry ∷ entries) environment = write_entries (suc i) entries (
    insert (value_prefix <> itoa i) entry.value
      (insert (key_prefix <> itoa i) entry.key environment))

-- `githubGitEnvironment`
unfoldable pub github_git_environment : Dict String String → Result (Dict String String)
github_git_environment environment = do
  entries ← parse_git_config_environment environment
  ok (
      insert count_env (itoa (length entries + length managed_entries))
        (write_entries (length entries) managed_entries environment))
