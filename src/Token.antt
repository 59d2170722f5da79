-- ===== src/Token.antt =====
-- github.go: the validation and the choice of a GitHub token. What a token command would answer is a
-- parameter.
pub mod Laws
use Prim.Native.Char.{Char}
use Prim.Native.String.{◌++◌ as ◌<>◌}
use lima_jailed_agents.Base.{
  String, Bool, true, false, not, ◌&&◌, ◌||◌, Option, none, some, List, [], ◌∷◌, ℕ, ◌+◌, ExitStatus,
}
use lima_jailed_agents.Base.{
  Result, ok, err, Error, lja, wrap, str, num, exit, ◌>>=◌, ◌>>◌, ◌==◌, string_eq, if◌then◌else◌,
}
use lima_jailed_agents.Base.Chars.{chars, from_chars, is_char, is_space, is_control, any_char}
use lima_jailed_agents.Base.Dict.{Dict, lookup}
use lima_jailed_agents.Config.{GitHubConfig, token_names}
use lima_jailed_agents.Host.{Host, PathText}
use lima_jailed_agents.Path.Canonical.{home_directory, is_empty}

-- One line ending at the end is taken off, "\r\n" or "\n".
unfoldable pub strip_line_ending : List Char → List Char
strip_line_ending [] = []
strip_line_ending (c ∷ []) = if is_char 10 c then [] else c ∷ []
strip_line_ending (c ∷ d ∷ []) =
    let rest = strip_line_ending (d ∷ []) in if is_char 13 c && is_char 10 d then [] else c ∷ rest
strip_line_ending (c ∷ d ∷ e ∷ cs) = c ∷ strip_line_ending (d ∷ e ∷ cs)

unfoldable pub check_token : String → String → Result String
check_token value source =
    if value == ""
    then err (lja "GitHub token from %s is invalid: expected one nonempty line" (str source ∷ []))
    else if any_char (λ c. is_control c || is_space c) (chars value)
    then err (
        lja "GitHub token from %s is invalid: expected one nonempty line without control characters"
          (str source ∷ []))
    else ok value

-- `validateGitHubToken`
unfoldable pub validate_github_token : String → String → Bool → Result String
validate_github_token value source allow_trailing_line_ending =
    check_token
      (if allow_trailing_line_ending then from_chars (strip_line_ending (chars value)) else value)
      source

-- How the run of a token command ends.
pub data TokenReply : Type 0 where
  printed : String → TokenReply
  canceled : Error → TokenReply
  timed_out : TokenReply
  failed : ExitStatus → TokenReply
  not_run : Error → TokenReply

-- Every argument must have a character.
unfoldable pub check_arguments : ℕ → List String → Result (Unit {0})
check_arguments index [] = ok tt
check_arguments index (argument ∷ arguments) =
    let rest = check_arguments (index + 1) arguments in
    if argument == ""
    then err (lja "GitHub token command argument %d is empty" (num index ∷ []))
    else rest

-- `quote` is `strconv.Quote`, by which `%q` writes the command in the source of its token.
unfoldable pub token_of_reply : (String → String) → String → TokenReply → Result String
token_of_reply quote command (printed output) =
    validate_github_token output ("command " <> quote command) true
token_of_reply quote command (canceled cause) =
    err (wrap "GitHub token command %q was canceled: %v" (str command ∷ []) cause)
token_of_reply quote command timed_out =
    err (lja "GitHub token command %q timed out after %s" (str command ∷ str "30s" ∷ []))
token_of_reply quote command (failed status) =
    err (lja "GitHub token command %q failed with exit status %d" (str command ∷ exit status ∷ []))
token_of_reply quote command (not_run e) =
    err (wrap "cannot execute GitHub token command %q: %w" (str command ∷ []) e)

module _ (quote : String → String) (reply : List String → PathText → TokenReply) where
  -- `runGitHubTokenCommand`, in the home directory
  unfoldable pub run_github_token_command : List String → PathText → Result String
  run_github_token_command [] home = err (lja "GitHub token command is empty" [])
  run_github_token_command (command ∷ arguments) home = do
    check_arguments 0 (command ∷ arguments)
    token_of_reply quote command (reply (command ∷ arguments) home)

  unfoldable pub command_token : Host → GitHubConfig → PathText → Result String
  command_token h config host_home = do
    home ← if is_empty host_home then home_directory h else ok host_home
    run_github_token_command config.token_command home

  abbrev pub given_value : Option String → String
  given_value none = ""
  given_value (some value) = value

  -- The first of the names that the environment gives a value decides.
  unfoldable pub first_token : List String → Dict String String → Result String → Result String
  first_token [] environment otherwise = otherwise
  first_token (name ∷ names) environment otherwise =
      let rest = first_token names environment otherwise in
      if given_value (lookup name environment) == ""
      then rest
      else validate_github_token (given_value (lookup name environment)) name false

  abbrev pub no_token : Result String
  no_token = err (
      lja "GitHub authentication is enabled but no token was provided by %s, %s, or token_command"
        (str "GH_TOKEN" ∷ str "GITHUB_TOKEN" ∷ []))

  abbrev pub is_nil : List String → Bool
  is_nil [] = true
  is_nil (x ∷ xs) = false

  -- `resolveGitHubToken`
  unfoldable pub resolve_github_token :
      Host → GitHubConfig → Dict String String → PathText → Result String
  resolve_github_token h config environment host_home =
      if not config.enabled
      then ok ""
      else first_token token_names environment
          (if is_nil config.token_command then no_token else command_token h config host_home)
