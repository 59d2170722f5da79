-- ===== src/Token/Laws.antt =====
-- What a token that is resolved looks like, and which one it is.
use mathlib.Core.Path.{subst}
use lima_jailed_agents.Base.{String, Bool, true, false, ◌||◌, List, [], ◌∷◌, ◌≡◌, ◌≢◌, arith}
use lima_jailed_agents.Base.{
  Result, ok, >>=-eq_ok, ◌==◌, string_eq, if◌then◌else◌, Bool-cases, inl, inr, ◌⊎◌,
}
use lima_jailed_agents.Base.Chars.{chars, is_space, is_control, any_char}
use lima_jailed_agents.Base.Dict.{Dict, lookup}
use lima_jailed_agents.Config.{GitHubConfig, token_names}
use lima_jailed_agents.Host.{Host, PathText}
use lima_jailed_agents.Path.Canonical.{home_directory, is_empty}
use lima_jailed_agents.Token.{
  check_token, validate_github_token, TokenReply, printed, canceled, timed_out, failed, not_run,
  token_of_reply,
}
use lima_jailed_agents.Token.{
  check_arguments, run_github_token_command, command_token, first_token, resolve_github_token,
  given_value, is_nil, no_token,
}

-- A token: not empty, and without space and control characters, so one line.
abbrev pub IsToken : String → Type 0
IsToken token = (token ≢ "") × (any_char (λ c. is_control c || is_space c) (chars token) ≡ false)

check_token-IsToken :
    (value source : String) {token : String} → check_token value source ≡ ok token → IsToken token
unfolding check_token
check_token-IsToken value source {token} e = elim (string_eq.dec value "") [
  | yes empty ↦ absurd (ground arith)
  | no given ↦ elim (Bool-cases (any_char (λ c. is_control c || is_space c) (chars value))) [
    | inl bad ↦ absurd (ground arith)
    | inr fine ↦ let same : value ≡ token = ground arith in subst IsToken same (given, fine)
  ]
]

validate_github_token-IsToken :
    (value source : String) (ending : Bool) {token : String}
    → validate_github_token value source ending ≡ ok token
    → IsToken token
unfolding validate_github_token
validate_github_token-IsToken value source ending e = check_token-IsToken _ source e

token_of_reply-IsToken :
    (quote : String → String) (command : String) (r : TokenReply) {token : String}
    → token_of_reply quote command r ≡ ok token
    → IsToken token
unfolding token_of_reply
token_of_reply-IsToken quote command (printed output) e =
    validate_github_token-IsToken output _ true e
token_of_reply-IsToken quote command (canceled cause) e = cc
token_of_reply-IsToken quote command timed_out e = cc
token_of_reply-IsToken quote command (failed status) e = cc
token_of_reply-IsToken quote command (not_run x) e = cc

module _ (quote : String → String) (reply : List String → PathText → TokenReply) where
  run-IsToken :
      (command : List String) (home : PathText) {token : String}
      → run_github_token_command quote reply command home ≡ ok token
      → IsToken token
  unfolding run_github_token_command
  run-IsToken [] home e = cc
  run-IsToken (command ∷ arguments) home e =
      let (_, _, k) = >>=-eq_ok (check_arguments 0 (command ∷ arguments)) _ e in
      token_of_reply-IsToken quote command (reply (command ∷ arguments) home) k

  command_token-IsToken :
      (h : Host) (config : GitHubConfig) (host_home : PathText) {token : String}
      → command_token quote reply h config host_home ≡ ok token
      → IsToken token
  unfolding command_token
  command_token-IsToken h config host_home e =
      let (home, _, k) =
        >>=-eq_ok (if is_empty host_home then home_directory h else ok host_home) _ e in
      run-IsToken config.token_command home k

  first_token-IsToken :
      (names : List String) (environment : Dict String String) (otherwise : Result String)
      {token : String}
      → (otherwise ≡ ok token → IsToken token)
      → first_token quote reply names environment otherwise ≡ ok token
      → IsToken token
  unfolding first_token
  first_token-IsToken [] environment otherwise o e = o e
  first_token-IsToken (name ∷ names) environment otherwise o e =
      elim (Bool-cases (given_value quote reply (lookup name environment) == "")) [
        | inl empty ↦ first_token-IsToken names environment otherwise o (rw empty at e)
        | inr given ↦
            validate_github_token-IsToken (given_value quote reply (lookup name environment)) name
              false (rw given at e)
      ]

  -- Wherever it comes from, a token that is resolved where GitHub is enabled is not empty and has no space or
  -- control character; where GitHub is not enabled, there is none.
  pub resolve_github_token-IsToken :
      (h : Host) (config : GitHubConfig) (environment : Dict String String) (host_home : PathText)
      {token : String}
      → resolve_github_token quote reply h config environment host_home ≡ ok token
      → ((config.enabled ≡ true) × IsToken token) ⊎ ((config.enabled ≡ false) × (token ≡ ""))
  unfolding resolve_github_token command_token
  resolve_github_token-IsToken h config environment host_home {token} e =
      elim (Bool-cases config.enabled) [
        | inl on ↦ inl (on, first_token-IsToken token_names environment _ otherwise (rw on at e))
        | inr off ↦ inr (off, ground arith)
      ]
    where
      otherwise :
          (if is_nil quote reply config.token_command
              then no_token quote reply
              else command_token quote reply h config host_home)
            ≡ ok token
          → IsToken token
      otherwise k = elim (Bool-cases (is_nil quote reply config.token_command)) [
        | inl nothing ↦ absurd (ground arith)
        | inr some_command ↦ command_token-IsToken h config host_home (rw some_command at k)
      ]
