-- ===== src/Tests/Commands.antt =====
-- A command of the program on the sample host, and a GitHub token.
use Prim.Native.String.{◌++◌ as ◌<>◌}
use lima_jailed_agents.Base.{
  String, Bool, true, false, Option, none, some, List, [], ◌∷◌, ◌≡◌, refl, ◌⊎◌, Result, ok, err,
}
use lima_jailed_agents.Base.{string_eq, string_discrete, strings_eq, strings_discrete}
use lima_jailed_agents.Cli.{Cli, Action, Launch, Command, make, open_shell, run_command}
use lima_jailed_agents.Cli.Laws.{Follows, run_command-Follows}
use lima_jailed_agents.Config.{DevelopmentConfig, GitHubConfig, default_development_config}
use lima_jailed_agents.Host.{PathText}
use lima_jailed_agents.Tests.Sample.{project, project_text, sample_host}
use lima_jailed_agents.Token.{TokenReply, printed, resolve_github_token}
use lima_jailed_agents.Token.Laws.{IsToken, resolve_github_token-IsToken}

abbrev sample_cli : Cli
sample_cli = record {
  recreate = true;
  with_agent = [];
  state_dir = none;
  project_state = true;
  arguments = "--" ∷ "test" ∷ [];
  all = false;
  update_agent = "";
}

abbrev load_default : PathText → Result DevelopmentConfig
load_default p = ok default_development_config

abbrev make_test : Action
make_test = open_shell project_text ("make" ∷ "test" ∷ []) project_text (record {
  recreate = true;
  state_root = project;
  development = default_development_config;
  environment = [];
})

runs_make :
    run_command sample_host load_default [] sample_cli project_text project_text make ≡ ok make_test
unfolding lima_jailed_agents.Cli.run_command lima_jailed_agents.Cli.requested_agents
    lima_jailed_agents.Cli.takes_recreate lima_jailed_agents.Cli.is_agent_command
    lima_jailed_agents.Cli.dispatch lima_jailed_agents.Cli.all_vms lima_jailed_agents.Cli.in_project
    lima_jailed_agents.Cli.with_configuration lima_jailed_agents.Cli.with_root
    lima_jailed_agents.Cli.launch lima_jailed_agents.Cli.forwarded_arguments
    lima_jailed_agents.StateRoot.resolve_state_root lima_jailed_agents.Config.resolve_environment
    lima_jailed_agents.Config.validate_environment_configuration
    lima_jailed_agents.Config.validate_gpg_environment
    lima_jailed_agents.Config.validate_github_environment lima_jailed_agents.Config.pass_through
    lima_jailed_agents.Config.reject_nul lima_jailed_agents.Path.Canonical.canonical_path
    lima_jailed_agents.Path.Canonical.canonical_given lima_jailed_agents.Path.Canonical.expand_home
    lima_jailed_agents.Path.Canonical.expand_first lima_jailed_agents.Path.Canonical.absolute_path
    lima_jailed_agents.Path.Canonical.resolve_absolute
    lima_jailed_agents.Path.Canonical.normalize_darwin lima_jailed_agents.Path.Canonical.is_alias
    lima_jailed_agents.Path.Canonical.home_directory lima_jailed_agents.Path.Text.clean
    lima_jailed_agents.Path.Text.clean_onto lima_jailed_agents.Path.Text.enter
    lima_jailed_agents.Path.Text.join string_eq string_discrete strings_eq strings_discrete
    lima_jailed_agents.Tests.Sample.resolve
runs_make = refl

run_command-Follows_example : Follows true make_test
run_command-Follows_example =
    run_command-Follows sample_host load_default [] sample_cli project_text project_text make
      runs_make

abbrev github : GitHubConfig
github = record { enabled = true; token_command = "gh" ∷ "auth" ∷ "token" ∷ [] }

abbrev token_reply : List String → PathText → TokenReply
token_reply command home = printed "gho_1\r\n"

abbrev quoted : String → String
quoted command = "\"" <> command <> "\""

token_found :
    resolve_github_token quoted token_reply sample_host github (("GH_TOKEN", "") ∷ []) ("" ∷ [])
    ≡ ok "gho_1"
unfolding resolve_github_token lima_jailed_agents.Token.first_token string_eq
    lima_jailed_agents.Token.command_token lima_jailed_agents.Path.Canonical.home_directory
    lima_jailed_agents.Token.run_github_token_command lima_jailed_agents.Token.check_arguments
    lima_jailed_agents.Token.token_of_reply lima_jailed_agents.Token.validate_github_token
    lima_jailed_agents.Token.check_token lima_jailed_agents.Base.Chars.from_chars
    lima_jailed_agents.Token.strip_line_ending lima_jailed_agents.Base.Chars.chars
token_found = refl

resolve_github_token-IsToken_example :
    ((github.enabled ≡ true) × IsToken "gho_1")
    ⊎ ((github.enabled ≡ false) × (◌≡◌ {A = String} "gho_1" ""))
resolve_github_token-IsToken_example =
    resolve_github_token-IsToken quoted token_reply sample_host github (("GH_TOKEN", "") ∷ [])
      ("" ∷ []) token_found
