-- ===== src/Config.antt =====
-- config.go: the development configuration, its layers, and the environment that it gives to a guest; with
-- the checks of that environment, of config.go and gpg.go.
pub mod Laws
use lima_jailed_agents.Base.{
  String, Bool, true, false, not, ◌&&◌, Option, none, some, List, [], ◌∷◌, ◌++◌, ℕ, ◌+◌,
}
use lima_jailed_agents.Base.{
  Result, ok, err, Error, lja, str, loc, ◌>>=◌, ◌>>◌, require, ◌==◌, string_eq, contains,
  if◌then◌else◌, FilePath,
}
use lima_jailed_agents.Base.Chars.{has_nul}
use lima_jailed_agents.Base.Dict.{Dict, lookup, insert, copy}
use lima_jailed_agents.Base.Unique.{unique}
use lima_jailed_agents.LimaConfig.{LimaConfig, empty, merge_lima_config}

pub record SetupCommand : Type 0 where
  pub source : FilePath
  pub index : ℕ
  pub command : String

pub record GitHubConfig : Type 0 where
  pub enabled : Bool
  pub token_command : List String

pub record DevelopmentConfig : Type 0 where
  pub gpg_forwarding : Bool
  pub github : GitHubConfig
  pub lima : LimaConfig
  pub packages : List String
  pub tools : List String
  pub agents : List String
  pub copy_git_config : Bool
  pub env : Dict String String
  pub env_passthrough : List String
  pub setup : List SetupCommand

-- `sourceDevelopmentConfig`: a field that a file does not have is `none`
pub record SourceDevelopmentConfig : Type 0 where
  pub gpg_forwarding : Option Bool
  pub github_enabled : Option Bool
  pub token_command : Option (List String)
  pub lima : LimaConfig
  pub packages : Option (List String)
  pub tools : Option (List String)
  pub agents : Option (List String)
  pub copy_git_config : Option Bool
  pub env : Dict String String
  pub env_passthrough : Option (List String)
  pub setup : Option (List String)
  pub inherit_setup : Option Bool
  pub inherit_environment_passthrough : Option Bool

-- `DefaultDevelopmentConfig`
abbrev pub default_development_config : DevelopmentConfig
default_development_config = record {
  gpg_forwarding = false;
  github = record { enabled = false; token_command = [] };
  lima = empty;
  packages = "git" ∷ "make" ∷ [];
  tools = [];
  agents = [];
  copy_git_config = true;
  env = [];
  env_passthrough = [];
  setup = [];
}

abbrev pub or_keep : {A : Type 0} → Option A → A → A
or_keep none old = old
or_keep (some a) old = a

abbrev pub or_keep_unique : Option (List String) → List String → List String
or_keep_unique none old = old
or_keep_unique (some values) old = unique values

-- What a layer inherits of a list: nothing, where it says so.
abbrev pub inherited_list : {A : Type 0} → Option Bool → List A → List A
inherited_list (some false) old = []
inherited_list _ old = old

abbrev pub add_passthrough : List String → Option (List String) → List String
add_passthrough old none = old
add_passthrough old (some names) = unique (old ++ names)

abbrev pub number_commands : FilePath → ℕ → List String → List SetupCommand
number_commands path index [] = []
number_commands path index (command ∷ commands) =
    record { source = path; index = index; command = command }
    ∷ number_commands path (index + 1) commands

abbrev pub add_setup : FilePath → List SetupCommand → Option (List String) → List SetupCommand
add_setup path old none = old
add_setup path old (some commands) = old ++ number_commands path 1 commands

-- `applyDevelopmentConfig`
unfoldable pub apply_development_config :
    DevelopmentConfig → SourceDevelopmentConfig → FilePath → DevelopmentConfig
apply_development_config config source path = record {
  gpg_forwarding = or_keep source.gpg_forwarding config.gpg_forwarding;
  github = record {
    enabled = or_keep source.github_enabled config.github.enabled;
    token_command = or_keep source.token_command config.github.token_command;
  };
  lima = merge_lima_config config.lima source.lima;
  packages = or_keep_unique source.packages config.packages;
  tools = or_keep_unique source.tools config.tools;
  agents = or_keep_unique source.agents config.agents;
  copy_git_config = or_keep source.copy_git_config config.copy_git_config;
  env = copy config.env source.env;
  env_passthrough =
      add_passthrough (inherited_list source.inherit_environment_passthrough config.env_passthrough)
        source.env_passthrough;
  setup = add_setup path (inherited_list source.inherit_setup config.setup) source.setup;
}

abbrev pub is_set : String → Dict String String → Bool
is_set name values = elim (lookup name values) [ none ↦ false | some v ↦ true ]

abbrev pub gpg_home_env : String
gpg_home_env = "GNUPGHOME"

-- `validateGPGEnvironment`; `environment` is empty where Go passes nil
unfoldable pub validate_gpg_environment : DevelopmentConfig → Dict String String → Result (Unit {0})
validate_gpg_environment config environment =
    if not config.gpg_forwarding
    then ok tt
    else if is_set gpg_home_env config.env
    then err (lja "%s is managed by LJA when gpg_forwarding is enabled" (str gpg_home_env ∷ []))
    else if is_set gpg_home_env environment
    then err (lja "%s is managed by LJA when gpg_forwarding is enabled" (str gpg_home_env ∷ []))
    else if contains config.env_passthrough gpg_home_env
    then err
        (lja "%s cannot be passed through when gpg_forwarding is enabled" (str gpg_home_env ∷ []))
    else ok tt

abbrev pub token_names : List String
token_names = "GH_TOKEN" ∷ "GITHUB_TOKEN" ∷ []

unfoldable pub reject_set : List String → Dict String String → Result (Unit {0})
reject_set [] values = ok tt
reject_set (name ∷ names) values =
    let rest = reject_set names values in
    if is_set name values
    then err (lja "%s cannot be configured in env when github.enabled is true" (str name ∷ []))
    else rest

unfoldable pub reject_passed : List String → List String → Result (Unit {0})
reject_passed [] passthrough = ok tt
reject_passed (name ∷ names) passthrough =
    let rest = reject_passed names passthrough in
    if contains passthrough name
    then err (lja "%s cannot be passed through when github.enabled is true" (str name ∷ []))
    else rest

-- `validateGitHubEnvironment`
unfoldable pub validate_github_environment :
    DevelopmentConfig → Dict String String → Result (Unit {0})
validate_github_environment config environment = if not config.github.enabled then ok tt else (do
  reject_set token_names config.env
  reject_set token_names environment
  reject_passed token_names config.env_passthrough)

-- `validateEnvironmentConfiguration`
unfoldable pub validate_environment_configuration : DevelopmentConfig → Result (Unit {0})
validate_environment_configuration config = do
  validate_gpg_environment config []
  validate_github_environment config []

abbrev pub missing : String → Error
missing name = lja "caller environment variable %s is not set" (str name ∷ [])

-- The variables that are passed through, unless they are set explicitly.
unfoldable pub pass_through :
    Dict String String
    → Dict String String
    → Dict String String
    → List String
    → Result (Dict String String)
pass_through env environment passed [] = ok passed
pass_through env environment passed (name ∷ names) =
    let skipped = pass_through env environment passed names in
    if is_set name env then skipped else elim (lookup name environment) [
      | none ↦ err (missing name)
      | some value ↦ pass_through env environment (insert name value passed) names
    ]

unfoldable pub reject_nul : Dict String String → Result (Unit {0})
reject_nul [] = ok tt
reject_nul ((name, value) ∷ rest) =
    let others = reject_nul rest in
    if has_nul value
    then err (lja "environment variable %s contains a NUL character" (str name ∷ []))
    else others

-- `ResolveEnvironment`
unfoldable pub resolve_environment :
    DevelopmentConfig → Dict String String → Result (Dict String String)
resolve_environment config environment = do
  validate_environment_configuration config
  passed ← pass_through config.env environment [] config.env_passthrough
  reject_nul config.env
  reject_nul (copy passed config.env)
  ok (copy passed config.env)
