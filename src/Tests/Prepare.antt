-- ===== src/Tests/Prepare.antt =====
-- Agents prepared by a workflow, and Git's configuration in an environment.
use lima_jailed_agents.Base.{
  String, true, none, some, List, [], ◌∷◌, ◌++◌, ◌+◌, ◌≡◌, refl, ok, string_eq, string_discrete,
  length,
}
use lima_jailed_agents.Agent.Prepare.{Libraries, AgentSettings, with_agents}
use lima_jailed_agents.Agent.Prepare.Laws.{with_agents-GuestOnly}
use lima_jailed_agents.Base.Decimal.{itoa, atoi}
use lima_jailed_agents.Base.Dict.{Dict, lookup}
use lima_jailed_agents.Git.Environment.{
  GitConfigEnvironmentEntry, github_git_environment, parse_git_config_environment, read_entries,
  managed_entries, write_entries, parse_names, check_below, is_valid_key, canonical_index,
  count_env,
}
use lima_jailed_agents.Git.Environment.Laws.{github_git_environment-read}
use lima_jailed_agents.Lima.Json.{object, end}
use lima_jailed_agents.Tests.Sample.{
  project_text, running_world, sample_workflow, sample_guests, shell_script,
}
use lima_jailed_agents.Workflow.{GuestOnly}

abbrev sample_libraries : Libraries (List String)
sample_libraries = record {
  lower = λ c. c;
  unquote = λ s. ok s;
  valid = λ s. true;
  decode = λ s. ok (object end);
  encode = λ o. "{}";
  parse = λ s. ok (s ∷ []);
  get = λ d path. none;
  set = λ d path value. ok (value ∷ d);
  bytes = λ d. "";
}

abbrev sample_settings : AgentSettings
sample_settings = record {
  agents = "codex" ∷ "claude" ∷ [];
  trust_directories = project_text ∷ [];
  lock_directory = "" ∷ [];
}

with_agents-GuestOnly_example :
    GuestOnly
      (with_agents sample_libraries shell_script running_world sample_settings sample_workflow)
with_agents-GuestOnly_example =
    with_agents-GuestOnly sample_libraries shell_script running_world sample_settings
      sample_workflow sample_guests.development sample_guests.session sample_guests.github
      sample_guests.environment

abbrev git_environment : Dict String String
git_environment =
    ("GIT_CONFIG_COUNT", "1")
    ∷ ("GIT_CONFIG_KEY_0", "core.pager")
    ∷ ("GIT_CONFIG_VALUE_0", "cat")
    ∷ []

abbrev github_environment : Dict String String
github_environment =
    ("GIT_CONFIG_COUNT", "5")
    ∷ ("GIT_CONFIG_KEY_0", "core.pager")
    ∷ ("GIT_CONFIG_VALUE_0", "cat")
    ∷ ("GIT_CONFIG_KEY_1", "credential.https://github.com.helper")
    ∷ ("GIT_CONFIG_VALUE_1", "")
    ∷ ("GIT_CONFIG_KEY_2", "credential.https://github.com.helper")
    ∷ ("GIT_CONFIG_VALUE_2", "!gh auth git-credential")
    ∷ ("GIT_CONFIG_KEY_3", "url.https://github.com/.insteadOf")
    ∷ ("GIT_CONFIG_VALUE_3", "git@github.com:")
    ∷ ("GIT_CONFIG_KEY_4", "url.https://github.com/.insteadOf")
    ∷ ("GIT_CONFIG_VALUE_4", "ssh://git@github.com/")
    ∷ []

github_added : github_git_environment git_environment ≡ ok github_environment
unfolding github_git_environment parse_git_config_environment parse_names check_below read_entries
    write_entries is_valid_key canonical_index itoa atoi string_eq string_discrete
github_added = refl

github_git_environment-read_example :
    (entries : List GitConfigEnvironmentEntry) × (parse_git_config_environment git_environment
      ≡ ok entries)
    × (lookup count_env github_environment ≡ some (itoa (length entries + length managed_entries)))
    × (read_entries github_environment 0 (length entries + length managed_entries)
        ≡ ok (entries ++ managed_entries))
github_git_environment-read_example = github_git_environment-read git_environment github_added
