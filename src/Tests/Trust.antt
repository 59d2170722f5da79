-- ===== src/Tests/Trust.antt =====
-- The directories that agents trust, the update of their configurations, and the copy of instructions.
use lima_jailed_agents.Base.{
  String, Bool, true, false, Option, none, some, List, [], ◌∷◌, ◌≡◌, ◌≢◌, refl, All, FilePath,
  arith, Result, ok, err, lja, ok-injective, string_eq, string_discrete, strings_eq,
  strings_discrete, ◌==◌, if◌then◌else◌, different, sym, ◌∙◌, ap,
}
use lima_jailed_agents.Agent.Instructions.{InstructionPaths, refresh_paths}
use lima_jailed_agents.Agent.Instructions.Laws.{
  MakesOther as CopiesToOther, Refreshed, refresh_paths-Refreshed,
}
use lima_jailed_agents.AgentConfig.{
  ConfigFile, canonical_directories, canonical_from, update_config,
}
use lima_jailed_agents.AgentConfig.Laws.{MakesOther, Updated, update_config-Updated}
use lima_jailed_agents.Claude.{
  Object, claude_trusted_config, claude_file, trust_key, projects_key, entries_onto, fields_of,
  trust_each, trust_directory,
}
use lima_jailed_agents.Claude.Laws.{Trusts, claude_trusted_config-Trusts}
use lima_jailed_agents.Lima.Json.{Json, object, boolean, field, end}
use lima_jailed_agents.Path.Text.{base}
use lima_jailed_agents.Tests.Sample.{project, project_text, sample_host, running_world}

-- The texts "old" and "new" are a configuration that trusts nothing, and one that trusts the project.
unfoldable decode_sample : String → Result Json
decode_sample content =
    if content == "old"
    then ok (object (field "theme" (boolean false) end))
    else ok (
        object (
          field projects_key
            (object (field "/home/u/work" (object (field trust_key (boolean true) end)) end)) end))

abbrev encode_sample : Object → String
encode_sample root = "new"

abbrev valid_sample : String → Bool
valid_sample content = true

project_canonical : canonical_directories sample_host (project_text ∷ []) ≡ ok (project ∷ [])
unfolding canonical_directories canonical_from lima_jailed_agents.Path.Canonical.canonical_path
    lima_jailed_agents.Path.Canonical.canonical_given lima_jailed_agents.Path.Canonical.expand_home
    lima_jailed_agents.Path.Canonical.expand_first lima_jailed_agents.Path.Canonical.absolute_path
    lima_jailed_agents.Path.Canonical.resolve_absolute lima_jailed_agents.Path.Canonical.probe_loop
    lima_jailed_agents.Path.Canonical.resolve_probe
    lima_jailed_agents.Path.Canonical.normalize_darwin lima_jailed_agents.Path.Canonical.is_alias
    lima_jailed_agents.Path.Text.clean lima_jailed_agents.Path.Text.clean_onto
    lima_jailed_agents.Path.Text.enter lima_jailed_agents.Path.Text.join
    lima_jailed_agents.Path.Text.relative lima_jailed_agents.Path.Text.path_text
    lima_jailed_agents.Path.Text.split_path string_eq string_discrete strings_eq strings_discrete
    lima_jailed_agents.Tests.Sample.resolve
project_canonical = refl

claude_trusted :
    claude_trusted_config decode_sample encode_sample valid_sample
      (project_text ∷ [])
      sample_host
      "old"
    ≡ ok "new"
unfolding claude_trusted_config canonical_directories canonical_from
    lima_jailed_agents.Claude.original_root lima_jailed_agents.Claude.read_root
    lima_jailed_agents.Claude.root_of lima_jailed_agents.Claude.object_at
    lima_jailed_agents.Claude.claude_object lima_jailed_agents.Claude.trusted_already
    lima_jailed_agents.Claude.claude_trust_value lima_jailed_agents.Claude.trust_each
    lima_jailed_agents.Claude.trust_directory lima_jailed_agents.Claude.encode_changed
    lima_jailed_agents.Claude.validate_claude_trusted_config lima_jailed_agents.Claude.projects_of
    lima_jailed_agents.Claude.validate_each lima_jailed_agents.Claude.project_at
    lima_jailed_agents.Claude.trust_at lima_jailed_agents.Claude.require_trusted entries_onto
    fields_of decode_sample lima_jailed_agents.Path.Canonical.canonical_path
    lima_jailed_agents.Path.Canonical.canonical_given lima_jailed_agents.Path.Canonical.expand_home
    lima_jailed_agents.Path.Canonical.expand_first lima_jailed_agents.Path.Canonical.absolute_path
    lima_jailed_agents.Path.Canonical.resolve_absolute lima_jailed_agents.Path.Canonical.probe_loop
    lima_jailed_agents.Path.Canonical.resolve_probe
    lima_jailed_agents.Path.Canonical.normalize_darwin lima_jailed_agents.Path.Canonical.is_alias
    lima_jailed_agents.Path.Text.clean lima_jailed_agents.Path.Text.clean_onto
    lima_jailed_agents.Path.Text.enter lima_jailed_agents.Path.Text.join
    lima_jailed_agents.Path.Text.relative lima_jailed_agents.Path.Text.path_text
    lima_jailed_agents.Path.Text.split_path lima_jailed_agents.Path.Text.render
    lima_jailed_agents.Base.Chars.trim_space lima_jailed_agents.Base.Chars.chars string_eq
    string_discrete strings_eq strings_discrete lima_jailed_agents.Tests.Sample.resolve
claude_trusted = refl

claude_trusted_config-Trusts_example :
    (canonical : List FilePath) × (canonical_directories sample_host (project_text ∷ [])
      ≡ ok canonical)
    × All (Trusts decode_sample encode_sample valid_sample "new") canonical
claude_trusted_config-Trusts_example =
    claude_trusted_config-Trusts decode_sample encode_sample valid_sample (project_text ∷ [])
      sample_host "old" claude_trusted

abbrev sample_file : ConfigFile
sample_file = claude_file decode_sample encode_sample valid_sample (project_text ∷ [])

-- Files with different names are different files.
apart : {p q : FilePath} → base p ≢ base q → p ≢ q
apart other e = other (ap base e)

temporary_apart : MakesOther running_world sample_file project
unfolding lima_jailed_agents.Path.Text.join lima_jailed_agents.Path.Text.clean_onto
    lima_jailed_agents.Path.Text.enter string_eq string_discrete
temporary_apart t = apart (different refl)

update_config-Updated_example :
    Updated running_world sample_file project []
      (update_config running_world sample_file project [])
update_config-Updated_example =
    update_config-Updated running_world sample_file project temporary_apart []

abbrev sample_paths : InstructionPaths
sample_paths = record {
  source = "home" ∷ "u" ∷ ".claude" ∷ "CLAUDE.md" ∷ [];
  destination = "home" ∷ "u" ∷ "work" ∷ ".claude" ∷ "CLAUDE.md" ∷ [];
}

copy_apart : CopiesToOther running_world sample_paths
unfolding lima_jailed_agents.Path.Text.join lima_jailed_agents.Path.Text.clean_onto
    lima_jailed_agents.Path.Text.enter string_eq string_discrete
copy_apart t = apart (different refl)

refresh_paths-Refreshed_example :
    Refreshed running_world sample_paths project []
      (refresh_paths running_world project sample_paths [])
refresh_paths-Refreshed_example =
    refresh_paths-Refreshed running_world sample_paths project copy_apart []
