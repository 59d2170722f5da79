-- ===== src/Tests/Configs.antt =====
-- Configurations: merging, and the environment.
use lima_jailed_agents.Base.{String, false, some, [], ◌∷◌, ◌≡◌, refl, string_eq, string_discrete}
use lima_jailed_agents.Base.{ok}
use lima_jailed_agents.Base.Chars.{has_nul}
use lima_jailed_agents.Base.Dict.{Dict, lookup}
use lima_jailed_agents.Config.{DevelopmentConfig, default_development_config, resolve_environment}
use lima_jailed_agents.Config.Laws.{HasUniqueKeys, guest_value, resolve_environment-lookup}
use lima_jailed_agents.LimaConfig.{
  LimaValue, LimaConfig, scalar, mapping, empty, entry, merge_lima_config, find,
}
use lima_jailed_agents.LimaConfig.Laws.{IsMap, IsLeaf, get_path, get_path-merge_lima_config}

abbrev global : LimaConfig
global =
    entry "cpus" (scalar "2")
      (entry "ssh" (mapping (entry "port" (scalar "22") (entry "agent" (scalar "no") empty))) empty)

abbrev local : LimaConfig
local = entry "ssh" (mapping (entry "agent" (scalar "yes") empty)) empty

local-IsMap : IsMap local
unfolding IsMap find
local-IsMap = (refl, (refl, tt, tt), tt)

agent_yes : get_path ("ssh" ∷ "agent" ∷ []) (some (mapping local)) ≡ some (scalar "yes")
unfolding get_path find string_eq string_discrete
agent_yes = refl

yes-IsLeaf : IsLeaf (scalar "yes")
unfolding IsLeaf
yes-IsLeaf = tt

port_kept :
    get_path ("ssh" ∷ "port" ∷ []) (some (mapping (merge_lima_config global local)))
    ≡ some (scalar "22")
unfolding get_path find merge_lima_config string_eq string_discrete
    lima_jailed_agents.LimaConfig.set lima_jailed_agents.LimaConfig.inherited
port_kept = refl

get_path-merge_lima_config_example :
    get_path ("ssh" ∷ "agent" ∷ []) (some (mapping (merge_lima_config global local)))
    ≡ some (scalar "yes")
get_path-merge_lima_config_example =
    get_path-merge_lima_config ("ssh" ∷ "agent" ∷ []) global local local-IsMap yes-IsLeaf agent_yes

abbrev configured : DevelopmentConfig
configured = record default_development_config {
  env = ("EDITOR", "vi") ∷ [];
  env_passthrough = "LANG" ∷ "EDITOR" ∷ [];
}

abbrev caller : Dict String String
caller = ("LANG", "C") ∷ ("HOME", "/home/u") ∷ []

unique_keys : HasUniqueKeys configured.env
unfolding HasUniqueKeys
unique_keys = (refl, tt)

abbrev in_guest : Dict String String
in_guest = ("LANG", "C") ∷ ("EDITOR", "vi") ∷ []

resolved : resolve_environment configured caller ≡ ok in_guest
unfolding resolve_environment lima_jailed_agents.Config.validate_environment_configuration
    lima_jailed_agents.Config.validate_gpg_environment
    lima_jailed_agents.Config.validate_github_environment lima_jailed_agents.Config.pass_through
    string_eq lima_jailed_agents.Config.reject_nul has_nul
resolved = refl

resolve_environment-lookup_example :
    (lookup "LANG" in_guest ≡ guest_value configured caller "LANG")
    × ((v : String) → lookup "LANG" in_guest ≡ some v → has_nul v ≡ false)
resolve_environment-lookup_example =
    resolve_environment-lookup configured caller "LANG" unique_keys resolved
