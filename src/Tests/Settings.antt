-- ===== src/Tests/Settings.antt =====
-- A Codex configuration of three settings, for the project that it may trust.
use lima_jailed_agents.Base.{Error}
use lima_jailed_agents.Base.{Bool-cases, inl, inr}
use lima_jailed_agents.Codex.Read.{top_key}
use lima_jailed_agents.Codex.{table}
use lima_jailed_agents.Base.{◌&&◌, ◌||◌}
use lima_jailed_agents.Base.{
  String, Bool, true, false, Option, none, some, List, [], ◌∷◌, ◌≡◌, ◌≢◌, refl, All, FilePath,
  arith, Result, ok, err, lja, ok-injective, sym, ap, ◌∙◌, string_eq, string_discrete, strings_eq,
  strings_discrete, ◌==◌, if◌then◌else◌,
}
use lima_jailed_agents.AgentConfig.{canonical_directories, canonical_from}
use lima_jailed_agents.Codex.{
  TomlValue, text, boolean, trust_path, update_check_path, daemon_path, codex_configured_config,
}
use lima_jailed_agents.Codex.Trust.{Trusts}
use lima_jailed_agents.Codex.Laws.{Edits, IsSuppressed, codex_configured_config-Trusts}
use lima_jailed_agents.Tests.Sample.{project_text, sample_host}

-- Whether the project is trusted, and whether the two settings are off.
pub data Document : Type 0 where
  document : Bool → Bool → Bool → Document

trust_set : Bool → Option TomlValue
trust_set true = some (text "trusted")
trust_set false = none

off_set : Bool → Option TomlValue
off_set true = some (boolean false)
off_set false = none

-- What is under each top-level key, with the tables above a setting that is there.
unfoldable under_projects : Bool → List String → Option TomlValue
unfolding trust_set
under_projects trust path =
    if path == trust_path "/home/u/work"
    then trust_set trust
    else if trust && (path == "projects" ∷ [] || path == "projects" ∷ "/home/u/work" ∷ [])
    then some table
    else none

unfoldable under_features : Bool → List String → Option TomlValue
unfolding off_set
under_features daemon path =
    if path == daemon_path
    then off_set daemon
    else if daemon && path == "features" ∷ []
    then some table
    else none

unfoldable get_sample : Document → List String → Option TomlValue
unfolding off_set
get_sample (document trust update daemon) path =
    if top_key path == "projects"
    then under_projects trust path
    else if top_key path == "features"
    then under_features daemon path
    else if path == update_check_path
    then off_set update
    else none

unfoldable set_sample : Document → List String → String → Result Document
set_sample (document trust update daemon) path value =
    if path == trust_path "/home/u/work"
    then ok (document true update daemon)
    else if path == update_check_path
    then ok (document trust true daemon)
    else if path == daemon_path
    then ok (document trust update true)
    else err (lja "unknown setting" [])

-- Each document has a text of its own.
unfoldable bytes_sample : Document → String
bytes_sample (document true true true) = "all"
bytes_sample (document true true false) = "trust, update"
bytes_sample (document true false true) = "trust, daemon"
bytes_sample (document true false false) = "trust"
bytes_sample (document false true true) = "update, daemon"
bytes_sample (document false true false) = "update"
bytes_sample (document false false true) = "daemon"
bytes_sample (document false false false) = "none"

unfoldable parse_sample : String → Result Document
parse_sample s =
    if s == "all"
    then ok (document true true true)
    else if s == "trust, update"
    then ok (document true true false)
    else if s == "trust, daemon"
    then ok (document true false true)
    else if s == "trust"
    then ok (document true false false)
    else if s == "update, daemon"
    then ok (document false true true)
    else if s == "update"
    then ok (document false true false)
    else if s == "daemon"
    then ok (document false false true)
    else ok (document false false false)

abbrev valid_sample : String → Bool
valid_sample content = true

equal : (p q : List String) → (p == q) ≡ true → p ≡ q
equal p q e = ground arith

-- The three edits, each at its own path.
projects_elsewhere :
    (t u c : Bool) (at : List String)
    → top_key at ≢ "projects"
    → get_sample (document true u c) at ≡ get_sample (document t u c) at
unfolding get_sample
projects_elsewhere t u c at apart = ground arith

update_elsewhere :
    (t u c : Bool) (at : List String)
    → top_key at ≢ top_key update_check_path
    → get_sample (document t true c) at ≡ get_sample (document t u c) at
unfolding get_sample
update_elsewhere t u c at apart = elim (Bool-cases (at == update_check_path)) [
  | inl same ↦ absurd (apart (ap top_key (equal at update_check_path same)))
  | inr other ↦ rw other refl
]

features_elsewhere :
    (t u c : Bool) (at : List String)
    → top_key at ≢ "features"
    → get_sample (document t u true) at ≡ get_sample (document t u c) at
unfolding get_sample
features_elsewhere t u c at apart = ground arith

elsewhere_sample :
    (d e : Document) (path : List String) (value : String)
    → set_sample d path value ≡ ok e
    → (at : List String) → top_key at ≢ top_key path
    → get_sample e at ≡ get_sample d at
unfolding set_sample
elsewhere_sample (document t u c) e path value h at apart =
    elim (Bool-cases (path == trust_path "/home/u/work")) [
      | inl trust ↦
          ap (λ x. get_sample x at) (sym (ok-injective (rw trust at h)))
          ∙ projects_elsewhere t u c at (λ p. apart (p ∙ sym (ap top_key (equal path _ trust))))
      | inr no_trust ↦ elim (Bool-cases (path == update_check_path)) [
        | inl update ↦
            ap (λ x. get_sample x at) (sym (ok-injective (rw update at rw no_trust at h)))
            ∙ update_elsewhere t u c at (λ p. apart (p ∙ sym (ap top_key (equal path _ update))))
        | inr no_update ↦ elim (Bool-cases (path == daemon_path)) [
          | inl daemon ↦
              ap (λ x. get_sample x at)
                (sym (ok-injective (rw daemon at rw no_update at rw no_trust at h)))
              ∙ features_elsewhere t u c at
                  (λ p. apart (p ∙ sym (ap top_key (equal path _ daemon))))
          | inr none_of_them ↦
              absurd (impossible (rw none_of_them at rw no_update at rw no_trust at h))
        ]
      ]
    ]
  where
    impossible : {x : Error} → ◌≡◌ {A = Result Document} (err x) (ok e) → ⊥
    impossible q = cc

parsed_again : (d : Document) → parse_sample (bytes_sample d) ≡ ok d
unfolding parse_sample bytes_sample string_eq string_discrete
parsed_again (document true true true) = refl
parsed_again (document true true false) = refl
parsed_again (document true false true) = refl
parsed_again (document true false false) = refl
parsed_again (document false true true) = refl
parsed_again (document false true false) = refl
parsed_again (document false false true) = refl
parsed_again (document false false false) = refl

sample_edits : Edits parse_sample get_sample set_sample bytes_sample valid_sample
sample_edits = record {
  elsewhere = elsewhere_sample;
  read_again = λ d e h at. ap (λ x. get_sample x at) (ok-injective (sym h ∙ parsed_again d));
}

codex_configured :
    codex_configured_config parse_sample get_sample set_sample bytes_sample valid_sample
      (project_text ∷ [])
      sample_host
      "update"
    ≡ ok "all"
unfolding codex_configured_config canonical_directories canonical_from parse_sample get_sample
    set_sample bytes_sample trust_set off_set under_projects under_features
    lima_jailed_agents.Path.Canonical.canonical_path
    lima_jailed_agents.Path.Canonical.canonical_given lima_jailed_agents.Path.Canonical.expand_home
    lima_jailed_agents.Path.Canonical.expand_first lima_jailed_agents.Path.Canonical.absolute_path
    lima_jailed_agents.Path.Canonical.resolve_absolute lima_jailed_agents.Path.Canonical.probe_loop
    lima_jailed_agents.Path.Canonical.resolve_probe
    lima_jailed_agents.Path.Canonical.normalize_darwin lima_jailed_agents.Path.Canonical.is_alias
    lima_jailed_agents.Path.Text.clean lima_jailed_agents.Path.Text.clean_onto
    lima_jailed_agents.Path.Text.enter lima_jailed_agents.Path.Text.join
    lima_jailed_agents.Path.Text.relative lima_jailed_agents.Path.Text.path_text
    lima_jailed_agents.Path.Text.split_path string_eq string_discrete strings_eq strings_discrete
    lima_jailed_agents.Tests.Sample.resolve lima_jailed_agents.Path.Text.render
    lima_jailed_agents.Codex.codex_trusted_config lima_jailed_agents.Codex.trusted_config
    lima_jailed_agents.Codex.trust_each lima_jailed_agents.Codex.set_directory_trust
    lima_jailed_agents.Codex.require_table lima_jailed_agents.Codex.is_trusted
    lima_jailed_agents.Codex.validate_trust lima_jailed_agents.Codex.trust_after_edit
    lima_jailed_agents.Codex.codex_trust_value lima_jailed_agents.Codex.suppressed_config
    lima_jailed_agents.Codex.suppress_each lima_jailed_agents.Codex.set_suppression
    lima_jailed_agents.Codex.is_disabled lima_jailed_agents.Codex.validate_suppressions
    lima_jailed_agents.Codex.suppression_after_edit
codex_configured = refl

codex_configured_config-Trusts_example :
    (canonical : List FilePath) × (canonical_directories sample_host (project_text ∷ [])
      ≡ ok canonical)
    × All (Trusts parse_sample get_sample set_sample bytes_sample valid_sample "all") canonical
    × IsSuppressed parse_sample get_sample set_sample bytes_sample valid_sample "all"
codex_configured_config-Trusts_example =
    codex_configured_config-Trusts parse_sample get_sample set_sample bytes_sample valid_sample
      sample_edits (project_text ∷ []) sample_host "update" codex_configured
