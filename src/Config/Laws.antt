-- ===== src/Config/Laws.antt =====
-- What the resolved environment holds.
use mathlib.Core.Path.{subst}
use lima_jailed_agents.Base.{
  String, true, false, not, ◌&&◌, Option, none, some, List, [], ◌∷◌, ◌≡◌, refl, sym, ap, ◌∙◌, arith,
}
use lima_jailed_agents.Base.{
  Result, ok, err, >>=-eq_ok, ok-injective, string_eq, contains, if◌then◌else◌, Bool-cases, inl,
  inr,
}
use lima_jailed_agents.Base.Chars.{has_nul}
use lima_jailed_agents.Base.Dict.{Dict, lookup, insert, copy, lookup-insert}
use lima_jailed_agents.Config.{
  DevelopmentConfig, is_set, missing, pass_through, reject_nul, resolve_environment,
  validate_environment_configuration,
}

-- No key occurs twice, as in a Go map.
unfoldable pub HasUniqueKeys : Dict String String → Type 0
HasUniqueKeys [] = Unit
HasUniqueKeys ((k, v) ∷ d) = (lookup k d ≡ none) × HasUniqueKeys d

abbrev pub first_of : Option String → Option String → Option String
first_of none b = b
first_of (some a) b = some a

lookup-copy :
    (j : String) (target source : Dict String String)
    → HasUniqueKeys source
    → lookup j (copy target source) ≡ first_of (lookup j source) (lookup j target)
unfolding HasUniqueKeys
lookup-copy j target [] u = refl
lookup-copy j target ((k, v) ∷ source) u =
    ground (arith, lookup-copy j (insert k v target) source u.1, lookup-insert j k v target, u.0)

-- What is passed through under a name.
abbrev pub passed_value :
    Dict String String
    → Dict String String
    → Dict String String
    → List String
    → String
    → Option String
passed_value env environment passed names j =
    if contains names j && not (is_set j env) then lookup j environment else lookup j passed

skip_explicit :
    (env environment passed : Dict String String) (name : String) (names : List String) (j : String)
    {o : Option String}
    → is_set name env ≡ true
    → o ≡ passed_value env environment passed names j
    → o ≡ passed_value env environment passed (name ∷ names) j
skip_explicit env environment passed name names j {o} explicit ih = elim (string_eq.dec j name) [
  | yes same ↦
      ih
      ∙ subst
          (λ n.
            passed_value env environment passed names n
            ≡ passed_value env environment passed (name ∷ names) n)
          (sym same) (ground (arith, explicit))
  | no differ ↦ ground arith
]

add_here :
    (env environment passed : Dict String String) (name value : String) (names : List String)
    {o : Option String}
    → is_set name env ≡ false
    → lookup name environment ≡ some value
    → o ≡ passed_value env environment (insert name value passed) names name
    → o ≡ passed_value env environment passed (name ∷ names) name
add_here env environment passed name value names other found ih =
    ground (arith, other, found, ih, lookup-insert name name value passed)

add_passed :
    (env environment passed : Dict String String) (name value : String) (names : List String)
    (j : String) {o : Option String}
    → is_set name env ≡ false
    → lookup name environment ≡ some value
    → o ≡ passed_value env environment (insert name value passed) names j
    → o ≡ passed_value env environment passed (name ∷ names) j
add_passed env environment passed name value names j {o} other found ih =
    elim (string_eq.dec j name) [
      | yes same ↦
          subst
            (λ n.
              o ≡ passed_value env environment (insert name value passed) names n
              → o ≡ passed_value env environment passed (name ∷ names) n)
            (sym same) (add_here env environment passed name value names other found) ih
      | no differ ↦ ground (arith, lookup-insert j name value passed)
    ]

passed_step :
    (env environment passed : Dict String String) (name : String) (names : List String)
    (o : Option String) {r : Dict String String}
    → lookup name environment ≡ o
    → elim o as (λ x. Result (Dict String String)) [
      | none ↦ err (missing name)
      | some value ↦ pass_through env environment (insert name value passed) names
    ]
      ≡ ok r
    → (value : String) × (lookup name environment ≡ some value)
      × (pass_through env environment (insert name value passed) names ≡ ok r)
passed_step env environment passed name names none same e = cc
passed_step env environment passed name names (some value) same e = (value, same, e)

pass_through-lookup :
    (env environment passed : Dict String String) (names : List String) (j : String)
    {r : Dict String String}
    → pass_through env environment passed names ≡ ok r
    → lookup j r ≡ passed_value env environment passed names j
unfolding pass_through
pass_through-lookup env environment passed [] j e = ground arith
pass_through-lookup env environment passed (name ∷ names) j {r} e =
    elim (Bool-cases (is_set name env)) [
      | inl explicit ↦
          skip_explicit env environment passed name names j explicit
            (pass_through-lookup env environment passed names j (rw explicit at e))
      | inr other ↦
          let (value, found, k) =
            passed_step env environment passed name names (lookup name environment) refl
              (rw other at e) in
          add_passed env environment passed name value names j other found
            (pass_through-lookup env environment (insert name value passed) names j k)
    ]

reject_nul-lookup :
    (d : Dict String String) (name : String) {v : String}
    → reject_nul d ≡ ok tt
    → lookup name d ≡ some v
    → has_nul v ≡ false
unfolding reject_nul
reject_nul-lookup [] name e found = cc
reject_nul-lookup ((k, w) ∷ d) name {v} e found = ground (arith, reject_nul-lookup d name {v = v})

-- The value of a variable in a guest: the configured one, or the caller's, if it is passed through.
unfoldable pub guest_value : DevelopmentConfig → Dict String String → String → Option String
guest_value config environment name =
    first_of (lookup name config.env)
      (if contains config.env_passthrough name then lookup name environment else none)

-- An environment that is resolved has under each name the configured value, or else the caller's if the name
-- is passed through, and nothing else; and no value has a NUL character.
pub resolve_environment-lookup :
    (config : DevelopmentConfig) (environment : Dict String String) (name : String)
    {r : Dict String String}
    → HasUniqueKeys config.env
    → resolve_environment config environment ≡ ok r
    → (lookup name r ≡ guest_value config environment name)
      × ((v : String) → lookup name r ≡ some v → has_nul v ≡ false)
unfolding resolve_environment guest_value
resolve_environment-lookup config environment name {r} unique_keys e =
    let (_, _, k₁) = >>=-eq_ok (validate_environment_configuration config) _ e in
    let (passed, p, k₂) =
      >>=-eq_ok (pass_through config.env environment [] config.env_passthrough) _ k₁ in
    let (_, _, k₃) = >>=-eq_ok (reject_nul config.env) _ k₂ in
    let (_, clean, k₄) = >>=-eq_ok (reject_nul (copy passed config.env)) _ k₃ in
    let same = ok-injective k₄ in
    let under = pass_through-lookup config.env environment [] config.env_passthrough name p in
    (
      ap (λ d. lookup name d) (sym same)
          ∙ lookup-copy name passed config.env unique_keys
          ∙ ground (arith, under),
      λ v found.
          reject_nul-lookup (copy passed config.env) name clean
            (ap (λ d. lookup name d) same ∙ found),
    )
