-- ===== src/Agent/Invocation/Daemon.antt =====
-- When an invocation of codex has `--no-daemon`.
use text.Mathlib.Text.{starts_with}
use mathlib.Core.Path.{subst}
use lima_jailed_agents.Base.{
  String, Bool, false, not, ◌||◌, List, [], ◌∷◌, ◌≡◌, arith, sym, ap, ◌∙◌, refl,
}
use lima_jailed_agents.Base.{
  ok, ok-injective, ◌==◌, string_eq, string_discrete, contains, if◌then◌else◌,
}
use lima_jailed_agents.Base.Dict.{Dict}
use lima_jailed_agents.Agent.{
  agent_spec, codex_agent_name, codex_no_daemon_flag, codex_permission_flag,
}
use lima_jailed_agents.Agent.Invocation.{
  is_option, has_option, user_arguments, insert_flag, add_permission, add_no_daemon,
  build_agent_invocation,
}

-- Some argument gives `--no-daemon` a value, as `--no-daemon=false` does.
abbrev pub sets_no_daemon : List String → Bool
sets_no_daemon [] = false
sets_no_daemon (argument ∷ arguments) =
    starts_with argument "--no-daemon=" || sets_no_daemon arguments

-- The arguments without a `--no-daemon` at their beginning.
abbrev pub without_first : List String → List String
without_first [] = []
without_first (first ∷ rest) = if first == codex_no_daemon_flag then rest else first ∷ rest

has_option-no_daemon :
    (xs : List String)
    → has_option xs (codex_no_daemon_flag ∷ [])
      ≡ (contains xs codex_no_daemon_flag || sets_no_daemon xs)
unfolding has_option is_option
has_option-no_daemon [] = refl
has_option-no_daemon (x ∷ xs) = ground (arith, has_option-no_daemon xs)

add_no_daemon-contains :
    (xs : List String)
    → contains (add_no_daemon codex_agent_name xs) codex_no_daemon_flag
      ≡ (not (sets_no_daemon xs) || contains xs codex_no_daemon_flag)
unfolding add_no_daemon
add_no_daemon-contains xs = ground (arith, has_option-no_daemon xs)

flags_differ : (codex_no_daemon_flag == codex_permission_flag) ≡ false
unfolding string_eq string_discrete
flags_differ = refl

flag-starts_with : (x : String) → x ≡ codex_no_daemon_flag → starts_with x "--no-daemon=" ≡ false
flag-starts_with x e = subst (λ y. starts_with y "--no-daemon=" ≡ false) (sym e) refl

insert_flag-contains :
    (xs : List String)
    → contains (insert_flag codex_agent_name codex_permission_flag xs) codex_no_daemon_flag
      ≡ contains xs codex_no_daemon_flag
unfolding insert_flag
insert_flag-contains [] = ground (arith, flags_differ)
insert_flag-contains (x ∷ xs) = ground (arith, flags_differ)

insert_flag-sets :
    (xs : List String)
    → sets_no_daemon (insert_flag codex_agent_name codex_permission_flag xs) ≡ sets_no_daemon xs
unfolding insert_flag
insert_flag-sets [] = refl
insert_flag-sets (x ∷ xs) = ground arith

add_permission-contains :
    (xs : List String)
    → contains (add_permission codex_agent_name codex_permission_flag xs) codex_no_daemon_flag
      ≡ contains xs codex_no_daemon_flag
unfolding add_permission
add_permission-contains xs = ground (arith, insert_flag-contains xs)

add_permission-sets :
    (xs : List String)
    → sets_no_daemon (add_permission codex_agent_name codex_permission_flag xs) ≡ sets_no_daemon xs
unfolding add_permission
add_permission-sets xs = ground (arith, insert_flag-sets xs)

user_arguments_codex : (xs : List String) → user_arguments codex_agent_name xs ≡ without_first xs
unfolding user_arguments
user_arguments_codex [] = refl
user_arguments_codex (x ∷ xs) = ground arith

without_first-sets : (xs : List String) → sets_no_daemon (without_first xs) ≡ sets_no_daemon xs
without_first-sets [] = refl
without_first-sets (x ∷ xs) = ground (arith, flag-starts_with x)

-- An invocation of codex has the argument `--no-daemon` exactly when no argument of the user begins with
-- `--no-daemon=`, or the user gave `--no-daemon` at another place than the first.
pub build_agent_invocation-no_daemon :
    (arguments invocation : List String) (environment : Dict String String)
    → build_agent_invocation codex_agent_name arguments ≡ ok (invocation, environment)
    → contains invocation codex_no_daemon_flag
      ≡ (not (sets_no_daemon arguments) || contains (without_first arguments) codex_no_daemon_flag)
unfolding build_agent_invocation agent_spec string_eq string_discrete
build_agent_invocation-no_daemon arguments invocation environment e =
    let same = ap (λ p. p.0) (ok-injective e) in
    ap (λ xs. contains xs codex_no_daemon_flag) (sym same) ∙ chosen
  where
    permitted : List String
    permitted =
        add_permission codex_agent_name codex_permission_flag
          (user_arguments codex_agent_name arguments)

    chosen : contains (add_no_daemon codex_agent_name permitted) codex_no_daemon_flag ≡ (
        not (sets_no_daemon arguments) || contains (without_first arguments) codex_no_daemon_flag)
    chosen =
        rw
          (
            add_no_daemon-contains permitted,
            add_permission-sets (user_arguments codex_agent_name arguments),
            add_permission-contains (user_arguments codex_agent_name arguments),
            user_arguments_codex arguments,
            without_first-sets arguments,
          )
          refl
