-- ===== src/Agent/Invocation/Laws.antt =====
-- What an invocation adds to the arguments of the user.
use mathlib.Core.Path.{subst}
use lima_jailed_agents.Base.{
  String, true, false, not, ◌&&◌, List, [], ◌∷◌, ◌≡◌, ◌≢◌, refl, arith, ◌⊎◌, inl, inr,
}
use lima_jailed_agents.Base.{ok, >>=-eq_ok, ok-injective, ◌==◌, string_eq, Bool-cases, sym, ap}
use lima_jailed_agents.Base.Dict.{Dict}
use lima_jailed_agents.Agent.{AgentSpec, agent_spec, codex_agent_name, codex_no_daemon_flag}
use lima_jailed_agents.Agent.Invocation.{
  permission_options, is_login_command, is_option, has_option, user_arguments, insert_flag,
}
use lima_jailed_agents.Agent.Invocation.{add_permission, add_no_daemon, build_agent_invocation}

-- The second list is the first with values of a kind put in.
pub data Inserts (P : String → Type 0) : List String → List String → Type 0 where
  done : Inserts P [] []
  keep : {x : String} {xs ys : List String} → Inserts P xs ys → Inserts P (x ∷ xs) (x ∷ ys)
  put : {y : String} {xs ys : List String} → P y → Inserts P xs ys → Inserts P xs (y ∷ ys)

Inserts-refl : (P : String → Type 0) (xs : List String) → Inserts P xs xs
Inserts-refl P [] = done
Inserts-refl P (x ∷ xs) = keep (Inserts-refl P xs)

-- A flag that the program puts in by itself.
unfoldable pub IsOwnFlag : String → String → Type 0
IsOwnFlag flag argument = (argument ≡ flag) ⊎ (argument ≡ codex_no_daemon_flag)

insert_flag-Inserts :
    (agent flag : String) (xs : List String)
    → Inserts (IsOwnFlag flag) xs (insert_flag agent flag xs)
unfolding insert_flag IsOwnFlag
insert_flag-Inserts agent flag [] = put (inl refl) done
insert_flag-Inserts agent flag (x ∷ xs) =
    elim (Bool-cases (agent == codex_agent_name && x == "exec")) [
      | inl exec ↦ rw exec (keep (put (inl refl) (Inserts-refl _ xs)))
      | inr other ↦ rw other (put (inl refl) (Inserts-refl _ (x ∷ xs)))
    ]

add_permission-Inserts :
    (agent flag : String) (xs : List String)
    → Inserts (IsOwnFlag flag) xs (add_permission agent flag xs)
unfolding add_permission
add_permission-Inserts agent flag xs =
    elim (Bool-cases (
      not (flag == "")
      && (not (is_login_command agent xs) && not (has_option xs (permission_options agent))))) [
        | inl wanted ↦ rw wanted (insert_flag-Inserts agent flag xs)
        | inr not_wanted ↦ rw not_wanted (Inserts-refl _ xs)
      ]

add_no_daemon-Inserts :
    (agent flag : String) {xs ys : List String}
    → Inserts (IsOwnFlag flag) xs ys
    → Inserts (IsOwnFlag flag) xs (add_no_daemon agent ys)
unfolding add_no_daemon IsOwnFlag
add_no_daemon-Inserts agent flag {ys} k =
    elim (Bool-cases
      (agent == codex_agent_name && not (has_option ys (codex_no_daemon_flag ∷ [])))) [
        | inl wanted ↦ rw wanted (put (inr refl) k)
        | inr not_wanted ↦ rw not_wanted k
      ]

-- The arguments `given`, or what follows a `--no-daemon` for codex at their beginning.
abbrev pub AreOf : String → List String → List String → Type 0
AreOf agent given kept =
    (kept ≡ given) ⊎ ((agent ≡ codex_agent_name) × (given ≡ codex_no_daemon_flag ∷ kept))

user_arguments-AreOf :
    (agent : String) (arguments : List String)
    → AreOf agent arguments (user_arguments agent arguments)
unfolding user_arguments
user_arguments-AreOf agent [] = inl refl
user_arguments-AreOf agent (first ∷ rest) = ground arith

-- An invocation keeps all arguments of the user in their order, but for codex not a `--no-daemon` that is the
-- first, and adds nothing but the agent's permission flag and `--no-daemon`.
pub build_agent_invocation-Inserts :
    (agent : String) (arguments invocation : List String) (environment : Dict String String)
    → build_agent_invocation agent arguments ≡ ok (invocation, environment)
    → (spec : AgentSpec) × (kept : List String) × (agent_spec agent ≡ ok spec)
      × AreOf agent arguments kept
      × Inserts (IsOwnFlag spec.permission_flag) kept invocation
unfolding build_agent_invocation
build_agent_invocation-Inserts agent arguments invocation environment e =
    let (spec, s, k) = >>=-eq_ok (agent_spec agent) _ e in
    let same = ap (λ p. p.0) (ok-injective k) in
    (
      spec,
      user_arguments agent arguments,
      s,
      user_arguments-AreOf agent arguments,
      rw (sym same) (
          add_no_daemon-Inserts agent spec.permission_flag
            (add_permission-Inserts agent spec.permission_flag (user_arguments agent arguments))),
    )

has_option-insert_flag :
    (agent flag : String) (xs options : List String)
    → is_option flag options ≡ true
    → has_option (insert_flag agent flag xs) options ≡ true
unfolding insert_flag has_option
has_option-insert_flag agent flag [] options own = ground arith
has_option-insert_flag agent flag (x ∷ xs) options own = ground arith

has_option-add_no_daemon :
    (agent : String) (xs options : List String)
    → has_option xs options ≡ true
    → has_option (add_no_daemon agent xs) options ≡ true
unfolding add_no_daemon has_option
has_option-add_no_daemon agent xs options h = ground arith

-- The permission flag of an agent is one of the agent's permission options.
own_flag-is_option :
    (agent : String) (spec : AgentSpec)
    → agent_spec agent ≡ ok spec
    → spec.permission_flag ≢ ""
    → is_option spec.permission_flag (permission_options agent) ≡ true
unfolding agent_spec permission_options is_option
own_flag-is_option agent spec s given = ground arith

has_option-add_permission :
    (agent flag : String) (xs : List String)
    → is_option flag (permission_options agent) ≡ true
    → flag ≢ ""
    → is_login_command agent xs ≡ false
    → has_option (add_permission agent flag xs) (permission_options agent) ≡ true
unfolding add_permission
has_option-add_permission agent flag xs own given other =
    ground (arith, has_option-insert_flag agent flag xs (permission_options agent) own)

-- An agent with a permission flag is launched with a permission option, the user's or its own flag, unless
-- the arguments log in.
pub build_agent_invocation-permission :
    (agent : String) (arguments invocation : List String) (environment : Dict String String)
    (spec : AgentSpec)
    → build_agent_invocation agent arguments ≡ ok (invocation, environment)
    → agent_spec agent ≡ ok spec
    → spec.permission_flag ≢ ""
    → is_login_command agent (user_arguments agent arguments) ≡ false
    → has_option invocation (permission_options agent) ≡ true
unfolding build_agent_invocation
build_agent_invocation-permission agent arguments invocation environment spec e s given other =
    let own = own_flag-is_option agent spec s given in
    let same = ap (λ p. p.0) (ok-injective (rw s at e)) in
    subst (λ xs. has_option xs (permission_options agent) ≡ true) same
      (has_option-add_no_daemon agent _ (permission_options agent) (
        has_option-add_permission agent spec.permission_flag (user_arguments agent arguments) own
          given other))
