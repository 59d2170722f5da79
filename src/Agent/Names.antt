-- ===== src/Agent/Names.antt =====
-- agent.go: `normalizeAgentNames`, `configuredAgentNames` and `effectiveAgentNames`.
use lima_jailed_agents.Base.{
  String, List, [], ◌∷◌, ◌++◌, ◌≡◌, ◌↔◌, refl, arith, All, inl, inr, sym, ap, ◌∙◌, Bool-cases,
  ok-injective,
}
use lima_jailed_agents.Base.{Result, ok, ◌>>=◌, >>=-eq_ok, string_eq, contains, if◌then◌else◌}
use lima_jailed_agents.Base.Unique.{unique, unique_from}
use lima_jailed_agents.Agent.{AgentSpec, agent_spec}

-- The loop of `normalizeAgentNames`.
unfoldable pub collect_names : List String → List String → Result (List String)
collect_names seen [] = ok []
collect_names seen (name ∷ names) =
    let known = collect_names seen names in
    let fresh = collect_names (name ∷ seen) names in
    agent_spec name >>= λ spec.
    if contains seen name then known else (fresh >>= λ rest. ok (name ∷ rest))

unfoldable pub normalize_agent_names : String → List String → Result (List String)
normalize_agent_names selected additional =
    agent_spec selected >>= λ spec. collect_names [] (selected ∷ additional)

-- The loop of `configuredAgentNames`.
unfoldable pub check_names : List String → Result (Unit {0})
check_names [] = ok tt
check_names (name ∷ names) = agent_spec name >>= λ spec. check_names names

-- `configuredAgentNames`, of the agents of a configuration
unfoldable pub configured_agent_names : List String → Result (List String)
configured_agent_names agents = check_names (unique agents) >>= λ done. ok (unique agents)

unfoldable pub effective_agent_names : String → List String → List String → Result (List String)
effective_agent_names selected with_agents agents = configured_agent_names agents >>= λ configured.
    normalize_agent_names selected (configured ++ with_agents)

-- The name of an agent.
abbrev pub IsAgent : String → Type 0
IsAgent name = (spec : AgentSpec) × (agent_spec name ≡ ok spec)

collect_names_unique :
    (seen names : List String) {result : List String}
    → collect_names seen names ≡ ok result
    → (result ≡ unique_from seen names) × All IsAgent names
unfolding collect_names unique_from
collect_names_unique seen [] e = (ground arith, tt)
collect_names_unique seen (name ∷ names) e =
    let (spec, s, k) = >>=-eq_ok (agent_spec name) _ e in
    elim (Bool-cases (contains seen name)) [
      | inl old ↦
          let (same, known) = collect_names_unique seen names (rw old at k) in
          (rw old same, ((spec, s), known))
      | inr new ↦
          let (rest, r, j) = >>=-eq_ok (collect_names (name ∷ seen) names) _ (rw new at k) in
          let (same, known) = collect_names_unique (name ∷ seen) names r in
          (rw new (sym (ok-injective j) ∙ ap (λ xs. name ∷ xs) same), ((spec, s), known))
    ]

unique-collect_names :
    (seen names : List String)
    → All IsAgent names
    → collect_names seen names ≡ ok (unique_from seen names)
unfolding collect_names unique_from
unique-collect_names seen [] a = refl
unique-collect_names seen (name ∷ names) ((spec, s), a) =
    rw s (
      ground (arith, unique-collect_names seen names a, unique-collect_names (name ∷ seen) names a))

-- A launch prepares the selected agent first and then the others, each once; and it fails exactly when one
-- of the names is no agent's.
pub normalize_agent_names_iff :
    (selected : String) (additional names : List String)
    → (normalize_agent_names selected additional ≡ ok names)
      ↔ ((names ≡ unique (selected ∷ additional)) × All IsAgent (selected ∷ additional))
unfolding normalize_agent_names unique
normalize_agent_names_iff selected additional names = (
  λ e.
      let (spec, s, k) = >>=-eq_ok (agent_spec selected) _ e in
      collect_names_unique [] (selected ∷ additional) k,
  λ (same, known).
      rw (known.0.1) (unique-collect_names [] (selected ∷ additional) known ∙ ap ok (sym same)),
)
