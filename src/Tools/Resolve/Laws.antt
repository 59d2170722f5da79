-- ===== src/Tools/Resolve/Laws.antt =====
-- The plan of the resolution in closed form.
use mathlib.Core.Path.{subst}
use lima_jailed_agents.Base.{
  sym, ap, ◌∙◌, String, Bool, true, false, Option, none, some, List, [], ◌∷◌, ◌≡◌, ◌≢◌, refl, arith,
}
use lima_jailed_agents.Base.{
  Result, ok, err, ◌>>=◌, ◌==◌, string_eq, string_discrete, contains, if◌then◌else◌,
}
use lima_jailed_agents.Tools.{LogicalToolPlan, logical_tool_definition, unknown_tool}
use lima_jailed_agents.Tools.{
  logical_tool_uv, logical_tool_prek, uv_definition, prek_definition, pipx_command,
}
use lima_jailed_agents.Tools.Resolve.{
  Visits, no_visits, add_tool, visit_each, visit_definition, visit, resolve_logical_tools,
}

-- The states that a visit reaches: nothing is resolved, or `uv`, or both tools.
data Stage : Type 0 where
  nothing just_uv both : Stage

visits_of : Stage → Visits
visits_of nothing = no_visits
visits_of just_uv = record {
  plan = record { native_packages = pipx_command ∷ []; tools = uv_definition ∷ [] };
  resolving = [];
  resolved = logical_tool_uv ∷ [];
}
visits_of both = record {
  plan = record {
    native_packages = pipx_command ∷ [];
    tools = uv_definition ∷ prek_definition ∷ [];
  };
  resolving = [];
  resolved = logical_tool_prek ∷ logical_tool_uv ∷ [];
}

with_uv : Stage → Stage
with_uv nothing = just_uv
with_uv s = s

visit_uv : (s : Stage) → visit 3 "uv" (visits_of s) ≡ ok (visits_of (with_uv s))
unfolding visit visit_definition visit_each add_tool logical_tool_definition visits_of with_uv
    string_eq string_discrete
visit_uv nothing = refl
visit_uv just_uv = refl
visit_uv both = refl

visit_prek : (s : Stage) → visit 3 "prek" (visits_of s) ≡ ok (visits_of both)
unfolding visit visit_definition visit_each add_tool logical_tool_definition visits_of string_eq
    string_discrete
visit_prek nothing = refl
visit_prek just_uv = refl
visit_prek both = refl

visit_unknown :
    (s : Stage) (name : String)
    → name ≢ "uv"
    → name ≢ "prek"
    → visit 3 name (visits_of s) ≡ err (unknown_tool name)
unfolding visit visit_definition logical_tool_definition visits_of
visit_unknown nothing name a b = ground arith
visit_unknown just_uv name a b = ground arith
visit_unknown both name a b = ground arith

-- The first name that is no tool's.
pub first_unknown : List String → Option String
first_unknown [] = none
first_unknown (name ∷ names) =
    if name == logical_tool_uv
    then first_unknown names
    else if name == logical_tool_prek
    then first_unknown names
    else some name

abbrev pub chosen_plan : Bool → Bool → LogicalToolPlan
chosen_plan prek uv =
    if prek
    then record {
      native_packages = pipx_command ∷ [];
      tools = uv_definition ∷ prek_definition ∷ [];
    }
    else if uv
    then record { native_packages = pipx_command ∷ []; tools = uv_definition ∷ [] }
    else record { native_packages = []; tools = [] }

-- The plan in closed form: `prek` needs `uv` before it, and `uv` the package `pipx`.
pub plan_for : List String → LogicalToolPlan
plan_for requested =
    chosen_plan (contains requested logical_tool_prek) (contains requested logical_tool_uv)

stage_at : Bool → Bool → Stage → Stage
stage_at prek uv s = if prek then both else if uv then with_uv s else s

stage_after : Stage → List String → Stage
unfolding stage_at
stage_after s requested =
    stage_at (contains requested logical_tool_prek) (contains requested logical_tool_uv) s

pub expected : {A : Type 0} → Option String → A → Result A
expected none a = ok a
expected (some name) a = err (unknown_tool name)

at_uv : (s : Stage) (prek uv : Bool) → stage_at prek uv (with_uv s) ≡ stage_at prek true s
unfolding stage_at with_uv
at_uv s true uv = refl
at_uv nothing false true = refl
at_uv nothing false false = refl
at_uv just_uv false true = refl
at_uv just_uv false false = refl
at_uv both false true = refl
at_uv both false false = refl

at_prek : (s : Stage) (prek uv : Bool) → stage_at prek uv both ≡ stage_at true uv s
unfolding stage_at with_uv
at_prek s true uv = refl
at_prek s false true = refl
at_prek s false false = refl

after_uv :
    (s : Stage) (names : List String) → stage_after (with_uv s) names ≡ stage_after s ("uv" ∷ names)
unfolding stage_after string_eq string_discrete
after_uv s names = at_uv s (contains names "prek") (contains names "uv")

after_prek :
    (s : Stage) (names : List String) → stage_after both names ≡ stage_after s ("prek" ∷ names)
unfolding stage_after string_eq string_discrete
after_prek s names = at_prek s (contains names "prek") (contains names "uv")

unknown_uv : (names : List String) → first_unknown ("uv" ∷ names) ≡ first_unknown names
unfolding first_unknown string_eq string_discrete
unknown_uv names = refl

unknown_prek : (names : List String) → first_unknown ("prek" ∷ names) ≡ first_unknown names
unfolding first_unknown string_eq string_discrete
unknown_prek names = refl

unknown_other :
    (name : String) (names : List String)
    → name ≢ "uv"
    → name ≢ "prek"
    → first_unknown (name ∷ names) ≡ some name
unfolding first_unknown
unknown_other name names a b = ground arith

abbrev Visited : Stage → List String → Type 0
Visited s requested =
    visit_each (visit 3) requested (visits_of s)
    ≡ expected (first_unknown requested) (visits_of (stage_after s requested))

Visited-uv :
    (s : Stage) (names : List String) → Visited (with_uv s) names → Visited s ("uv" ∷ names)
unfolding visit_each
Visited-uv s names rest = rw (visit_uv s, unknown_uv names, sym (after_uv s names)) rest

Visited-prek : (s : Stage) (names : List String) → Visited both names → Visited s ("prek" ∷ names)
unfolding visit_each
Visited-prek s names rest = rw (visit_prek s, unknown_prek names, sym (after_prek s names)) rest

Visited-other :
    (s : Stage) (name : String) (names : List String)
    → name ≢ "uv"
    → name ≢ "prek"
    → Visited s (name ∷ names)
unfolding visit_each expected
Visited-other s name names not_uv not_prek =
    ap (λ r. r >>= λ u. visit_each (visit 3) names u) (visit_unknown s name not_uv not_prek)
    ∙ sym (
        ap (λ o. expected o (visits_of (stage_after s (name ∷ names))))
          (unknown_other name names not_uv not_prek))

visit_each_lem : (s : Stage) (requested : List String) → Visited s requested
unfolding visit_each first_unknown stage_after stage_at expected
visit_each_lem s [] = refl
visit_each_lem s (name ∷ names) = elim (string_eq.dec name "uv") [
  | yes uv ↦
      subst (λ n. Visited s (n ∷ names)) (sym uv)
        (Visited-uv s names (visit_each_lem (with_uv s) names))
  | no not_uv ↦ elim (string_eq.dec name "prek") [
    | yes prek ↦
        subst (λ n. Visited s (n ∷ names)) (sym prek)
          (Visited-prek s names (visit_each_lem both names))
    | no not_prek ↦ Visited-other s name names not_uv not_prek
  ]
]

stage_plan : (prek uv : Bool) → (visits_of (stage_at prek uv nothing)).plan ≡ chosen_plan prek uv
unfolding visits_of stage_at with_uv
stage_plan true uv = refl
stage_plan false true = refl
stage_plan false false = refl

-- The resolution of any requested tools: the first unknown name is an error, and else the plan is the one in
-- closed form, which has each tool that is needed once, `uv` before `prek`, and `pipx` if there is any.
-- Three levels of fuel are enough, and no dependency cycle is met.
pub resolve_logical_tools_lem :
    (requested : List String)
    → resolve_logical_tools requested ≡ expected (first_unknown requested) (plan_for requested)
unfolding resolve_logical_tools plan_for visits_of expected stage_after
resolve_logical_tools_lem requested =
    ap (λ r. r >>= λ v. ok v.plan) (visit_each_lem nothing requested)
    ∙ end (first_unknown requested)
  where
    end :
        (o : Option String)
        → (expected o (visits_of (stage_after nothing requested)) >>= λ v. ok v.plan)
          ≡ expected o (plan_for requested)
    end none =
        ap ok
          (stage_plan (contains requested logical_tool_prek) (contains requested logical_tool_uv))
    end (some name) = refl
