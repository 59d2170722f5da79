-- ===== src/Tools/Resolve.antt =====
-- tools.go: `resolveLogicalTools`, a depth-first visit of the requested tools.
pub mod Laws
use mathlib.Core.Path.{subst}
use lima_jailed_agents.Base.{
  sym, ap, ◌∙◌, String, Bool, true, false, not, Option, none, some, List, [], ◌∷◌, ◌++◌, ◌≡◌, ◌≢◌,
  refl, arith, ℕ, zero, suc,
}
use lima_jailed_agents.Base.{
  Result, ok, err, Error, lja, external, str, ◌>>=◌, ◌==◌, string_eq, string_discrete, contains,
  if◌then◌else◌,
}
use lima_jailed_agents.Tools.{
  LogicalToolDefinition, LogicalToolPlan, logical_tool_definition, append_each, unknown_tool,
}
use lima_jailed_agents.Tools.{
  logical_tool_uv, logical_tool_prek, uv_definition, prek_definition, pipx_command,
}

-- What the closure `visit` keeps: the plan so far and the two sets of names.
pub record Visits : Type 0 where
  pub plan : LogicalToolPlan
  pub resolving : List String
  pub resolved : List String

abbrev pub delete_name : List String → String → List String
delete_name [] name = []
delete_name (x ∷ xs) name = if name == x then delete_name xs name else x ∷ delete_name xs name

-- After the prerequisites: the packages and the tool are added.
unfoldable pub add_tool : String → LogicalToolDefinition → Visits → Visits
add_tool name definition v = record {
  plan = record {
    native_packages = append_each v.plan.native_packages definition.native_packages;
    tools = v.plan.tools ++ (definition ∷ []);
  };
  resolving = delete_name v.resolving name;
  resolved = name ∷ v.resolved;
}

abbrev pub out_of_fuel : Error
out_of_fuel = external "no more levels of prerequisites are followed"

-- A loop over names that stops at the first error.
unfoldable pub visit_each : (String → Visits → Result Visits) → List String → Visits → Result Visits
visit_each step [] v = ok v
visit_each step (name ∷ names) v = step name v >>= λ u. visit_each step names u

unfoldable pub visit_definition :
    (String → Visits → Result Visits)
    → String
    → Visits
    → Result LogicalToolDefinition
    → Result Visits
visit_definition step name v (err e) = err e
visit_definition step name v (ok definition) =
    visit_each step definition.prerequisites (record v { resolving = name ∷ v.resolving }) >>= λ u.
    ok (add_tool name definition u)

-- `visit`; the fuel bounds the depth of the prerequisites
unfoldable pub visit : ℕ → String → Visits → Result Visits
visit zero name v = err out_of_fuel
visit (suc n) name v =
    let step = visit n in
    if contains v.resolved name
    then ok v
    else if contains v.resolving name
    then err (lja "logical tool dependency cycle includes %s" (str name ∷ []))
    else visit_definition step name v (logical_tool_definition name)

abbrev pub no_visits : Visits
no_visits = record {
  plan = record { native_packages = []; tools = [] };
  resolving = [];
  resolved = [];
}

-- `resolveLogicalTools`, with fuel for a tool, its prerequisites and theirs
unfoldable pub resolve_logical_tools : List String → Result LogicalToolPlan
resolve_logical_tools requested = visit_each (visit 3) requested no_visits >>= λ v. ok v.plan
