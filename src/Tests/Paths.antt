-- ===== src/Tests/Paths.antt =====
-- Paths, the policy and the search of the sample host.
use mathlib.Core.List.{reverse}
use text.Mathlib.Text
use lima_jailed_agents.Base.{
  different, String, true, false, List, [], ◌∷◌, ◌++◌, FilePath, ◌≡◌, ◌↔◌, refl, arith,
}
use lima_jailed_agents.Base.{
  Result, ok, string_eq, string_discrete, strings_eq, strings_discrete, ◌==◌, ◌⊎◌,
}
use lima_jailed_agents.Base.{if◌then◌else◌}
use mathlib.Core.Path.{subst}
use lima_jailed_agents.Host.{found, not_exist, Outcome, Host, PathText}
use lima_jailed_agents.Discovery.{marked, go_on, discover, inspect, has_config, has_vm}
use lima_jailed_agents.Discovery.Laws.{
  Climb, Unmarked, here, up, discover_cases, discover-Climb, discover_accepts,
}
use lima_jailed_agents.Path.Canonical.{
  canonical_path, canonical_given, expand_home, expand_first, absolute_path, resolve_absolute,
  probe_loop, resolve_probe, normalize_darwin,
}
use lima_jailed_agents.Path.Canonical.Laws.{
  ResolvesClean, ResolvesBack, canonical_path-IsClean, canonical_path_again,
}
use lima_jailed_agents.Path.Policy.{Policy, rejection}
use lima_jailed_agents.Path.Policy.Laws.{IsAccepted, rejection_iff}
use lima_jailed_agents.Path.Slug.{project_slug}
use lima_jailed_agents.Path.Slug.Laws.{IsSlug, project_slug-IsSlug}
use lima_jailed_agents.Path.Text.{clean, clean_onto, enter, join, path_text, relative}
use lima_jailed_agents.Path.Text.Laws.{IsClean, IsName}
use lima_jailed_agents.Path.Within.{path_is_within, path_is_within_iff}
use lima_jailed_agents.Tests.Sample.{
  project, home, sample_host, sample_policy, resolve, stat_sample, sample_vm, own_directory, absent,
}

name :
    {s : String}
    → Text.◌==◌ s "" ≡ false
    → Text.◌==◌ s "." ≡ false
    → Text.◌==◌ s ".." ≡ false
    → IsName s
name a b c = (different a, different b, different c)

home-IsClean : IsClean home
home-IsClean = (name refl refl refl, (name refl refl refl, tt))

pub project-IsClean : IsClean project
project-IsClean = (name refl refl refl, (name refl refl refl, (name refl refl refl, tt)))

resolve-ResolvesClean : ResolvesClean sample_host
unfolding resolve
resolve-ResolvesClean p q e = ground (arith, home-IsClean, project-IsClean)

home_file :
    canonical_path sample_host ("~" ∷ "notes" ∷ ".." ∷ "work" ∷ "new" ∷ [])
    ≡ ok ("home" ∷ "u" ∷ "work" ∷ "new" ∷ [])
unfolding lima_jailed_agents.Path.Canonical.home_directory canonical_path canonical_given
    expand_home expand_first absolute_path resolve_absolute probe_loop resolve_probe
    normalize_darwin clean clean_onto enter join path_text string_eq string_discrete strings_eq
    strings_discrete resolve stat_sample
home_file = refl

canonical_path-IsClean_example : IsClean ("home" ∷ "u" ∷ "work" ∷ "new" ∷ [])
canonical_path-IsClean_example =
    canonical_path-IsClean sample_host ("~" ∷ "notes" ∷ ".." ∷ "work" ∷ "new" ∷ [])
      resolve-ResolvesClean home_file

-- A Mac, where /tmp is a link to /private/tmp.
abbrev private_directory : FilePath
private_directory = "private" ∷ "tmp" ∷ "work" ∷ []

abbrev public_directory : FilePath
public_directory = "tmp" ∷ "work" ∷ []

unfoldable resolve_mac : FilePath → Outcome FilePath
resolve_mac p =
    if p == private_directory
    then found private_directory
    else if p == public_directory
    then found private_directory
    else not_exist absent

abbrev mac : Host
mac = record sample_host { is_darwin = true; eval_symlinks = resolve_mac }

private-IsClean : IsClean private_directory
private-IsClean = (name refl refl refl, (name refl refl refl, (name refl refl refl, tt)))

resolve_mac-ResolvesClean : ResolvesClean mac
unfolding resolve_mac
resolve_mac-ResolvesClean p q e = ground (arith, private-IsClean)

resolves_private : (p r : FilePath) → resolve_mac p ≡ found r → private_directory ≡ r
unfolding resolve_mac
resolves_private p r e = ground arith

public_resolves : resolve_mac (normalize_darwin true private_directory) ≡ found private_directory
unfolding resolve_mac normalize_darwin string_eq string_discrete strings_eq strings_discrete
    lima_jailed_agents.Path.Canonical.is_alias
public_resolves = refl

resolve_mac-ResolvesBack : ResolvesBack mac
resolve_mac-ResolvesBack p r e =
    subst (λ x. resolve_mac (normalize_darwin true x) ≡ found x) (resolves_private p r e)
      public_resolves

abbrev typed_directory : PathText
typed_directory = "" ∷ "tmp" ∷ "." ∷ "work" ∷ []

typed_expands : expand_home mac typed_directory ≡ ok typed_directory
unfolding expand_home expand_first string_eq string_discrete
typed_expands = refl

typed_absolute : absolute_path mac typed_directory ≡ ok public_directory
unfolding absolute_path clean clean_onto enter string_eq string_discrete
typed_absolute = refl

typed_there : resolve_mac public_directory ≡ found private_directory
unfolding resolve_mac string_eq string_discrete strings_eq strings_discrete
typed_there = refl

typed_canonical : canonical_path mac typed_directory ≡ ok public_directory
unfolding canonical_path canonical_given expand_home expand_first absolute_path resolve_absolute
    normalize_darwin clean clean_onto enter string_eq string_discrete strings_eq strings_discrete
    resolve_mac lima_jailed_agents.Path.Canonical.is_alias
typed_canonical = refl

canonical_path_again_example : canonical_path mac (path_text public_directory) ≡ ok public_directory
canonical_path_again_example =
    canonical_path_again mac typed_directory typed_directory public_directory
      resolve_mac-ResolvesClean resolve_mac-ResolvesBack typed_expands typed_absolute typed_there
      typed_canonical

path_is_within_iff_example :
    (path_is_within project home ≡ true) ↔ ((rest : FilePath) × (project ≡ home ++ rest))
path_is_within_iff_example = path_is_within_iff project home project-IsClean

-- Names that begin with two dots are inside.
within_dots : path_is_within ("srv" ∷ "..data" ∷ []) ("srv" ∷ []) ≡ true
unfolding path_is_within relative lima_jailed_agents.Path.Within.leads_down string_eq
    string_discrete
within_dots = refl

within_sibling : path_is_within ("srv" ∷ "data2" ∷ []) ("srv" ∷ "data" ∷ []) ≡ false
unfolding path_is_within relative lima_jailed_agents.Path.Within.leads_down string_eq
    string_discrete
within_sibling = refl

project_slug-IsSlug_example : IsSlug (project_slug (λ c. c) ("home" ∷ "u" ∷ "-My.. Project-" ∷ []))
project_slug-IsSlug_example = project_slug-IsSlug (λ c. c) ("home" ∷ "u" ∷ "-My.. Project-" ∷ [])

rejection_iff_example : (rejection sample_policy project ≡ ok "") ↔ IsAccepted sample_policy project
rejection_iff_example = rejection_iff sample_policy project

-- The search from a directory in the project ends at the project, whose VM is listed.
abbrev names : Result (List String)
names = ok (sample_vm ∷ [])

abbrev vm_name_of : FilePath → Result String
vm_name_of p = ok (if p == project then sample_vm else "lja-other")

abbrev source_policy : Policy
source_policy = record {
  home = home;
  uid = 1000;
  stat =
      λ p. if p == ("home" ∷ "u" ∷ "work" ∷ "src" ∷ []) then found own_directory else stat_sample p;
}

abbrev source : FilePath
source = "home" ∷ "u" ∷ "work" ∷ "src" ∷ []

source_goes_on : inspect source_policy names vm_name_of source ≡ ok go_on
unfolding inspect rejection has_config has_vm stat_sample string_eq string_discrete strings_eq
    strings_discrete join clean_onto enter
source_goes_on = refl

project_marked : inspect source_policy names vm_name_of project ≡ ok marked
unfolding inspect rejection has_config has_vm stat_sample string_eq string_discrete strings_eq
    strings_discrete join clean_onto enter
project_marked = refl

climb : Climb source_policy names vm_name_of (reverse source) project
climb = up source_goes_on (here refl project_marked)

discover-Climb_example : discover source_policy names vm_name_of source ≡ ok project
discover-Climb_example = discover-Climb source_policy names vm_name_of source climb

discover_cases_example :
    Climb source_policy names vm_name_of (reverse source) project
    ⊎ (Unmarked source_policy names vm_name_of (reverse source) × (project ≡ source))
discover_cases_example = discover_cases source_policy names vm_name_of source discover-Climb_example

discover_accepts_example :
    (rejection source_policy source ≡ ok "") × (rejection source_policy project ≡ ok "")
discover_accepts_example =
    discover_accepts source_policy names vm_name_of source discover-Climb_example
