-- ===== src/Packages/Laws.antt =====
-- Which packages a configuration needs.
use lima_jailed_agents.Base.{
  String, Bool, false, ◌||◌, ◌&&◌, List, [], ◌∷◌, ◌++◌, ◌≡◌, refl, sym, ap, ◌∙◌, ok,
}
use lima_jailed_agents.Base.{
  ◌==◌, string_eq, contains, if◌then◌else◌, >>=-eq_ok, ok-injective, arith,
}
use lima_jailed_agents.Base.{}
use lima_jailed_agents.Base.Unique.{contains-unique, has_duplicate, has_duplicate-unique}
use lima_jailed_agents.Config.{DevelopmentConfig}
use lima_jailed_agents.Packages.{GuestPackageBackend, development_package_names}
use lima_jailed_agents.Packages.Ensure.{}
use lima_jailed_agents.Tools.{LogicalToolPlan}
use lima_jailed_agents.Tools.Resolve.{resolve_logical_tools}
use lima_jailed_agents.Packages.Benign.{}

contains-append :
    (xs ys : List String) (a : String) → contains (xs ++ ys) a ≡ (contains xs a || contains ys a)
contains-append [] ys a = refl
contains-append (x ∷ xs) ys a = ground (arith, contains-append xs ys a)

-- What the packages of a configuration are: those it names, the native packages of its tools, and those of
-- the features that it turns on.
abbrev pub is_needed : GuestPackageBackend → DevelopmentConfig → LogicalToolPlan → String → Bool
is_needed backend config plan a =
    contains config.packages a
    || contains plan.native_packages a
    || (config.gpg_forwarding && a == backend.gpg_package)
    || ((config.copy_git_config || config.github.enabled) && a == backend.git_package)
    || (config.github.enabled && a == backend.gh_package)

five :
    (xs ys gpg git gh : List String) (a : String)
    → contains (xs ++ (ys ++ (gpg ++ (git ++ gh)))) a
      ≡ (contains xs a || contains ys a || contains gpg a || contains git a || contains gh a)
five xs ys gpg git gh a = ground (
  arith,
  contains-append xs (ys ++ (gpg ++ (git ++ gh))) a,
  contains-append ys (gpg ++ (git ++ gh)) a,
  contains-append gpg (git ++ gh) a,
  contains-append git gh a,
)

features :
    (x y g c h : Bool) (gpg git gh a : String)
    → (x
        || y
        || contains (if g then gpg ∷ [] else []) a
        || contains (if c then git ∷ [] else []) a
        || contains (if h then git ∷ gh ∷ [] else []) a)
      ≡ (x || y || (g && a == gpg) || ((c || h) && a == git) || (h && a == gh))
features x y g c h gpg git gh a = ground arith

-- When the packages of a configuration are determined, its tools have a plan, no package is listed twice, and
-- a package is listed exactly when the configuration names it, the plan has it as a native package, or a
-- feature that is on needs it: signing with GPG, a copied Git configuration, or GitHub, which needs Git too.
pub development_package_names_iff :
    (backend : GuestPackageBackend) (config : DevelopmentConfig) {names : List String}
    → development_package_names backend config ≡ ok names
    → (plan : LogicalToolPlan) × (resolve_logical_tools config.tools ≡ ok plan)
      × (has_duplicate names ≡ false)
      × ((a : String) → contains names a ≡ is_needed backend config plan a)
unfolding development_package_names
development_package_names_iff backend config {names} e =
    let (plan, p, q) = >>=-eq_ok (resolve_logical_tools config.tools) _ e in
    let s = ok-injective q in
    (
      plan,
      p,
      ap has_duplicate (sym s) ∙ has_duplicate-unique _,
      λ a.
          ap (λ ns. contains ns a) (sym s)
          ∙ (contains-unique _ a
              ∙ (five config.packages plan.native_packages _ _ _ a
                  ∙ features (contains config.packages a) (contains plan.native_packages a)
                      config.gpg_forwarding config.copy_git_config config.github.enabled
                      backend.gpg_package backend.git_package backend.gh_package a)),
    )
