-- ===== src/StateRoot/Laws.antt =====
-- A state root is the project or apart from it.
use mathlib.Core.Path.{subst}
use lima_jailed_agents.Base.{String, Bool, true, false, Option, FilePath, ◌≡◌, refl, sym, arith}
use lima_jailed_agents.Base.{ok, >>=-eq_ok, ok-injective, inl, inr, ◌⊎◌}
use lima_jailed_agents.Base.Dict.{Dict}
use lima_jailed_agents.Host.{
  Host, PathText, FileInfo, Outcome, found, not_exist, failed, is_directory,
}
use lima_jailed_agents.Path.Canonical.{canonical_path}
use lima_jailed_agents.Path.Within.{path_is_within}
use lima_jailed_agents.StateRoot.{
  resolve_state_root, resolve_configured_state_root, check_root, check_overlap, shared_state_root,
}

-- A shared root: neither inside the project nor around it, and if it is there, a directory.
pub record IsShared (h : Host) (project root : FilePath) : Type 0 where
  pub outside : path_is_within root project ≡ false
  pub not_around : path_is_within project root ≡ false
  pub kind : (info : FileInfo) → h.stat root ≡ found info → is_directory info.kind ≡ true

check_overlap-apart :
    (project root : FilePath)
    → check_overlap project root ≡ ok tt
    → (path_is_within root project ≡ false) × (path_is_within project root ≡ false)
unfolding check_overlap
check_overlap-apart project root e = ground arith

check_root-kind :
    (root : FilePath) (o : Outcome FileInfo)
    → check_root root o ≡ ok tt
    → (info : FileInfo) → o ≡ found info
    → is_directory info.kind ≡ true
unfolding check_root
check_root-kind root (found i) e info same = ground arith
check_root-kind root (not_exist x) e info same = cc
check_root-kind root (failed x) e info same = cc

shared_state_root-IsShared :
    (h : Host) (project : FilePath) (state_directory : Option String)
    (environment : Dict String String) {root : FilePath}
    → shared_state_root h project state_directory environment ≡ ok root
    → IsShared h project root
shared_state_root-IsShared h project state_directory environment {root} e =
    let (r, _, k) =
      >>=-eq_ok (resolve_configured_state_root h project state_directory environment) _ e in
    let (_, apart, j) = >>=-eq_ok (check_overlap project r) _ k in
    let (_, there, l) = >>=-eq_ok (check_root r (h.stat r)) _ j in
    subst (IsShared h project) (ok-injective l) (record {
      outside = (check_overlap-apart project r apart).0;
      not_around = (check_overlap-apart project r apart).1;
      kind = check_root-kind r (h.stat r) there;
    })

-- Whatever the option and the environment say, the state root is the canonical project, if the state is kept
-- there; else it is shared: neither lies within the other, and if the root is there, it is a directory.
pub resolve_state_root-IsShared :
    (h : Host) (project : PathText) (state_directory : Option String) (project_state : Bool)
    (environment : Option (Dict String String)) {root : FilePath}
    → resolve_state_root h project state_directory project_state environment ≡ ok root
    → (canonical : FilePath) × (canonical_path h project ≡ ok canonical)
      × (((project_state ≡ true) × (root ≡ canonical))
          ⊎ ((project_state ≡ false) × IsShared h canonical root))
unfolding resolve_state_root
resolve_state_root-IsShared h project state_directory true environment e =
    let (canonical, c, k) = >>=-eq_ok (canonical_path h project) _ e in
    (canonical, c, inl (refl, sym (ok-injective k)))
resolve_state_root-IsShared h project state_directory false environment e =
    let (canonical, c, k) = >>=-eq_ok (canonical_path h project) _ e in
    (canonical, c, inr (refl, shared_state_root-IsShared h canonical state_directory _ k))
