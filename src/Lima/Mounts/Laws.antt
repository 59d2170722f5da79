-- ===== src/Lima/Mounts/Laws.antt =====
-- When the mounts of an instance are accepted.
use mathlib.Core.Path.{subst}
use mathlib.Core.Bool.{false≢true}
use lima_jailed_agents.Base.{ok-injective}
use lima_jailed_agents.Base.{Bool-cases, >>=-eq_ok, ◌||◌, sym, ◌∙◌, require, Error}
use lima_jailed_agents.Base.{
  Bool, true, false, ◌≡◌, ◌≢◌, ◌↔◌, ◌⊎◌, inl, inr, List, [], ◌∷◌, arith, FilePath, ok,
}
use lima_jailed_agents.Base.{◌==◌, map, ap, strings_eq}
use lima_jailed_agents.Base.Unique.{unique}
use lima_jailed_agents.Host.{PathText, Host}
use lima_jailed_agents.Path.Canonical.{canonical_path, is_empty}
use lima_jailed_agents.Path.Within.{path_is_within, path_is_within_self}
use lima_jailed_agents.Lima.Instances.{LimaInstance}
use lima_jailed_agents.Lima.Mounts.{
  MountKey, expected_key, same_mounts, contains_all, mount_key_eq, actual_keys,
}
use lima_jailed_agents.Lima.Mounts.{
  expected_mount_paths, validate_project_mount, apart, mount_paths_of, with_state_root,
}

-- One mount is expected: the list has just that one.
pub same_mounts_one :
    (k : MountKey) (actual : List MountKey)
    → (same_mounts (k ∷ []) actual ≡ true) ↔ (actual ≡ k ∷ [])
unfolding same_mounts contains_all unique
same_mounts_one k [] = ground arith
same_mounts_one k (a ∷ []) = ground arith
same_mounts_one k (a ∷ b ∷ rest) = ground arith

-- Two are expected: the list has both of them and no other, in either order.
pub same_mounts_two :
    (k j : MountKey) (actual : List MountKey)
    → k ≢ j
    → (same_mounts (k ∷ j ∷ []) actual ≡ true) ↔ ((actual ≡ k ∷ j ∷ []) ⊎ (actual ≡ j ∷ k ∷ []))
unfolding same_mounts contains_all unique
same_mounts_two k j [] differ = ground arith
same_mounts_two k j (a ∷ []) differ = ground arith
same_mounts_two k j (a ∷ b ∷ []) differ = ground arith
same_mounts_two k j (a ∷ b ∷ c ∷ rest) differ = ground arith

-- One path, or two of which neither lies within the other.
abbrev pub AreApart : List FilePath → Type 0
AreApart (p ∷ []) = Unit {0}
AreApart (p ∷ s ∷ []) = (path_is_within s p ≡ false) × (path_is_within p s ≡ false)
AreApart _ = ⊥

apart-AreApart : (p s : FilePath) {paths : List FilePath} → apart p s ≡ ok paths → AreApart paths
unfolding apart
apart-AreApart p s {paths} e = elim (Bool-cases (path_is_within s p || path_is_within p s)) [
  | inl b ↦ absurd (ground arith)
  | inr b ↦ subst AreApart (apart_paths b) (ground arith)
]
  where
    apart_paths : path_is_within s p || path_is_within p s ≡ false → p ∷ s ∷ [] ≡ paths
    apart_paths b = ground arith

one-AreApart : (p : FilePath) {paths : List FilePath} → ok (p ∷ []) ≡ ok paths → AreApart paths
one-AreApart p {paths} e = subst AreApart (alone e) tt
  where
    alone : ok (p ∷ []) ≡ ok paths → p ∷ [] ≡ paths
    alone k = cc

mount_paths_of-AreApart :
    (p s : FilePath) {paths : List FilePath} → mount_paths_of p s ≡ ok paths → AreApart paths
unfolding mount_paths_of
mount_paths_of-AreApart p s e = elim (Bool-cases (s == p)) [
  | inl same ↦ one-AreApart p (rw same at e)
  | inr differ ↦ apart-AreApart p s (rw differ at e)
]

with_state_root-AreApart :
    (h : Host) (p : FilePath) (state_root : PathText) {paths : List FilePath}
    → with_state_root h p state_root ≡ ok paths
    → AreApart paths
unfolding with_state_root
with_state_root-AreApart h p state_root e = elim (Bool-cases (is_empty state_root)) [
  | inl empty ↦ one-AreApart p (rw empty at e)
  | inr given ↦
      let (s, _, k) = >>=-eq_ok (canonical_path h state_root) (mount_paths_of p) (rw given at e) in
      mount_paths_of-AreApart p s k
]

pub expected_mount_paths-AreApart :
    (h : Host) (project state_root : PathText) {paths : List FilePath}
    → expected_mount_paths h project state_root ≡ ok paths
    → AreApart paths
unfolding expected_mount_paths
expected_mount_paths-AreApart h project state_root e =
    let (p, _, k) = >>=-eq_ok (canonical_path h project) (λ p. with_state_root h p state_root) e in
    with_state_root-AreApart h p state_root k

-- The mounts of a canonical project: itself alone where no state root is given or the given one leads to it;
-- else itself and then the state root's canonical path, neither of which lies within the other.
abbrev pub AreMountsOf : Host → FilePath → PathText → List FilePath → Type 0
AreMountsOf h p state_root paths =
    ((is_empty state_root ≡ true) × (paths ≡ p ∷ []))
    ⊎ (((is_empty state_root ≡ false) × (canonical_path h state_root ≡ ok p) × (paths ≡ p ∷ []))
        ⊎ ((s : FilePath) × (is_empty state_root ≡ false)
            × (canonical_path h state_root ≡ ok s)
            × (path_is_within s p ≡ false)
            × (path_is_within p s ≡ false)
            × (paths ≡ p ∷ s ∷ [])))

mount_paths_of_cases :
    (p s : FilePath) {paths : List FilePath}
    → mount_paths_of p s ≡ ok paths
    → ((s ≡ p) × (paths ≡ p ∷ []))
      ⊎ ((path_is_within s p ≡ false) × (path_is_within p s ≡ false) × (paths ≡ p ∷ s ∷ []))
unfolding mount_paths_of apart
mount_paths_of_cases p s e = ground arith

-- The mount paths begin with the canonical path of the project, and are that alone or with a state root apart
-- from it: see `AreMountsOf`.
pub expected_mount_paths-AreMountsOf :
    (h : Host) (project state_root : PathText) {paths : List FilePath}
    → expected_mount_paths h project state_root ≡ ok paths
    → (p : FilePath) × (canonical_path h project ≡ ok p) × AreMountsOf h p state_root paths
unfolding expected_mount_paths with_state_root
expected_mount_paths-AreMountsOf h project state_root e =
    let (p, c, k) = >>=-eq_ok (canonical_path h project) (λ p. with_state_root h p state_root) e in
    elim (Bool-cases (is_empty state_root)) [
      | inl empty ↦ (p, c, inl (empty, sym (ok-injective (rw empty at k))))
      | inr given ↦
          let (s, r, j) =
            >>=-eq_ok (canonical_path h state_root) (mount_paths_of p) (rw given at k) in
          elim (mount_paths_of_cases p s j) [
            | inl (same, alone) ↦ (p, c, inr (inl (given, r ∙ ap ok same, alone)))
            | inr (out, back, both) ↦ (p, c, inr (inr (s, given, r, out, back, both)))
          ]
    ]

-- The keys are those of the paths, one for each, in any order.
abbrev pub AreExactly : List FilePath → List MountKey → Type 0
AreExactly (p ∷ []) keys = keys ≡ expected_key p ∷ []
AreExactly (p ∷ s ∷ []) keys =
    (keys ≡ expected_key p ∷ expected_key s ∷ []) ⊎ (keys ≡ expected_key s ∷ expected_key p ∷ [])
AreExactly _ keys = ⊥

expected_key-ne : (p s : FilePath) → path_is_within s p ≡ false → expected_key p ≢ expected_key s
expected_key-ne p s out e =
    let same : p ≡ s = ap (λ k. k.location) e in
    false≢true (sym out ∙ subst (λ q. path_is_within q p ≡ true) same (path_is_within_self p))

same_mounts-AreExactly :
    (paths : List FilePath) (keys : List MountKey)
    → AreApart paths
    → (same_mounts (map expected_key paths) keys ≡ true) ↔ AreExactly paths keys
same_mounts-AreExactly (p ∷ []) keys a = same_mounts_one (expected_key p) keys
same_mounts-AreExactly (p ∷ s ∷ []) keys a =
    same_mounts_two (expected_key p) (expected_key s) keys (expected_key-ne p s a.0)
same_mounts-AreExactly _ keys a = elim a [ ]

require-eq_ok : (b : Bool) (x : Error) → (require b x ≡ ok tt) ↔ (b ≡ true)
require-eq_ok b x = ground arith

-- An instance passes the check exactly when its mounts, their locations made canonical, are the expected
-- paths, each mounted writable at itself and once, in any order: no mount is missing, no other is there.
pub validate_project_mount_iff :
    (h : Host) (i : LimaInstance) (project state_root : PathText) {paths : List FilePath}
    {keys : List MountKey}
    → expected_mount_paths h project state_root ≡ ok paths
    → actual_keys h i.mounts ≡ ok keys
    → (validate_project_mount h i project state_root ≡ ok tt) ↔ AreExactly paths keys
unfolding validate_project_mount
validate_project_mount_iff h i project state_root {paths} {keys} e k =
    rw (e, k)
      (let exact =
          same_mounts-AreExactly paths keys
            (expected_mount_paths-AreApart h project state_root e) in
        let checked = require-eq_ok (same_mounts (map expected_key paths) keys) _ in
        (λ r. exact.0 (checked.0 r), λ r. checked.1 (exact.1 r)))
