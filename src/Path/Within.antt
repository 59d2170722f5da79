-- ===== src/Path/Within.antt =====
-- path.go: `pathIsWithin`, the test by which mounts, locks and state directories are kept apart.
use mathlib.Core.Path.{subst}
use lima_jailed_agents.Base.{Bool, true, not, ◌≡◌, ◌↔◌, refl, sym, [], ◌∷◌, ◌++◌}
use lima_jailed_agents.Base.{FilePath, arith, ◌==◌, string_eq}
use lima_jailed_agents.Host.{PathText}
use lima_jailed_agents.Path.Text.{relative}
use lima_jailed_agents.Path.Text.Laws.{IsClean}

-- `relative == "." || (relative != ".." && !strings.HasPrefix(relative, "../"))`
unfoldable pub leads_down : PathText → Bool
leads_down [] = true
leads_down (name ∷ names) = not (name == "..")

unfoldable pub path_is_within : FilePath → FilePath → Bool
path_is_within path directory = leads_down (relative directory path)

within→append :
    (path directory : FilePath)
    → path_is_within path directory ≡ true
    → (rest : FilePath) × (path ≡ directory ++ rest)
unfolding path_is_within leads_down relative
within→append path [] h = (path, refl)
within→append [] (d ∷ ds) h = absurd (ground arith)
within→append (p ∷ ps) (d ∷ ds) h = elim (string_eq.dec d p) [
  | yes same ↦ let (rest, e) = within→append ps ds (ground arith) in (rest, ground arith)
  | no differ ↦ absurd (ground arith)
]

append→within :
    (directory rest : FilePath)
    → IsClean (directory ++ rest)
    → path_is_within (directory ++ rest) directory ≡ true
unfolding path_is_within leads_down relative
append→within [] [] c = refl
append→within [] (name ∷ rest) c = ground (arith, c.0.2)
append→within (d ∷ ds) rest c = ground (arith, append→within ds rest c.1)

-- A clean path lies within a directory exactly when the directory is an ancestor of it or the path
-- itself: the directory's names, and then others.
pub path_is_within_iff :
    (path directory : FilePath)
    → IsClean path
    → (path_is_within path directory ≡ true) ↔ ((rest : FilePath) × (path ≡ directory ++ rest))
path_is_within_iff path directory c = (
  within→append path directory,
  λ (rest, e).
      subst (λ p. path_is_within p directory ≡ true) (sym e)
        (append→within directory rest (subst IsClean e c)),
)

pub path_is_within_self : (path : FilePath) → path_is_within path path ≡ true
unfolding path_is_within leads_down relative
path_is_within_self [] = refl
path_is_within_self (name ∷ names) = ground (arith, path_is_within_self names)
