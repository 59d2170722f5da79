-- ===== src/Path/Canonical/Laws.antt =====
-- A canonical path is clean, and a canonical path that is there is its own canonical path.
use mathlib.Core.Path.{subst}
use lima_jailed_agents.Base.{sym, ◌∙◌, ok-injective, Bool-cases, inl, inr, err, Error, Result}
use lima_jailed_agents.Path.Canonical.{is_empty}
use lima_jailed_agents.Base.{String, Bool, true, ◌≡◌, List, [], ◌∷◌, FilePath, arith, ok}
use lima_jailed_agents.Base.{string_eq, ap, refl, >>=-eq_ok, map_error, map_error-eq_ok}
use lima_jailed_agents.Host.{PathText, Host, found}
use lima_jailed_agents.Path.Text.{clean, clean_onto, enter, path_text}
use lima_jailed_agents.Path.Text.Laws.{IsClean, clean-IsClean, join-IsClean, clean_of_IsClean}
use lima_jailed_agents.Path.Canonical.{
  canonical_path, canonical_given, resolve_absolute, probe_loop, resolve_probe, normalize_darwin,
}
use lima_jailed_agents.Path.Canonical.{absolute_path, expand_home, expand_first}

-- `filepath.EvalSymlinks` calls `Clean` on what it returns.
abbrev pub ResolvesClean : Host → Type 0
ResolvesClean h = (p q : FilePath) → h.eval_symlinks p ≡ found q → IsClean q

normalize_darwin-IsClean : (b : Bool) (p : FilePath) → IsClean p → IsClean (normalize_darwin b p)
unfolding normalize_darwin
normalize_darwin-IsClean true (first ∷ second ∷ names) h = ground arith
normalize_darwin-IsClean _ p h = h

absolute_path-IsClean :
    (h : Host) (p : PathText) {q : FilePath} → absolute_path h p ≡ ok q → IsClean q
unfolding absolute_path
absolute_path-IsClean h p e = grind (arith, clean-IsClean)

module _ (h : Host) (resolves : ResolvesClean h) (p : PathText) where
  resolve_probe-IsClean :
      (probe : FilePath) (missing : List String) {q : FilePath}
      → resolve_probe h p probe missing ≡ ok q
      → IsClean q
  unfolding resolve_probe
  resolve_probe-IsClean probe missing e =
      grind (arith, resolves, join-IsClean, normalize_darwin-IsClean)

  probe_loop-IsClean :
      (absolute : FilePath) (back missing : List String) {q : FilePath}
      → IsClean absolute
      → probe_loop h p absolute back missing ≡ ok q
      → IsClean q
  unfolding probe_loop
  probe_loop-IsClean absolute [] missing c e =
      grind (arith, resolve_probe-IsClean, normalize_darwin-IsClean)
  probe_loop-IsClean absolute (name ∷ back) missing c e =
      grind (arith, resolve_probe-IsClean, probe_loop-IsClean absolute back (name ∷ missing))

  resolve_absolute-IsClean :
      (absolute : FilePath) {q : FilePath}
      → IsClean absolute
      → resolve_absolute h p absolute ≡ ok q
      → IsClean q
  unfolding resolve_absolute
  resolve_absolute-IsClean absolute c e =
      grind (arith, resolves, normalize_darwin-IsClean, probe_loop-IsClean)

  canonical_given-IsClean : {q : FilePath} → canonical_given h p ≡ ok q → IsClean q
  unfolding canonical_given
  canonical_given-IsClean e =
      let (expanded, _, e₁) = >>=-eq_ok (expand_home h p) _ e in
      let (absolute, e₂, e₃) = >>=-eq_ok (map_error _ (absolute_path h expanded)) _ e₁ in
      let e₄ = map_error-eq_ok _ (absolute_path h expanded) e₂ in
      resolve_absolute-IsClean absolute (absolute_path-IsClean h expanded e₄) e₃

-- Whatever path is given, a canonical path is absolute and clean, if the system resolves links to clean
-- paths.
pub canonical_path-IsClean :
    (h : Host) (p : PathText) {q : FilePath}
    → ResolvesClean h
    → canonical_path h p ≡ ok q
    → IsClean q
unfolding canonical_path
canonical_path-IsClean h p resolves e = canonical_given-IsClean h resolves p (ground arith)

clean-path_text : (q : FilePath) → IsClean q → clean (path_text q) ≡ q
unfolding clean path_text clean_onto enter string_eq
clean-path_text [] c = refl
clean-path_text (name ∷ names) c = clean_of_IsClean (name ∷ names) c

canonical_path-path_text :
    (h : Host) (q : FilePath) {r : FilePath}
    → IsClean q
    → h.eval_symlinks q ≡ found r
    → canonical_path h (path_text q) ≡ ok (normalize_darwin h.is_darwin r)
unfolding canonical_path canonical_given expand_home expand_first absolute_path resolve_absolute
    path_text string_eq
canonical_path-path_text h [] c there =
    rw (clean-path_text [] c) (rw (there, resolve_absolute) refl)
canonical_path-path_text h (name ∷ names) c there =
    rw (clean-path_text (name ∷ names) c) (rw (there, resolve_absolute) refl)

-- What `filepath.EvalSymlinks` returns has no links, and on macOS the short name that `canonicalPath` gives it,
-- such as /tmp for /private/tmp, is a link to it: what is resolved resolves to itself, by this name too.
abbrev pub ResolvesBack : Host → Type 0
ResolvesBack h =
    (p r : FilePath)
    → h.eval_symlinks p ≡ found r
    → h.eval_symlinks (normalize_darwin h.is_darwin r) ≡ found r

canonical_path-there :
    (h : Host) (p expanded : PathText) (absolute : FilePath) {r q : FilePath}
    → expand_home h p ≡ ok expanded
    → absolute_path h expanded ≡ ok absolute
    → h.eval_symlinks absolute ≡ found r
    → canonical_path h p ≡ ok q
    → q ≡ normalize_darwin h.is_darwin r
unfolding canonical_path canonical_given resolve_absolute
canonical_path-there h p expanded absolute e a there k = elim (Bool-cases (is_empty p)) [
  | inl empty ↦ absurd (impossible (rw empty at k))
  | inr given ↦ sym (ok-injective (rw (there, resolve_absolute) at rw a at rw e at rw given at k))
]
  where
    impossible : {A : Type 0} {x : Error} {y : A} → ◌≡◌ {A = Result A} (err x) (ok y) → ⊥
    impossible j = cc

-- To make a path canonical again changes nothing, if the path, made absolute, is there: the canonical path,
-- written out, is its own canonical path. The system's resolution of links must give clean paths that resolve
-- back to themselves.
pub canonical_path_again :
    (h : Host) (p expanded : PathText) (absolute : FilePath) {r q : FilePath}
    → ResolvesClean h
    → ResolvesBack h
    → expand_home h p ≡ ok expanded
    → absolute_path h expanded ≡ ok absolute
    → h.eval_symlinks absolute ≡ found r
    → canonical_path h p ≡ ok q
    → canonical_path h (path_text q) ≡ ok q
canonical_path_again h p expanded absolute {r} {q} resolves back e a there k =
    let short = canonical_path-there h p expanded absolute e a there k in
    let again = subst (λ x. h.eval_symlinks x ≡ found r) (sym short) (back absolute r there) in
    canonical_path-path_text h q (canonical_path-IsClean h p resolves k) again ∙ ap ok (sym short)
