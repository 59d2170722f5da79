-- ===== src/Agent/Instructions/Place.antt =====
-- Where the destination of an agent's instructions lies, and what is at their source.
use lima_jailed_agents.Base.{
  true, false, FilePath, ◌≡◌, refl, arith, inl, inr, Bool-cases, Result, ok, err, Error, >>=-eq_ok,
}
use lima_jailed_agents.Agent.Instructions.{
  destination_kind, validate_instruction_destination, source_kind,
}
use lima_jailed_agents.Host.{
  Host, PathText, FileInfo, FileKind, Outcome, found, not_exist, failed, regular, symlink,
  directory, special,
}
use lima_jailed_agents.Path.Canonical.{canonical_path}
use lima_jailed_agents.Path.Text.{path_text}
use lima_jailed_agents.Path.Within.{path_is_within}

-- Nothing or a regular file, and no link.
abbrev pub IsFreeOrFile : Outcome FileInfo → Type 0
IsFreeOrFile (found info) = info.kind ≡ regular
IsFreeOrFile (not_exist e) = Unit
IsFreeOrFile (failed e) = ⊥

-- The destination leads, all links resolved, into the directory that the state root leads to, and is nothing
-- there or a regular file.
abbrev pub IsPlaced : Host → PathText → FilePath → Type 0
IsPlaced h state destination =
    (root : FilePath) × (canonical_path h state ≡ ok root)
    × (resolved : FilePath) × (canonical_path h (path_text destination) ≡ ok resolved)
    × (path_is_within resolved root ≡ true)
    × IsFreeOrFile (h.lstat destination)

impossible : {x : Error} → ◌≡◌ {A = Result (Unit {0})} (err x) (ok tt) → ⊥
impossible q = cc

destination_kind-ok :
    (destination : FilePath) (o : Outcome FileInfo)
    → destination_kind destination o ≡ ok tt
    → IsFreeOrFile o
unfolding destination_kind
destination_kind-ok destination (found info) e = of_kind info.kind refl
  where
    of_kind : (k : FileKind) → info.kind ≡ k → info.kind ≡ regular
    of_kind regular h = h
    of_kind symlink h = absurd (impossible (rw h at e))
    of_kind directory h = absurd (impossible (rw h at e))
    of_kind special h = absurd (impossible (rw h at e))
destination_kind-ok destination (not_exist x) e = tt
destination_kind-ok destination (failed x) e = absurd (cc)

pub validate-IsPlaced :
    (h : Host) (state : PathText) (destination : FilePath)
    → validate_instruction_destination h state destination ≡ ok tt
    → IsPlaced h state destination
unfolding validate_instruction_destination
validate-IsPlaced h state destination e =
    let (root, r, k) = >>=-eq_ok (canonical_path h state) _ e in
    let (resolved, q, j) = >>=-eq_ok (canonical_path h (path_text destination)) _ k in
    elim (Bool-cases (path_is_within resolved root)) [
      | inl inside ↦
          (root, r, resolved, q, inside, destination_kind-ok destination _ (rw inside at j))
      | inr out ↦ absurd (impossible (rw out at j))
    ]

pub source_kind-false :
    (source : FilePath) (o : Outcome FileInfo)
    → source_kind source o ≡ ok false
    → (e : Error) × (o ≡ not_exist e)
unfolding source_kind
source_kind-false source (found info) e = absurd (ground arith)
source_kind-false source (not_exist x) e = (x, refl)
source_kind-false source (failed x) e = absurd (cc)
