-- ===== src/Base/Dict.antt =====
-- A Go map as an association list: `lookup`, assignment, and `maps.Copy`.
use lima_jailed_agents.Base.{◌≡◌, refl, Option, none, some, List, [], ◌∷◌, arith}
use lima_jailed_agents.Base.{Eq, ◌==◌, if◌then◌else◌}

abbrev pub Dict {ℓ κ} : Type ℓ → Type κ → Type (ℓ ⊔ κ)
Dict K V = List (K × V)

module _ {ℓ κ} {K : Type ℓ} {V : Type κ} ⦃e : Eq K⦄ where
  abbrev pub lookup : K → Dict K V → Option V
  lookup j [] = none
  lookup j ((k, v) ∷ d) = if j == k then some v else lookup j d

  -- `d[k] = v`
  abbrev pub insert : K → V → Dict K V → Dict K V
  insert k v [] = (k, v) ∷ []
  insert k v ((j, w) ∷ d) = if k == j then (k, v) ∷ d else (j, w) ∷ insert k v d

  -- `maps.Copy(target, source)`
  abbrev pub copy : Dict K V → Dict K V → Dict K V
  copy target [] = target
  copy target ((k, v) ∷ source) = copy (insert k v target) source

  pub lookup-insert :
      (j k : K) (v : V) (d : Dict K V)
      → lookup j (insert k v d) ≡ (if j == k then some v else lookup j d)
  lookup-insert j k v [] = refl
  lookup-insert j k v (_ ∷ d) = ground (arith, lookup-insert j k v d)
