-- ===== src/Codex/Trust.antt =====
-- `codexTrustedConfig` and the directories that its text trusts.
use mathlib.Core.Path.{subst}
use lima_jailed_agents.Base.{
  String, Bool, true, false, Option, some, List, [], ◌∷◌, FilePath, All, ◌≡◌, sym, ap, ◌∙◌,
  Bool-cases, inl, inr,
}
use lima_jailed_agents.Base.{
  Result, ok, >>=-eq_ok, ok-injective, map_error-eq_ok, string_eq, map_error, if◌then◌else◌,
}
use lima_jailed_agents.Codex.{TomlValue, text, trust_path, require_table, is_trusted}
use lima_jailed_agents.Codex.{
  trust_after_edit, set_directory_trust, trust_each, validate_trust, trusted_config,
}
use lima_jailed_agents.Path.Text.{render}
use lima_jailed_agents.Codex.Read.{is_trusted-true, trust_after_edit-ok, true_not_false, neither}

module _ {D : Type 0} (parse : String → Result D) (get : D → List String → Option TomlValue)
    (set : D → List String → String → Result D) (bytes : D → String) (valid : String → Bool) where
  -- A text is read as a document with the value at the path.
  abbrev pub Holds : String → List String → TomlValue → Type 0
  Holds content path value = (d : D) × (parse content ≡ ok d) × (get d path ≡ some value)

  abbrev pub Trusts : String → FilePath → Type 0
  Trusts content directory = Holds content (trust_path (render directory)) (text "trusted")

  abbrev pub TrustedIn : D → FilePath → Type 0
  TrustedIn d directory = get d (trust_path (render directory)) ≡ some (text "trusted")

  validate_trust-TrustedIn :
      (d : D) (directories : List FilePath)
      → validate_trust parse get set bytes valid d directories ≡ ok tt
      → All (TrustedIn d) directories
  unfolding validate_trust
  validate_trust-TrustedIn d [] e = tt
  validate_trust-TrustedIn d (directory ∷ directories) e =
      let (u, v, k) = >>=-eq_ok (trust_after_edit (render directory) _) _ e in
      (trust_after_edit-ok (render directory) _ v, validate_trust-TrustedIn d directories k)

  pub All-Trusts :
      (content : String) (d : D) (directories : List FilePath)
      → parse content ≡ ok d
      → All (TrustedIn d) directories
      → All (Trusts content) directories
  All-Trusts content d [] p h = tt
  All-Trusts content d (directory ∷ directories) p h =
      ((d, p, h.0), All-Trusts content d directories p h.1)

  set_directory_trust-unchanged :
      (directory : FilePath) (d e : D)
      → set_directory_trust parse get set bytes valid (render directory) d ≡ ok (e, false)
      → TrustedIn d directory × (e ≡ d)
  unfolding set_directory_trust
  set_directory_trust-unchanged directory d e h =
      let (u₁, p₁, k₁) = >>=-eq_ok (require_table _ _) _ h in
      let (u₂, p₂, k₂) = >>=-eq_ok (require_table _ _) _ k₁ in
      let (trusted, p, k) = >>=-eq_ok (is_trusted (render directory) _) _ k₂ in
      elim (Bool-cases trusted) [
        | inl old ↦ (
          is_trusted-true (render directory) _ (p ∙ ap ok old),
          sym (ap (λ x. x.0) (ok-injective (rw old at k))),
        )
        | inr new ↦
            let (next, m, j) =
              >>=-eq_ok (map_error _ (set d (trust_path (render directory)) _)) _ (rw new at k) in
            absurd (true_not_false (ap (λ x. x.1) (ok-injective j)))
      ]

  trust_each-unchanged :
      (directories : List FilePath) (d e : D)
      → trust_each parse get set bytes valid directories d ≡ ok (e, false)
      → All (TrustedIn d) directories
  unfolding trust_each
  trust_each-unchanged [] d e h = tt
  trust_each-unchanged (directory ∷ directories) d e h =
      let step = set_directory_trust parse get set bytes valid (render directory) d in
      let ((next, changed), p, k) = >>=-eq_ok step _ h in
      let ((last, others), q, j) =
        >>=-eq_ok (trust_each parse get set bytes valid directories next) _ k in
      let none_changed = neither changed others (ap (λ x. x.1) (ok-injective j)) in
      let (here, same) =
        set_directory_trust-unchanged directory d next
          (p ∙ ap (λ b. ok (next, b)) none_changed.0) in
      (
        here,
        subst (λ x. All (TrustedIn x) directories) same
            (trust_each-unchanged directories next last
              (q ∙ ap (λ b. ok (last, b)) none_changed.1)),
      )

  chosen-Trusts :
      (content : String) (directories : List FilePath) (d edited validated : D) (changed : Bool)
      {updated : String}
      → parse content ≡ ok d
      → trust_each parse get set bytes valid directories d ≡ ok (edited, changed)
      → parse (bytes edited) ≡ ok validated
      → validate_trust parse get set bytes valid validated directories ≡ ok tt
      → (if changed then bytes edited else content) ≡ updated
      → All (Trusts updated) directories
  chosen-Trusts content directories d edited validated true p t q v e =
      subst (λ c. All (Trusts c) directories) e
        (All-Trusts (bytes edited) validated directories q
          (validate_trust-TrustedIn validated directories v))
  chosen-Trusts content directories d edited validated false p t q v e =
      subst (λ c. All (Trusts c) directories) e
        (All-Trusts content d directories p (trust_each-unchanged directories d edited t))

  pub trusted_config-Trusts :
      (content : String) (directories : List FilePath) {updated : String}
      → trusted_config parse get set bytes valid content directories ≡ ok updated
      → All (Trusts updated) directories
  unfolding trusted_config
  trusted_config-Trusts content directories e =
      let (d, p, k₁) = >>=-eq_ok (map_error _ (parse content)) _ e in
      let ((edited, changed), t, k₂) =
        >>=-eq_ok (trust_each parse get set bytes valid directories d) _ k₁ in
      let (validated, q, k₃) = >>=-eq_ok (map_error _ (parse (bytes edited))) _ k₂ in
      let (u, v, k₄) =
        >>=-eq_ok (validate_trust parse get set bytes valid validated directories) _ k₃ in
      chosen-Trusts content directories d edited validated changed
        (map_error-eq_ok _ (parse content) p) t (map_error-eq_ok _ (parse (bytes edited)) q) v
        (ok-injective k₄)
