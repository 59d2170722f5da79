-- ===== src/Codex/Laws.antt =====
-- `codexConfiguredConfig`, the directories that its text trusts, and its settings.
use mathlib.Core.Path.{subst}
use lima_jailed_agents.Codex.Read.{top_key}
use lima_jailed_agents.Base.{
  String, Bool, true, false, Option, some, List, [], ◌∷◌, FilePath, All, ◌≡◌, ◌≢◌, sym, ap, ◌∙◌,
  Bool-cases, ◌⊎◌, inl, inr,
}
use lima_jailed_agents.Base.{
  Result, ok, >>=-eq_ok, ok-injective, map_error-eq_ok, string_eq, require, map_error,
  if◌then◌else◌,
}
use lima_jailed_agents.AgentConfig.{canonical_directories}
use lima_jailed_agents.Codex.{
  TomlValue, boolean, trust_path, update_check_path, daemon_path, update_setting_name,
  daemon_setting_name, require_table, is_disabled,
}
use lima_jailed_agents.Codex.{
  suppression_after_edit, set_suppression, codex_trusted_config, validate_suppressions,
  suppress_each, suppressed_config, codex_configured_config,
}
use lima_jailed_agents.Host.{Host, PathText}
use lima_jailed_agents.Path.Text.{render}
use lima_jailed_agents.Codex.Read.{
  is_disabled-true, suppression_after_edit-ok, true_not_false, neither,
}
use lima_jailed_agents.Codex.Read.{trust_path-ne-update, trust_path-ne-daemon}
use lima_jailed_agents.Codex.Trust.{Holds, Trusts, TrustedIn, All-Trusts, trusted_config-Trusts}

module _ {D : Type 0} (parse : String → Result D) (get : D → List String → Option TomlValue)
    (set : D → List String → String → Result D) (bytes : D → String) (valid : String → Bool) where
  -- What the update relies on: an edit may make the tables above its path, and changes nothing under another
  -- top-level key; and a document that is written and read again has the same values.
  pub record Edits : Type 0 where
    pub elsewhere :
        (d e : D) (path : List String) (value : String)
        → set d path value ≡ ok e
        → (at : List String) → top_key at ≢ top_key path
        → get e at ≡ get d at
    pub read_again : (d e : D) → parse (bytes d) ≡ ok e → (at : List String) → get e at ≡ get d at

  -- A setting that is off already, or the edit that turns it off.
  set_suppression-done :
      (path : List String) (name : String) (d e : D) (changed : Bool)
      → set_suppression parse get set bytes valid path name d ≡ ok (e, changed)
      → ((changed ≡ false) × (get d path ≡ some (boolean false)) × (d ≡ e))
        ⊎ ((changed ≡ true) × (set d path "false" ≡ ok e))
  unfolding set_suppression
  set_suppression-done path name d e changed h =
      let (disabled, p, k) = >>=-eq_ok (is_disabled name (get d path)) _ h in
      elim (Bool-cases disabled) [
        | inl off ↦
            let pair = ok-injective (rw off at k) in
            inl (
              sym (ap (λ x. x.1) pair),
              is_disabled-true name (get d path) (p ∙ ap ok off),
              ap (λ x. x.0) pair,
            )
        | inr on ↦
            let (next, m, j) = >>=-eq_ok (map_error _ (set d path "false")) _ (rw on at k) in
            let pair = ok-injective j in
            inr (
              sym (ap (λ x. x.1) pair),
              map_error-eq_ok _ (set d path "false") m ∙ ap ok (ap (λ x. x.0) pair),
            )
      ]

  -- Both settings are off in a text.
  abbrev pub IsSuppressed : String → Type 0
  IsSuppressed content =
      Holds parse get set bytes valid content update_check_path (boolean false)
      × Holds parse get set bytes valid content daemon_path (boolean false)

  module _ (edits : Edits) where
    set_suppression-elsewhere :
        (path : List String) (name : String) (d e : D) (changed : Bool) (at : List String)
        → set_suppression parse get set bytes valid path name d ≡ ok (e, changed)
        → top_key at ≢ top_key path
        → get e at ≡ get d at
    set_suppression-elsewhere path name d e changed at h apart =
        elim (set_suppression-done path name d e changed h) [
          | inl (c, off, same) ↦ ap (λ x. get x at) (sym same)
          | inr (c, edit) ↦ edits.elsewhere d e path "false" edit at apart
        ]

    suppress_each-TrustedIn :
        (d e : D) (changed : Bool) (directories : List FilePath)
        → suppress_each parse get set bytes valid d ≡ ok (e, changed)
        → All (TrustedIn parse get set bytes valid d) directories
        → All (TrustedIn parse get set bytes valid e) directories
    unfolding suppress_each
    suppress_each-TrustedIn d e changed [] h all = tt
    suppress_each-TrustedIn d e changed (directory ∷ directories) h all =
        let suppress = set_suppression parse get set bytes valid in
        let ((next, first), p, k) =
          >>=-eq_ok (suppress update_check_path update_setting_name d) _ h in
        let ((last, second), q, j) =
          >>=-eq_ok (suppress daemon_path daemon_setting_name next) _ k in
        let at = trust_path (render directory) in
        let kept =
          set_suppression-elsewhere daemon_path daemon_setting_name next last second at q
            (trust_path-ne-daemon (render directory))
          ∙ set_suppression-elsewhere update_check_path update_setting_name d next first at p
              (trust_path-ne-update (render directory)) in
        (
          ap (λ x. get x at) (sym (ap (λ x. x.0) (ok-injective j))) ∙ (kept ∙ all.0),
          suppress_each-TrustedIn d e changed directories h all.1,
        )

  -- Settings that no edit changed were off.
  suppress_each-unchanged :
      (d e : D)
      → suppress_each parse get set bytes valid d ≡ ok (e, false)
      → (get d update_check_path ≡ some (boolean false))
        × (get d daemon_path ≡ some (boolean false))
  unfolding suppress_each
  suppress_each-unchanged d e h =
      let suppress = set_suppression parse get set bytes valid in
      let ((next, first), p, k) =
        >>=-eq_ok (suppress update_check_path update_setting_name d) _ h in
      let ((last, second), q, j) = >>=-eq_ok (suppress daemon_path daemon_setting_name next) _ k in
      let none_changed = neither first second (ap (λ x. x.1) (ok-injective j)) in
      elim (set_suppression-done update_check_path update_setting_name d next first p) [
        | inr (c, edit) ↦ absurd (true_not_false (sym c ∙ none_changed.0))
        | inl (c, off, same) ↦
            elim (set_suppression-done daemon_path daemon_setting_name next last second q) [
              | inr (c₂, edit) ↦ absurd (true_not_false (sym c₂ ∙ none_changed.1))
              | inl (c₂, off₂, same₂) ↦ (off, ap (λ x. get x daemon_path) same ∙ off₂)
            ]
      ]

  chosen-IsSuppressed :
      (content : String) (d edited validated : D) (changed : Bool) {updated : String}
      → parse content ≡ ok d
      → suppress_each parse get set bytes valid d ≡ ok (edited, changed)
      → parse (bytes edited) ≡ ok validated
      → validate_suppressions parse get set bytes valid validated ≡ ok tt
      → (if changed then bytes edited else content) ≡ updated
      → IsSuppressed updated
  unfolding validate_suppressions
  chosen-IsSuppressed content d edited validated true p t q v e =
      let first = suppression_after_edit update_setting_name (get validated update_check_path) in
      let (u, v₁, v₂) = >>=-eq_ok first _ v in
      subst IsSuppressed e (
        (validated, q, suppression_after_edit-ok update_setting_name _ v₁),
        (validated, q, suppression_after_edit-ok daemon_setting_name _ v₂),
      )
  chosen-IsSuppressed content d edited validated false p t q v e =
      let off = suppress_each-unchanged d edited t in
      subst IsSuppressed e ((d, p, off.0), (d, p, off.1))

  module _ (edits : Edits) where
    read_again-TrustedIn :
        (d e : D) (directories : List FilePath)
        → parse (bytes d) ≡ ok e
        → All (TrustedIn parse get set bytes valid d) directories
        → All (TrustedIn parse get set bytes valid e) directories
    read_again-TrustedIn d e [] p h = tt
    read_again-TrustedIn d e (directory ∷ directories) p h = (
      edits.read_again d e p (trust_path (render directory)) ∙ h.0,
      read_again-TrustedIn d e directories p h.1,
    )

    All-TrustedIn :
        (content : String) (d : D) (directories : List FilePath)
        → parse content ≡ ok d
        → All (Trusts parse get set bytes valid content) directories
        → All (TrustedIn parse get set bytes valid d) directories
    All-TrustedIn content d [] p h = tt
    All-TrustedIn content d (directory ∷ directories) p ((e, q, g), h) = (
      ap (λ x. get x (trust_path (render directory))) (ok-injective (sym p ∙ q)) ∙ g,
      All-TrustedIn content d directories p h,
    )

    chosen-still-Trusts :
        (content : String) (directories : List FilePath) (d edited validated : D) (changed : Bool)
        {updated : String}
        → All (Trusts parse get set bytes valid content) directories
        → parse content ≡ ok d
        → suppress_each parse get set bytes valid d ≡ ok (edited, changed)
        → parse (bytes edited) ≡ ok validated
        → (if changed then bytes edited else content) ≡ updated
        → All (Trusts parse get set bytes valid updated) directories
    chosen-still-Trusts content directories d edited validated true h p t q e =
        subst (λ c. All (Trusts parse get set bytes valid c) directories) e
          (All-Trusts parse get set bytes valid (bytes edited) validated directories q (
            read_again-TrustedIn edited validated directories q (
              suppress_each-TrustedIn edits d edited true directories t
                (All-TrustedIn content d directories p h))))
    chosen-still-Trusts content directories d edited validated false h p t q e =
        subst (λ c. All (Trusts parse get set bytes valid c) directories) e h

    -- When the update of a Codex configuration succeeds, the text that it gives is read as a document in which
    -- every one of the directories, made canonical, is trusted, and the update check and the automatic start of
    -- the daemon are off; also when the text needed no change. An edit of the TOML library must change
    -- nothing under another top-level key, and a document must be read as it was written.
    pub codex_configured_config-Trusts :
        (directories : List PathText) (h : Host) (content : String) {updated : String}
        → codex_configured_config parse get set bytes valid directories h content ≡ ok updated
        → (canonical : List FilePath) × (canonical_directories h directories ≡ ok canonical)
          × All (Trusts parse get set bytes valid updated) canonical
          × IsSuppressed updated
    unfolding codex_configured_config codex_trusted_config suppressed_config
    codex_configured_config-Trusts directories h content e =
        let trusted = codex_trusted_config parse get set bytes valid directories h content in
        let (middle, m, k₁) = >>=-eq_ok trusted _ e in
        let (u₁, v₁, k₂) = >>=-eq_ok (require (valid middle) _) _ k₁ in
        let (d, p, k₃) = >>=-eq_ok (map_error _ (parse middle)) _ k₂ in
        let (u₂, v₂, k₄) = >>=-eq_ok (require_table _ _) _ k₃ in
        let ((edited, changed), t, k₅) =
          >>=-eq_ok (suppress_each parse get set bytes valid d) _ k₄ in
        let (validated, q, k₆) = >>=-eq_ok (map_error _ (parse (bytes edited))) _ k₅ in
        let (u₃, v₃, k₇) =
          >>=-eq_ok (validate_suppressions parse get set bytes valid validated) _ k₆ in
        let (u₄, v₄, j₁) = >>=-eq_ok (require (valid content) _) _ m in
        let (canonical, c, j₂) = >>=-eq_ok (canonical_directories h directories) _ j₁ in
        let read = map_error-eq_ok _ (parse middle) p in
        let again = map_error-eq_ok _ (parse (bytes edited)) q in
        (
          canonical,
          c,
          chosen-still-Trusts middle canonical d edited validated changed
              (trusted_config-Trusts parse get set bytes valid content canonical j₂) read t again
              (ok-injective k₇),
          chosen-IsSuppressed middle d edited validated changed read t again v₃ (ok-injective k₇),
        )
