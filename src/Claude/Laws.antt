-- ===== src/Claude/Laws.antt =====
-- `claudeTrustedConfig` and the directories that its text trusts.
use mathlib.Core.Path.{subst}
use lima_jailed_agents.Base.{
  String, Bool, true, false, Option, none, some, List, [], ◌∷◌, FilePath, All, ◌≡◌, refl, sym, ap,
  ◌∙◌, Bool-cases, inl, inr,
}
use lima_jailed_agents.Base.{
  Result, ok, >>=-eq_ok, ok-injective, map_error-eq_ok, ◌==◌, string_eq, require, map_error,
}
use lima_jailed_agents.Base.Chars.{trim_space}
use lima_jailed_agents.Base.Dict.{lookup, insert}
use lima_jailed_agents.AgentConfig.{canonical_directories}
use lima_jailed_agents.Claude.{
  Object, fields_of, projects_key, object_at, trust_each, root_of, read_root, original_root,
}
use lima_jailed_agents.Claude.{
  validate_claude_trusted_config, projects_of, encode_changed, claude_trusted_config,
}
use lima_jailed_agents.Host.{Host, PathText}
use lima_jailed_agents.Lima.Json.{Json, Fields, null, boolean, object, number, string, array}
use lima_jailed_agents.Path.Text.{render}
use lima_jailed_agents.Claude.Read.{
  entries, TrustedIn, claude_object-ok, validate_each-TrustedIn, trust_each-unchanged,
}

module _ (decode : String → Result Json) (encode : Object → String) (valid : String → Bool) where
  -- The text is read as a configuration whose projects have the directory as a trusted one.
  abbrev pub Trusts : String → FilePath → Type 0
  Trusts content directory =
      (root : Fields) × (decode content ≡ ok (object root))
      × (projects : Fields) × (lookup projects_key (entries root) ≡ some (object projects))
      × TrustedIn (entries projects) directory

  -- The projects of a text, as its decoding has them.
  abbrev ReadAs : String → Object → Type 0
  ReadAs content projects =
      (root : Fields) × (decode content ≡ ok (object root))
      × (fields : Fields) × (lookup projects_key (entries root) ≡ some (object fields))
      × (projects ≡ entries fields)

  ReadAs-Trusts :
      (content : String) (projects : Object) (directories : List FilePath)
      → ReadAs content projects
      → All (TrustedIn projects) directories
      → All (Trusts content) directories
  ReadAs-Trusts content projects [] r h = tt
  ReadAs-Trusts content projects (directory ∷ directories) (root, d, fields, l, same) h = (
    (root, d, fields, l, subst (λ ps. TrustedIn ps directory) same h.0),
    ReadAs-Trusts content projects directories (root, d, fields, l, same) h.1,
  )

  root_of-ok :
      (message : String) (j : Json) {root : Object}
      → root_of message j ≡ ok root
      → (fields : Fields) × (j ≡ object fields) × (root ≡ entries fields)
  unfolding root_of
  root_of-ok message (object fields) e = (fields, refl, sym (ok-injective e))
  root_of-ok message null e = absurd (cc)
  root_of-ok message (boolean b) e = absurd (cc)
  root_of-ok message (number n) e = absurd (cc)
  root_of-ok message (string s) e = absurd (cc)
  root_of-ok message (array xs) e = absurd (cc)

  read_root-ok :
      (message content : String) {root : Object}
      → read_root decode encode valid message content ≡ ok root
      → (fields : Fields) × (decode content ≡ ok (object fields)) × (root ≡ entries fields)
  unfolding read_root
  read_root-ok message content e =
      let (j, d, k) = >>=-eq_ok (map_error _ (decode content)) _ e in
      let (fields, same, r) = root_of-ok message j k in
      (fields, map_error-eq_ok _ (decode content) d ∙ ap ok same, r)

  projects_of-ok :
      (o : Option Json) {projects : Object}
      → projects_of o ≡ ok projects
      → (fields : Fields) × (o ≡ some (object fields)) × (projects ≡ entries fields)
  unfolding projects_of
  projects_of-ok none e = absurd (cc)
  projects_of-ok (some value) e =
      let (fields, same, r) = claude_object-ok projects_key value e in (fields, ap some same, r)

  validate-Trusts :
      (content : String) (directories : List FilePath)
      → validate_claude_trusted_config decode encode valid content directories ≡ ok tt
      → All (Trusts content) directories
  unfolding validate_claude_trusted_config
  validate-Trusts content directories e =
      let (root, r, k) =
        >>=-eq_ok (read_root decode encode valid "invalid Claude configuration after edit" content)
          _ e in
      let (projects, p, j) = >>=-eq_ok (projects_of (lookup projects_key root)) _ k in
      let (fields, d, same) = read_root-ok "invalid Claude configuration after edit" content r in
      let (inner, l, eq) = projects_of-ok (lookup projects_key root) p in
      ReadAs-Trusts content projects directories
        (fields, d, inner, ap (lookup projects_key) (sym same) ∙ l, eq)
        (validate_each-TrustedIn directories projects j)

  nothing_in_empty : {v : Json} → ◌≡◌ {A = Option Json} none (some v) → ⊥
  nothing_in_empty p = cc

  object_at-found :
      (name key : String) (o : Option Json) {projects : Object} {v : Json}
      → object_at name o ≡ ok projects
      → lookup key projects ≡ some v
      → (fields : Fields) × (o ≡ some (object fields)) × (projects ≡ entries fields)
  unfolding object_at
  object_at-found name key none e l =
      absurd (nothing_in_empty (ap (lookup key) (ok-injective e) ∙ l))
  object_at-found name key (some value) e l =
      let (fields, same, r) = claude_object-ok name value e in (fields, ap some same, r)

  original_root-found :
      (content key : String) {root : Object} {v : Json}
      → original_root decode encode valid content ≡ ok root
      → lookup key root ≡ some v
      → read_root decode encode valid "invalid Claude configuration" content ≡ ok root
  unfolding original_root
  original_root-found content key e l = elim (Bool-cases (trim_space content == "")) [
    | inl blank ↦ absurd (nothing_in_empty (ap (lookup key) (ok-injective (rw blank at e)) ∙ l))
    | inr full ↦ rw full at e
  ]

  -- A list of projects in which a directory is trusted was read from the text.
  unchanged-Trusts :
      (content : String) (directories : List FilePath) (root projects last : Object)
      → original_root decode encode valid content ≡ ok root
      → object_at projects_key (lookup projects_key root) ≡ ok projects
      → trust_each directories projects ≡ ok (last, false)
      → All (Trusts content) directories
  unchanged-Trusts content [] root projects last r p e = tt
  unchanged-Trusts content (directory ∷ directories) root projects last r p e =
      let all = trust_each-unchanged (directory ∷ directories) projects last e in
      let (inner, l, eq) =
        object_at-found projects_key (render directory) (lookup projects_key root) p (all.0.1) in
      let (fields, d, same) =
        read_root-ok "invalid Claude configuration" content
          (original_root-found content projects_key r l) in
      ReadAs-Trusts content projects (directory ∷ directories)
        (fields, d, inner, ap (lookup projects_key) (sym same) ∙ l, eq) all

  encode-Trusts :
      (content : String) (directories : List FilePath) (root projects last : Object)
      (changed : Bool) {updated : String}
      → original_root decode encode valid content ≡ ok root
      → object_at projects_key (lookup projects_key root) ≡ ok projects
      → trust_each directories projects ≡ ok (last, changed)
      → encode_changed decode encode valid content directories root (last, changed) ≡ ok updated
      → All (Trusts updated) directories
  unfolding encode_changed
  encode-Trusts content directories root projects last false r p e k =
      subst (λ c. All (Trusts c) directories) (ok-injective k)
        (unchanged-Trusts content directories root projects last r p e)
  encode-Trusts content directories root projects last true r p e k =
      let new = encode (insert projects_key (object (fields_of last)) root) in
      let (u, v, j) =
        >>=-eq_ok (validate_claude_trusted_config decode encode valid new directories) _ k in
      subst (λ c. All (Trusts c) directories) (ok-injective j) (validate-Trusts new directories v)

  -- Whatever the encoder does: when the update of a Claude configuration succeeds, the text that it gives is
  -- read as a configuration in which every one of the directories, made canonical, is a trusted project; also
  -- when the text needed no change.
  pub claude_trusted_config-Trusts :
      (directories : List PathText) (h : Host) (content : String) {updated : String}
      → claude_trusted_config decode encode valid directories h content ≡ ok updated
      → (canonical : List FilePath) × (canonical_directories h directories ≡ ok canonical)
        × All (Trusts updated) canonical
  unfolding claude_trusted_config
  claude_trusted_config-Trusts directories h content e =
      let (u, v, k₁) = >>=-eq_ok (require (valid content) _) _ e in
      let (canonical, c, k₂) = >>=-eq_ok (canonical_directories h directories) _ k₁ in
      let (root, r, k₃) = >>=-eq_ok (original_root decode encode valid content) _ k₂ in
      let (projects, p, k₄) = >>=-eq_ok (object_at projects_key (lookup projects_key root)) _ k₃ in
      let ((last, changed), t, k₅) = >>=-eq_ok (trust_each canonical projects) _ k₄ in
      (canonical, c, encode-Trusts content canonical root projects last changed r p t k₅)
