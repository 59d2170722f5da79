-- ===== src/Agent/State/Laws.antt =====
-- The state of an agent lies in the state root, before its directories are made and after.
use text.Mathlib.Text
use mathlib.Core.Path.{subst}
use mathlib.Core.List.{append_assoc}
use lima_jailed_agents.Base.{
  String, Bool, true, false, not, [], ◌∷◌, ◌++◌, FilePath, ◌≡◌, refl, sym, ap, ◌∙◌, arith, All, inl,
  inr,
}
use lima_jailed_agents.Base.{Result, ok, err, ◌==◌, string_eq, Bool-cases, map_error, different}
use lima_jailed_agents.Agent.{codex_agent_name, claude_agent_name}
use lima_jailed_agents.Agent.State.{
  state_directories, check_within, ensure_directory, inspect_directory, make_directory,
  outside_error, kind_error, inspect_error,
}
use lima_jailed_agents.Host.{Host, FileInfo, is_directory, to_result}
use lima_jailed_agents.Path.Canonical.{canonical_path}
use lima_jailed_agents.Path.Text.{join, path_text}
use lima_jailed_agents.Path.Text.Laws.{IsName, IsClean, join-IsClean, join-eq-append}
use lima_jailed_agents.Path.Within.{path_is_within, path_is_within_iff, path_is_within_self}
use lima_jailed_agents.Run.{made_dir, Trace, Worlds, query, reject_if, bind_result, ◌>>◌}
use lima_jailed_agents.Run.Steps.{>>=-steps, reject_if-false}

abbrev pub LiesIn : FilePath → FilePath → Type 0
LiesIn state directory = IsClean directory × (path_is_within directory state ≡ true)

join-LiesIn :
    (state directory : FilePath) (name : String)
    → LiesIn state directory
    → IsName name
    → LiesIn state (join directory (name ∷ []))
join-LiesIn state directory name (clean, within) n =
    let joined = join-IsClean directory (name ∷ []) clean in
    let (rest, same) = (path_is_within_iff directory state clean).0 within in
    (
      joined,
      (path_is_within_iff _ state joined).1 (
        rest ++ (name ∷ []),
        join-eq-append directory (name ∷ []) (n, tt)
            ∙ ap (λ d. d ++ (name ∷ [])) same
            ∙ append_assoc state rest (name ∷ []),
      ),
    )

self-LiesIn : (state : FilePath) → IsClean state → LiesIn state state
self-LiesIn state clean = (clean, path_is_within_self state)

is_name :
    {s : String}
    → Text.◌==◌ s "" ≡ false
    → Text.◌==◌ s "." ≡ false
    → Text.◌==◌ s ".." ≡ false
    → IsName s
is_name a b c = (different a, different b, different c)

-- The directories where an agent keeps its state lie in the state root, if that is clean.
pub state_directories-LiesIn :
    (state : FilePath) (agent : String)
    → IsClean state
    → All (LiesIn state) (state_directories state agent)
unfolding state_directories
state_directories-LiesIn state agent clean =
    let self = self-LiesIn state clean in
    let codex = join-LiesIn state state ".codex" self (is_name refl refl refl) in
    let claude = join-LiesIn state state ".claude" self (is_name refl refl refl) in
    let open_code = join-LiesIn state state ".opencode" self (is_name refl refl refl) in
    elim (Bool-cases (agent == codex_agent_name)) [
      | inl c ↦ rw c (codex, tt)
      | inr not_codex ↦ elim (Bool-cases (agent == claude_agent_name)) [
        | inl c ↦ rw (not_codex, c) (claude, tt)
        | inr not_claude ↦
            rw (not_codex, not_claude)
              (
                open_code,
                (
                  join-LiesIn state _ "config" open_code (is_name refl refl refl),
                  (
                    join-LiesIn state _ "data" open_code (is_name refl refl refl),
                    (
                      join-LiesIn state _ "state" open_code (is_name refl refl refl),
                      (join-LiesIn state _ "cache" open_code (is_name refl refl refl), tt),
                    ),
                  ),
                ),
              )
      ]
    ]

-- What holds of a directory in a world: its canonical path is in the state root.
abbrev pub ResolvesIn : Host → FilePath → FilePath → Type 0
ResolvesIn h state directory =
    (resolved : FilePath) × (canonical_path h (path_text directory) ≡ ok resolved)
    × (path_is_within resolved state ≡ true)

module _ (w : Worlds) (state directory : FilePath) where
  check_within-ResolvesIn :
      (t : Trace)
      → (check_within w state directory t).0 ≡ ok tt
      → ResolvesIn (w t).host state directory
  unfolding check_within
  check_within-ResolvesIn t e =
      let (resolved, r, k) =
        >>=-steps (query w (λ h. canonical_path h (path_text directory))) _ t e in
      (resolved, r, ground (arith, reject_if-false _ _ t (ap (λ p. p.0) k ∙ e)))

  quiet :
      (b : Result FilePath) (t : Trace)
      → (bind_result
          (λ resolved. reject_if (not (path_is_within resolved state)) (outside_error directory))
          b
          t).1
        ≡ t
  quiet (ok resolved) t = quiet_reject (not (path_is_within resolved state)) t
    where
      quiet_reject : (b : Bool) (t : Trace) → (reject_if b (outside_error directory) t).1 ≡ t
      quiet_reject true t = refl
      quiet_reject false t = refl
  quiet (err e) t = refl

  check_within-quiet : (t : Trace) → (check_within w state directory t).1 ≡ t
  unfolding check_within
  check_within-quiet t = quiet (canonical_path (w t).host (path_text directory)) t

  inspect_quiet :
      (r : Result FileInfo) (t : Trace)
      → (bind_result
          (λ info. reject_if (not (is_directory info.kind)) (kind_error directory))
          (map_error (inspect_error directory) r)
          t).1
        ≡ t
  inspect_quiet (ok info) t = quiet_reject (not (is_directory info.kind)) t
    where
      quiet_reject : (b : Bool) (t : Trace) → (reject_if b (kind_error directory) t).1 ≡ t
      quiet_reject true t = refl
      quiet_reject false t = refl
  inspect_quiet (err e) t = refl

  -- If a round that makes a state directory succeeds, making the directory is all that it does, and the
  -- directory's canonical path is in the state root both before and after.
  pub ensure_directory-ResolvesIn :
      (t : Trace)
      → (ensure_directory w state directory t).0 ≡ ok tt
      → ((ensure_directory w state directory t).1 ≡ made_dir directory ∷ t)
        × ResolvesIn (w t).host state directory
        × ResolvesIn (w (made_dir directory ∷ t)).host state directory
  unfolding ensure_directory
  ensure_directory-ResolvesIn t e =
      let later = inspect_directory w directory >> check_within w state directory in
      let rest = make_directory w directory >> later in
      let made = made_dir directory ∷ t in
      let (_, first, k) = >>=-steps (check_within w state directory) (λ _. rest) t e in
      let k₁ : rest t ≡ ensure_directory w state directory t =
        subst (λ u. rest u ≡ ensure_directory w state directory t) (check_within-quiet t) k in
      let (_, done, k₂) =
        >>=-steps (make_directory w directory) (λ _. later) t (ap (λ p. p.0) k₁ ∙ e) in
      let e₂ : (later made).0 ≡ ok tt = ap (λ p. p.0) (k₂ ∙ k₁) ∙ e in
      let (_, seen, k₃) =
        >>=-steps (inspect_directory w directory) (λ _. check_within w state directory) made e₂ in
      let k₄ : check_within w state directory made ≡ later made =
        subst (λ u. check_within w state directory u ≡ later made)
          (inspect_quiet (to_result ((w made).host.stat directory)) made) k₃ in
      (
        sym (ap (λ p. p.1) (k₄ ∙ k₂ ∙ k₁)) ∙ check_within-quiet made,
        check_within-ResolvesIn t first,
        check_within-ResolvesIn made (ap (λ p. p.0) k₄ ∙ e₂),
      )
