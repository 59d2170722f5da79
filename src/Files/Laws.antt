-- ===== src/Files/Laws.antt =====
-- How the replacement of a file ends.
use mathlib.Core.Path.{subst}
use lima_jailed_agents.Base.{
  String, ℕ, none, some, ◌∷◌, FilePath, ◌≡◌, ◌≢◌, refl, sym, ap, ◌∙◌, arith, Option-cases, inl, inr,
}
use lima_jailed_agents.Base.{Option, List, [], Result, ok, err, Error}
use lima_jailed_agents.Run.{
  FileCall, create_temp, chmod, write, copy_from, sync, close, rename, remove, Event, filed, Worlds,
  Trace, bind_result, of_option, pure,
}
use lima_jailed_agents.Run.Rules.{Emits, emits_rules, Adds, same, more}
use lima_jailed_agents.Files.{
  change, create_temporary, or_remove, written_and_closed, close_failed, fill_changed,
  fill_and_rename, replace_file,
}

-- An event that neither writes the file, nor moves another file there, nor takes it away.
unfoldable pub LeavesAlone : FilePath → Event → Type 0
LeavesAlone target (filed (create_temp path)) = path ≢ target
LeavesAlone target (filed (chmod path mode)) = path ≢ target
LeavesAlone target (filed (write path content)) = path ≢ target
LeavesAlone target (filed (copy_from source path)) = path ≢ target
LeavesAlone target (filed (rename source path)) = (source ≢ target) × (path ≢ target)
LeavesAlone target (filed (remove path)) = path ≢ target
LeavesAlone target event = Unit

module _ (w : Worlds) (target : FilePath) where
  -- The file is as it was: its events leave it alone, or were renames onto it that failed.
  pub data Keeps (t : Trace) : Trace → Type 0 where
    kept : Keeps t t
    aside : {e : Event} {u : Trace} → LeavesAlone target e → Keeps t u → Keeps t (e ∷ u)
    refused :
        {source : FilePath} {e : Error} {u : Trace}
        → (w u).change_file (rename source target) ≡ some e
        → Keeps t u
        → Keeps t (filed (rename source target) ∷ u)

  pub Keeps-Adds : {t u v : Trace} → Keeps t u → Adds (LeavesAlone target) u v → Keeps t v
  Keeps-Adds k same = k
  Keeps-Adds k (more l a) = aside l (Keeps-Adds k a)

  pub Keeps-trans : {t u v : Trace} → Keeps t u → Keeps u v → Keeps t v
  Keeps-trans k kept = k
  Keeps-trans k (aside l j) = aside l (Keeps-trans k j)
  Keeps-trans k (refused e j) = refused e (Keeps-trans k j)

  abbrev pub Succeeds : FileCall → Trace → Type 0
  Succeeds call t = (w t).change_file call ≡ none

  pub succeeded : (o : Option Error) {u : Unit {0}} → of_option (λ e. e) o ≡ ok u → o ≡ none
  succeeded none h = refl
  succeeded (some e) h = absurd (cc)

  -- From the trace on, each of the calls succeeds right after the ones before it.
  abbrev pub AllSucceed : List FileCall → Trace → Type 0
  AllSucceed [] t = Unit
  AllSucceed (call ∷ calls) t = Succeeds call t × AllSucceed calls (filed call ∷ t)

  -- The trace after the calls, with nothing between them.
  abbrev pub after : List FileCall → Trace → Trace
  after [] t = t
  after (call ∷ calls) t = after calls (filed call ∷ t)

  -- The calls that replace the file by another one with the mode and the content.
  abbrev pub replacing : FilePath → ℕ → String → List FileCall
  replacing path mode content =
      create_temp path
      ∷ chmod path mode
      ∷ write path content
      ∷ sync path
      ∷ close path
      ∷ rename path target
      ∷ []

  -- The trace of a replacement by a file that was made, filled and synced.
  abbrev pub filled : FilePath → ℕ → String → Trace → Trace
  filled path mode content t =
      filed (close path)
      ∷ filed (sync path)
      ∷ filed (write path content)
      ∷ filed (chmod path mode)
      ∷ t

  fill-done :
      (both : Error → Error → Error) (path : FilePath) (content : String) (t : Trace)
      → (fill_changed w both path content (ok tt) t).0 ≡ ok tt
      → Succeeds (write path content) t
        × Succeeds (sync path) (filed (write path content) ∷ t)
        × Succeeds (close path) (filed (sync path) ∷ filed (write path content) ∷ t)
        × ((fill_changed w both path content (ok tt) t).1
            ≡ filed (close path) ∷ filed (sync path) ∷ filed (write path content) ∷ t)
  unfolding fill_changed written_and_closed close_failed
  fill-done both path content t e = ground arith

  fill_changed-Emits :
      (both : Error → Error → Error) (path : FilePath) (content : String) (r : Result (Unit {0}))
      → path ≢ target
      → Emits (LeavesAlone target) (fill_changed w both path content r)
  unfolding fill_changed LeavesAlone close_failed
  fill_changed-Emits both path content (ok u) other = search emits_rules depth 12
  fill_changed-Emits both path content (err e) other = search emits_rules depth 12

  pub rename-Keeps :
      (path : FilePath) {t : Trace} {e : Error} (r : Result (Unit {0})) (u : Trace)
      → Keeps t u
      → (bind_result (λ _. change w (rename path target)) r u).0 ≡ err e
      → Keeps t (bind_result (λ _. change w (rename path target)) r u).1
  rename-Keeps path (err x) u k h = k
  rename-Keeps path (ok x) u k h = elim (Option-cases ((w u).change_file (rename path target))) [
    | inl done ↦ absurd (impossible (sym (ap (of_option (λ e. e)) done) ∙ h))
    | inr (x, failed) ↦ refused failed k
  ]
    where
      impossible : {e : Error} → ◌≡◌ {A = Result (Unit {0})} (ok tt) (err e) → ⊥
      impossible p = cc

  fill_and_rename-Keeps :
      (both : Error → Error → Error) (path : FilePath) (mode : ℕ) (content : String) {t : Trace}
      (u : Trace) {e : Error}
      → path ≢ target
      → Keeps t u
      → (fill_and_rename w both target path mode content u).0 ≡ err e
      → Keeps t (fill_and_rename w both target path mode content u).1
  unfolding fill_and_rename LeavesAlone
  fill_and_rename-Keeps both path mode content u other k h =
      let changed = change w (chmod path mode) u in
      let filling = fill_changed w both path content changed.0 in
      rename-Keeps path (filling changed.1).0 (filling changed.1).1
        (Keeps-Adds (aside other k)
          ((fill_changed-Emits both path content changed.0 other).at changed.1))
        h

  fill_and_rename-done :
      (both : Error → Error → Error) (path : FilePath) (mode : ℕ) (content : String) (t : Trace)
      → (fill_and_rename w both target path mode content t).0 ≡ ok tt
      → Succeeds (chmod path mode) t
        × Succeeds (write path content) (filed (chmod path mode) ∷ t)
        × Succeeds (sync path) (filed (write path content) ∷ filed (chmod path mode) ∷ t)
        × Succeeds
            (close path)
            (filed (sync path) ∷ filed (write path content) ∷ filed (chmod path mode) ∷ t)
        × Succeeds (rename path target) (filled path mode content t)
        × ((fill_and_rename w both target path mode content t).1
            ≡ filed (rename path target) ∷ filled path mode content t)
  unfolding fill_and_rename fill_changed written_and_closed close_failed
  fill_and_rename-done both path mode content t e = ground arith

  -- How a replacement ends that starts after the trace `t`: with an error, the file as it was; or by
  -- `replacing` it by another file, every call of which succeeds, with no other between them.
  pub data Replaced (mode : ℕ) (content : String) (t : Trace)
      : Result (Unit {0}) × Trace → Type 0 where
    stays : (e : Error) (u : Trace) → Keeps t u → Replaced mode content t (err e, u)
    becomes :
        (path : FilePath)
        → path ≢ target
        → AllSucceed (replacing path mode content) t
        → Replaced mode content t (ok tt, after (replacing path mode content) t)

  or_remove-Replaced :
      (both : Error → Error → Error) (path : FilePath) (mode : ℕ) (content : String) (t : Trace)
      (x : Result (Unit {0}) × Trace)
      → path ≢ target
      → Succeeds (create_temp path) t
      → fill_and_rename w both target path mode content (filed (create_temp path) ∷ t) ≡ x
      → Replaced mode content t (or_remove w path x)
  unfolding or_remove LeavesAlone
  or_remove-Replaced both path mode content t (err e, u) other made h = stays e _ (
      aside other (
        subst (Keeps t) (ap (λ x. x.1) h) (
          fill_and_rename-Keeps both path mode content (filed (create_temp path) ∷ t) other
            (aside other kept) (ap (λ x. x.0) h))))
  or_remove-Replaced both path mode content t (ok tt, u) other made h =
      let (changed, wrote, synced, shut, moved, trace) =
        fill_and_rename-done both path mode content (filed (create_temp path) ∷ t)
          (ap (λ x. x.0) h) in
      subst (λ v. Replaced mode content t (ok tt, v)) (sym trace ∙ ap (λ x. x.1) h)
        (becomes path other (made, (changed, (wrote, (synced, (shut, (moved, tt)))))))

  create-Replaced :
      (both : Error → Error → Error) (path : FilePath) (mode : ℕ) (content : String) (t : Trace)
      (r : Result (Unit {0}))
      → path ≢ target
      → of_option (λ e. e) ((w t).change_file (create_temp path)) ≡ r
      → Replaced mode content t (
          bind_result
            (λ p u. or_remove w p (fill_and_rename w both target p mode content u))
            (bind_result (λ _. pure path) r (filed (create_temp path) ∷ t)).0
            (bind_result (λ _. pure path) r (filed (create_temp path) ∷ t)).1)
  unfolding LeavesAlone
  create-Replaced both path mode content t (ok u) other h =
      or_remove-Replaced both path mode content t _ other (succeeded _ h) refl
  create-Replaced both path mode content t (err e) other h = stays e _ (aside other kept)

  -- Whatever the file system answers, replacing a file is atomic (see `Replaced`), where `os.CreateTemp` makes
  -- another file than the one that is replaced.
  pub replace_file-Replaced :
      (both : Error → Error → Error) (directory : FilePath) (prefix : String) (mode : ℕ)
      (content : String) (t : Trace)
      → (w t).temp_file directory prefix ≢ target
      → Replaced mode content t (replace_file w both directory prefix target mode content t)
  unfolding replace_file create_temporary
  replace_file-Replaced both directory prefix mode content t other =
      let path = (w t).temp_file directory prefix in
      create-Replaced both path mode content t _ other refl
