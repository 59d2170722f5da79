-- ===== src/Agent/Instructions/Laws.antt =====
-- How `RefreshAgentInstructions` ends for the paths that were found.
use mathlib.Core.Path.{subst}
use Prim.Native.String.{◌++◌ as ◌<>◌}
use lima_jailed_agents.Base.{List, []}
use lima_jailed_agents.Host.{not_exist}
use lima_jailed_agents.Run.{FileCall}
use lima_jailed_agents.Agent.Instructions.Place.{IsPlaced, validate-IsPlaced, source_kind-false}
use lima_jailed_agents.Files.Laws.{AllSucceed, after, succeeded}
use lima_jailed_agents.Base.{
  Bool, true, false, ◌∷◌, FilePath, ◌≡◌, ◌≢◌, refl, sym, ap, ◌∙◌, arith, Option-cases, inl, inr,
}
use lima_jailed_agents.Base.{Result, ok, err, Error, map_error}
use lima_jailed_agents.Agent.Instructions.{
  InstructionPaths, validate_instruction_destination, copy_opened, copy_and_rename,
  copy_instructions, refresh_from, refresh_paths, replace_error, source_kind,
}
use lima_jailed_agents.Files.{change, create_temporary, or_remove}
use lima_jailed_agents.Files.Laws.{
  LeavesAlone, Keeps, kept, aside, refused, Keeps-Adds, Keeps-trans, Succeeds,
}
use lima_jailed_agents.Path.Text.{dir, base, path_text}
use lima_jailed_agents.Run.{
  create_temp, copy_from, open_read, sync, close, rename, filed, Worlds, Trace, bind_result, pure,
  query, of_option, map_failure, ◌>>=◌, ◌>>◌,
}
use lima_jailed_agents.Run.Rules.{Emits, emits_rules}

module _ (w : Worlds) (p : InstructionPaths) where
  -- The calls that replace the destination by a copy of the source.
  abbrev pub copying : FilePath → List FileCall
  copying path =
      create_temp path
      ∷ open_read p.source
      ∷ copy_from p.source path
      ∷ close p.source
      ∷ sync path
      ∷ close path
      ∷ rename path p.destination
      ∷ []

  abbrev copied : FilePath → Trace → Trace
  copied path t =
      filed (close path)
      ∷ filed (sync path)
      ∷ filed (close p.source)
      ∷ filed (copy_from p.source path)
      ∷ filed (open_read p.source)
      ∷ t

  copy_opened-Emits :
      (path : FilePath) (r : Result (Unit {0}))
      → path ≢ p.destination
      → Emits (LeavesAlone p.destination) (copy_opened w p path r)
  unfolding copy_opened LeavesAlone
  copy_opened-Emits path (ok u) other = search emits_rules depth 16
  copy_opened-Emits path (err e) other = search emits_rules depth 12

  copy_and_rename-done :
      (path : FilePath) (t : Trace)
      → (copy_and_rename w p path t).0 ≡ ok tt
      → Succeeds w p.destination (open_read p.source) t
        × Succeeds w p.destination (copy_from p.source path) (filed (open_read p.source) ∷ t)
        × Succeeds w p.destination
            (close p.source)
            (filed (copy_from p.source path) ∷ filed (open_read p.source) ∷ t)
        × Succeeds w p.destination (sync path) (
            filed (close p.source)
            ∷ filed (copy_from p.source path)
            ∷ filed (open_read p.source)
            ∷ t)
        × Succeeds w p.destination (close path) (
            filed (sync path)
            ∷ filed (close p.source)
            ∷ filed (copy_from p.source path)
            ∷ filed (open_read p.source)
            ∷ t)
        × Succeeds w p.destination (rename path p.destination) (copied path t)
        × ((copy_and_rename w p path t).1 ≡ filed (rename path p.destination) ∷ copied path t)
  unfolding copy_and_rename copy_opened
  copy_and_rename-done path t e = ground arith

  rename-Keeps :
      (path : FilePath) {t : Trace} {e : Error} (r : Result (Unit {0})) (u : Trace)
      → Keeps w p.destination t u
      → (bind_result
          (λ _. map_failure (replace_error w p) (change w (rename path p.destination)))
          r
          u).0
        ≡ err e
      → Keeps w p.destination t
          (bind_result
            (λ _. map_failure (replace_error w p) (change w (rename path p.destination)))
            r
            u).1
  rename-Keeps path (err x) u k h = k
  rename-Keeps path (ok x) u k h =
      elim (Option-cases ((w u).change_file (rename path p.destination))) [
        | inl done ↦ absurd (
            impossible
              (sym (ap (λ o. map_error (replace_error w p) (of_option (λ e. e) o)) done) ∙ h))
        | inr (x, failed) ↦ refused failed k
      ]
    where
      impossible : {e : Error} → ◌≡◌ {A = Result (Unit {0})} (ok tt) (err e) → ⊥
      impossible p = cc

  copy_and_rename-Keeps :
      (path : FilePath) {t : Trace} (u : Trace) {e : Error}
      → path ≢ p.destination
      → Keeps w p.destination t u
      → (copy_and_rename w p path u).0 ≡ err e
      → Keeps w p.destination t (copy_and_rename w p path u).1
  unfolding copy_and_rename LeavesAlone
  copy_and_rename-Keeps path u other k h =
      let open_event = change w (open_read p.source) u in
      let copying = copy_opened w p path open_event.0 in
      rename-Keeps path (copying open_event.1).0 (copying open_event.1).1
        (Keeps-Adds w p.destination (aside tt k)
          ((copy_opened-Emits path open_event.0 other).at open_event.1))
        h

  -- How a copy ends that starts after the trace `t`.
  data Copied (t : Trace) : Result (Unit {0}) × Trace → Type 0 where
    stays : (e : Error) (u : Trace) → Keeps w p.destination t u → Copied t (err e, u)
    becomes :
        (path : FilePath)
        → path ≢ p.destination
        → AllSucceed w p.destination (copying path) t
        → Copied t (ok tt, after w p.destination (copying path) t)

  or_remove-Copied :
      (path : FilePath) (t : Trace) (x : Result (Unit {0}) × Trace)
      → path ≢ p.destination
      → Succeeds w p.destination (create_temp path) t
      → copy_and_rename w p path (filed (create_temp path) ∷ t) ≡ x
      → Copied t (or_remove w path x)
  unfolding or_remove LeavesAlone
  or_remove-Copied path t (err e, u) other made h = stays e _ (
      aside other (
        subst (Keeps w p.destination t) (ap (λ x. x.1) h) (
          copy_and_rename-Keeps path (filed (create_temp path) ∷ t) other (aside other kept)
            (ap (λ x. x.0) h))))
  or_remove-Copied path t (ok tt, u) other made h =
      let (was_opened, read, read_closed, synced, shut, moved, trace) =
        copy_and_rename-done path (filed (create_temp path) ∷ t) (ap (λ x. x.0) h) in
      subst (λ v. Copied t (ok tt, v)) (sym trace ∙ ap (λ x. x.1) h)
        (becomes path other
          (made, (was_opened, (read, (read_closed, (synced, (shut, (moved, tt))))))))

  -- `os.CreateTemp` makes another file than the destination.
  abbrev pub MakesOther : Type 0
  MakesOther =
      (t : Trace)
      → (w t).temp_file (dir p.destination) ("." <> base p.destination <> ".") ≢ p.destination

  created-Copied :
      (path : FilePath) (t : Trace) (r : Result (Unit {0}))
      → path ≢ p.destination
      → of_option (λ e. e) ((w t).change_file (create_temp path)) ≡ r
      → Copied t (
          bind_result
            (λ q u. or_remove w q (copy_and_rename w p q u))
            (map_error
              (replace_error w p)
              (bind_result (λ _. pure path) r (filed (create_temp path) ∷ t)).0)
            (bind_result (λ _. pure path) r (filed (create_temp path) ∷ t)).1)
  unfolding LeavesAlone
  created-Copied path t (ok u) other h =
      or_remove-Copied path t _ other (succeeded w p.destination _ h) refl
  created-Copied path t (err e) other h = stays _ _ (aside other kept)

  copy_instructions-Copied : MakesOther → (t : Trace) → Copied t (copy_instructions w p t)
  unfolding copy_instructions create_temporary
  copy_instructions-Copied other t =
      let path = (w t).temp_file (dir p.destination) ("." <> base p.destination <> ".") in
      created-Copied path t _ (other t) refl

  module _ (state : FilePath) where
    -- How a refresh ends that starts after the trace `t`: with an error, or without a source, and the
    -- destination as it was; or by `copying` the source to another file and that onto the destination, every call
    -- of which succeeds, with no other between them, right after the destination was found to be `IsPlaced`.
    pub data Refreshed (t : Trace) : Result Bool × Trace → Type 0 where
      fails : (e : Error) (u : Trace) → Keeps w p.destination t u → Refreshed t (err e, u)
      absent :
          (u : Trace) (e : Error)
          → Keeps w p.destination t u
          → (w u).host.stat p.source ≡ not_exist e
          → Refreshed t (ok false, u)
      copies :
          (u : Trace) (path : FilePath)
          → Keeps w p.destination t u
          → IsPlaced (w u).host (path_text state) p.destination
          → path ≢ p.destination
          → AllSucceed w p.destination (copying path) u
          → Refreshed t (ok true, after w p.destination (copying path) u)

    Copied-Refreshed :
        {t u : Trace} {x : Result (Unit {0}) × Trace}
        → Keeps w p.destination t u
        → validate_instruction_destination (w u).host (path_text state) p.destination ≡ ok tt
        → Copied u x
        → Refreshed t (bind_result (λ _. pure true) x.0 x.1)
    Copied-Refreshed k v (stays e s j) = fails e s (Keeps-trans w p.destination k j)
    Copied-Refreshed k v (becomes path other all) =
        copies _ path k (validate-IsPlaced _ (path_text state) p.destination v) other all

    checked-Refreshed :
        {t : Trace} (u : Trace) (r : Result (Unit {0}))
        → MakesOther
        → Keeps w p.destination t u
        → validate_instruction_destination (w u).host (path_text state) p.destination ≡ r
        → Refreshed t (bind_result (λ _. copy_instructions w p >> pure true) r u)
    checked-Refreshed u (ok tt) other k v = Copied-Refreshed k v (copy_instructions-Copied other u)
    checked-Refreshed u (err e) other k v = fails e u k

    made-Refreshed :
        {t : Trace} (u : Trace) (r : Result (Unit {0}))
        → MakesOther
        → Keeps w p.destination t u
        → Refreshed t (
            bind_result
              (λ _.
                query w (λ h. validate_instruction_destination h (path_text state) p.destination)
                >>= λ _. copy_instructions w p >> pure true)
              r
              u)
    made-Refreshed u (ok tt) other k = checked-Refreshed u _ other k refl
    made-Refreshed u (err e) other k = fails e u k

    refresh_from-Refreshed :
        (t : Trace) (present : Bool)
        → MakesOther
        → source_kind p.source ((w t).host.stat p.source) ≡ ok present
        → Refreshed t (refresh_from w p state present t)
    unfolding refresh_from LeavesAlone
    refresh_from-Refreshed t false other s =
        let (e, gone) = source_kind-false p.source _ s in absent t e kept gone
    refresh_from-Refreshed t true other s = made-Refreshed _ _ other (aside tt kept)

    source-Refreshed :
        (t : Trace) (r : Result Bool)
        → MakesOther
        → source_kind p.source ((w t).host.stat p.source) ≡ r
        → Refreshed t (bind_result (refresh_from w p state) r t)
    source-Refreshed t (ok present) other s = refresh_from-Refreshed t present other s
    source-Refreshed t (err e) other s = fails e t kept

    start-Refreshed :
        (t : Trace) (r : Result (Unit {0}))
        → MakesOther
        → Refreshed t (
            bind_result
              (λ _.
                query w (λ h. source_kind p.source (h.stat p.source)) >>= refresh_from w p state)
              r
              t)
    start-Refreshed t (ok tt) other = source-Refreshed t _ other refl
    start-Refreshed t (err e) other = fails e t kept

    -- Whatever the file system answers: if refreshing an agent's instructions fails, or there is no source, the
    -- destination is as it was; if it succeeds, a temporary file took the destination's place by a rename, after
    -- it was made, got a copy of the source, and was synced and closed, every call of these without an error;
    -- and right before, the destination lay in the state root and was a regular file or free.
    -- `os.CreateTemp` must make another file than the destination.
    pub refresh_paths-Refreshed : MakesOther → (t : Trace) → Refreshed t (refresh_paths w state p t)
    unfolding refresh_paths
    refresh_paths-Refreshed other t = start-Refreshed t _ other
