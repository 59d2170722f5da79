-- ===== src/Lock/Laws.antt =====
-- The advisory lock as a bracket around its function, and where a lock may lie.
use mathlib.Core.Path.{subst}
use lima_jailed_agents.Base.{
  false, Option, none, some, List, [], ◌∷◌, FilePath, ◌≡◌, refl, sym, ap, arith, All, ok-injective,
}
use lima_jailed_agents.Base.{Result, ok, err, Error, >>=-eq_ok, Bool-cases, inl, inr, if◌then◌else◌}
use lima_jailed_agents.Host.{Host, PathText}
use lima_jailed_agents.Lima.Mounts.{expected_mount_paths}
use lima_jailed_agents.Lock.{
  AdvisoryLockOptions, LockPlace, inside_any, choose_lock_directory, default_lock_directory,
  lock_place,
}
use lima_jailed_agents.Lock.{
  join_results, close_lock, unlock, hold, lock_opened, lock_at, make_lock_directory, open_lock,
  with_advisory_lock, lock_directory_of, lock_text, lock_candidates,
}
use lima_jailed_agents.Path.Canonical.{canonical_path, home_directory}
use lima_jailed_agents.Path.Text.{path_text}
use lima_jailed_agents.Path.Within.{path_is_within}
use lima_jailed_agents.Run.{
  Event, ran, made_dir, opened, locked, unlocked, closed, printed, Trace, Worlds, M,
}
use lima_jailed_agents.Run.{bind_result, of_option}
use lima_jailed_agents.Run.Rules.{Adds, Adds-trans, same, more}

abbrev pub IsOutside : List FilePath → FilePath → Type 0
IsOutside mounts path = All (λ mount. path_is_within path mount ≡ false) mounts

inside_any-IsOutside :
    (path : FilePath) (mounts : List FilePath)
    → inside_any path mounts ≡ false
    → IsOutside mounts path
unfolding inside_any
inside_any-IsOutside path [] e = tt
inside_any-IsOutside path (mount ∷ mounts) e =
    (ground arith, inside_any-IsOutside path mounts (ground arith))

choose_lock_directory-IsOutside :
    (h : Host) (project : PathText) (mounts : List FilePath) (candidates : List PathText)
    {candidate : PathText}
    → choose_lock_directory h project mounts candidates ≡ ok candidate
    → (resolved : FilePath) × (canonical_path h candidate ≡ ok resolved) × IsOutside mounts resolved
unfolding choose_lock_directory
choose_lock_directory-IsOutside h project mounts [] e = cc
choose_lock_directory-IsOutside h project mounts (first ∷ candidates) {candidate} e =
    let (resolved, c, k) = >>=-eq_ok (canonical_path h first) _ e in
    elim (Bool-cases (inside_any resolved mounts)) [
      | inl inside ↦ choose_lock_directory-IsOutside h project mounts candidates (rw inside at k)
      | inr outside ↦
          let chosen : ◌≡◌ {A = Result PathText} (ok first) (ok candidate) = rw outside at k in
          (resolved, ground arith, inside_any-IsOutside resolved mounts outside)
    ]

-- The directory that is chosen for locks is in no mount of the project.
pub default_lock_directory-IsOutside :
    (h : Host) (project state_root : PathText) {candidate : PathText}
    → default_lock_directory h project state_root ≡ ok candidate
    → (mounts : List FilePath) × (resolved : FilePath) × (expected_mount_paths h project state_root
        ≡ ok mounts)
      × (canonical_path h candidate ≡ ok resolved)
      × IsOutside mounts resolved
unfolding default_lock_directory
default_lock_directory-IsOutside h project state_root e =
    let (home, _, k) = >>=-eq_ok (home_directory h) _ e in
    let (mounts, m, j) = >>=-eq_ok (expected_mount_paths h project state_root) _ k in
    let (resolved, c, outside) =
      choose_lock_directory-IsOutside h project mounts (lock_candidates h home) j in
    (mounts, resolved, m, c, outside)

-- Wherever the locks are kept, a lock is in no mount of the project.
pub lock_place-IsOutside :
    (h : Host) (o : AdvisoryLockOptions) {place : LockPlace}
    → lock_place h o ≡ ok place
    → (project : FilePath) × (mounts : List FilePath) × (canonical_path h o.project ≡ ok project)
      × (expected_mount_paths h (path_text project) o.state_root ≡ ok mounts)
      × IsOutside mounts place.path
unfolding lock_place
lock_place-IsOutside h o {place} e =
    let (project, p, k₁) = >>=-eq_ok (canonical_path h o.project) _ e in
    let (given, _, k₂) = >>=-eq_ok (lock_directory_of h o project) _ k₁ in
    let (directory, _, k₃) = >>=-eq_ok (canonical_path h given) _ k₂ in
    let (path, _, k₄) = >>=-eq_ok (canonical_path h (lock_text o directory)) _ k₃ in
    let (mounts, m, k₅) =
      >>=-eq_ok (expected_mount_paths h (path_text project) o.state_root) _ k₄ in
    (project, mounts, p, m, outside directory path mounts _ k₅)
  where
    outside :
        (directory path : FilePath) (mounts : List FilePath) (e : Error)
        → (if inside_any path mounts
            then err e
            else ok (record { directory = directory; path = path }))
          ≡ ok place
        → IsOutside mounts place.path
    outside directory path mounts e k = elim (Bool-cases (inside_any path mounts)) [
      | inl inside ↦ absurd (ground arith)
      | inr free ↦
          let chosen : ◌≡◌ {A = Result LockPlace}
              (ok (record { directory = directory; path = path })) (ok place) =
            rw free at k in
          let same : path ≡ place.path = ap (λ p. p.path) (ok-injective chosen) in
          subst (IsOutside mounts) same (inside_any-IsOutside path mounts free)
    ]

-- What the lock itself does before its function may run, or when it gives up.
unfoldable pub IsSetup : Event → Type 0
IsSetup (ran arguments p) = ⊥
IsSetup (printed format arguments) = ⊥
IsSetup (unlocked path) = ⊥
IsSetup _ = Unit

module _ (w : Worlds) (function : FilePath → M (Unit {0})) where
  -- How a locked call ends that starts after the trace `t`: with an error, the function not run; or the lock
  -- was obtained, the function ran right after, and the file was unlocked and closed right after that,
  -- whatever the function returned. Only a function that succeeds gives a success.
  pub data Bracketed (t : Trace) : Result (Unit {0}) × Trace → Type 0 where
    refused : (e : Error) (u : Trace) → Adds IsSetup t u → Bracketed t (err e, u)
    held :
        (path : FilePath) (u : Trace) (r : Result (Unit {0}))
        → Adds IsSetup t u
        → (w u).flock_exclusive path ≡ none
        → (r ≡ ok tt → (function path (locked path ∷ u)).0 ≡ ok tt)
        → Bracketed t (r, closed path ∷ unlocked path ∷ (function path (locked path ∷ u)).1)

  Bracketed-later :
      {t u : Trace} {x : Result (Unit {0}) × Trace}
      → Adds IsSetup t u
      → Bracketed u x
      → Bracketed t x
  Bracketed-later a (refused e v b) = refused e v (Adds-trans IsSetup a b)
  Bracketed-later a (held path v r b lock only) = held path v r (Adds-trans IsSetup a b) lock only

  join_results-ok : (a b : Result (Unit {0})) → join_results a b ≡ ok tt → a ≡ ok tt
  unfolding join_results
  join_results-ok (ok x) b e = refl
  join_results-ok (err x) (ok y) e = e
  join_results-ok (err x) (err y) e = cc

  join_results-err :
      (e : Error) (b : Result (Unit {0})) → (x : Error) × (join_results (err e) b ≡ err x)
  unfolding join_results
  join_results-err e (ok y) = (e, refl)
  join_results-err e (err y) = (_, refl)

  hold-Bracketed :
      (path : FilePath) (u : Trace) (o : Option Error)
      → (w u).flock_exclusive path ≡ o
      → Bracketed u (hold w path function o (locked path ∷ u))
  unfolding hold close_lock unlock IsSetup
  hold-Bracketed path u none lock =
      held path u _ same lock (λ e. join_results-ok _ _ (join_results-ok _ _ e))
  hold-Bracketed path u (some x) lock =
      let (e, failed) = join_results-err _ (of_option _ ((w (locked path ∷ u)).close_file path)) in
      subst (λ r. Bracketed u (r, closed path ∷ locked path ∷ u)) (sym failed)
        (refused e (closed path ∷ locked path ∷ u) (more tt (more tt same)))

  act-Bracketed :
      {k : M (Unit {0})} (e : Event) (u : Trace) (r : Result (Unit {0}))
      → IsSetup e
      → ((t : Trace) → Bracketed t (k t))
      → Bracketed u (bind_result (λ _. k) r (e ∷ u))
  act-Bracketed e u (ok x) s k = Bracketed-later (more s same) (k (e ∷ u))
  act-Bracketed e u (err x) s k = refused x (e ∷ u) (more s same)

  lock_at-Bracketed : (place : LockPlace) (t : Trace) → Bracketed t (lock_at w function place t)
  unfolding lock_at lock_opened IsSetup
  lock_at-Bracketed place t =
      act-Bracketed (made_dir place.directory) t (make_lock_directory w place t).0 tt λ u.
        act-Bracketed (opened place.path) u (open_lock w place u).0 tt
          λ v. hold-Bracketed place.path v _ refl

  place-Bracketed :
      (r : Result LockPlace) (t : Trace) → Bracketed t (bind_result (lock_at w function) r t)
  place-Bracketed (ok place) t = lock_at-Bracketed place t
  place-Bracketed (err e) t = refused e t same

  -- Whatever the file system and the function do, an advisory lock is a bracket around its function: see
  -- `Bracketed`.
  pub with_advisory_lock-Bracketed :
      (o : AdvisoryLockOptions) (t : Trace) → Bracketed t (with_advisory_lock w o function t)
  unfolding with_advisory_lock
  with_advisory_lock-Bracketed o t = place-Bracketed (lock_place (w t).host o) t
