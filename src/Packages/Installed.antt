-- ===== src/Packages/Installed.antt =====
-- What is there when packages.go has provided packages, and what was run for it.
use Prim.Native.Char.{Char}
use mathlib.Core.Path.{subst}
use lima_jailed_agents.Base.{
  String, Bool, true, false, not, List, [], ◌∷◌, ◌≡◌, refl, sym, ap, ◌∙◌, ok, All,
}
use lima_jailed_agents.Base.{◌==◌, string_eq, if◌then◌else◌, ok-injective, arith}
use lima_jailed_agents.Base.{
  Error, ◌≢◌, ◌⊎◌, inl, inr, map, Bool-cases, exited, map_error, map_error-eq_ok,
}
use lima_jailed_agents.Base.Chars.{trim_space}
use lima_jailed_agents.Packages.{
  fedora, GuestPackageBackend, ubuntu_debian, query_arguments, validate_package_name,
}
use lima_jailed_agents.Packages.Ensure.{
  answered, query_failed, database_failed, package_is_missing, query_package, missing_packages,
  install_packages, check_installed, install_all, ensure_guest_packages,
}
use lima_jailed_agents.Run.{Trace, Worlds, Event, M, word, pure, fail, ◌>>=◌, lift, map_failure}
use lima_jailed_agents.Process.{run_guest, verify_guest_connection, exited_with, probe_options}
use lima_jailed_agents.Process.Laws.{exited_with-zero, GuestRuns, RunsIn, run_guest-RunsIn}
use lima_jailed_agents.Host.{ProcessResult}
use lima_jailed_agents.Run.Rules.{Adds, same, Adds-trans}
use lima_jailed_agents.Run.Steps.{>>=-steps, reject_if-steps}
use lima_jailed_agents.Tools.Ensure.{GuestPackageOptions, options_of}
use lima_jailed_agents.Packages.Benign.{
  query-Emits, missing-Emits, install-Emits, check-Emits, install_all-Emits,
}

Adds-to : (Q : Event → Type 0) {t u v : Trace} → Adds Q t u → u ≡ v → Adds Q t v
Adds-to Q {t} a p = subst (λ x. Adds Q t x) p a

is_true : (b : Bool) → not b ≡ false → b ≡ true
is_true true e = refl
is_true false e = sym e

-- The answer of a package database that says that a package is installed: the query ended with the status 0,
-- and that of Debian printed the state of an installed package.
abbrev pub SaysInstalled : GuestPackageBackend → ProcessResult → Type 0
SaysInstalled backend r =
    (r.exit_code ≡ exited 0)
    × ((backend.name ≢ ubuntu_debian) ⊎ (trim_space r.stdout ≡ "install ok installed"))

-- The words ask the package database of a back end whether a package is there: RPM for what provides it, dpkg for
-- its state.
abbrev pub AsksFor : GuestPackageBackend → String → List String → Type 0
AsksFor backend name words =
    ((backend.name ≡ fedora)
      × (words ≡ backend.query_command ∷ "-q" ∷ "--whatprovides" ∷ name ∷ []))
    ⊎ ((backend.name ≢ fedora)
        × (words ≡ backend.query_command ∷ "--show" ∷ "--showformat=${Status}" ∷ name ∷ []))

query_arguments-AsksFor :
    (backend : GuestPackageBackend) (name : String)
    → AsksFor backend name (query_arguments backend name)
unfolding query_arguments
query_arguments-AsksFor backend name = elim (string_eq.dec backend.name fedora) [
  | yes rpm ↦ inl (rpm, ground arith)
  | no dpkg ↦ inr (dpkg, ground arith)
]

module _ (lower : Char → Char) (script : String) (w : Worlds) (o : GuestPackageOptions)
    (backend : GuestPackageBackend) where
  -- The run of the query for a package in the guest.
  abbrev pub asked : String → M ProcessResult
  asked name =
      run_guest script w o.project o.vm_name (map word (query_arguments backend name))
        (probe_options (options_of o)) []

  -- Between the traces `t` and `u` the guest was asked for the package (see `AsksFor`), and answered that it is installed; before
  -- and after that, there were only commands in this guest.
  abbrev pub Found : Trace → Trace → String → Type 0
  Found t u name =
      (s : Trace) × (r : ProcessResult) × AsksFor backend name (query_arguments backend name)
      × Adds (RunsIn o.vm_name) t s
      × ((asked name s).0 ≡ ok r)
      × SaysInstalled backend r
      × Adds (RunsIn o.vm_name) (asked name s).1 u

  guests : GuestRuns script w (RunsIn o.vm_name) o.vm_name
  guests = run_guest-RunsIn script w o.vm_name

  not_installed :
      (missing : Bool) (x : Error) (s : Trace)
      → ((if missing then pure false else fail x) s).0 ≡ ok true
      → ⊥
  not_installed true x s e = cc
  not_installed false x s e = cc

  answered-true :
      (name : String) (r : ProcessResult) (s : Trace)
      → (answered lower script w o backend name r s).0 ≡ ok true
      → SaysInstalled backend r × ((answered lower script w o backend name r s).1 ≡ s)
  unfolding answered
  answered-true name r s e = elim (Bool-cases (exited_with r.exit_code)) [
    | inl zero ↦ elim (Bool-cases (backend.name == ubuntu_debian)) [
      | inl debian ↦
          let says : (trim_space r.stdout == "install ok installed") ≡ true =
            ok-injective (rw debian at rw zero at e) in
          rw (zero, debian) ((exited_with-zero r.exit_code zero, inr (ground arith)), refl)
      | inr other ↦ rw (zero, other) ((exited_with-zero r.exit_code zero, inl (ground arith)), refl)
    ]
    | inr other ↦
        let connected =
          map_failure (query_failed lower script w o backend name)
            (verify_guest_connection script w o.project o.vm_name (probe_options (options_of o))) in
        let missing : M Bool =
          if package_is_missing lower backend r
          then pure false
          else fail (database_failed lower script w o backend name r) in
        let (_, _, k) = >>=-steps connected (λ _. missing) s (rw other at e) in
        absurd (
          not_installed (package_is_missing lower backend r) _ _
            (ap (λ x. x.0) k ∙ (rw other at e)))
  ]

  query-asked :
      (name : String) (s : Trace)
      → (query_package lower script w o backend name s).0 ≡ ok true
      → (r : ProcessResult) × ((asked name s).0 ≡ ok r)
        × SaysInstalled backend r
        × ((query_package lower script w o backend name s).1 ≡ (asked name s).1)
  unfolding query_package
  query-asked name s e =
      let valid = lift (
        map_error (query_failed lower script w o backend name)
          (validate_package_name backend name)) in
      let run = map_failure (query_failed lower script w o backend name) (asked name) in
      let (u, _, k) = >>=-steps valid (λ _. run >>= answered lower script w o backend name) s e in
      let (r, q, k₂) =
        >>=-steps run (answered lower script w o backend name) s (ap (λ r. r.0) k ∙ e) in
      let (says, stays) = answered-true name r (run s).1 (ap (λ r. r.0) (k₂ ∙ k) ∙ e) in
      (r, map_error-eq_ok _ (asked name s).0 q, says, sym (ap (λ r. r.1) (k₂ ∙ k)) ∙ stays)

  query-Found :
      (name : String) {t s u : Trace}
      → Adds (RunsIn o.vm_name) t s
      → (query_package lower script w o backend name s).0 ≡ ok true
      → Adds (RunsIn o.vm_name) (query_package lower script w o backend name s).1 u
      → Found t u name
  query-Found name {s} {u} a e c =
      let (r, q, says, end) = query-asked name s e in
      (
        s,
        r,
        query_arguments-AsksFor backend name,
        a,
        q,
        says,
        subst (λ x. Adds (RunsIn o.vm_name) x u) end c,
      )

  check-Found :
      (names : List String) {t t₁ u : Trace}
      → Adds (RunsIn o.vm_name) t t₁
      → (check_installed lower script w o backend names t₁).1 ≡ u
      → (check_installed lower script w o backend names t₁).0 ≡ ok tt
      → All (Found t u) names
  unfolding check_installed
  check-Found [] a p e = tt
  check-Found (name ∷ names) {t} {t₁} {u} a p e =
      let query = query_package lower script w o backend name in
      let next = check_installed lower script w o backend names in
      let (i, q, k) = >>=-steps query _ t₁ e in
      let (b, k₂) = reject_if-steps (not i) _ next (query t₁).1 (ap (λ r. r.0) k ∙ e) in
      let end : (next (query t₁).1).1 ≡ u = ap (λ r. r.1) (sym k₂ ∙ k) ∙ p in
      (
        query-Found name a (q ∙ ap ok (is_true i b)) (
            Adds-to (RunsIn o.vm_name)
              ((check-Emits lower script w o backend (RunsIn o.vm_name) guests names).at
                (query t₁).1)
              end),
        check-Found names
            (Adds-trans (RunsIn o.vm_name) a
              ((query-Emits lower script w o backend (RunsIn o.vm_name) guests name).at t₁))
            end (ap (λ r. r.0) (sym k₂ ∙ k) ∙ e),
      )

  choose :
      (F : String → Type 0) (name : String) (rest : List String) (i : Bool) {names : List String}
      → (i ≡ true → F name)
      → (if i then rest else name ∷ rest) ≡ names
      → All F names
      → F name × All F rest
  choose F name rest true found p h = (found refl, subst (All F) (sym p) h)
  choose F name rest false found p h = subst (All F) (sym p) h

  missing-Found :
      (names : List String) {missing : List String} {t t₁ u : Trace}
      → Adds (RunsIn o.vm_name) t t₁
      → Adds (RunsIn o.vm_name) (missing_packages lower script w o backend names t₁).1 u
      → (missing_packages lower script w o backend names t₁).0 ≡ ok missing
      → All (Found t u) missing
      → All (Found t u) names
  unfolding missing_packages
  missing-Found [] a c e h = tt
  missing-Found (name ∷ names) {missing} {t} {t₁} {u} a c e h =
      let query = query_package lower script w o backend name in
      let next = missing_packages lower script w o backend names in
      let (i, q, k) = >>=-steps query _ t₁ e in
      let (rest, r, k₂) = >>=-steps next _ (query t₁).1 (ap (λ r. r.0) k ∙ e) in
      let end : Adds (RunsIn o.vm_name) (next (query t₁).1).1 u =
        subst (λ x. Adds (RunsIn o.vm_name) x u) (sym (ap (λ r. r.1) (k₂ ∙ k))) c in
      let later =
        Adds-trans (RunsIn o.vm_name)
          ((missing-Emits lower script w o backend (RunsIn o.vm_name) guests names).at (query t₁).1)
          end in
      let both =
        choose (Found t u) name rest i (λ y. query-Found name a (q ∙ ap ok y) later)
          (ok-injective (ap (λ r. r.0) (k₂ ∙ k) ∙ e)) h in
      (
        both.0,
        missing-Found names
            (Adds-trans (RunsIn o.vm_name) a
              ((query-Emits lower script w o backend (RunsIn o.vm_name) guests name).at t₁))
            end r both.1,
      )

  install_all-Found :
      (names : List String) {t t₁ : Trace}
      → Adds (RunsIn o.vm_name) t t₁
      → (install_all lower script w o backend names t₁).0 ≡ ok tt
      → All (Found t (install_all lower script w o backend names t₁).1) names
  unfolding install_all
  install_all-Found [] a e = tt
  install_all-Found (name ∷ names) {t} {t₁} a e =
      let install = install_packages lower script w o backend (name ∷ names) in
      let (u, q, k) = >>=-steps install _ t₁ e in
      check-Found (name ∷ names)
        (Adds-trans (RunsIn o.vm_name) a
          ((install-Emits lower script w o backend (RunsIn o.vm_name) guests (name ∷ names)).at t₁))
        (ap (λ r. r.1) k) (ap (λ r. r.0) k ∙ e)

  -- When providing the packages succeeds, the guest was asked for each of them by the query of its back end, for
  -- RPM or for dpkg, and answered that it is installed. Before and after that answer nothing was done but commands in this guest.
  pub ensure_guest_packages-Found :
      (names : List String) (t : Trace)
      → (ensure_guest_packages lower script w o backend names t).0 ≡ ok tt
      → All (Found t (ensure_guest_packages lower script w o backend names t).1) names
  unfolding ensure_guest_packages
  ensure_guest_packages-Found names t e =
      let missing = missing_packages lower script w o backend names in
      let (ms, q, k) = >>=-steps missing _ t e in
      let before = (missing-Emits lower script w o backend (RunsIn o.vm_name) guests names).at t in
      let p = ap (λ r. r.1) k in
      missing-Found names same
        (Adds-to (RunsIn o.vm_name)
          ((install_all-Emits lower script w o backend (RunsIn o.vm_name) guests ms).at
            (missing t).1)
          p)
        q (subst (λ u. All (Found t u) ms) p (install_all-Found ms before (ap (λ r. r.0) k ∙ e)))
