-- ===== src/Tools/Ensure/Found.antt =====
-- When agent.go's `guestExecutableVersion` tells a path, the guest has found the executable.
use text.Mathlib.Text.{starts_with}
use mathlib.Core.Path.{subst}
use lima_jailed_agents.Base.{
  String, Bool, true, false, [], ◌∷◌, ◌≡◌, ◌≢◌, refl, sym, ap, ◌∙◌, arith,
}
use lima_jailed_agents.Base.{
  ok, Error, str, wrap, map_error-eq_ok, ok-injective, Bool-cases, inl, inr, exited, ◌==◌,
  string_eq, if◌then◌else◌,
}
use lima_jailed_agents.Base.Chars.{trim_space}
use lima_jailed_agents.Host.{ProcessResult}
use lima_jailed_agents.Process.{
  run_guest, verify_guest_connection, guest_executable_path, printed_path, probe_options,
  exited_with, exit_is_one, probe_error,
}
use lima_jailed_agents.Process.Laws.{exited_with-zero, GuestRuns, RunsIn, run_guest-RunsIn}
use lima_jailed_agents.Run.{
  Trace, M, word, Worlds, ◌>>=◌, ◌>>◌, pure, fail, lift, map_failure, reject_if,
}
use lima_jailed_agents.Run.Rules.{Adds, Adds-trans, Emits, emits_rules}
use lima_jailed_agents.Run.Steps.{>>=-steps}
use lima_jailed_agents.Tools.Ensure.{
  GuestPackageOptions, options_of, guest_executable_version, version_of,
}
use lima_jailed_agents.Tools.Ensure.Laws.{version_of-Emits}

printed_path-absolute :
    (script : String) (w : Worlds) (executable output : String) {path : String}
    → printed_path script w executable output ≡ ok path
    → starts_with output "/" ≡ true
unfolding printed_path
printed_path-absolute script w executable output e = ground arith

module _ (script : String) (w : Worlds) (o : GuestPackageOptions) where
  -- The look for an executable in the guest.
  abbrev pub looked : String → M ProcessResult
  looked executable =
      run_guest script w o.project o.vm_name (word "command" ∷ word "-v" ∷ word executable ∷ [])
        (probe_options (options_of o)) []

  -- Between the traces `t` and `u` the guest was asked for the executable, and answered with the status 0 and an
  -- absolute path; before and after that, there were only commands in this guest.
  abbrev pub Finds : Trace → Trace → String → Type 0
  Finds t u executable =
      (s : Trace) × (r : ProcessResult) × Adds (RunsIn o.vm_name) t s
      × ((looked executable s).0 ≡ ok r)
      × (r.exit_code ≡ exited 0)
      × (starts_with (trim_space r.stdout) "/" ≡ true)
      × Adds (RunsIn o.vm_name) (looked executable s).1 u

  guests : GuestRuns script w (RunsIn o.vm_name) o.vm_name
  guests = run_guest-RunsIn script w o.vm_name

  abbrev after_look : String → ProcessResult → M String
  after_look executable r =
      if exited_with r.exit_code
      then lift (printed_path script w executable (trim_space r.stdout))
      else (verify_guest_connection script w o.project o.vm_name (probe_options (options_of o))
          >> (if exit_is_one r.exit_code
              then pure ""
              else fail (probe_error script w executable r)))

  nothing_found :
      (one : Bool) (x : Error) (s : Trace) {path : String}
      → ((if one then pure "" else fail x) s).0 ≡ ok path
      → path ≡ ""
  nothing_found true x s e = sym (ok-injective e)
  nothing_found false x s e = cc

  after_look-found :
      (executable : String) (r : ProcessResult) (s : Trace) {path : String}
      → (after_look executable r s).0 ≡ ok path
      → path ≢ ""
      → (r.exit_code ≡ exited 0)
        × (starts_with (trim_space r.stdout) "/" ≡ true)
        × ((after_look executable r s).1 ≡ s)
  after_look-found executable r s e given = elim (Bool-cases (exited_with r.exit_code)) [
    | inl zero ↦ rw zero (
      exited_with-zero r.exit_code zero,
      printed_path-absolute script w executable (trim_space r.stdout) (rw zero at e),
      refl,
    )
    | inr other ↦
        let (_, _, k) =
          >>=-steps
            (verify_guest_connection script w o.project o.vm_name (probe_options (options_of o))) _
            s (rw other at e) in
        absurd
          (given (nothing_found (exit_is_one r.exit_code) _ _ (ap (λ x. x.0) k ∙ (rw other at e))))
  ]

  path-found :
      (executable : String) (s : Trace) {path : String}
      → (guest_executable_path script w o.project o.vm_name executable (options_of o) s).0 ≡ ok path
      → path ≢ ""
      → (r : ProcessResult) × ((looked executable s).0 ≡ ok r)
        × (r.exit_code ≡ exited 0)
        × (starts_with (trim_space r.stdout) "/" ≡ true)
        × ((guest_executable_path script w o.project o.vm_name executable (options_of o) s).1
            ≡ (looked executable s).1)
  unfolding guest_executable_path
  path-found executable s e given =
      let (r, q, k) = >>=-steps (looked executable) (after_look executable) s e in
      let (zero, absolute, stays) =
        after_look-found executable r (looked executable s).1 (ap (λ x. x.0) k ∙ e) given in
      (r, q, zero, absolute, sym (ap (λ x. x.1) k) ∙ stays)

  abbrev pub version_run : String → M (String × String)
  version_run executable =
      guest_executable_version script w o.project o.vm_name executable (options_of o)

  -- What `guestExecutableVersion` does with the path that it was told.
  abbrev after_path : String → String → M (String × String)
  after_path executable path = if path == "" then pure ("", "") else (do
    r ←
        map_failure
          (wrap "cannot run guest executable %s in VM %s: %w" (str executable ∷ str o.vm_name ∷ []))
          (run_guest script w o.project o.vm_name (word executable ∷ word "--version" ∷ [])
            (probe_options (options_of o)) [])
    version_of script w o.project o.vm_name executable path (probe_options (options_of o)) r)

  after_path-RunsIn :
      (executable path : String) → Emits (RunsIn o.vm_name) (after_path executable path)
  after_path-RunsIn executable path =
      search (emits_rules, guests, version_of-Emits script w o.vm_name (RunsIn o.vm_name) guests)
        depth 12

  after_path-given :
      (executable told : String) (s : Trace) {found : String × String}
      → (after_path executable told s).0 ≡ ok found
      → found.0 ≢ ""
      → told ≢ ""
  after_path-given executable told s {found} e given = elim (Bool-cases (told == "")) [
    | inl empty ↦
        let same : ("", "") ≡ found = ok-injective (rw empty at e) in
        absurd (given (sym (ap (λ p. p.0) same)))
    | inr other ↦ ground (arith, other)
  ]

  pub version-Finds :
      (executable : String) {t s u : Trace} {found : String × String}
      → Adds (RunsIn o.vm_name) t s
      → (version_run executable s).0 ≡ ok found
      → found.0 ≢ ""
      → Adds (RunsIn o.vm_name) (version_run executable s).1 u
      → Finds t u executable
  unfolding guest_executable_version
  version-Finds executable {s} {u} a e given c =
      let look = guest_executable_path script w o.project o.vm_name executable (options_of o) in
      let (told, p, k) = >>=-steps look (after_path executable) s e in
      let told_given = after_path-given executable told (look s).1 (ap (λ x. x.0) k ∙ e) given in
      let (r, q, zero, absolute, stays) = path-found executable s p told_given in
      let next = (after_path-RunsIn executable told).at (look s).1 in
      let later = subst (λ x. Adds (RunsIn o.vm_name) (look s).1 x) (ap (λ x. x.1) k) next in
      (
        s,
        r,
        a,
        q,
        zero,
        absolute,
        subst (λ x. Adds (RunsIn o.vm_name) x u) stays (Adds-trans (RunsIn o.vm_name) later c),
      )

  reject_if-kept :
      (b : Bool) (x : Error) (s : Trace)
      → (reject_if b x s).0 ≡ ok tt
      → (b ≡ false) × ((reject_if b x s).1 ≡ s)
  reject_if-kept true x s e = cc
  reject_if-kept false x s e = (refl, refl)

  -- An executable that must be there.
  abbrev pub demanded : (Error → Error) → Error → String → M (Unit {0})
  demanded f x executable =
      map_failure f (version_run executable) >>= λ found. reject_if (found.0 == "") x

  pub demanded-Finds :
      (f : Error → Error) (x : Error) (executable : String) {t s u : Trace}
      → Adds (RunsIn o.vm_name) t s
      → (demanded f x executable s).0 ≡ ok tt
      → Adds (RunsIn o.vm_name) (demanded f x executable s).1 u
      → Finds t u executable
  demanded-Finds f x executable {s} {u} a e c =
      let (found, q, k) =
        >>=-steps (map_failure f (version_run executable)) (λ found. reject_if (found.0 == "") x) s
          e in
      let (given, stays) =
        reject_if-kept (found.0 == "") x (version_run executable s).1 (ap (λ r. r.0) k ∙ e) in
      version-Finds executable a (map_error-eq_ok f (version_run executable s).0 q)
        (ground (arith, given))
        (subst (λ v. Adds (RunsIn o.vm_name) v u) (sym (ap (λ r. r.1) k) ∙ stays) c)
