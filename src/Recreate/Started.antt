-- ===== src/Recreate/Started.antt =====
-- What recreate.go's `startAndValidate` has seen when it succeeds.
use mathlib.Core.Path.{subst}
use lima_jailed_agents.Base.{
  String, false, not, Option, none, some, ◌≡◌, sym, ap, ◌∙◌, ok, Error, ◌==◌, string_eq, arith,
  ok-injective,
}
use lima_jailed_agents.Lima.Instances.{LimaInstance, status_running}
use lima_jailed_agents.Lima.Json.{Payload}
use lima_jailed_agents.Lima.Mounts.{validate_project_mount}
use lima_jailed_agents.Lima.Prepare.{check_mounts, require_instance}
use lima_jailed_agents.Path.Text.{path_text}
use lima_jailed_agents.Process.{verify_guest_connection, default_process_options}
use lima_jailed_agents.Recreate.{Replacement, start_and_validate, start_words, run, look}
use lima_jailed_agents.Run.{Worlds, Trace, M, ◌>>◌, lift, pure, reject_if}
use lima_jailed_agents.Run.Steps.{>>=-steps, reject_if-steps}
use lima_jailed_agents.Workflow.{Workflow}

required :
    (x : Error) (found : Option LimaInstance) {i : LimaInstance}
    → require_instance x found ≡ ok i
    → found ≡ some i
required x none e = cc
required x (some j) e = ap some (ok-injective e)

module _ (script : String) (decode : String → Payload) (w : Worlds) (f : Workflow)
    (r : Replacement) where
  -- From the trace `s` on, `limactl start` of the old name succeeded, `limactl list` then showed the instance under
  -- this name, running and with the mounts of the project, and its guest answered.
  abbrev pub Answers : Trace → LimaInstance → Type 0
  Answers s i =
      let started = (run script decode w f (start_words r.old.name) s).1 in
      let seen = (look script decode w f r.old.name started).1 in
      ((run script decode w f (start_words r.old.name) s).0 ≡ ok tt)
      × ((look script decode w f r.old.name started).0 ≡ ok (some i))
      × (validate_project_mount (w seen).host i (path_text r.project) f.state_root ≡ ok tt)
      × (i.status ≡ status_running)
      × ((verify_guest_connection script w (path_text r.project) i.name
            (default_process_options f.lima_command false) seen).0
          ≡ ok tt)

  abbrev connected : LimaInstance → M (Unit {0})
  connected i =
      verify_guest_connection script w (path_text r.project) i.name
        (default_process_options f.lima_command false)

  running-done :
      (x : Error) (j : LimaInstance) (seen : Trace) {i : LimaInstance}
      → ((reject_if (not (j.status == status_running)) x >> (connected j >> pure j)) seen).0 ≡ ok i
      → (j.status ≡ status_running) × ((connected j seen).0 ≡ ok tt) × (j ≡ i)
  running-done x j seen e =
      let (runs, passed) =
        reject_if-steps (not (j.status == status_running)) x (connected j >> pure j) seen e in
      let e₂ = ap (λ x. x.0) (sym passed) ∙ e in
      let (_, answers, k) = >>=-steps (connected j) (λ _. pure j) seen e₂ in
      (ground (arith, runs), answers, ok-injective (ap (λ x. x.0) k ∙ e₂))

  pub start_and_validate-Answers :
      (s : Trace) {i : LimaInstance}
      → (start_and_validate script decode w f r s).0 ≡ ok i
      → Answers s i
  unfolding start_and_validate check_mounts
  start_and_validate-Answers s {i} e =
      let start = run script decode w f (start_words r.old.name) in
      let (_, q, k) = >>=-steps start _ s e in
      let (found, q₂, k₂) =
        >>=-steps (look script decode w f r.old.name) _ (start s).1 (ap (λ x. x.0) k ∙ e) in
      let seen = (look script decode w f r.old.name (start s).1).1 in
      let (j, q₃, k₃) =
        >>=-steps (lift (require_instance _ found)) _ seen (ap (λ x. x.0) (k₂ ∙ k) ∙ e) in
      let (_, q₄, k₄) =
        >>=-steps (check_mounts script decode w f r.project j) _ seen
          (ap (λ x. x.0) (k₃ ∙ (k₂ ∙ k)) ∙ e) in
      let (runs, answers, found_it) =
        running-done _ j seen (ap (λ x. x.0) (k₄ ∙ (k₃ ∙ (k₂ ∙ k))) ∙ e) in
      subst (Answers s) found_it (q, q₂ ∙ ap ok (required _ found q₃), q₄, runs, answers)
