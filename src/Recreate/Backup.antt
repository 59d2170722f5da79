-- ===== src/Recreate/Backup.antt =====
-- The backup of a replacement: it is deleted after the new VM runs and answers under the old name, and in
-- no other case.
use lima_jailed_agents.Base.{String, ◌≡◌, ◌≢◌, refl, Result, ok, err, Error}
use lima_jailed_agents.Lima.Instances.{LimaInstance}
use lima_jailed_agents.Lima.Json.{Payload}
use lima_jailed_agents.Recreate.{
  Replacement, replace_vm, promote, finish, start_and_validate, rollback,
}
use lima_jailed_agents.Recreate.{fail_after, recover_result}
use lima_jailed_agents.Recreate.Events.{staged-Emits, swap-Emits, help-Emits, free-Emits}
use lima_jailed_agents.Recreate.Events.{start_and_validate-Emits, rolled_back-Emits}
use lima_jailed_agents.Recreate.Safety.{Spares, stage_calls-Spares, swap_calls-Spares}
use lima_jailed_agents.Base.{ap}
use lima_jailed_agents.Recreate.Started.{Answers, start_and_validate-Answers}
use lima_jailed_agents.Run.{Worlds, Trace, M, ◌>>=◌, bind_result}
use lima_jailed_agents.Run.Rules.{Emits, Emits-map_failure, Emits-reject_if, Adds, Adds-trans, same}
use lima_jailed_agents.Workflow.{Workflow, GuestOnly}

module _ (script : String) (decode : String → Payload) (w : Worlds) (f : Workflow)
    (r : Replacement) where
  -- How a replacement ends that starts after the trace `t`: with an error, the backup not deleted; or as
  -- `finish` ends, after the new VM was started and validated (see `Answers`) and the backup not deleted until
  -- then.
  pub data Ends (t : Trace) : Result LimaInstance × Trace → Type 0 where
    kept : (e : Error) (u : Trace) → Adds (Spares r.backup) t u → Ends t (err e, u)
    validated :
        (s u : Trace) (i : LimaInstance)
        → Adds (Spares r.backup) t s
        → start_and_validate script decode w f r s ≡ (ok i, u)
        → Answers script decode w f r s i
        → Adds (Spares r.backup) s u
        → Ends t (finish script decode w f r i u)

  Ends-later :
      {t u : Trace} {x : Result LimaInstance × Trace}
      → Adds (Spares r.backup) t u
      → Ends u x
      → Ends t x
  Ends-later a (kept e v b) = kept e v (Adds-trans _ a b)
  Ends-later a (validated s v i b done y c) = validated s v i (Adds-trans _ a b) done y c

  record Guards (m : M LimaInstance) : Type 0 where
    pub at : (t : Trace) → Ends t (m t)

  bind_result-Ends :
      {A : Type 0} (k : A → M LimaInstance) (x : Result A) (t : Trace)
      → ((a : A) → Guards (k a))
      → Ends t (bind_result k x t)
  bind_result-Ends k (ok a) t g = (g a).at t
  bind_result-Ends k (err e) t g = kept e t same

  Guards-bind :
      {A : Type 0} {m : M A} {k : A → M LimaInstance}
      → Emits (Spares r.backup) m
      → ((a : A) → Guards (k a))
      → Guards (m >>= k)
  Guards-bind {m} {k} j g = record {
    at = λ t. Ends-later (j.at t) (bind_result-Ends k (m t).0 (m t).1 g);
  }

  validate_result-Ends :
      (t : Trace) (x : Result LimaInstance × Trace)
      → start_and_validate script decode w f r t ≡ x
      → Adds (Spares r.backup) t x.1
      → ((e : Error)
          → Emits {A = LimaInstance}
              (Spares r.backup)
              (fail_after e (rollback script decode w f r)))
      → Ends t (
          bind_result
            (finish script decode w f r)
            (recover_result (λ e. fail_after e (rollback script decode w f r)) x.0 x.1).0
            (recover_result (λ e. fail_after e (rollback script decode w f r)) x.0 x.1).1)
  validate_result-Ends t (ok i, u) done a rolls =
      validated t u i same done
        (start_and_validate-Answers script decode w f r t (ap (λ p. p.0) done)) a
  validate_result-Ends t (err e, u) done a rolls = kept _ _ (Adds-trans _ a ((rolls e).at u))

module _ (script : String) (decode : String → Payload) (w : Worlds) (f : Workflow)
    (guests : GuestOnly f) where
  promote-Guards :
      (r : Replacement)
      → r.candidate ≢ r.backup
      → Guards script decode w f r (promote script decode w f r)
  unfolding promote
  promote-Guards r other =
      let stages = stage_calls-Spares r.backup r other in
      let swaps = swap_calls-Spares r.backup r in
      record {
        at = λ t.
            validate_result-Ends script decode w f r t (start_and_validate script decode w f r t)
              refl
              ((start_and_validate-Emits script decode w f guests r (Spares r.backup) stages.benign
                  stages.starts_old).at
                t)
              (λ e. rolled_back-Emits script decode w f guests r (Spares r.backup) stages swaps e);
      }

  -- A replacement that starts at any trace, whatever limactl answers: it fails, and has not deleted the
  -- backup; or `limactl start` of the old name succeeded, the VM that was then listed by this name ran and had
  -- the mounts of the project, its guest answered, the backup was not deleted until then, and the end is that
  -- of `finish`. The candidate and the backup have different names, and the parts that act in guests only do
  -- that.
  pub replace_vm-Ends :
      (r : Replacement) (t : Trace)
      → r.candidate ≢ r.backup
      → Ends script decode w f r t (replace_vm script decode w f r t)
  unfolding replace_vm
  replace_vm-Ends r t other =
      let Q = Spares r.backup in
      let stages = stage_calls-Spares r.backup r other in
      let swaps = swap_calls-Spares r.backup r in
      (Guards-bind script decode w f r (Emits-reject_if Q _ _) λ _.
          Guards-bind script decode w f r
            (Emits-map_failure Q _ (help-Emits script decode w f guests r Q stages swaps))
            λ _.
              Guards-bind script decode w f r
                (free-Emits script decode w f guests r Q stages r.candidate)
                λ _.
                  Guards-bind script decode w f r
                    (free-Emits script decode w f guests r Q stages r.backup)
                    λ _.
                      Guards-bind script decode w f r
                        (staged-Emits script decode w f guests r Q stages)
                        λ _.
                          Guards-bind script decode w f r
                            (swap-Emits script decode w f guests r Q stages swaps)
                            λ _. promote-Guards r other).at
        t
