-- ===== src/Run/Steps.antt =====
-- The steps of a computation that succeeds.
use lima_jailed_agents.Base.{Bool, true, false, ◌≡◌, refl, ap, Result, ok, err, Error, ◌∙◌}
use lima_jailed_agents.Run.{Trace, M, ◌>>=◌, ◌>>◌, bind_result, reject_if}

module _ {A B : Type 0} where
  bind_result-steps :
      (f : A → M B) (x : Result A × Trace) {y : Result B × Trace} {b : B}
      → bind_result f x.0 x.1 ≡ y
      → y.0 ≡ ok b
      → (a : A) × (x.0 ≡ ok a) × (f a x.1 ≡ y)
  bind_result-steps f (ok a, t) e k = (a, refl, e)
  bind_result-steps f (err x, t) e k = absurd (impossible (ap (λ p. p.0) e ∙ k))
    where
      impossible : {b : B} {x : Error} → ◌≡◌ {A = Result B} (err x) (ok b) → ⊥
      impossible p = cc

  -- A computation in two parts that succeeds: the first succeeds, and the second goes on from its trace.
  pub >>=-steps :
      (m : M A) (f : A → M B) (t : Trace) {b : B}
      → ((m >>= f) t).0 ≡ ok b
      → (a : A) × ((m t).0 ≡ ok a) × (f a (m t).1 ≡ (m >>= f) t)
  >>=-steps m f t e = bind_result-steps f (m t) refl e

pub reject_if-false : (b : Bool) (e : Error) (t : Trace) → (reject_if b e t).0 ≡ ok tt → b ≡ false
reject_if-false true e t k = cc
reject_if-false false e t k = refl

-- A guard that lets a computation that succeeds go on.
pub reject_if-steps :
    {B : Type 0} (b : Bool) (e : Error) (m : M B) (t : Trace) {a : B}
    → ((reject_if b e >> m) t).0 ≡ ok a
    → (b ≡ false) × ((reject_if b e >> m) t ≡ m t)
reject_if-steps true e m t k = absurd (impossible k)
  where
    impossible : {A : Type 0} {a : A} {x : Error} → ◌≡◌ {A = Result A} (err x) (ok a) → ⊥
    impossible p = cc
reject_if-steps false e m t k = (refl, refl)
