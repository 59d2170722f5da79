-- ===== src/Run/Rules.antt =====
-- Properties of every event that a computation adds: a rule for each way to build one.
use lima_jailed_agents.Base.{Bool, true, false, Option, ◌∷◌, Result, ok, err, Error}
use lima_jailed_agents.Base.{All, if◌then◌else◌}
use lima_jailed_agents.Run.{
  Event, Trace, M, ◌>>=◌, ◌>>◌, bind_result, pure, fail, lift, map_failure, attempt,
}
use lima_jailed_agents.Run.{when, reject_if, ask, query, act, World, Worlds}
use lima_jailed_agents.Host.{Host}

-- A trace grew from another by events of the kind `Q`.
pub data Adds (Q : Event → Type 0) (t : Trace) : Trace → Type 0 where
  same : Adds Q t t
  more : {e : Event} {t' : Trace} → Q e → Adds Q t t' → Adds Q t (e ∷ t')

pub Adds-trans : (Q : Event → Type 0) {t u v : Trace} → Adds Q t u → Adds Q u v → Adds Q t v
Adds-trans Q a same = a
Adds-trans Q a (more q b) = more q (Adds-trans Q a b)

pub Adds-weaken :
    (P Q : Event → Type 0) → ((e : Event) → P e → Q e) → {t u : Trace} → Adds P t u → Adds Q t u
Adds-weaken P Q f same = same
Adds-weaken P Q f (more q a) = more (f _ q) (Adds-weaken P Q f a)

pub All-Adds : (Q : Event → Type 0) {t u : Trace} → Adds Q t u → All Q t → All Q u
All-Adds Q same h = h
All-Adds Q (more q a) h = (q, All-Adds Q a h)

-- Every event that `m` adds is of the kind `Q`, whether it fails or not.
pub record Emits {A : Type 0} (Q : Event → Type 0) (m : M A) : Type 0 where
  pub at : (t : Trace) → Adds Q t (m t).1

pub Emits-weaken :
    {A : Type 0} (P Q : Event → Type 0) {m : M A}
    → ((e : Event) → P e → Q e)
    → Emits P m
    → Emits Q m
Emits-weaken P Q f k = record { at = λ t. Adds-weaken P Q f (k.at t) }

module _ {A : Type 0} (Q : Event → Type 0) where
  pub Emits-pure : (a : A) → Emits Q (pure a)
  Emits-pure a = record { at = λ t. same }

  pub Emits-fail : (e : Error) → Emits {A = A} Q (fail e)
  Emits-fail e = record { at = λ t. same }

  pub Emits-lift : (r : Result A) → Emits Q (lift r)
  Emits-lift r = record { at = λ t. same }

  pub Emits-attempt : {m : M A} → Emits Q m → Emits Q (attempt m)
  Emits-attempt k = record { at = λ t. k.at t }

  pub Emits-map_failure : {m : M A} (f : Error → Error) → Emits Q m → Emits Q (map_failure f m)
  Emits-map_failure f k = record { at = λ t. k.at t }

  pub Emits-ask : (w : Worlds) (f : World → A) → Emits Q (ask w f)
  Emits-ask w f = record { at = λ t. same }

  pub Emits-query : (w : Worlds) (f : Host → Result A) → Emits Q (query w f)
  Emits-query w f = record { at = λ t. same }

  pub Emits-if : {m k : M A} (b : Bool) → Emits Q m → Emits Q k → Emits Q (if b then m else k)
  Emits-if true h₁ h₂ = h₁
  Emits-if false h₁ h₂ = h₂

module _ {A B : Type 0} (Q : Event → Type 0) where
  bind_result-Adds :
      {f : A → M B} (r : Result A) (t : Trace)
      → ((a : A) → Emits Q (f a))
      → Adds Q t (bind_result f r t).1
  bind_result-Adds (ok a) t k = (k a).at t
  bind_result-Adds (err e) t k = same

  pub Emits-bind :
      {m : M A} {f : A → M B} → Emits Q m → ((a : A) → Emits Q (f a)) → Emits Q (m >>= f)
  Emits-bind {m} j k = record {
    at = λ t. Adds-trans Q (j.at t) (bind_result-Adds (m t).0 (m t).1 k);
  }

module _ (Q : Event → Type 0) where
  pub Emits-then :
      {B : Type 0} {m : M (Unit {0})} {k : M B} → Emits Q m → Emits Q k → Emits Q (m >> k)
  Emits-then j k = Emits-bind Q j (λ _. k)

  pub Emits-when : {m : M (Unit {0})} (b : Bool) → Emits Q m → Emits Q (when b m)
  Emits-when true h = h
  Emits-when false h = record { at = λ t. same }

  pub Emits-reject_if : (b : Bool) (e : Error) → Emits Q (reject_if b e)
  Emits-reject_if true e = record { at = λ t. same }
  Emits-reject_if false e = record { at = λ t. same }

  pub Emits-act :
      (w : Worlds) (e : Event) (f : World → Option Error) (g : Error → Error)
      → Q e
      → Emits Q (act w e f g)
  Emits-act w e f g q = record { at = λ t. more q same }

pub ruleset emits_rules = (
  Emits-pure, Emits-fail, Emits-lift, Emits-attempt, Emits-map_failure, Emits-ask, Emits-query,
  Emits-if, Emits-bind, Emits-then, Emits-when, Emits-reject_if, Emits-act,
)
