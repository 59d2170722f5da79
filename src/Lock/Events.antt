-- ===== src/Lock/Events.antt =====
-- Which events a lock adds around those of its function.
use lima_jailed_agents.Base.{Option, none, some, Error, FilePath}
use lima_jailed_agents.Lock.{
  AdvisoryLockOptions, close_lock, unlock, hold, lock_opened, lock_at, with_advisory_lock,
}
use lima_jailed_agents.Run.{Event, made_dir, opened, locked, unlocked, closed, Trace, Worlds, M}
use lima_jailed_agents.Run.Rules.{Emits, Adds, same, more, Adds-trans, emits_rules}

-- The events of a lock itself.
pub record AllowsLocks (Q : Event → Type 0) : Type 0 where
  pub directory : (path : FilePath) → Q (made_dir path)
  pub open_file : (path : FilePath) → Q (opened path)
  pub lock : (path : FilePath) → Q (locked path)
  pub unlock : (path : FilePath) → Q (unlocked path)
  pub close : (path : FilePath) → Q (closed path)

module _ (w : Worlds) (Q : Event → Type 0) (allows : AllowsLocks Q)
    (function : FilePath → M (Unit {0}))
    (inside : (path : FilePath) → Emits Q (function path)) where
  hold-Adds :
      (path : FilePath) (e : Option Error) (t : Trace) → Adds Q t (hold w path function e t).1
  unfolding hold close_lock unlock
  hold-Adds path none t = more (allows.close path) (more (allows.unlock path) ((inside path).at t))
  hold-Adds path (some e) t = more (allows.close path) same

  lock_opened-Emits : (path : FilePath) → Emits Q (lock_opened w path function)
  unfolding lock_opened
  lock_opened-Emits path = record {
    at = λ t. Adds-trans Q (more (allows.lock path) same) (hold-Adds path _ _);
  }

  pub with_advisory_lock-Emits :
      (o : AdvisoryLockOptions) → Emits Q (with_advisory_lock w o function)
  unfolding with_advisory_lock lock_at
  with_advisory_lock-Emits o =
      search (emits_rules, allows.directory, allows.open_file, lock_opened-Emits) depth 12
