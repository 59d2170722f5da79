-- ===== src/Files/Events.antt =====
-- Which events the replacement of a file adds.
use lima_jailed_agents.Base.{String, ℕ, FilePath, Result, ok, err, Error}
use lima_jailed_agents.Files.{
  create_temporary, or_remove, close_failed, fill_changed, fill_and_rename, replace_file,
}
use lima_jailed_agents.Run.{FileCall, remove, Event, filed, Trace, Worlds, M}
use lima_jailed_agents.Run.Rules.{Emits, Emits-bind, Adds, more, emits_rules}

module _ (w : Worlds) (Q : Event → Type 0) (allows : (call : FileCall) → Q (filed call)) where
  or_remove-Adds :
      {A : Type 0} {t : Trace} (path : FilePath) (x : Result A × Trace)
      → Adds Q t x.1
      → Adds Q t (or_remove w path x).1
  unfolding or_remove
  or_remove-Adds path (ok u, t) a = a
  or_remove-Adds path (err e, t) a = more (allows (remove path)) a

  pub or_remove-Emits :
      {A : Type 0} (path : FilePath) {m : M A} → Emits Q m → Emits Q (λ t. or_remove w path (m t))
  or_remove-Emits path {m} k = record { at = λ t. or_remove-Adds path (m t) (k.at t) }

  pub create_temporary-Emits :
      (directory : FilePath) (prefix : String) → Emits Q (create_temporary w directory prefix)
  unfolding create_temporary
  create_temporary-Emits directory prefix = search (emits_rules, allows) depth 12

  fill_changed-Emits :
      (both : Error → Error → Error) (path : FilePath) (content : String) (r : Result (Unit {0}))
      → Emits Q (fill_changed w both path content r)
  unfolding fill_changed close_failed
  fill_changed-Emits both path content (ok u) = search (emits_rules, allows) depth 12
  fill_changed-Emits both path content (err e) = search (emits_rules, allows) depth 12

  fill_and_rename-Emits :
      (both : Error → Error → Error) (target path : FilePath) (mode : ℕ) (content : String)
      → Emits Q (fill_and_rename w both target path mode content)
  unfolding fill_and_rename
  fill_and_rename-Emits both target path mode content =
      search (emits_rules, allows, fill_changed-Emits both path content) depth 12

  pub replace_file-Emits :
      (both : Error → Error → Error) (directory : FilePath) (prefix : String) (target : FilePath)
      (mode : ℕ) (content : String)
      → Emits Q (replace_file w both directory prefix target mode content)
  unfolding replace_file
  replace_file-Emits both directory prefix target mode content =
      Emits-bind Q (create_temporary-Emits directory prefix)
        (λ path. or_remove-Emits path (fill_and_rename-Emits both target path mode content))
