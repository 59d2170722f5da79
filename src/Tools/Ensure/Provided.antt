-- ===== src/Tools/Ensure/Provided.antt =====
-- What tools.go's `ensureLogicalTools` provides when it succeeds, and what it runs for it.
use mathlib.Core.Path.{subst}
use lima_jailed_agents.Base.{String, List, [], ◌∷◌, ◌≡◌, refl, sym, ap, ◌∙◌, All, OnOk, arith}
use lima_jailed_agents.Base.{
  Result, ok, err, str, wrap, map_error-eq_ok, Bool-cases, inl, inr, ◌==◌, string_eq,
}
use lima_jailed_agents.Process.{}
use lima_jailed_agents.Process.Laws.{GuestRuns, RunsIn, run_guest-RunsIn}
use lima_jailed_agents.Run.{Trace, Event, Worlds, lift, map_failure}
use lima_jailed_agents.Run.Rules.{Adds, same, Adds-trans}
use lima_jailed_agents.Run.Steps.{>>=-steps}
use lima_jailed_agents.Tools.{LogicalToolDefinition, LogicalToolPlan}
use lima_jailed_agents.Tools.Resolve.{resolve_logical_tools}
use lima_jailed_agents.Tools.Ensure.{
  GuestPackageOptions, options_of, install_missing, check_native, native_tool_executable,
  ensure_tool, ensure_each_tool, check_each_native, ensure_logical_tools,
}
use lima_jailed_agents.Tools.Ensure.{install_logical_tool}
use lima_jailed_agents.Tools.Ensure.Laws.{
  version-Emits, install-Emits, check_native-Emits, check_each_native-Emits, ensure_tool-Emits,
  ensure_each_tool-Emits, ensure_logical_tools-Emits,
}
use lima_jailed_agents.Tools.Ensure.Found.{Finds, demanded-Finds, version-Finds, version_run}

module _ (script : String) (w : Worlds) (o : GuestPackageOptions) where
  abbrev Q : Event → Type 0
  Q = RunsIn o.vm_name

  guests : GuestRuns script w Q o.vm_name
  guests = run_guest-RunsIn script w o.vm_name

  -- Between `t` and `u` the executable of a native package was found.
  abbrev pub FindsNative : Trace → Trace → String → Type 0
  FindsNative t u name =
      (executable : String) × (native_tool_executable name ≡ ok executable)
      × Finds script w o t u executable

  check_native-Finds :
      (name : String) {t s u : Trace}
      → Adds (RunsIn o.vm_name) t s
      → (check_native script w o name s).0 ≡ ok tt
      → Adds (RunsIn o.vm_name) (check_native script w o name s).1 u
      → FindsNative t u name
  unfolding check_native
  check_native-Finds name {t} {s} {u} a e c =
      let (executable, n, k) = >>=-steps (lift (native_tool_executable name)) _ s e in
      (
        executable,
        n,
        demanded-Finds script w o _ _ executable a (ap (λ x. x.0) k ∙ e)
            (subst (λ v. Adds (RunsIn o.vm_name) v u) (sym (ap (λ x. x.1) k)) c),
      )

  install_missing-Finds :
      (d : LogicalToolDefinition) {t s u : Trace}
      → Adds Q t s
      → (install_missing script w o d s).0 ≡ ok tt
      → Adds Q (install_missing script w o d s).1 u
      → Finds script w o t u d.executable
  unfolding install_missing
  install_missing-Finds d {s = s} {u = u} a e c =
      let install = install_logical_tool script w o d in
      let (_, _, k) = >>=-steps install _ s e in
      demanded-Finds script w o _ _ d.executable
        (Adds-trans Q a ((install-Emits script w o Q guests d).at s)) (ap (λ x. x.0) k ∙ e)
        (subst (λ v. Adds Q v u) (sym (ap (λ x. x.1) k)) c)

  ensure_tool-Finds :
      (d : LogicalToolDefinition) {t s u : Trace}
      → Adds Q t s
      → (ensure_tool script w o d s).0 ≡ ok tt
      → Adds Q (ensure_tool script w o d s).1 u
      → Finds script w o t u d.executable
  unfolding ensure_tool
  ensure_tool-Finds d {s} {u} a e c =
      let version =
        map_failure
          (wrap "cannot verify logical tool %s in VM %s: %w" (str d.name ∷ str o.vm_name ∷ []))
          (version_run script w o d.executable) in
      let (found, q, k) = >>=-steps version _ s e in
      let done = ap (λ x. x.0) k ∙ e in
      let end = subst (λ v. Adds Q v u) (sym (ap (λ x. x.1) k)) c in
      let looked_up =
        (version-Emits script w o.vm_name Q guests o.project d.executable (options_of o)).at s in
      elim (Bool-cases (found.0 == "")) [
        | inl missing ↦
            install_missing-Finds d (Adds-trans Q a looked_up) (rw missing at done)
              (rw missing at end)
        | inr given ↦
            version-Finds script w o d.executable a
              (map_error-eq_ok _ (version_run script w o d.executable s).0 q)
              (ground (arith, given)) (rw given at end)
      ]

  natives-Finds :
      (names : List String) {t s u : Trace}
      → Adds Q t s
      → (check_each_native script w o names s).0 ≡ ok tt
      → Adds Q (check_each_native script w o names s).1 u
      → All (FindsNative t u) names
  unfolding check_each_native
  natives-Finds [] a e c = tt
  natives-Finds (name ∷ names) {s} {u} a e c =
      let check = check_native script w o name in
      let next = check_each_native script w o names in
      let (_, q, k) = >>=-steps check (λ _. next) s e in
      let end = subst (λ v. Adds Q v u) (sym (ap (λ x. x.1) k)) c in
      (
        check_native-Finds name a q
            (Adds-trans Q ((check_each_native-Emits script w o Q guests names).at (check s).1) end),
        natives-Finds names (Adds-trans Q a ((check_native-Emits script w o Q guests name).at s))
            (ap (λ x. x.0) k ∙ e) end,
      )

  tools-Finds :
      (ds : List LogicalToolDefinition) {t s u : Trace}
      → Adds Q t s
      → (ensure_each_tool script w o ds s).0 ≡ ok tt
      → Adds Q (ensure_each_tool script w o ds s).1 u
      → All (λ d. Finds script w o t u d.executable) ds
  unfolding ensure_each_tool
  tools-Finds [] a e c = tt
  tools-Finds (d ∷ ds) {s} {u} a e c =
      let ensure = ensure_tool script w o d in
      let next = ensure_each_tool script w o ds in
      let (_, q, k) = >>=-steps ensure (λ _. next) s e in
      let end = subst (λ v. Adds Q v u) (sym (ap (λ x. x.1) k)) c in
      (
        ensure_tool-Finds d a q
            (Adds-trans Q ((ensure_each_tool-Emits script w o Q guests ds).at (ensure s).1) end),
        tools-Finds ds (Adds-trans Q a ((ensure_tool-Emits script w o Q guests d).at s))
            (ap (λ x. x.0) k ∙ e) end,
      )

  -- The tools requested have a plan, and between `t` and `u` every tool of it and every native package that it
  -- needs was found.
  abbrev pub AllFound : List String → Trace → Trace → Type 0
  AllFound requested t u =
      (plan : LogicalToolPlan) × (resolve_logical_tools requested ≡ ok plan)
      × All (FindsNative t u) plan.native_packages
      × All (λ d. Finds script w o t u d.executable) plan.tools

  ensure-AllFound :
      (requested : List String) (t : Trace)
      → (ensure_logical_tools script w o requested t).0 ≡ ok tt
      → AllFound requested t (ensure_logical_tools script w o requested t).1
  unfolding ensure_logical_tools
  ensure-AllFound requested t e =
      let (plan, p, k) = >>=-steps (lift (resolve_logical_tools requested)) _ t e in
      let natives = check_each_native script w o plan.native_packages in
      let tools = ensure_each_tool script w o plan.tools in
      let (_, q, k₂) = >>=-steps natives (λ _. tools) t (ap (λ x. x.0) k ∙ e) in
      let end = subst (Adds Q (tools (natives t).1).1) (ap (λ x. x.1) (k₂ ∙ k)) same in
      let before = (check_each_native-Emits script w o Q guests plan.native_packages).at t in
      let after = (ensure_each_tool-Emits script w o Q guests plan.tools).at (natives t).1 in
      (
        plan,
        p,
        natives-Finds plan.native_packages same q (Adds-trans Q after end),
        tools-Finds plan.tools before (ap (λ x. x.0) (k₂ ∙ k) ∙ e) end,
      )

  OnOk-of : (P : Unit {0} → Type 0) (r : Result (Unit {0})) → (r ≡ ok tt → P tt) → OnOk P r
  OnOk-of P (ok u) h = h refl
  OnOk-of P (err x) h = tt

  -- Whatever the guest answers, and whether it succeeds or not, providing logical tools does nothing but run
  -- commands in the guest of the VM of its options by `limactl shell`. When it succeeds, the guest was asked for the
  -- executable of every tool of the plan and of every native package that the plan needs, and answered with an
  -- absolute path.
  pub ensure_logical_tools-Provides :
      (requested : List String) (t : Trace)
      → Adds (RunsIn o.vm_name) t (ensure_logical_tools script w o requested t).1
        × OnOk
            (λ _. AllFound requested t (ensure_logical_tools script w o requested t).1)
            (ensure_logical_tools script w o requested t).0
  ensure_logical_tools-Provides requested t = (
    (ensure_logical_tools-Emits script w o Q guests requested).at t,
    OnOk-of _ (ensure_logical_tools script w o requested t).0 (ensure-AllFound requested t),
  )
