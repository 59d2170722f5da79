-- ===== src/Lima/Lifecycle/Laws.antt =====
-- Which VMs the bulk operations touch, and when they touch none.
use text.Mathlib.Text.{starts_with}
use lima_jailed_agents.Base.{◌⊎◌, inl, inr, refl, ◌≢◌, ◌++◌, arith}
use lima_jailed_agents.Lima.Lifecycle.{report_absent_vm, incompatible_state}
use lima_jailed_agents.Lima.Instances.{status_running}
use lima_jailed_agents.Base.{String, true, List, [], ◌∷◌, ◌≡◌, ok, err, All, OnOk, Result, Argument}
use lima_jailed_agents.Base.{string_eq}
use lima_jailed_agents.Lima.Json.{Payload}
use lima_jailed_agents.Lima.Instances.{LimaInstance, status_stopped}
use lima_jailed_agents.Lima.Inspect.{lja_instances, list_words}
use lima_jailed_agents.Lima.Inspect.Laws.{IsOwn, lja_instances-Emits, lja_instances-IsOwn}
use lima_jailed_agents.Lima.Lifecycle.{
  delete_all_vms, delete_each, delete_instance, stop_all_vms, stop_each, check_stoppable, operation,
  report_vm_status,
}
use lima_jailed_agents.Process.Laws.{run_lima-Emits}
use lima_jailed_agents.Run.{
  Word, word, ProcessOptions, Event, ran, printed, Worlds, Trace, M, ◌>>=◌, bind_result,
}
use lima_jailed_agents.Run.Rules.{
  Emits, emits_rules, Emits-bind, Emits-pure, Emits-then, Emits-when, Emits-lift, Adds, Adds-trans,
  same,
}

module _ (script : String) (decode : String → Payload) (w : Worlds) (lima : String)
    (Q : Event → Type 0) where
  pub operation-Emits :
      (arguments : List Word)
      → ((p : ProcessOptions) → Q (ran arguments p))
      → Emits Q (operation script decode w lima arguments)
  unfolding operation
  operation-Emits arguments q =
      Emits-bind Q (run_lima-Emits script w Q arguments _ q) (λ r. Emits-pure Q tt)

  pub report_vm_status-Emits :
      (vm status : String)
      → ((format : String) (arguments : List Argument) → Q (printed format arguments))
      → Emits Q (report_vm_status script decode w lima vm status)
  unfolding report_vm_status
  report_vm_status-Emits vm status q = search (emits_rules, q)

  pub report_absent_vm-Emits :
      (vm : String)
      → ((format : String) (arguments : List Argument) → Q (printed format arguments))
      → Emits Q (report_absent_vm script decode w lima vm)
  unfolding report_absent_vm
  report_absent_vm-Emits vm q = search (emits_rules, q)

-- The only runs of limactl are listings and those with the words that `command` has for a VM whose name begins
-- with `lja-`; lines may be printed, and nothing else is done.
unfoldable pub TouchesOwn : (String → List Word) → Event → Type 0
TouchesOwn command (ran words o) =
    (words ≡ list_words) ⊎ ((vm : String) × (starts_with vm "lja-" ≡ true) × (words ≡ command vm))
TouchesOwn command (printed format arguments) = Unit
TouchesOwn command event = ⊥

-- A look at the VMs.
abbrev pub IsListing : Event → Type 0
IsListing (ran words o) = words ≡ list_words
IsListing _ = ⊥

abbrev pub delete_words : String → List Word
delete_words vm = word "delete" ∷ word "-f" ∷ word vm ∷ []

abbrev pub stop_words : String → List Word
stop_words vm = word "stop" ∷ word vm ∷ []

command_own :
    (command : String → List Word) (i : LimaInstance)
    → IsOwn i
    → (p : ProcessOptions) → TouchesOwn command (ran (command i.name) p)
unfolding TouchesOwn
command_own command i own p = inr (i.name, own.0, refl)

printed_own :
    (command : String → List Word) (format : String) (arguments : List Argument)
    → TouchesOwn command (printed format arguments)
unfolding TouchesOwn
printed_own command format arguments = tt

list_own :
    (command : String → List Word) (p : ProcessOptions) → TouchesOwn command (ran list_words p)
unfolding TouchesOwn
list_own command p = inl refl

ruleset own_rules =
    (emits_rules, operation-Emits, report_vm_status-Emits, report_absent_vm-Emits, printed_own)

module _ (script : String) (decode : String → Payload) (w : Worlds) (lima : String) where
  delete_instance-TouchesOwn :
      (i : LimaInstance)
      → IsOwn i
      → Emits (TouchesOwn delete_words) (delete_instance script decode w lima i)
  unfolding delete_instance
  delete_instance-TouchesOwn i own = search (own_rules, command_own delete_words i own)

  delete_each-TouchesOwn :
      (instances : List LimaInstance)
      → All IsOwn instances
      → Emits (TouchesOwn delete_words) (delete_each script decode w lima instances)
  unfolding delete_each
  delete_each-TouchesOwn [] own = search own_rules
  delete_each-TouchesOwn (i ∷ rest) own =
      Emits-then _ (delete_instance-TouchesOwn i own.0) (delete_each-TouchesOwn rest own.1)

  stop_each-TouchesOwn :
      (instances : List LimaInstance)
      → All IsOwn instances
      → Emits (TouchesOwn stop_words) (stop_each script decode w lima instances)
  unfolding stop_each
  stop_each-TouchesOwn [] own = search own_rules
  stop_each-TouchesOwn (i ∷ rest) own =
      Emits-then _ (Emits-when _ _ (operation-Emits _ _ _ _ _ _ (command_own stop_words i own.0))) (
        Emits-then _
          (report_vm_status-Emits script decode w lima _ i.name status_stopped
            (printed_own stop_words))
          (stop_each-TouchesOwn rest own.1))

  module _ (command : String → List Word) where
    select_bind :
        {B : Type 0} (k : List LimaInstance → M B) (r : Result (List LimaInstance)) (t : Trace)
        → ((instances : List LimaInstance)
            → All IsOwn instances
            → Emits (TouchesOwn command) (k instances))
        → OnOk (All IsOwn) r
        → Adds (TouchesOwn command) t (bind_result k r t).1
    select_bind k (ok instances) t each own = (each instances own).at t
    select_bind k (err e) t each own = same

    -- What follows `lja_instances` may use that they are LJA's own.
    bind_own :
        {B : Type 0} (k : List LimaInstance → M B)
        → ((instances : List LimaInstance)
            → All IsOwn instances
            → Emits (TouchesOwn command) (k instances))
        → Emits (TouchesOwn command) (lja_instances script decode w lima >>= k)
    bind_own k each = record {
      at = λ t.
          Adds-trans _ ((lja_instances-Emits script decode w _ (list_own command) lima).at t)
            (select_bind k _ _ each (lja_instances-IsOwn script decode w lima t));
    }

  -- Whatever limactl lists and answers: deleting all VMs runs `limactl` only to list VMs and as
  -- `limactl delete -f`, each time of one VM, whose name begins with `lja-`; it prints, and does nothing else.
  pub delete_all_vms-TouchesOwn :
      Emits (TouchesOwn delete_words) (delete_all_vms script decode w lima)
  unfolding delete_all_vms
  delete_all_vms-TouchesOwn = bind_own delete_words _ delete_each-TouchesOwn

  -- Whatever limactl lists and answers: stopping all VMs runs `limactl` only to list VMs and as `limactl stop`,
  -- each time of one VM, whose name begins with `lja-`; it prints, and does nothing else.
  pub stop_all_vms-TouchesOwn : Emits (TouchesOwn stop_words) (stop_all_vms script decode w lima)
  unfolding stop_all_vms
  stop_all_vms-TouchesOwn =
      bind_own stop_words _
        λ instances own. Emits-then _ (Emits-lift _ _) (stop_each-TouchesOwn instances own)

  -- A VM that can be stopped or is stopped.
  abbrev pub IsStoppable : LimaInstance → Type 0
  IsStoppable i = (i.status ≡ status_stopped) ⊎ (i.status ≡ status_running)

  check_stoppable-first :
      (before : List LimaInstance) (i : LimaInstance) (rest : List LimaInstance)
      → All IsStoppable before
      → i.status ≢ status_stopped
      → i.status ≢ status_running
      → check_stoppable script decode w lima (before ++ (i ∷ rest))
        ≡ err (incompatible_state i.name i.status)
  unfolding check_stoppable
  check_stoppable-first [] i rest all stopped running = ground (arith, stopped, running)
  check_stoppable-first (j ∷ before) i rest all stopped running =
      ground (arith, all.0, check_stoppable-first before i rest all.1 stopped running)

  -- If a VM that is listed as LJA's own is neither stopped nor running, and those before it are one of both,
  -- then stopping all VMs fails with the error that tells the VM's name and state, and has done nothing but
  -- list the VMs; none is stopped.
  pub stop_all_vms_incompatible :
      (t : Trace) (before : List LimaInstance) (i : LimaInstance) (rest : List LimaInstance)
      → (lja_instances script decode w lima t).0 ≡ ok (before ++ (i ∷ rest))
      → All IsStoppable before
      → i.status ≢ status_stopped
      → i.status ≢ status_running
      → ((stop_all_vms script decode w lima t).0 ≡ err (incompatible_state i.name i.status))
        × Adds IsListing t (stop_all_vms script decode w lima t).1
  unfolding stop_all_vms
  stop_all_vms_incompatible t before i rest listed all stopped running =
      let bad = check_stoppable-first before i rest all stopped running in
      rw (listed, bad) (refl, (lja_instances-Emits script decode w IsListing (λ p. refl) lima).at t)
