-- ===== src/Lima/Inspect/Laws.antt =====
-- What a look at the VMs reports, and that it changes none.
use text.Mathlib.Text.{starts_with}
use lima_jailed_agents.Base.{
  String, true, some, List, [], ◌∷◌, ◌≡◌, ok, arith, All, Result, err, OnOk,
}
use lima_jailed_agents.Base.{contains, string_eq}
use lima_jailed_agents.Lima.Json.{Payload}
use lima_jailed_agents.Lima.Instances.{LimaInstance, known_lima_statuses}
use lima_jailed_agents.Lima.Inspect.{
  find_instance, select_lja, list_words, list_instances, inspect_lima, lja_instances,
}
use lima_jailed_agents.Process.Laws.{run_lima-Emits}
use lima_jailed_agents.Run.{ProcessOptions, Event, ran, Worlds, Trace, bind_result, lift}
use lima_jailed_agents.Run.Rules.{Emits, emits_rules}

-- An instance that is found has the name that was asked for, and a known status.
pub find_instance_known :
    (vm : String) (instances : List LimaInstance) (i : LimaInstance)
    → find_instance vm instances ≡ ok (some i)
    → (i.name ≡ vm) × (contains known_lima_statuses i.status ≡ true)
unfolding find_instance
find_instance_known vm [] i e = absurd (cc)
find_instance_known vm (j ∷ rest) i e = ground (arith, find_instance_known vm rest i)

-- What LJA counts as its own: a name that begins with `lja-`, and a known status.
abbrev pub IsOwn : LimaInstance → Type 0
IsOwn i = (starts_with i.name "lja-" ≡ true) × (contains known_lima_statuses i.status ≡ true)

-- Whatever limactl lists, only LJA's own instances are selected.
pub select_lja-IsOwn : (instances : List LimaInstance) → OnOk (All IsOwn) (select_lja instances)
unfolding select_lja
select_lja-IsOwn [] = tt
select_lja-IsOwn (i ∷ rest) = ground (arith, select_lja-IsOwn rest)

module _ (script : String) (decode : String → Payload) (w : Worlds) (Q : Event → Type 0)
    (lists : (p : ProcessOptions) → Q (ran list_words p)) where
  pub inspect_lima-Emits : (vm command : String) → Emits Q (inspect_lima script decode w vm command)
  unfolding inspect_lima list_instances
  inspect_lima-Emits vm command = search (emits_rules, run_lima-Emits, lists)

  pub lja_instances-Emits : (command : String) → Emits Q (lja_instances script decode w command)
  unfolding lja_instances list_instances
  lja_instances-Emits command = search (emits_rules, run_lima-Emits, lists)

bind_select-IsOwn :
    (r : Result (List LimaInstance)) (t : Trace)
    → OnOk (All IsOwn) (bind_result (λ instances. lift (select_lja instances)) r t).0
bind_select-IsOwn (ok instances) t = select_lja-IsOwn instances
bind_select-IsOwn (err e) t = tt

pub lja_instances-IsOwn :
    (script : String) (decode : String → Payload) (w : Worlds) (command : String) (t : Trace)
    → OnOk (All IsOwn) (lja_instances script decode w command t).0
unfolding lja_instances
lja_instances-IsOwn script decode w command t =
    bind_select-IsOwn (list_instances script decode w command t).0 _
