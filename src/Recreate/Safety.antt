-- ===== src/Recreate/Safety.antt =====
-- The VM of a project during its replacement: under its own name it is never deleted, and a failure
-- before the first rename leaves it in place.
use lima_jailed_agents.Base.{
  String, List, [], ◌∷◌, ◌≡◌, ◌≢◌, refl, sym, ◌∙◌, ◌⊎◌, inl, inr, different,
}
use lima_jailed_agents.Lima.Json.{Payload}
use lima_jailed_agents.Recreate.{Replacement, stage, replace_vm, recover, clean_up, delete_words}
use lima_jailed_agents.Recreate.Events.{StageCalls, SwapCalls, replace_vm-Emits, staged-Emits}
use lima_jailed_agents.Run.{
  Word, word, file, mounts, binding, ProcessOptions, Event, ran, made_dir, opened, locked, unlocked,
  closed, printed, filed, ran_host, Worlds,
}
use lima_jailed_agents.Run.Rules.{Emits}
use lima_jailed_agents.Workflow.{Workflow, IsBenign, GuestOnly}

-- The arguments of a deletion by force of another VM.
abbrev pub DeletesOther : String → List Word → Type 0
DeletesOther vm rest = (name : String) × (rest ≡ word "-f" ∷ word name ∷ []) × (name ≢ vm)

-- A run of limactl that deletes is a deletion by force of one VM, another than this.
unfoldable pub Spares : String → Event → Type 0
Spares vm (ran (word operation ∷ rest) o) = operation ≡ "delete" → DeletesOther vm rest
Spares vm _ = Unit

-- A run of limactl renames no VM, and if it deletes it is a deletion by force of another VM.
unfoldable pub KeepsInPlace : String → Event → Type 0
KeepsInPlace vm (ran (word operation ∷ rest) o) =
    (operation ≢ "rename") × (operation ≡ "delete" → DeletesOther vm rest)
KeepsInPlace vm _ = Unit

benign≢delete :
    (operation : String) → (operation ≡ "shell") ⊎ (operation ≡ "list") → operation ≢ "delete"
benign≢delete operation (inl b) d = different refl (sym b ∙ d)
benign≢delete operation (inr b) d = different refl (sym b ∙ d)

benign≢rename :
    (operation : String) → (operation ≡ "shell") ⊎ (operation ≡ "list") → operation ≢ "rename"
benign≢rename operation (inl b) d = different refl (sym b ∙ d)
benign≢rename operation (inr b) d = different refl (sym b ∙ d)

not_delete-Spares :
    (vm operation : String) (rest : List Word) (p : ProcessOptions)
    → operation ≢ "delete"
    → Spares vm (ran (word operation ∷ rest) p)
unfolding Spares
not_delete-Spares vm operation rest p other = λ d. elim (other d) [ ]

neither-KeepsInPlace :
    (vm operation : String) (rest : List Word) (p : ProcessOptions)
    → operation ≢ "rename"
    → operation ≢ "delete"
    → KeepsInPlace vm (ran (word operation ∷ rest) p)
unfolding KeepsInPlace
neither-KeepsInPlace vm operation rest p moves other = (moves, λ d. elim (other d) [ ])

pub benign-Spares : (vm : String) (e : Event) → IsBenign e → Spares vm e
unfolding IsBenign Spares
benign-Spares vm (ran [] o) b = elim b [ ]
benign-Spares vm (ran (file path ∷ rest) o) b = elim b [ ]
benign-Spares vm (ran (mounts paths ∷ rest) o) b = elim b [ ]
benign-Spares vm (ran (binding n v ∷ rest) o) b = elim b [ ]
benign-Spares vm (ran (word operation ∷ rest) o) b =
    not_delete-Spares vm operation rest o (benign≢delete operation b)
benign-Spares vm (made_dir path) b = tt
benign-Spares vm (opened path) b = tt
benign-Spares vm (locked path) b = tt
benign-Spares vm (unlocked path) b = tt
benign-Spares vm (closed path) b = tt
benign-Spares vm (printed format arguments) b = tt
benign-Spares vm (filed call) b = tt
benign-Spares vm (ran_host arguments) b = tt

benign-KeepsInPlace : (vm : String) (e : Event) → IsBenign e → KeepsInPlace vm e
unfolding IsBenign KeepsInPlace
benign-KeepsInPlace vm (ran [] o) b = elim b [ ]
benign-KeepsInPlace vm (ran (file path ∷ rest) o) b = elim b [ ]
benign-KeepsInPlace vm (ran (mounts paths ∷ rest) o) b = elim b [ ]
benign-KeepsInPlace vm (ran (binding n v ∷ rest) o) b = elim b [ ]
benign-KeepsInPlace vm (ran (word operation ∷ rest) o) b =
    neither-KeepsInPlace vm operation rest o (benign≢rename operation b) (benign≢delete operation b)
benign-KeepsInPlace vm (made_dir path) b = tt
benign-KeepsInPlace vm (opened path) b = tt
benign-KeepsInPlace vm (locked path) b = tt
benign-KeepsInPlace vm (unlocked path) b = tt
benign-KeepsInPlace vm (closed path) b = tt
benign-KeepsInPlace vm (printed format arguments) b = tt
benign-KeepsInPlace vm (filed call) b = tt
benign-KeepsInPlace vm (ran_host arguments) b = tt

pub delete_other-Spares :
    (vm name : String) → name ≢ vm → (p : ProcessOptions) → Spares vm (ran (delete_words name) p)
unfolding Spares
delete_other-Spares vm name other p = λ d. (name, refl, other)

delete_other-KeepsInPlace :
    (vm name : String)
    → name ≢ vm
    → (p : ProcessOptions) → KeepsInPlace vm (ran (delete_words name) p)
unfolding KeepsInPlace
delete_other-KeepsInPlace vm name other p = (different refl, λ d. (name, refl, other))

pub stage_calls-Spares :
    (vm : String) (r : Replacement) → r.candidate ≢ vm → StageCalls r (Spares vm)
stage_calls-Spares vm r other = record {
  benign = benign-Spares vm;
  creates = λ paths p. not_delete-Spares vm _ _ p (different refl);
  starts_candidate = λ p. not_delete-Spares vm _ _ p (different refl);
  stops_candidate = λ p. not_delete-Spares vm _ _ p (different refl);
  deletes_candidate = delete_other-Spares vm r.candidate other;
  starts_old = λ p. not_delete-Spares vm _ _ p (different refl);
  stops_old = λ p. not_delete-Spares vm _ _ p (different refl);
}

pub swap_calls-Spares : (vm : String) (r : Replacement) → SwapCalls r (Spares vm)
swap_calls-Spares vm r = record {
  help = λ p. not_delete-Spares vm _ _ p (different refl);
  moves_old = λ p. not_delete-Spares vm _ _ p (different refl);
  moves_new = λ p. not_delete-Spares vm _ _ p (different refl);
  moves_failed = λ p. not_delete-Spares vm _ _ p (different refl);
  moves_back = λ p. not_delete-Spares vm _ _ p (different refl);
}

stage_calls-KeepsInPlace :
    (vm : String) (r : Replacement) → r.candidate ≢ vm → StageCalls r (KeepsInPlace vm)
stage_calls-KeepsInPlace vm r other = record {
  benign = benign-KeepsInPlace vm;
  creates = λ paths p. neither-KeepsInPlace vm _ _ p (different refl) (different refl);
  starts_candidate = λ p. neither-KeepsInPlace vm _ _ p (different refl) (different refl);
  stops_candidate = λ p. neither-KeepsInPlace vm _ _ p (different refl) (different refl);
  deletes_candidate = delete_other-KeepsInPlace vm r.candidate other;
  starts_old = λ p. neither-KeepsInPlace vm _ _ p (different refl) (different refl);
  stops_old = λ p. neither-KeepsInPlace vm _ _ p (different refl) (different refl);
}

module _ (script : String) (decode : String → Payload) (w : Worlds) (f : Workflow)
    (guests : GuestOnly f) where
  -- Whatever limactl answers, a replacement never deletes the VM of the old VM's name, if both temporary
  -- names differ from it and the parts that act in guests only do that.
  pub replace_vm-Spares :
      (r : Replacement)
      → r.candidate ≢ r.old.name
      → r.backup ≢ r.old.name
      → Emits (Spares r.old.name) (replace_vm script decode w f r)
  replace_vm-Spares r candidate backup =
      replace_vm-Emits script decode w f guests r (Spares r.old.name)
        (stage_calls-Spares r.old.name r candidate) (swap_calls-Spares r.old.name r)
        (delete_other-Spares r.old.name r.backup backup)

  -- Whatever limactl answers, staging the candidate and cleaning up when that fails neither rename a VM nor
  -- delete the VM of the old VM's name, if the candidate has another name and the parts that act in
  -- guests only do that.
  pub stage-KeepsInPlace :
      (r : Replacement)
      → r.candidate ≢ r.old.name
      → Emits
          (KeepsInPlace r.old.name)
          (recover (stage script decode w f r) (clean_up script decode w f r))
  stage-KeepsInPlace r candidate =
      staged-Emits script decode w f guests r (KeepsInPlace r.old.name)
        (stage_calls-KeepsInPlace r.old.name r candidate)
