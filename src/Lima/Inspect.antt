-- ===== src/Lima/Inspect.antt =====
-- lima.go: `InspectLima` and `ljaInstances`, the two ways in which the program looks at the VMs.
pub mod Laws
use text.Mathlib.Text.{starts_with}
use lima_jailed_agents.Base.{
  String, Bool, true, false, not, Option, none, some, List, [], ◌∷◌, ◌++◌,
}
use lima_jailed_agents.Base.{
  Result, ok, err, Error, lja, str, ◌==◌, string_eq, if◌then◌else◌, contains,
}
use lima_jailed_agents.Lima.Json.{Payload}
use lima_jailed_agents.Lima.Instances.{LimaInstance, parse_lima_instances, known_lima_statuses}
use lima_jailed_agents.Process.{run_lima, default_process_options}
use lima_jailed_agents.Run.{Word, word, Worlds, M, ◌>>=◌, ◌>>◌, pure, fail, lift, ProcessOptions}

-- `limaListOperation`
abbrev pub list_words : List Word
list_words = word "list" ∷ word "--all-fields" ∷ word "--format" ∷ word "json" ∷ []

abbrev pub capturing : String → ProcessOptions
capturing command = record (default_process_options command false) { capture_output = true }

abbrev pub incompatible : LimaInstance → Error
incompatible i = lja "incompatible Lima state for VM %s: %s" (str i.name ∷ str i.status ∷ [])

-- The first instance of the name, whose status must be a known one.
unfoldable pub find_instance : String → List LimaInstance → Result (Option LimaInstance)
find_instance vm [] = ok none
find_instance vm (i ∷ rest) =
    let others = find_instance vm rest in
    if i.name == vm
    then (if contains known_lima_statuses i.status then ok (some i) else err (incompatible i))
    else others

-- The instances whose names begin with `vmNamePrefix`.
unfoldable pub select_lja : List LimaInstance → Result (List LimaInstance)
select_lja [] = ok []
select_lja (i ∷ rest) =
    let others = select_lja rest in
    if not (starts_with i.name "lja-")
    then others
    else if contains known_lima_statuses i.status
    then elim others [ ok selected ↦ ok (i ∷ selected) | err e ↦ err e ]
    else err (incompatible i)

-- `decode` is what `encoding/json` reads in an output.
module _ (script : String) (decode : String → Payload) (w : Worlds) where
  unfoldable pub list_instances : String → M (List LimaInstance)
  list_instances command = do
    r ← run_lima script w list_words (capturing command)
    lift (parse_lima_instances (decode r.stdout))

  unfoldable pub inspect_lima : String → String → M (Option LimaInstance)
  inspect_lima vm command = do instances ← list_instances command; lift (find_instance vm instances)

  unfoldable pub lja_instances : String → M (List LimaInstance)
  lja_instances command = do instances ← list_instances command; lift (select_lja instances)
