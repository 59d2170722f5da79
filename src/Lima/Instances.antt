-- ===== src/Lima/Instances.antt =====
-- lima.go: `ParseLimaInstances` and its helpers.
use lima_jailed_agents.Base.{String, Bool, false, none, some, List, [], ◌∷◌, ℕ, ◌+◌}
use lima_jailed_agents.Base.{
  Result, ok, err, Error, lja, wrap, str, num, ◌>>=◌, ◌==◌, string_eq, if◌then◌else◌,
}
use lima_jailed_agents.Lima.Json.{
  Json, Items, Fields, Line, Payload, null, boolean, string, array, object,
}
use lima_jailed_agents.Lima.Json.{nil, cons, get, blank, line}

pub record LimaMount : Type 0 where
  pub location : String
  pub mount_point : String
  pub writable : Bool

pub record LimaInstance : Type 0 where
  pub name : String
  pub status : String
  pub mounts : List LimaMount

abbrev pub status_stopped : String
status_stopped = "Stopped"

abbrev pub status_running : String
status_running = "Running"

abbrev pub status_installing : String
status_installing = "Installing"

abbrev pub known_lima_statuses : List String
known_lima_statuses =
    "Uninitialized" ∷ status_installing ∷ "Broken" ∷ status_stopped ∷ status_running ∷ []

-- `rawObject`
raw_object : Json → Error → Result Fields
raw_object (object fields) e = ok fields
raw_object _ e = err e

-- `requiredJSONString`: a string that is not empty
required_json_string : Fields → String → Error → Result String
required_json_string fields name e = elim (get name fields) [
  | some (string value) ↦ if value == "" then err e else ok value
  | _ ↦ err e
]

-- The mount point is the location where the field is missing or null.
mount_point_of : Fields → String → Error → Result String
mount_point_of fields location e = elim (get "mountPoint" fields) [
  | none ↦ ok location
  | some null ↦ ok location
  | some (string value) ↦ if value == "" then err e else ok value
  | _ ↦ err e
]

writable_of : Fields → Error → Result Bool
writable_of fields e = elim (get "writable" fields) [
  | none ↦ ok false
  | some null ↦ ok false
  | some (boolean b) ↦ ok b
  | _ ↦ err e
]

parse_mount : String → ℕ → Json → Result LimaMount
unfolding raw_object required_json_string mount_point_of writable_of
parse_mount name index raw = do
  mount ← raw_object raw (
      lja "malformed Lima JSON: instance %s.config.mounts[%d] must be an object"
        (str name ∷ num index ∷ []))
  location ←
      required_json_string mount "location" (
        lja "malformed Lima JSON: instance %s mount %d has no location" (str name ∷ num index ∷ []))
  mount_point ← mount_point_of mount location (
      lja "malformed Lima JSON: instance %s mount %d has an invalid mount point"
        (str name ∷ num index ∷ []))
  writable ← writable_of mount (
      lja "malformed Lima JSON: instance %s mount %d has an invalid writable value"
        (str name ∷ num index ∷ []))
  ok (record { location = location; mount_point = mount_point; writable = writable })

parse_mounts : String → ℕ → Items → Result (List LimaMount)
unfolding parse_mount
parse_mounts name index nil = ok []
parse_mounts name index (cons raw rest) = do
  mount ← parse_mount name index raw
  mounts ← parse_mounts name (index + 1) rest
  ok (mount ∷ mounts)

-- `rawMounts`: an array under `config.mounts`
raw_mounts : Fields → Error → Result Items
raw_mounts config e = elim (get "mounts" config) [ some (array items) ↦ ok items | _ ↦ err e ]

raw_config : Fields → Error → Result Json
raw_config fields e = elim (get "config" fields) [ some value ↦ ok value | none ↦ err e ]

unfoldable pub parse_instance : ℕ → Json → Result LimaInstance
unfolding raw_config raw_mounts parse_mounts
parse_instance index raw = do
  instance_fields ←
      raw_object raw (lja "malformed Lima JSON: instance %d must be an object" (num index ∷ []))
  name ←
      required_json_string instance_fields "name"
        (lja "malformed Lima JSON: instance %d has no name" (num index ∷ []))
  status ←
      required_json_string instance_fields "status"
        (lja "malformed Lima JSON: instance %s has no status" (str name ∷ []))
  value ←
      raw_config instance_fields
        (lja "malformed Lima JSON: instance %s.config must be an object" (str name ∷ []))
  config ←
      raw_object value
        (lja "malformed Lima JSON: instance %s.config must be an object" (str name ∷ []))
  items ←
      raw_mounts config
        (lja "malformed Lima JSON: instance %s.config.mounts must be an array" (str name ∷ []))
  mounts ← parse_mounts name 0 items
  ok (record { name = name; status = status; mounts = mounts })

unfoldable pub parse_all : ℕ → Items → Result (List LimaInstance)
parse_all index nil = ok []
parse_all index (cons raw rest) = do
  first ← parse_instance index raw
  others ← parse_all (index + 1) rest
  ok (first ∷ others)

-- The lines of a payload that is no single document; `index` counts from 1 and passes blank lines too.
unfoldable pub line_values : ℕ → List Line → Result Items
line_values index [] = ok nil
line_values index (blank ∷ rest) = line_values (index + 1) rest
line_values index (line (ok value) ∷ rest) = do
  others ← line_values (index + 1) rest
  ok (cons value others)
line_values index (line (err e) ∷ rest) =
    err (wrap "malformed Lima JSON on line %d: %w" (num index ∷ []) e)

abbrev require_items : Error → Items → Result Items
require_items e nil = err (wrap "malformed Lima JSON: %w" [] e)
require_items e (cons value rest) = ok (cons value rest)

unfoldable pub raw_instances : Payload → Result Items
raw_instances p = elim p.whole [
  | ok (array items) ↦ ok items
  | ok other ↦ ok (cons other nil)
  | err e ↦ (do items ← line_values 1 p.lines; require_items e items)
]

unfoldable pub parse_lima_instances : Payload → Result (List LimaInstance)
parse_lima_instances p =
    if p.is_blank then ok [] else (do items ← raw_instances p; parse_all 0 items)
