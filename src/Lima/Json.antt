-- ===== src/Lima/Json.antt =====
-- What `encoding/json` makes of the output of `limactl list`: values, and objects as Go maps.
use lima_jailed_agents.Base.{
  String, Bool, Option, none, some, List, Result, ◌==◌, string_eq, if◌then◌else◌,
}

mutual
  pub data Json : Type 0 where
    null : Json
    boolean : Bool → Json
    number : String → Json
    string : String → Json
    array : Items → Json
    object : Fields → Json

  pub data Items : Type 0 where
    nil : Items
    cons : Json → Items → Items

  pub data Fields : Type 0 where
    end : Fields
    field : String → Json → Fields → Fields

-- Of two fields with one name a Go map keeps the later.
unfoldable pub get : String → Fields → Option Json
get name end = none
get name (field key value rest) = elim (get name rest) [
  | some later ↦ some later
  | none ↦ if name == key then some value else none
]

-- A line of a payload, if it is not blank, as `json.Unmarshal` reads it.
pub data Line : Type 0 where
  blank : Line
  line : Result Json → Line

-- A payload: whether it is blank, what `json.Unmarshal` makes of the whole, and of each line.
pub record Payload : Type 0 where
  pub is_blank : Bool
  pub whole : Result Json
  pub lines : List Line
