-- ===== src/LimaConfig.antt =====
-- lima_config.go: the values of a Lima configuration and `mergeLimaConfig`; `limaCreationInput` up to its
-- encoding as YAML.
pub mod Laws
use lima_jailed_agents.Base.{
  String, Bool, true, false, not, ◌&&◌, Option, none, some, List, [], ◌∷◌,
}
use lima_jailed_agents.Base.{Result, ok, err, lja, ◌==◌, string_eq, if◌then◌else◌}

-- A value that YAML may hold: what is neither a map nor a sequence is its text here.
mutual
  pub data LimaValue : Type 0 where
    scalar : String → LimaValue
    sequence : LimaValues → LimaValue
    mapping : LimaConfig → LimaValue

  pub data LimaValues : Type 0 where
    no_values : LimaValues
    value : LimaValue → LimaValues → LimaValues

  -- A Go map from text to values.
  pub data LimaConfig : Type 0 where
    empty : LimaConfig
    entry : String → LimaValue → LimaConfig → LimaConfig

unfoldable pub find : String → LimaConfig → Option LimaValue
find key empty = none
find key (entry k v rest) = let later = find key rest in if key == k then some v else later

-- `result[key] = value`
unfoldable pub set : String → LimaValue → LimaConfig → LimaConfig
set key v empty = entry key v empty
set key v (entry k old rest) =
    let later = set key v rest in if key == k then entry key v rest else entry k old later

-- The map that a value is, or the empty one.
unfoldable pub inherited : Option LimaValue → LimaConfig
inherited (some (mapping c)) = c
inherited _ = empty

-- `mergeLimaConfig`: maps are merged, and any other value replaces. `cloneLimaValue` copies what a Go map
-- would share, so that it is the identity here.
unfoldable mutual
  pub merge_lima_config : LimaConfig → LimaConfig → LimaConfig
  merge_lima_config base empty = base
  merge_lima_config base (entry key v rest) =
      merge_lima_config (set key (override_value (find key base) v) base) rest

  pub override_value : Option LimaValue → LimaValue → LimaValue
  override_value old (mapping c) = mapping (merge_lima_config (inherited old) c)
  override_value old (scalar s) = scalar s
  override_value old (sequence vs) = sequence vs

abbrev pub is_present : Option LimaValue → Bool
is_present none = false
is_present (some v) = true

abbrev pub with_default : LimaConfig → LimaConfig
with_default c =
    if not (is_present (find "base" c)) && not (is_present (find "images" c))
    then set "base" (scalar "template:default") c
    else c

-- `limaCreationInput`, up to the encoding
unfoldable pub lima_creation_input : LimaConfig → Result LimaConfig
lima_creation_input config =
    if is_present (find "mounts" config)
    then err (lja "lima.mounts is managed by LJA" [])
    else ok (with_default (merge_lima_config empty config))
