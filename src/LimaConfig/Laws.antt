-- ===== src/LimaConfig/Laws.antt =====
-- What a merged configuration holds under each key, and at each path.
use mathlib.Core.Path.{subst}
use lima_jailed_agents.Base.{
  String, Option, none, some, List, [], ◌∷◌, ◌≡◌, ◌≢◌, refl, sym, ◌∙◌, arith,
}
use lima_jailed_agents.Base.{◌==◌, string_eq, if◌then◌else◌}
use lima_jailed_agents.LimaConfig.{LimaValue, LimaConfig, scalar, sequence, mapping, empty, entry}
use lima_jailed_agents.LimaConfig.{find, set, inherited, merge_lima_config, override_value}

pub find-set :
    (key k : String) (v : LimaValue) (c : LimaConfig)
    → find key (set k v c) ≡ (if key == k then some v else find key c)
unfolding find set
find-set key k v empty = refl
find-set key k v (entry j w rest) = ground (arith, find-set key k v rest)

-- No key occurs twice, at any depth, as in Go maps.
unfoldable mutual
  pub IsMap : LimaConfig → Type 0
  IsMap empty = Unit {0}
  IsMap (entry key v rest) = (find key rest ≡ none) × IsMapValue v × IsMap rest

  pub IsMapValue : LimaValue → Type 0
  IsMapValue (mapping c) = IsMap c
  IsMapValue (scalar s) = Unit
  IsMapValue (sequence vs) = Unit

abbrev pub overridden : Option LimaValue → Option LimaValue → Option LimaValue
overridden old none = old
overridden old (some v) = some (override_value old v)

replaced :
    (k : String) (v : LimaValue) (base rest : LimaConfig)
    → find k rest ≡ none
    → overridden (find k (set k (override_value (find k base) v) base)) (find k rest)
      ≡ overridden (find k base) (find k (entry k v rest))
unfolding find
replaced k v base rest fresh = ground (arith, find-set k k (override_value (find k base) v) base)

kept :
    (key k : String) (v : LimaValue) (base rest : LimaConfig)
    → key ≢ k
    → overridden (find key (set k (override_value (find k base) v) base)) (find key rest)
      ≡ overridden (find key base) (find key (entry k v rest))
unfolding find
kept key k v base rest differ = ground (arith, find-set key k (override_value (find k base) v) base)

-- What is found under a key of a merged configuration: the base's value, where the override has none, and
-- else the override's, merged into the base's if it is a map.
pub find-merge_lima_config :
    (key : String) (base override : LimaConfig)
    → IsMap override
    → find key (merge_lima_config base override) ≡ overridden (find key base) (find key override)
unfolding merge_lima_config find IsMap
find-merge_lima_config key base empty m = refl
find-merge_lima_config key base (entry k v rest) m =
    find-merge_lima_config key (set k (override_value (find k base) v) base) rest m.2
    ∙ at_entry (string_eq.dec key k)
  where
    at_entry :
        Dec (key ≡ k)
        → overridden (find key (set k (override_value (find k base) v) base)) (find key rest)
          ≡ overridden (find key base) (find key (entry k v rest))
    at_entry (yes same) =
        subst
          (λ j.
            overridden (find j (set k (override_value (find k base) v) base)) (find j rest)
            ≡ overridden (find j base) (find j (entry k v rest)))
          (sym same) (replaced k v base rest m.0)
    at_entry (no differ) = kept key k v base rest differ

-- A path of keys, followed from a value through its maps.
unfoldable pub get_path : List String → Option LimaValue → Option LimaValue
get_path [] v = v
get_path (key ∷ keys) (some (mapping c)) = get_path keys (find key c)
get_path (key ∷ keys) _ = none

-- A value that is no map.
unfoldable pub IsLeaf : LimaValue → Type 0
IsLeaf (mapping c) = ⊥
IsLeaf _ = Unit

find-IsMapValue :
    (key : String) (c : LimaConfig) {v : LimaValue} → IsMap c → find key c ≡ some v → IsMapValue v
unfolding find IsMap
find-IsMapValue key empty m e = cc
find-IsMapValue key (entry k w rest) {v} m e = elim (string_eq.dec key k) [
  | yes same ↦ let found : w ≡ v = ground arith in subst IsMapValue found m.1
  | no differ ↦ find-IsMapValue key rest m.2 (ground arith)
]

none≢some : {v : LimaValue} → ◌≡◌ {A = Option LimaValue} none (some v) → ⊥
none≢some e = cc

get_path-none : (keys : List String) → get_path keys none ≡ none
unfolding get_path
get_path-none [] = refl
get_path-none (key ∷ keys) = refl

leaf-step :
    (keys : List String) (old o : Option LimaValue) (v : LimaValue)
    → ((w : LimaValue) → o ≡ some w → IsMapValue w)
    → ((base c : LimaConfig)
        → IsMap c
        → get_path keys (some (mapping c)) ≡ some v
        → get_path keys (some (mapping (merge_lima_config base c))) ≡ some v)
    → get_path keys o ≡ some v
    → get_path keys (overridden old o) ≡ some v
unfolding merge_lima_config IsMap
leaf-step keys old none v m deeper e = absurd (none≢some (sym (get_path-none keys) ∙ e))
leaf-step keys old (some (scalar s)) v m deeper e = e
leaf-step keys old (some (sequence vs)) v m deeper e = e
leaf-step keys old (some (mapping c)) v m deeper e = deeper (inherited old) c (m (mapping c) refl) e

-- A value of the override that is no map is found at the same path of the merged configuration, whatever
-- the base has there or above.
pub get_path-merge_lima_config :
    (keys : List String) (base override : LimaConfig) {v : LimaValue}
    → IsMap override
    → IsLeaf v
    → get_path keys (some (mapping override)) ≡ some v
    → get_path keys (some (mapping (merge_lima_config base override))) ≡ some v
unfolding get_path IsLeaf
get_path-merge_lima_config [] base override {v} m l e =
    let same : mapping override ≡ v = cc in elim (subst IsLeaf (sym same) l) [ ]
get_path-merge_lima_config (key ∷ keys) base override {v} m l e =
    subst (λ o. get_path keys o ≡ some v) (sym (find-merge_lima_config key base override m))
      (leaf-step keys (find key base) (find key override) v
        (λ w found. find-IsMapValue key override m found)
        (λ b c n. get_path-merge_lima_config keys b c n l) e)
