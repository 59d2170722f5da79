-- ===== src/Codex/Read.antt =====
-- What a TOML value must be for the functions of codex.go to succeed on it.
use lima_jailed_agents.Base.{List, [], ◌∷◌, different, string_discrete}
use lima_jailed_agents.Base.{
  String, Bool, true, false, ◌||◌, Option, none, some, ◌≡◌, ◌≢◌, refl, ap, ◌∙◌, arith,
}
use lima_jailed_agents.Base.{ok, Error, >>=-eq_ok, ok-injective, ◌==◌, string_eq, require}
use lima_jailed_agents.Codex.{
  TomlValue, table, text, boolean, other, trust_path, update_check_path, daemon_path,
  codex_trust_value, is_trusted, is_disabled,
}
use lima_jailed_agents.Codex.{trust_after_edit, suppression_after_edit}

codex_trust_value-ok :
    (directory : String) (value : TomlValue) {trust : String}
    → codex_trust_value directory value ≡ ok trust
    → value ≡ text trust
unfolding codex_trust_value
codex_trust_value-ok directory (text trust) e = ground arith
codex_trust_value-ok directory table e = absurd (cc)
codex_trust_value-ok directory (boolean b) e = absurd (cc)
codex_trust_value-ok directory other e = absurd (cc)

equal : (s t : String) → (s == t) ≡ true → s ≡ t
equal s t e = ground arith

pub is_trusted-true :
    (directory : String) (o : Option TomlValue)
    → is_trusted directory o ≡ ok true
    → o ≡ some (text "trusted")
unfolding is_trusted
is_trusted-true directory none e = absurd (cc)
is_trusted-true directory (some value) e =
    let (trust, v, k) = >>=-eq_ok (codex_trust_value directory value) _ e in
    ap some
      (codex_trust_value-ok directory value v ∙ ap text (equal trust "trusted" (ok-injective k)))

require-true : (b : Bool) (e : Error) → require b e ≡ ok tt → b ≡ true
require-true true e h = refl
require-true false e h = absurd (cc)

pub trust_after_edit-ok :
    (directory : String) (o : Option TomlValue)
    → trust_after_edit directory o ≡ ok tt
    → o ≡ some (text "trusted")
unfolding trust_after_edit
trust_after_edit-ok directory none e = absurd (cc)
trust_after_edit-ok directory (some value) e =
    let (trust, v, k) = >>=-eq_ok (codex_trust_value directory value) _ e in
    ap some (
      codex_trust_value-ok directory value v ∙ ap text (equal trust "trusted" (require-true _ _ k)))

pub is_disabled-true :
    (name : String) (o : Option TomlValue) → is_disabled name o ≡ ok true → o ≡ some (boolean false)
unfolding is_disabled
is_disabled-true name none e = absurd (cc)
is_disabled-true name (some (boolean false)) e = refl
is_disabled-true name (some (boolean true)) e = absurd (cc)
is_disabled-true name (some table) e = absurd (cc)
is_disabled-true name (some (text s)) e = absurd (cc)
is_disabled-true name (some other) e = absurd (cc)

pub suppression_after_edit-ok :
    (name : String) (o : Option TomlValue)
    → suppression_after_edit name o ≡ ok tt
    → o ≡ some (boolean false)
unfolding suppression_after_edit
suppression_after_edit-ok name none e = absurd (cc)
suppression_after_edit-ok name (some (boolean false)) e = refl
suppression_after_edit-ok name (some (boolean true)) e = absurd (cc)
suppression_after_edit-ok name (some table) e = absurd (cc)
suppression_after_edit-ok name (some (text s)) e = absurd (cc)
suppression_after_edit-ok name (some other) e = absurd (cc)

pub true_not_false : ◌≡◌ {A = Bool} true false → ⊥
true_not_false p = cc

pub neither : (a b : Bool) → (a || b) ≡ false → (a ≡ false) × (b ≡ false)
neither true b e = absurd (true_not_false e)
neither false b e = (refl, e)

-- The top-level key of a path.
abbrev pub top_key : List String → String
top_key [] = ""
top_key (key ∷ path) = key

pub trust_path-ne-update :
    (directory : String) → top_key (trust_path directory) ≢ top_key update_check_path
unfolding string_eq string_discrete
trust_path-ne-update directory = different refl

pub trust_path-ne-daemon :
    (directory : String) → top_key (trust_path directory) ≢ top_key daemon_path
unfolding string_eq string_discrete
trust_path-ne-daemon directory = different refl
