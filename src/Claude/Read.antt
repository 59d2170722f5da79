-- ===== src/Claude/Read.antt =====
-- What a JSON value must be for the functions of claude.go to succeed on it.
use mathlib.Core.Path.{subst}
use lima_jailed_agents.Base.{
  String, Bool, true, false, ◌||◌, Option, none, some, List, [], ◌∷◌, FilePath, All, ◌≡◌, refl, sym,
  ap, ◌∙◌, Bool-cases, inl, inr,
}
use lima_jailed_agents.Base.{ok, >>=-eq_ok, ok-injective, string_eq}
use lima_jailed_agents.Base.Dict.{lookup}
use lima_jailed_agents.Claude.{
  Object, entries_onto, claude_object, claude_trust_value, trust_key, object_at, project_name,
  trusted_already, trust_directory, trust_each,
}
use lima_jailed_agents.Claude.{project_at, trust_at, require_trusted, validate_each}
use lima_jailed_agents.Lima.Json.{Json, Fields, null, boolean, object, number, string, array}
use lima_jailed_agents.Path.Text.{render}

abbrev pub entries : Fields → Object
unfolding entries_onto
entries fields = entries_onto [] fields

-- A map of projects has the directory as a trusted one.
abbrev pub TrustedIn : Object → FilePath → Type 0
TrustedIn projects directory =
    (fields : Fields) × (lookup (render directory) projects ≡ some (object fields))
    × (lookup trust_key (entries fields) ≡ some (boolean true))

pub claude_object-ok :
    (name : String) (value : Json) {o : Object}
    → claude_object name value ≡ ok o
    → (fields : Fields) × (value ≡ object fields) × (o ≡ entries fields)
unfolding claude_object
claude_object-ok name (object fields) e = (fields, refl, sym (ok-injective e))
claude_object-ok name null e = absurd (cc)
claude_object-ok name (boolean b) e = absurd (cc)
claude_object-ok name (number n) e = absurd (cc)
claude_object-ok name (string s) e = absurd (cc)
claude_object-ok name (array xs) e = absurd (cc)

claude_trust_value-ok :
    (directory : String) (value : Json) {b : Bool}
    → claude_trust_value directory value ≡ ok b
    → value ≡ boolean b
unfolding claude_trust_value
claude_trust_value-ok directory (boolean b) e = ap boolean (ok-injective e)
claude_trust_value-ok directory null e = absurd (cc)
claude_trust_value-ok directory (object fields) e = absurd (cc)
claude_trust_value-ok directory (number n) e = absurd (cc)
claude_trust_value-ok directory (string s) e = absurd (cc)
claude_trust_value-ok directory (array xs) e = absurd (cc)

trusted_already-true :
    (directory : String) (o : Option Json)
    → trusted_already directory o ≡ ok true
    → o ≡ some (boolean true)
unfolding trusted_already
trusted_already-true directory none e = absurd (cc)
trusted_already-true directory (some value) e = ap some (claude_trust_value-ok directory value e)

require_trusted-ok :
    (directory : String) (b : Bool) → require_trusted directory b ≡ ok tt → b ≡ true
unfolding require_trusted
require_trusted-ok directory true e = refl
require_trusted-ok directory false e = absurd (cc)

trust_at-ok :
    (directory : String) (o : Option Json) → trust_at directory o ≡ ok tt → o ≡ some (boolean true)
unfolding trust_at
trust_at-ok directory none e = absurd (cc)
trust_at-ok directory (some value) e =
    let (b, v, k) = >>=-eq_ok (claude_trust_value directory value) _ e in
    ap some
      (claude_trust_value-ok directory value v ∙ ap boolean (require_trusted-ok directory b k))

project_at-ok :
    (directory : String) (o : Option Json)
    → project_at directory o ≡ ok tt
    → (fields : Fields) × (o ≡ some (object fields))
      × (lookup trust_key (entries fields) ≡ some (boolean true))
unfolding project_at
project_at-ok directory none e = absurd (cc)
project_at-ok directory (some value) e =
    let (project, v, k) = >>=-eq_ok (claude_object (project_name directory) value) _ e in
    let (fields, same, read) = claude_object-ok (project_name directory) value v in
    (fields, ap some same, ap (lookup trust_key) (sym read) ∙ trust_at-ok directory _ k)

pub validate_each-TrustedIn :
    (directories : List FilePath) (projects : Object)
    → validate_each directories projects ≡ ok tt
    → All (TrustedIn projects) directories
unfolding validate_each
validate_each-TrustedIn [] projects e = tt
validate_each-TrustedIn (directory ∷ directories) projects e =
    let here = project_at (render directory) (lookup (render directory) projects) in
    let (u, v, k) = >>=-eq_ok here _ e in
    (project_at-ok (render directory) _ v, validate_each-TrustedIn directories projects k)

object_at-lookup :
    (name : String) (o : Option Json) {project : Object}
    → object_at name o ≡ ok project
    → lookup trust_key project ≡ some (boolean true)
    → (fields : Fields) × (o ≡ some (object fields))
      × (lookup trust_key (entries fields) ≡ some (boolean true))
unfolding object_at
object_at-lookup name none e k = absurd (impossible (ap (lookup trust_key) (ok-injective e) ∙ k))
  where
    impossible : {v : Json} → ◌≡◌ {A = Option Json} none (some v) → ⊥
    impossible p = cc
object_at-lookup name (some value) e k =
    let (fields, same, read) = claude_object-ok name value e in
    (fields, ap some same, ap (lookup trust_key) (sym read) ∙ k)

-- A round of the loop that changes nothing has found the directory trusted.
trust_directory-unchanged :
    (directory : FilePath) (projects next : Object)
    → trust_directory (render directory) projects ≡ ok (next, false)
    → TrustedIn projects directory × (next ≡ projects)
unfolding trust_directory
trust_directory-unchanged directory projects next e =
    let name = render directory in
    let (project, p, k) = >>=-eq_ok (object_at (project_name name) (lookup name projects)) _ e in
    let (trusted, q, j) = >>=-eq_ok (trusted_already name (lookup trust_key project)) _ k in
    elim (Bool-cases trusted) [
      | inl yes_trusted ↦ (
        object_at-lookup (project_name name) (lookup name projects) p
            (trusted_already-true name _ (q ∙ ap ok yes_trusted)),
        sym (ap (λ x. x.0) (ok-injective (rw yes_trusted at j))),
      )
      | inr not_trusted ↦ absurd (impossible (ap (λ x. x.1) (ok-injective (rw not_trusted at j))))
    ]
  where
    impossible : ◌≡◌ {A = Bool} true false → ⊥
    impossible p = cc

pub trust_each-unchanged :
    (directories : List FilePath) (projects last : Object)
    → trust_each directories projects ≡ ok (last, false)
    → All (TrustedIn projects) directories
unfolding trust_each
trust_each-unchanged [] projects last e = tt
trust_each-unchanged (directory ∷ directories) projects last e =
    let ((next, changed), p, k) = >>=-eq_ok (trust_directory (render directory) projects) _ e in
    let ((end, others), q, j) = >>=-eq_ok (trust_each directories next) _ k in
    let none_changed = ap (λ x. x.1) (ok-injective j) in
    let (here, same) =
      trust_directory-unchanged directory projects next
        (p ∙ ap (λ b. ok (next, b)) (neither changed others none_changed).0) in
    (
      here,
      subst (λ ps. All (TrustedIn ps) directories) same
          (trust_each-unchanged directories next end
            (q ∙ ap (λ b. ok (end, b)) (neither changed others none_changed).1)),
    )
  where
    neither : (a b : Bool) → (a || b) ≡ false → (a ≡ false) × (b ≡ false)
    neither true b e = (e, absurd (cc))
    neither false b e = (refl, e)
