-- ===== src/Base/Failure.antt =====
-- The errors of path.go's `Error` and `ljaError`, and fallible results.
use Prim.Native.String.{String}
use mathlib.Core.Path.{◌≡◌, refl}
use mathlib.Core.Bool.{Bool, true, false}
use mathlib.Core.List.{List}
use Prim.Native.Nat.{ℕ}

-- A path that is absolute and clean: its names from the root down.
abbrev pub FilePath : Type 0
FilePath = List String

-- `os.ProcessState.ExitCode()`, which is -1 for a process that a signal ended
pub data ExitStatus : Type 0 where
  exited : ℕ → ExitStatus
  signaled : ExitStatus

-- What fills a verb of a format: `%s` of a text, a path, a path as it is written or several paths, `%d` of a status or a number.
pub data Argument : Type 0 where
  str : String → Argument
  loc : FilePath → Argument
  written : List String → Argument
  locs : List FilePath → Argument
  exit : ExitStatus → Argument
  num : ℕ → Argument

-- `lja` is `ljaError(format, arguments...)`, `wrap` one whose last argument is the cause (`%w`), `join`
-- is `errors.Join`, and `external` an error that the system or a library reports.
pub data Error : Type 0 where
  lja : String → List Argument → Error
  wrap : String → List Argument → Error → Error
  join : Error → Error → Error
  external : String → Error

pub data Result {ℓ} (A : Type ℓ) : Type ℓ where
  ok : A → Result A
  err : Error → Result A

module _ {A B : Type 0} where
  infixl 5 ◌>>=◌
  -- `if err != nil { return err }`
  abbrev pub ◌>>=◌ : Result A → (A → Result B) → Result B
  err failure >>= next = err failure
  ok value >>= next = next value

  -- The two steps of a computation that succeeds.
  pub >>=-eq_ok :
      (first : Result A) (next : A → Result B) {end : B}
      → (first >>= next) ≡ ok end
      → (value : A) × (first ≡ ok value) × (next value ≡ ok end)
  >>=-eq_ok (err failure) next done = cc
  >>=-eq_ok (ok value) next done = (value, refl, done)

infixl 5 ◌>>◌
abbrev pub ◌>>◌ : {B : Type 0} → Result (Unit {0}) → Result B → Result B
first >> second = first >>= λ _. second

abbrev pub map_error {ℓ} : {A : Type ℓ} → (Error → Error) → Result A → Result A
map_error f (ok a) = ok a
map_error f (err e) = err (f e)

abbrev pub require : Bool → Error → Result (Unit {0})
require true e = ok tt
require false e = err e

pub ok-injective : {A : Type 0} {a b : A} → ◌≡◌ {A = Result A} (ok a) (ok b) → a ≡ b
ok-injective e = cc

pub map_error-eq_ok {ℓ} :
    {A : Type ℓ} (f : Error → Error) (m : Result A) {a : A} → map_error f m ≡ ok a → m ≡ ok a
map_error-eq_ok f (ok a) h = h
map_error-eq_ok f (err e) h = cc

-- The value of a result, if there is one, has the property.
abbrev pub OnOk {ℓ} : {A : Type ℓ} → (A → Type 0) → Result A → Type 0
OnOk P (ok a) = P a
OnOk P (err e) = Unit
