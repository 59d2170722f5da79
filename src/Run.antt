-- ===== src/Run.antt =====
-- How the workflow code acts on the world: every call that changes something is an event, and a world
-- tells, from all the events so far, what the system shows and what the next call would answer. A
-- theorem over every world so covers every behaviour of limactl and of the file system.
pub mod Rules
pub mod Steps
use lima_jailed_agents.Base.{
  String, ℕ, Bool, true, false, Option, none, some, List, [], ◌∷◌, FilePath,
}
use lima_jailed_agents.Base.{Result, ok, err, Error, Argument, map_error}
use lima_jailed_agents.Host.{Host, ProcessResult, Outcome}

-- An argument of limactl; `mounts` is `MountArguments`' CSV of the paths with the suffix `:w`, and
-- `binding` is `name=value`.
pub data Word : Type 0 where
  word : String → Word
  file : FilePath → Word
  mounts : List FilePath → Word
  binding : String → String → Word

-- `processOptions` of process.go; `work_dir` and `input` are `none` where Go has the zero value, and
-- `has_context` says that a cancelable context is given.
pub record ProcessOptions : Type 0 where
  pub command : String
  pub work_dir : Option FilePath
  pub capture_output : Bool
  pub check : Bool
  pub has_input : Bool
  pub has_context : Bool

-- How a run of a process ends: by its exit, by an error of `exec`, or with its context canceled.
pub data Reply : Type 0 where
  completed : ProcessResult → Reply
  not_run : Error → Reply
  canceled : Error → Reply

-- A call that changes a file: `os.CreateTemp` of the file that it makes, `Chmod`, `WriteString`, `io.Copy` from
-- a source that was opened, `Sync`, `Close`, `os.Rename` and `os.Remove`.
pub data FileCall : Type 0 where
  create_temp : FilePath → FileCall
  chmod : FilePath → ℕ → FileCall
  open_read : FilePath → FileCall
  write : FilePath → String → FileCall
  copy_from : FilePath → FilePath → FileCall
  sync : FilePath → FileCall
  close : FilePath → FileCall
  rename : FilePath → FilePath → FileCall
  remove : FilePath → FileCall

pub data Event : Type 0 where
  ran : List Word → ProcessOptions → Event
  made_dir : FilePath → Event
  opened : FilePath → Event
  locked : FilePath → Event
  unlocked : FilePath → Event
  closed : FilePath → Event
  printed : String → List Argument → Event
  filed : FileCall → Event
  ran_host : List String → Event

-- The newest event stands first.
abbrev pub Trace : Type 0
Trace = List Event

-- What is there after the events of a trace; the operations that fail say how.
pub record World : Type 0 where
  pub host : Host
  pub lima : List Word → ProcessOptions → Reply
  pub mkdir_all : FilePath → Option Error
  pub open_file : FilePath → Option Error
  pub flock_exclusive : FilePath → Option Error
  pub flock_unlock : FilePath → Option Error
  pub close_file : FilePath → Option Error
  pub print : Option Error
  -- `os.ReadFile`, the permission bits of a file, and the file that `os.CreateTemp` would make in a
  -- directory, for the text before the random part of its name
  pub read_file : FilePath → Outcome String
  pub permissions : FilePath → ℕ
  pub temp_file : FilePath → String → FilePath
  pub change_file : FileCall → Option Error
  -- a program on the host, which is Git
  pub host_program : List String → Reply

abbrev pub Worlds : Type 0
Worlds = Trace → World

-- A computation that may fail, and adds its events to the trace either way.
abbrev pub M : Type 0 → Type 0
M A = Trace → Result A × Trace

abbrev pub bind_result : {A B : Type 0} → (A → M B) → Result A → M B
bind_result f (ok a) t = f a t
bind_result f (err e) t = (err e, t)

infixl 5 ◌>>=◌ ◌>>◌
abbrev pub ◌>>=◌ : {A B : Type 0} → M A → (A → M B) → M B
◌>>=◌ m f t = bind_result f (m t).0 (m t).1

abbrev pub ◌>>◌ : {B : Type 0} → M (Unit {0}) → M B → M B
m >> k = m >>= λ _. k

abbrev pub pure : {A : Type 0} → A → M A
pure a t = (ok a, t)

abbrev pub fail : {A : Type 0} → Error → M A
fail e t = (err e, t)

abbrev pub lift : {A : Type 0} → Result A → M A
lift r t = (r, t)

-- `if err := m; err != nil { return f(err) }`
abbrev pub map_failure : {A : Type 0} → (Error → Error) → M A → M A
map_failure f m t = (map_error f (m t).0, (m t).1)

-- The error is inspected, and the computation goes on: `err := m`.
abbrev pub attempt : {A : Type 0} → M A → M (Result A)
attempt m t = (ok (m t).0, (m t).1)

abbrev pub when : Bool → M (Unit {0}) → M (Unit {0})
when true m = m
when false m = pure tt

abbrev pub reject_if : Bool → Error → M (Unit {0})
reject_if true e = fail e
reject_if false e = pure tt

abbrev pub of_option : (Error → Error) → Option Error → Result (Unit {0})
of_option f none = ok tt
of_option f (some e) = err (f e)

module _ (w : Worlds) where
  -- What the system shows now.
  abbrev pub ask : {A : Type 0} → (World → A) → M A
  ask f t = (ok (f (w t)), t)

  abbrev pub query : {A : Type 0} → (Host → Result A) → M A
  query f t = (f (w t).host, t)

  -- A call that succeeds or fails, recorded as an event.
  abbrev pub act : Event → (World → Option Error) → (Error → Error) → M (Unit {0})
  act e f wrap_error t = (of_option wrap_error (f (w t)), e ∷ t)
