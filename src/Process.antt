-- ===== src/Process.antt =====
-- process.go: runs of limactl, and of commands in a guest through `limactl shell`.
pub mod Laws
use Prim.Native.Nat.{Ordering}
use Prim.Native.String.{◌++◌ as ◌<>◌, compare}
use text.Mathlib.Text.{starts_with}
use lima_jailed_agents.Base.{
  String, Bool, true, false, not, ◌&&◌, Option, none, some, List, [], ◌∷◌, ◌++◌, map,
}
use lima_jailed_agents.Base.{
  FilePath, Result, ok, err, Error, lja, wrap, str, exit, ExitStatus, exited, signaled,
}
use lima_jailed_agents.Base.{◌==◌, string_eq, if◌then◌else◌, nat_eq, ◌||◌}
use lima_jailed_agents.Base.Chars.{
  trim_space, has_nul, is_environment_name, chars, any_char, is_char,
}
use lima_jailed_agents.Base.Dict.{Dict}
use lima_jailed_agents.Host.{ProcessResult, PathText}
use lima_jailed_agents.Path.Canonical.{canonical_path}
use lima_jailed_agents.Run.{
  Word, word, file, binding, ProcessOptions, Reply, completed, not_run, canceled,
}
use lima_jailed_agents.Run.{
  Event, ran, World, Worlds, M, ◌>>=◌, ◌>>◌, pure, fail, lift, query, reject_if,
}

abbrev pub lima_ctl_command : String
lima_ctl_command = "limactl"

-- `result.ExitCode == code`
abbrev pub exited_with : ExitStatus → Bool
exited_with (exited n) = nat_eq n 0
exited_with signaled = false

abbrev pub exit_is_one : ExitStatus → Bool
exit_is_one (exited n) = nat_eq n 1
exit_is_one signaled = false

-- `defaultProcessOptions`
abbrev pub default_process_options : String → Bool → ProcessOptions
default_process_options command has_context = record {
  command = command;
  work_dir = none;
  capture_output = false;
  check = true;
  has_input = false;
  has_context = has_context;
}

-- What most probes set: `captureOutput = true; check = false`.
abbrev pub probe_options : ProcessOptions → ProcessOptions
probe_options o = record o { capture_output = true; check = false }

joined_output : String → String → String
joined_output first second =
    if first == "" then second else if second == "" then first else first <> "\n" <> second

-- `processOutput`
unfoldable pub process_output : ProcessResult → String
unfolding joined_output
process_output r = joined_output (trim_space r.stderr) (trim_space r.stdout)

abbrev operation_name : List Word → String
operation_name (word name ∷ rest) = name
operation_name other = ""

captured : Bool → ProcessResult → ProcessResult
captured true r = r
captured false r = record r { stdout = ""; stderr = "" }

-- The end of `runLima`, from `cmd.Run()` on.
unfoldable pub finish_run : List Word → ProcessOptions → Reply → Result ProcessResult
unfolding captured
finish_run arguments o (canceled e) = err (wrap "lima operation canceled: %w" [] e)
finish_run arguments o (not_run e) = err (wrap "cannot execute %s: %w" (str o.command ∷ []) e)
finish_run arguments o (completed r) =
    let result = captured o.capture_output r in
    if o.check && not (exited_with r.exit_code)
    then (if process_output result == ""
        then err (
            lja "Lima operation %s failed with exit status %d"
              (str (operation_name arguments) ∷ exit r.exit_code ∷ []))
        else err (
            lja "Lima operation %s failed with exit status %d: %s" (
              str (operation_name arguments)
              ∷ exit r.exit_code
              ∷ str (process_output result)
              ∷ [])))
    else ok result

abbrev command_or_default : String → String
command_or_default command = if command == "" then lima_ctl_command else command

-- `limaShellOperation`, the flags, and the wrapper of `guestArgumentsWithUserPath`
abbrev shell_words : ProcessOptions → FilePath → String → List Word
shell_words o project vm =
    word "shell" ∷ (if o.has_input then word "--tty=false" ∷ [] else [])
    ++ (word "--workdir" ∷ file project ∷ word vm ∷ [])

abbrev pub user_path_words : String → List Word → List Word
user_path_words script arguments = word "sh" ∷ word "-c" ∷ word script ∷ word "lja" ∷ arguments

insert_name : String × String → Dict String String → Dict String String
insert_name (k, v) [] = (k, v) ∷ []
insert_name (k, v) ((j, u) ∷ rest) = elim (compare k j) [
  | Ordering.gt ↦ (j, u) ∷ insert_name (k, v) rest
  | _ ↦ (k, v) ∷ (j, u) ∷ rest
]

-- `sort.Strings` of the names, with their values
unfoldable pub sort_names : Dict String String → Dict String String
unfolding insert_name
sort_names [] = []
sort_names (entry ∷ rest) = insert_name entry (sort_names rest)

binding_words : Dict String String → Result (List Word)
binding_words [] = ok []
binding_words ((name, value) ∷ rest) =
    let others = binding_words rest in
    if not (is_environment_name name)
    then err (lja "invalid guest environment variable name: %s" (str name ∷ []))
    else if has_nul value
    then err (lja "guest environment value for %s contains a NUL character" (str name ∷ []))
    else elim others [ ok words ↦ ok (binding name value ∷ words) | err e ↦ err e ]

-- `sortedEnvironmentArguments`, also the loop of `runGuest`
unfoldable pub sorted_environment_arguments : Dict String String → Result (List Word)
unfolding sort_names binding_words
sorted_environment_arguments environment = binding_words (sort_names environment)

abbrev is_nil : {A : Type 0} → List A → Bool
is_nil [] = true
is_nil (x ∷ xs) = false

-- `script` is `guestPathBootstrapScript`
module _ (script : String) (w : Worlds) where
  unfoldable pub run_lima : List Word → ProcessOptions → M ProcessResult
  run_lima [] o t = (err (lja "cannot run an empty Lima operation" []), t)
  run_lima (name ∷ rest) given t =
      let o = record given { command = command_or_default given.command } in
      (finish_run (name ∷ rest) o ((w t).lima (name ∷ rest) o), ran (name ∷ rest) o ∷ t)

  unfoldable pub run_guest :
      PathText → String → List Word → ProcessOptions → Dict String String → M ProcessResult
  run_guest project vm arguments o environment = do
    reject_if (is_nil arguments) (lja "cannot run an empty guest command" [])
    canonical ← query w (λ h. canonical_path h project)
    bindings ← lift (sorted_environment_arguments environment)
    run_lima (shell_words o canonical vm ++ (bindings ++ user_path_words script arguments)) o

  guest_connection_error : String → ProcessResult → Error
  guest_connection_error vm r =
      if process_output r == ""
      then lja "cannot connect to guest VM %s: exit status %d" (str vm ∷ exit r.exit_code ∷ [])
      else lja "cannot connect to guest VM %s: %s" (str vm ∷ str (process_output r) ∷ [])

  unfoldable pub verify_guest_connection : PathText → String → ProcessOptions → M (Unit {0})
  unfolding guest_connection_error
  verify_guest_connection project vm o = do
    r ← run_guest project vm (word "true" ∷ []) (probe_options o) []
    reject_if (not (exited_with r.exit_code)) (guest_connection_error vm r)

  -- The path that `command -v` printed.
  unfoldable pub printed_path : String → String → Result String
  unfolding chars
  printed_path executable output =
      if output == ""
      then err (lja "guest command probe for %s returned no executable path" (str executable ∷ []))
      else if any_char (λ c. is_char 13 c || is_char 10 c) (chars output)
      then err (lja "guest command probe for %s returned multiple paths" (str executable ∷ []))
      else if starts_with output "/"
      then ok output
      else err (lja "guest command probe for %s returned a non-absolute path" (str executable ∷ []))

  abbrev pub probe_error : String → ProcessResult → Error
  probe_error executable r =
      if process_output r == ""
      then lja "guest command probe for %s failed with exit status %d"
          (str executable ∷ exit r.exit_code ∷ [])
      else lja "guest command probe for %s failed with exit status %d: %s"
          (str executable ∷ exit r.exit_code ∷ str (process_output r) ∷ [])

  -- `guestExecutablePath`; no path is the text ""
  unfoldable pub guest_executable_path : PathText → String → String → ProcessOptions → M String
  guest_executable_path project vm executable o = do
    r ←
        run_guest project vm (word "command" ∷ word "-v" ∷ word executable ∷ []) (probe_options o)
          []
    if exited_with r.exit_code then lift (printed_path executable (trim_space r.stdout)) else do
      verify_guest_connection project vm (probe_options o)
      if exit_is_one r.exit_code then pure "" else fail (probe_error executable r)

  unfoldable pub guest_executable_available : PathText → String → String → ProcessOptions → M Bool
  guest_executable_available project vm executable o = do
    path ← guest_executable_path project vm executable o
    pure (not (path == ""))
