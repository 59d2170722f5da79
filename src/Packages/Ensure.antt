-- ===== src/Packages/Ensure.antt =====
-- packages.go: the queries and the installation of packages in a guest, as runs through `limactl shell`.
use Prim.Native.Char.{Char}
use text.Mathlib.Text.{find?}
use lima_jailed_agents.Base.{
  String, Bool, true, false, not, ◌||◌, none, some, List, [], ◌∷◌, map, Result, ok, err,
}
use lima_jailed_agents.Base.{Error, lja, wrap, str, exit, map_error, ◌==◌, string_eq, if◌then◌else◌}
use lima_jailed_agents.Base.Chars.{chars, from_chars, trim_space}
use lima_jailed_agents.Host.{ProcessResult}
use lima_jailed_agents.Process.{
  run_guest, verify_guest_connection, guest_executable_available, process_output, probe_options,
  exited_with, exit_is_one,
}
use lima_jailed_agents.Run.{word, Worlds, M, ◌>>=◌, ◌>>◌, pure, fail, lift, map_failure, reject_if}
use lima_jailed_agents.Packages.Quote.{join_with}
use lima_jailed_agents.Packages.{
  GuestPackageBackend, ubuntu_debian, fedora, validate_package_name, query_arguments,
  install_arguments,
}
use lima_jailed_agents.Tools.Ensure.{GuestPackageOptions, options_of}

-- `strings.Contains`
abbrev pub has_part : String → String → Bool
has_part text part = elim (find? text part) [ some at ↦ true | none ↦ false ]

-- `lower` is what `unicode.ToLower` does to one rune
module _ (lower : Char → Char) where
  abbrev pub to_lower : String → String
  unfolding chars from_chars
  to_lower s = from_chars (map lower (chars s))

  tells_missing : GuestPackageBackend → String → Bool
  tells_missing backend detail =
      if detail == ""
      then true
      else if backend.name == fedora
      then has_part detail "no package provides" || has_part detail "is not installed"
      else has_part detail "no packages found matching" || has_part detail "is not installed"

  -- `packageIsMissing`
  unfoldable pub package_is_missing : GuestPackageBackend → ProcessResult → Bool
  unfolding tells_missing
  package_is_missing backend r =
      if exit_is_one r.exit_code
      then tells_missing backend (to_lower (trim_space (process_output r)))
      else false

  module _ (script : String) (w : Worlds) (o : GuestPackageOptions)
      (backend : GuestPackageBackend) where
    abbrev pub query_failed : String → Error → Error
    query_failed name =
        wrap "cannot query dependency %s with %s backend in VM %s: %w"
          (str name ∷ str backend.name ∷ str o.vm_name ∷ [])

    abbrev pub database_failed : String → ProcessResult → Error
    database_failed name r =
        if process_output r == ""
        then lja
            "package database query failed for dependency %s with %s backend in VM %s: exit status %d"
            (str name ∷ str backend.name ∷ str o.vm_name ∷ exit r.exit_code ∷ [])
        else lja
            "package database query failed for dependency %s with %s backend in VM %s: exit status %d: %s"
            (str name
              ∷ str backend.name
              ∷ str o.vm_name
              ∷ exit r.exit_code
              ∷ str (process_output r)
              ∷ [])

    -- What an answer of the package database says, after the run of the query.
    unfoldable pub answered : String → ProcessResult → M Bool
    answered name r =
        if exited_with r.exit_code
        then (if backend.name == ubuntu_debian
            then pure (trim_space r.stdout == "install ok installed")
            else pure true)
        else (do
          map_failure (query_failed name)
              (verify_guest_connection script w o.project o.vm_name (probe_options (options_of o)))
          if package_is_missing backend r then pure false else fail (database_failed name r))

    -- `queryPackage`
    unfoldable pub query_package : String → M Bool
    query_package name = do
      lift (map_error (query_failed name) (validate_package_name backend name))
      r ← map_failure (query_failed name) (
          run_guest script w o.project o.vm_name (map word (query_arguments backend name))
            (probe_options (options_of o)) [])
      answered name r

    -- The packages that are not installed.
    unfoldable pub missing_packages : List String → M (List String)
    missing_packages [] = pure []
    missing_packages (name ∷ names) = do
      installed ← query_package name
      missing ← missing_packages names
      pure (if installed then missing else name ∷ missing)

    unfoldable pub validate_each : List String → Result (Unit {0})
    validate_each [] = ok tt
    validate_each (name ∷ names) =
        let rest = validate_each names in
        elim (validate_package_name backend name) [
          | ok u ↦ rest
          | err e ↦ err (
              wrap "cannot install dependency %s with %s backend in VM %s: %w"
                (str name ∷ str backend.name ∷ str o.vm_name ∷ []) e)
        ]

    -- `installPackages`
    unfoldable pub install_packages : List String → M (Unit {0})
    install_packages names = do
      lift (validate_each names)
      r ←
          map_failure
            (wrap "cannot install dependencies %s with %s backend in VM %s: %w"
              (str (join_with ", " names) ∷ str backend.name ∷ str o.vm_name ∷ []))
            (run_guest script w o.project o.vm_name (map word (install_arguments backend names))
              (options_of o) [])
      pure tt

    -- Each package that was installed must now be there.
    unfoldable pub check_installed : List String → M (Unit {0})
    check_installed [] = pure tt
    check_installed (name ∷ names) = do
      installed ← query_package name
      reject_if (not installed) (
          lja
            "cannot verify dependency %s with %s backend in VM %s: installation did not provide the requested package"
            (str name ∷ str backend.name ∷ str o.vm_name ∷ []))
      check_installed names

    unfoldable pub install_all : List String → M (Unit {0})
    install_all [] = pure tt
    install_all (name ∷ names) = do install_packages (name ∷ names); check_installed (name ∷ names)

    -- `ensureGuestPackagesWithBackend`
    unfoldable pub ensure_guest_packages : List String → M (Unit {0})
    ensure_guest_packages names = do missing ← missing_packages names; install_all missing

    -- Each tool that the back end runs must be in the guest.
    unfoldable pub check_tools : List String → M (Unit {0})
    check_tools [] = pure tt
    check_tools (tool ∷ tools) = do
      available ←
          map_failure
            (wrap "cannot verify %s package backend tool %s in VM %s: %w"
              (str backend.name ∷ str tool ∷ str o.vm_name ∷ []))
            (guest_executable_available script w o.project o.vm_name tool (options_of o))
      reject_if (not available) (
          lja "package backend %s in VM %s requires guest tool %s"
            (str backend.name ∷ str o.vm_name ∷ str tool ∷ []))
      check_tools tools
