-- ===== src/Packages/Development.antt =====
-- packages.go: the choice of a back end by what a guest is, and what a development configuration needs of a
-- guest: `ensureDevelopmentPackages` and `verifyDevelopmentExecutables`.
use Prim.Native.Char.{Char}
use lima_jailed_agents.Base.{String, Bool, true, false, not, ◌&&◌, List, [], ◌∷◌, ◌++◌, Result}
use lima_jailed_agents.Base.{Error, lja, wrap, str, exit, ◌==◌, string_eq, if◌then◌else◌}
use lima_jailed_agents.Base.Unique.{unique}
use lima_jailed_agents.Config.{DevelopmentConfig}
use lima_jailed_agents.Host.{ProcessResult}
use lima_jailed_agents.Process.{
  run_guest, verify_guest_connection, guest_executable_available, process_output, probe_options,
  exited_with,
}
use lima_jailed_agents.Run.{
  word, ProcessOptions, Worlds, M, ◌>>=◌, ◌>>◌, pure, fail, lift, map_failure, reject_if, when,
}
use lima_jailed_agents.Packages.{GuestPackageBackend, backend_for_id, development_package_names}
use lima_jailed_agents.Packages.Ensure.{ensure_guest_packages, check_tools, to_lower}
use lima_jailed_agents.Packages.OsRelease.{GuestOsRelease, parse_guest_os_release}
use lima_jailed_agents.Tools.Ensure.{GuestPackageOptions, options_of}

-- `guestPackageBackend{}`
abbrev pub no_backend : GuestPackageBackend
no_backend = record {
  name = "";
  query_command = "";
  install_command = "";
  required_tools = [];
  git_package = "";
  gh_package = "";
  gpg_package = "";
  node_packages = [];
}

-- Nothing in the configuration needs a package.
unfoldable pub needs_nothing : DevelopmentConfig → Bool
needs_nothing config =
    is_nil config.packages
    && is_nil config.tools
    && not config.gpg_forwarding
    && not config.copy_git_config
    && not config.github.enabled
  where
    is_nil : List String → Bool
    is_nil [] = true
    is_nil (x ∷ xs) = false

-- The executables that the features of a configuration run in the guest.
unfoldable pub development_executables : DevelopmentConfig → List String
development_executables config = unique (
    (if config.copy_git_config then "git" ∷ [] else [])
    ++ ((if config.github.enabled then "git" ∷ "gh" ∷ [] else [])
        ++ (if config.gpg_forwarding then "gpg" ∷ "gpgconf" ∷ [] else [])))

module _ (lower : Char → Char) (unquote : String → Result String) (script : String) (w : Worlds)
    (o : GuestPackageOptions) where
  abbrev unreadable : Error → Error
  unreadable = wrap "cannot read %s in VM %s: %w" (str "/etc/os-release" ∷ str o.vm_name ∷ [])

  abbrev unread : ProcessResult → Error
  unread r =
      if process_output r == ""
      then lja "cannot read %s in VM %s: exit status %d"
          (str "/etc/os-release" ∷ str o.vm_name ∷ exit r.exit_code ∷ [])
      else lja "cannot read %s in VM %s: exit status %d: %s"
          (str "/etc/os-release" ∷ str o.vm_name ∷ exit r.exit_code ∷ str (process_output r) ∷ [])

  -- `readGuestOSRelease`
  unfoldable pub read_guest_os_release : ProcessOptions → M GuestOsRelease
  read_guest_os_release options = do
    r ← map_failure unreadable (
        run_guest script w o.project o.vm_name (word "cat" ∷ word "/etc/os-release" ∷ [])
          (probe_options options) [])
    when (not (exited_with r.exit_code)) (
        map_failure unreadable
          (verify_guest_connection script w o.project o.vm_name (probe_options options))
        >> fail (unread r))
    map_failure (wrap "cannot parse %s in VM %s: %w" (str "/etc/os-release" ∷ str o.vm_name ∷ []))
        (lift (parse_guest_os_release unquote (to_lower lower) r.stdout))

  -- `packageBackendForGuest`
  unfoldable pub package_backend_for_guest : M GuestPackageBackend
  package_backend_for_guest = do
    release ← read_guest_os_release (options_of o)
    backend ←
        map_failure (wrap "cannot select package backend for VM %s: %w" (str o.vm_name ∷ []))
          (lift (backend_for_id (to_lower lower release.id)))
    check_tools lower script w o backend backend.required_tools
    pure backend

  -- `ensureDevelopmentPackages`
  unfoldable pub ensure_development_packages : DevelopmentConfig → M GuestPackageBackend
  ensure_development_packages config = if needs_nothing config then pure no_backend else (do
    backend ←
        map_failure (wrap "cannot prepare dependencies in VM %s: %w" (str o.vm_name ∷ []))
          package_backend_for_guest
    names ←
        map_failure (wrap "cannot resolve logical tools in VM %s: %w" (str o.vm_name ∷ []))
          (lift (development_package_names backend config))
    ensure_guest_packages lower script w o backend names
    pure backend)

  unfoldable pub verify_each : GuestPackageBackend → List String → M (Unit {0})
  verify_each backend [] = pure tt
  verify_each backend (executable ∷ executables) = do
    available ←
        map_failure
          (wrap "cannot verify required executable %s with %s backend in VM %s: %w"
            (str executable ∷ str backend.name ∷ str o.vm_name ∷ []))
          (guest_executable_available script w o.project o.vm_name executable (options_of o))
    reject_if (not available) (
        lja "required executable %s is missing with %s backend in VM %s"
          (str executable ∷ str backend.name ∷ str o.vm_name ∷ []))
    verify_each backend executables

  -- `verifyDevelopmentExecutables`
  unfoldable pub verify_development_executables :
      DevelopmentConfig → GuestPackageBackend → M (Unit {0})
  verify_development_executables config backend =
      verify_each backend (development_executables config)
