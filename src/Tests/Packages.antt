-- ===== src/Tests/Packages.antt =====
-- Packages of a guest: quoting, names, and a guest in which a package is missing until it is installed.
use lima_jailed_agents.Base.{
  String, Bool, true, false, List, [], ◌∷◌, ◌≡◌, refl, Option, some, none, Result, ok, exited, All,
  string_discrete,
}
use lima_jailed_agents.Base.Chars.{chars, from_chars}
use lima_jailed_agents.Base.Unique.{has_duplicate, unique, unique_from}
use lima_jailed_agents.Base.{contains, string_eq}
use lima_jailed_agents.Config.{DevelopmentConfig, default_development_config}
use lima_jailed_agents.Packages.Quote.{shell_quote, shell_word}
use lima_jailed_agents.Packages.Quote.{shell_word-shell_quote}
use lima_jailed_agents.Packages.{
  GuestPackageBackend, debian_backend, fedora_backend, development_package_names,
  validate_package_name,
}
use lima_jailed_agents.Packages.Ensure.{ensure_guest_packages}
use lima_jailed_agents.Packages.Installed.{Found, ensure_guest_packages-Found}
use lima_jailed_agents.Packages.Laws.{is_needed, development_package_names_iff}
use lima_jailed_agents.Run.{Worlds, completed}
use lima_jailed_agents.Tests.Sample.{project_text, shell_script, running_world}
use lima_jailed_agents.Tools.{LogicalToolPlan}
use lima_jailed_agents.Tools.Ensure.{GuestPackageOptions}
use lima_jailed_agents.Tools.Resolve.{resolve_logical_tools}

abbrev guest : GuestPackageOptions
guest = record {
  project = project_text;
  vm_name = "lja-work";
  limactl_command = "";
  has_context = false;
}

-- The first run in the guest ends with the status 1, every later one with 0.
abbrev missing_at_first : Worlds
missing_at_first [] = record (running_world []) {
  lima = λ words options. completed (record { stdout = ""; stderr = ""; exit_code = exited 1 });
}
missing_at_first (event ∷ events) = record (running_world []) {
  lima = λ words options. completed (record { stdout = ""; stderr = ""; exit_code = exited 0 });
}

installed_later :
    (ensure_guest_packages
      (λ c. c)
      shell_script
      missing_at_first
      guest
      fedora_backend
      ("make" ∷ [])
      []).0
    ≡ ok tt
unfolding ensure_guest_packages lima_jailed_agents.Packages.Ensure.missing_packages
    lima_jailed_agents.Packages.Ensure.query_package validate_package_name string_eq
    lima_jailed_agents.Process.run_guest lima_jailed_agents.Packages.query_arguments
    lima_jailed_agents.Path.Canonical.canonical_path
    lima_jailed_agents.Path.Canonical.canonical_given lima_jailed_agents.Path.Canonical.expand_home
    lima_jailed_agents.Path.Canonical.expand_first lima_jailed_agents.Path.Canonical.absolute_path
    lima_jailed_agents.Path.Canonical.resolve_absolute lima_jailed_agents.Tests.Sample.resolve
    lima_jailed_agents.Base.strings_eq lima_jailed_agents.Path.Text.clean
    lima_jailed_agents.Path.Text.clean_onto lima_jailed_agents.Path.Text.enter chars from_chars
    lima_jailed_agents.Base.Chars.has_nul lima_jailed_agents.Base.Chars.is_environment_name
    lima_jailed_agents.Base.Chars.trim_space lima_jailed_agents.Base.string_discrete
    lima_jailed_agents.Base.strings_discrete lima_jailed_agents.Packages.Ensure.answered
    lima_jailed_agents.Packages.Ensure.check_installed
    lima_jailed_agents.Packages.Ensure.install_all
    lima_jailed_agents.Packages.Ensure.install_packages
    lima_jailed_agents.Packages.Ensure.package_is_missing
    lima_jailed_agents.Packages.Ensure.validate_each lima_jailed_agents.Packages.install_arguments
    lima_jailed_agents.Path.Canonical.normalize_darwin lima_jailed_agents.Path.Canonical.is_alias
    lima_jailed_agents.Process.finish_run lima_jailed_agents.Process.process_output
    lima_jailed_agents.Process.run_lima lima_jailed_agents.Process.sort_names
    lima_jailed_agents.Process.sorted_environment_arguments
    lima_jailed_agents.Process.verify_guest_connection
installed_later = refl

ensure_guest_packages-Found_example :
    All
      (Found
        (λ c. c)
        shell_script
        missing_at_first
        guest
        fedora_backend
        []
        (ensure_guest_packages
          (λ c. c)
          shell_script
          missing_at_first
          guest
          fedora_backend
          ("make" ∷ [])
          []).1)
      ("make" ∷ [])
ensure_guest_packages-Found_example =
    ensure_guest_packages-Found (λ c. c) shell_script missing_at_first guest fedora_backend
      ("make" ∷ []) [] installed_later

architecture_is_valid : validate_package_name debian_backend "libc6:arm64" ≡ ok tt
unfolding validate_package_name string_eq
architecture_is_valid = refl

shell_word-shell_quote_example : shell_word (shell_quote "it's; rm $x") ≡ some (chars "it's; rm $x")
shell_word-shell_quote_example = shell_word-shell_quote "it's; rm $x"

abbrev configured : DevelopmentConfig
configured = record default_development_config {
  packages = "make" ∷ [];
  tools = "uv" ∷ [];
  copy_git_config = true;
  gpg_forwarding = false;
}

configured_names :
    development_package_names debian_backend configured ≡ ok ("make" ∷ "pipx" ∷ "git" ∷ [])
unfolding development_package_names unique unique_from string_eq string_discrete
    resolve_logical_tools lima_jailed_agents.Tools.Resolve.visit_each
    lima_jailed_agents.Tools.Resolve.visit lima_jailed_agents.Tools.Resolve.visit_definition
    lima_jailed_agents.Tools.Resolve.add_tool lima_jailed_agents.Tools.logical_tool_definition
configured_names = refl

development_package_names_iff_example :
    (plan : LogicalToolPlan) × (resolve_logical_tools ("uv" ∷ []) ≡ ok plan)
    × (has_duplicate {A = String} ("make" ∷ "pipx" ∷ "git" ∷ []) ≡ false)
    × ((a : String)
        → contains {A = String} ("make" ∷ "pipx" ∷ "git" ∷ []) a
          ≡ is_needed debian_backend configured plan a)
development_package_names_iff_example =
    development_package_names_iff debian_backend configured configured_names
