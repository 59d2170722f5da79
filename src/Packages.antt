-- ===== src/Packages.antt =====
-- packages.go: the package back ends of the guests, the names that they accept, and the commands that
-- query and install packages; and git.go's `shellQuote`.
pub mod Quote
pub mod OsRelease
pub mod Ensure
pub mod Development
pub mod Benign
pub mod Installed
pub mod Laws
use Prim.Native.Char.{Char}
use Prim.Native.String.{◌++◌ as ◌<>◌}
use lima_jailed_agents.Base.{
  String, Bool, true, false, ◌&&◌, ◌||◌, List, [], ◌∷◌, ◌++◌, map, Result, ok, err, Error, lja, str,
}
use lima_jailed_agents.Base.{◌==◌, string_eq, if◌then◌else◌, ◌>>=◌}
use lima_jailed_agents.Base.Chars.{
  chars, from_chars, is_char, is_lower, is_upper, is_digit, all_chars, trim_space,
}
use lima_jailed_agents.Base.Unique.{unique}
use lima_jailed_agents.Config.{DevelopmentConfig}
use lima_jailed_agents.Host.{ProcessResult}
use lima_jailed_agents.Process.{process_output, exit_is_one}
use lima_jailed_agents.Tools.Resolve.{resolve_logical_tools}
use lima_jailed_agents.Packages.Quote.{shell_quote, join_with}

-- `guestPackageBackend`
pub record GuestPackageBackend : Type 0 where
  pub name : String
  pub query_command : String
  pub install_command : String
  pub required_tools : List String
  pub git_package : String
  pub gh_package : String
  pub gpg_package : String
  pub node_packages : List String

abbrev pub ubuntu_debian : String
ubuntu_debian = "ubuntu/debian"

abbrev pub fedora : String
fedora = "fedora"

abbrev pub debian_backend : GuestPackageBackend
debian_backend = record {
  name = ubuntu_debian;
  query_command = "dpkg-query";
  install_command = "apt-get";
  required_tools = "dpkg-query" ∷ "apt-get" ∷ "sudo" ∷ [];
  git_package = "git";
  gh_package = "gh";
  gpg_package = "gnupg";
  node_packages = "nodejs" ∷ "npm" ∷ [];
}

abbrev pub fedora_backend : GuestPackageBackend
fedora_backend = record {
  name = fedora;
  query_command = "rpm";
  install_command = "dnf";
  required_tools = "rpm" ∷ "dnf" ∷ "sudo" ∷ [];
  git_package = "git";
  gh_package = "gh";
  gpg_package = "gnupg2";
  node_packages = "nodejs" ∷ "npm" ∷ [];
}

-- The switch of `packageBackendForOSRelease`, for an identifier in lower case.
unfoldable pub backend_for_id : String → Result GuestPackageBackend
backend_for_id id =
    if id == "ubuntu" || id == "debian"
    then ok debian_backend
    else if id == "fedora"
    then ok fedora_backend
    else err (
        lja "unsupported guest distribution %s; supported package backends are %s and %s"
          (str id ∷ str ubuntu_debian ∷ str fedora ∷ []))

abbrev is_small : Char → Bool
is_small c = is_lower c || is_digit c

-- `(?::[a-z0-9][a-z0-9-]*)?$`, after the colon
abbrev is_architecture : List Char → Bool
is_architecture [] = false
is_architecture (c ∷ cs) = is_small c && all_chars (λ d. is_small d || is_char b'-' d) cs

-- `[a-z0-9+.-]*` and what follows
abbrev is_debian_rest : List Char → Bool
is_debian_rest [] = true
is_debian_rest (c ∷ cs) =
    if is_char b':' c
    then is_architecture cs
    else ((is_small c || is_char b'+' c || is_char b'.' c || is_char b'-' c) && is_debian_rest cs)

-- `debianPackageNamePattern`
abbrev pub is_debian_name : List Char → Bool
is_debian_name [] = false
is_debian_name (c ∷ cs) = is_small c && is_debian_rest cs

abbrev is_alphanumeric : Char → Bool
is_alphanumeric c = is_upper c || is_lower c || is_digit c

-- `rpmPackageNamePattern`
abbrev pub is_rpm_name : List Char → Bool
is_rpm_name [] = false
is_rpm_name (c ∷ cs) =
    is_alphanumeric c
    && all_chars
        (λ d.
          is_alphanumeric d || is_char b'+' d || is_char b'.' d || is_char b'_' d || is_char b'-' d)
        cs

module _ (backend : GuestPackageBackend) where
  -- `validatePackageName`
  unfoldable pub validate_package_name : String → Result (Unit {0})
  unfolding chars
  validate_package_name name =
      let valid =
        if backend.name == fedora then is_rpm_name (chars name) else is_debian_name (chars name) in
      if valid
      then ok tt
      else err (lja "invalid package name %s for %s backend" (str name ∷ str backend.name ∷ []))

  -- `queryArguments`
  unfoldable pub query_arguments : String → List String
  query_arguments name =
      if backend.name == fedora
      then backend.query_command ∷ "-q" ∷ "--whatprovides" ∷ name ∷ []
      else backend.query_command ∷ "--show" ∷ "--showformat=${Status}" ∷ name ∷ []

  -- `installArguments`, with `guestPackageInstallationScript`
  unfoldable pub install_arguments : List String → List String
  unfolding shell_quote
  install_arguments names =
      if backend.name == ubuntu_debian
      then "sh"
        ∷ "-eu"
        ∷ "-c"
        ∷ ("sudo apt-get update && sudo apt-get install -y "
            <> join_with " " (map shell_quote names))
        ∷ []
      else "sudo" ∷ backend.install_command ∷ "install" ∷ "-y" ∷ names

  -- `developmentPackageNames`
  unfoldable pub development_package_names : DevelopmentConfig → Result (List String)
  development_package_names config = do
    plan ← resolve_logical_tools config.tools
    ok (
        unique (
          config.packages
          ++ (plan.native_packages
              ++ ((if config.gpg_forwarding then backend.gpg_package ∷ [] else [])
                  ++ ((if config.copy_git_config then backend.git_package ∷ [] else [])
                      ++ (if config.github.enabled
                          then backend.git_package ∷ backend.gh_package ∷ []
                          else []))))))
