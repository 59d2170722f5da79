-- ===== src/Path/Policy/Laws.antt =====
-- What an accepted project directory is.
use lima_jailed_agents.Base.{
  true, ◌≡◌, ◌≢◌, ◌↔◌, some, FilePath, arith, ap, refl, Result, ok, err, String,
}
use lima_jailed_agents.Base.{strings_eq, string_eq}
use lima_jailed_agents.Host.{FileInfo, Outcome, found, not_exist, failed, is_directory}
use lima_jailed_agents.Path.Policy.{Policy, rejection, stat_reason}

-- Not the home directory, a directory, and the user's own.
abbrev pub IsAccepted : Policy → FilePath → Type 0
IsAccepted policy directory =
    (directory ≢ policy.home)
    × ((info : FileInfo) × (policy.stat directory ≡ found info)
        × (is_directory info.kind ≡ true)
        × (info.owner ≡ some policy.uid))

abbrev IsOwned : Policy → Outcome FileInfo → Type 0
IsOwned policy o =
    (info : FileInfo) × (o ≡ found info)
    × (is_directory info.kind ≡ true)
    × (info.owner ≡ some policy.uid)

reason_given : (reason : String) → reason ≢ "" → ◌≢◌ {A = Result String} (ok reason) (ok "")
reason_given reason given e = given (ap (λ r. value r) e)
  where
    value : Result String → String
    value (ok a) = a
    value (err x) = reason

home_given : ◌≢◌ {A = Result String} (ok "project must not be the user home directory") (ok "")
home_given = reason_given _ (λ e. cc)

directory_given : ◌≢◌ {A = Result String} (ok "project is not a directory") (ok "")
directory_given = reason_given _ (λ e. cc)

owner_given :
    ◌≢◌ {A = Result String} (ok "project directory is not owned by the current user") (ok "")
owner_given = reason_given _ (λ e. cc)

stat_reason-IsOwned :
    (policy : Policy) (directory : FilePath) (o : Outcome FileInfo)
    → stat_reason policy directory o ≡ ok ""
    → IsOwned policy o
unfolding stat_reason
stat_reason-IsOwned policy directory (found info) e = (
  info,
  refl,
  ground (arith, directory_given, owner_given),
  ground (arith, directory_given, owner_given),
)
stat_reason-IsOwned policy directory (not_exist x) e = cc
stat_reason-IsOwned policy directory (failed x) e = cc

owned_stat_reason :
    (policy : Policy) (directory : FilePath) (o : Outcome FileInfo)
    → IsOwned policy o
    → stat_reason policy directory o ≡ ok ""
unfolding stat_reason
owned_stat_reason policy directory o (info, there, is_dir, owned) = ground arith

-- A directory is rejected for no reason exactly when it is not the user's home directory, is there, is
-- a directory, and is owned by the user.
pub rejection_iff :
    (policy : Policy) (directory : FilePath)
    → (rejection policy directory ≡ ok "") ↔ IsAccepted policy directory
unfolding rejection
rejection_iff policy directory = elim (strings_eq.dec directory policy.home) [
  | yes home ↦ (λ e. absurd (ground (arith, home_given)), λ a. absurd (a.0 home))
  | no other ↦ (
    λ e. (other, stat_reason-IsOwned policy directory (policy.stat directory) (ground arith)),
    λ a. ground (arith, owned_stat_reason policy directory (policy.stat directory) a.1),
  )
]
