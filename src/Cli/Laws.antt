-- ===== src/Cli/Laws.antt =====
-- Which handlers a command may reach.
use mathlib.Core.Path.{subst}
use mathlib.Core.Bool.{false≢true}
use lima_jailed_agents.Path.Canonical.{is_empty}
use lima_jailed_agents.Base.{String, Bool, true, false, some, List, FilePath, ◌≡◌, refl, arith}
use lima_jailed_agents.Base.{Result, ok, ◌>>=◌, >>=-eq_ok, ok-injective, Bool-cases, inl, inr}
use lima_jailed_agents.Base.Dict.{Dict}
use lima_jailed_agents.Config.{DevelopmentConfig, resolve_environment}
use lima_jailed_agents.Host.{Host, PathText}
use lima_jailed_agents.StateRoot.{resolve_state_root}
use lima_jailed_agents.Cli.{
  Command, Cli, Action, Launch, codex, claude, open_code, shell, make, create, config, status, stop,
  delete, update, help,
}
use lima_jailed_agents.Cli.{create_vm, open_shell, install_agent, run_agent}
use lima_jailed_agents.Cli.{
  is_agent_command, takes_recreate, requested_agents, all_vms, launch, with_root,
  with_configuration, in_project, all_action, dispatch, run_command,
}

-- The handler may start or replace a VM, and it recreates exactly when the flag is given.
unfoldable pub Follows : Bool → Action → Type 0
Follows recreate (create_vm p r d flag) = flag ≡ recreate
Follows recreate (open_shell p a w l) = l.recreate ≡ recreate
Follows recreate (install_agent p a l) = l.recreate ≡ recreate
Follows recreate (run_agent p n a e w l) = l.recreate ≡ recreate
Follows recreate _ = recreate ≡ false

reached : (r : Bool) (a : Action) {b : Action} → ok a ≡ ok b → Follows r a → Follows r b
reached r a e f = subst (Follows r) (ok-injective e) f

-- The flag is given only with a command that takes it.
abbrev IsAllowed : Cli → Command → Type 0
IsAllowed cli command =
    takes_recreate command ≡ false → is_agent_command command ≡ false → cli.recreate ≡ false

requested_agents-IsAllowed :
    (cli : Cli) (command : Command) {agents : List String}
    → requested_agents cli command ≡ ok agents
    → IsAllowed cli command
unfolding requested_agents
requested_agents-IsAllowed cli command e plain other = ground (arith, plain, other)

module _ (h : Host) (load : PathText → Result DevelopmentConfig) (environment : Dict String String)
    (cli : Cli) (project directory : PathText) where
  launch-Follows :
      (command : Command) (agents : List String) (l : Launch) {a : Action}
      → launch h load environment cli project directory command agents l ≡ ok a
      → Follows l.recreate a
  unfolding launch Follows
  launch-Follows shell agents l e = reached l.recreate _ e refl
  launch-Follows make agents l e = reached l.recreate _ e refl
  launch-Follows update agents l e = reached l.recreate _ e refl
  launch-Follows codex agents l e = reached l.recreate _ e refl
  launch-Follows claude agents l e = reached l.recreate _ e refl
  launch-Follows open_code agents l e = reached l.recreate _ e refl
  launch-Follows create agents l e = cc
  launch-Follows config agents l e = cc
  launch-Follows status agents l e = cc
  launch-Follows stop agents l e = cc
  launch-Follows delete agents l e = cc
  launch-Follows help agents l e = cc

  launched-Follows :
      (command : Command) (agents : List String) (development : DevelopmentConfig) (root : FilePath)
      {a : Action}
      → (resolve_environment development environment >>= λ resolved.
          launch h load environment cli project directory command agents (record {
            recreate = cli.recreate;
            state_root = root;
            development = development;
            environment = resolved;
          }))
        ≡ ok a
      → Follows cli.recreate a
  launched-Follows command agents development root e =
      let (resolved, _, k) = >>=-eq_ok (resolve_environment development environment) _ e in
      launch-Follows command agents _ k

  with_root-Follows :
      (command : Command) (agents : List String) (development : DevelopmentConfig) (root : FilePath)
      {a : Action}
      → IsAllowed cli command
      → with_root h load environment cli project directory command agents development root ≡ ok a
      → Follows cli.recreate a
  unfolding with_root Follows takes_recreate is_agent_command
  with_root-Follows status agents d root q e = reached cli.recreate _ e (q refl refl)
  with_root-Follows stop agents d root q e = reached cli.recreate _ e (q refl refl)
  with_root-Follows create agents d root q e = reached cli.recreate _ e refl
  with_root-Follows shell agents d root q e = launched-Follows shell agents d root e
  with_root-Follows make agents d root q e = launched-Follows make agents d root e
  with_root-Follows update agents d root q e = launched-Follows update agents d root e
  with_root-Follows codex agents d root q e = launched-Follows codex agents d root e
  with_root-Follows claude agents d root q e = launched-Follows claude agents d root e
  with_root-Follows open_code agents d root q e = launched-Follows open_code agents d root e
  with_root-Follows config agents d root q e = launched-Follows config agents d root e
  with_root-Follows delete agents d root q e = launched-Follows delete agents d root e
  with_root-Follows help agents d root q e = launched-Follows help agents d root e

  abbrev rooted : Command → List String → DevelopmentConfig → Result Action
  rooted command agents d =
      resolve_state_root h project cli.state_dir cli.project_state (some environment)
      >>= with_root h load environment cli project directory command agents d

  rooted-Follows :
      (command : Command) (agents : List String) (d : DevelopmentConfig) {a : Action}
      → IsAllowed cli command
      → rooted command agents d ≡ ok a
      → Follows cli.recreate a
  rooted-Follows command agents d q e =
      let (root, _, k) =
        >>=-eq_ok (resolve_state_root h project cli.state_dir cli.project_state (some environment))
          _ e in
      with_root-Follows command agents d root q k

  with_configuration-Follows :
      (command : Command) (agents : List String) (d : DevelopmentConfig) {a : Action}
      → IsAllowed cli command
      → with_configuration h load environment cli project directory command agents d ≡ ok a
      → Follows cli.recreate a
  unfolding with_configuration Follows takes_recreate is_agent_command
  with_configuration-Follows codex agents d q e = rooted-Follows codex agents d q e
  with_configuration-Follows claude agents d q e = rooted-Follows claude agents d q e
  with_configuration-Follows open_code agents d q e = rooted-Follows open_code agents d q e
  with_configuration-Follows shell agents d q e = rooted-Follows shell agents d q e
  with_configuration-Follows make agents d q e = rooted-Follows make agents d q e
  with_configuration-Follows create agents d q e = rooted-Follows create agents d q e
  with_configuration-Follows config agents d q e = reached cli.recreate _ e (q refl refl)
  with_configuration-Follows status agents d q e = rooted-Follows status agents d q e
  with_configuration-Follows stop agents d q e = rooted-Follows stop agents d q e
  with_configuration-Follows delete agents d q e = rooted-Follows delete agents d q e
  with_configuration-Follows update agents d q e = rooted-Follows update agents d q e
  with_configuration-Follows help agents d q e = rooted-Follows help agents d q e

  loaded-Follows :
      (command : Command) (agents : List String) {a : Action}
      → IsAllowed cli command
      → (load project
          >>= with_configuration h load environment cli project directory command agents)
        ≡ ok a
      → Follows cli.recreate a
  loaded-Follows command agents q e =
      let (d, _, k) = >>=-eq_ok (load project) _ e in
      with_configuration-Follows command agents d q k

  in_project-Follows :
      (command : Command) (agents : List String) {a : Action}
      → IsAllowed cli command
      → in_project h load environment cli project directory command agents ≡ ok a
      → Follows cli.recreate a
  unfolding in_project Follows takes_recreate is_agent_command
  in_project-Follows codex agents q e = loaded-Follows codex agents q e
  in_project-Follows claude agents q e = loaded-Follows claude agents q e
  in_project-Follows open_code agents q e = loaded-Follows open_code agents q e
  in_project-Follows shell agents q e = loaded-Follows shell agents q e
  in_project-Follows make agents q e = loaded-Follows make agents q e
  in_project-Follows create agents q e = loaded-Follows create agents q e
  in_project-Follows config agents q e = loaded-Follows config agents q e
  in_project-Follows status agents q e = loaded-Follows status agents q e
  in_project-Follows stop agents q e = loaded-Follows stop agents q e
  in_project-Follows delete agents q e = reached cli.recreate _ e (q refl refl)
  in_project-Follows update agents q e = loaded-Follows update agents q e
  in_project-Follows help agents q e = loaded-Follows help agents q e

  all-Follows :
      (command : Command) {a : Action}
      → IsAllowed cli command
      → all_vms cli command ≡ true
      → ok (all_action h load environment cli project directory command) ≡ ok a
      → Follows cli.recreate a
  unfolding all_vms all_action Follows takes_recreate is_agent_command
  all-Follows stop q all e = reached cli.recreate _ e (q refl refl)
  all-Follows delete q all e = reached cli.recreate _ e (q refl refl)
  all-Follows codex q all e = absurd (false≢true all)
  all-Follows claude q all e = absurd (false≢true all)
  all-Follows open_code q all e = absurd (false≢true all)
  all-Follows shell q all e = absurd (false≢true all)
  all-Follows make q all e = absurd (false≢true all)
  all-Follows create q all e = absurd (false≢true all)
  all-Follows config q all e = absurd (false≢true all)
  all-Follows status q all e = absurd (false≢true all)
  all-Follows update q all e = absurd (false≢true all)
  all-Follows help q all e = absurd (false≢true all)

  -- A command that runs recreates a VM exactly when the flag is given: the flag reaches the handlers that
  -- start or create a VM, and with any other command it is an error, so none of them runs.
  pub run_command-Follows :
      (command : Command) {a : Action}
      → run_command h load environment cli project directory command ≡ ok a
      → Follows cli.recreate a
  unfolding run_command dispatch
  run_command-Follows command e =
      let (agents, r, k) = >>=-eq_ok (requested_agents cli command) _ e in
      let q = requested_agents-IsAllowed cli command r in
      elim (Bool-cases (all_vms cli command)) [
        | inl all ↦ all-Follows command q all (rw all at k)
        | inr one ↦ elim (Bool-cases (is_empty project)) [
          | inl empty ↦ absurd (ground arith)
          | inr given ↦ in_project-Follows command agents q (rw (one, given) at k)
        ]
      ]
