-- ===== src/Cli.antt =====
-- cli.go: which agents a command prepares, which arguments it forwards, and the dispatch of `runCommand`.
-- The handlers of the commands are not run here: the model tells which of them runs, and on what.
pub mod Laws
use lima_jailed_agents.Base.{
  String, Bool, true, false, not, ◌&&◌, ◌||◌, Option, none, some, List, [], ◌∷◌, FilePath,
}
use lima_jailed_agents.Base.{Result, ok, err, lja, str, ◌>>=◌, ◌==◌, string_eq, if◌then◌else◌}
use lima_jailed_agents.Base.Dict.{Dict}
use lima_jailed_agents.Agent.Names.{normalize_agent_names}
use lima_jailed_agents.Config.{DevelopmentConfig, resolve_environment}
use lima_jailed_agents.Host.{Host, PathText}
use lima_jailed_agents.Path.Canonical.{is_empty}
use lima_jailed_agents.StateRoot.{resolve_state_root}

-- The commands that kong knows.
pub data Command : Type 0 where
  codex claude open_code shell make create config status stop delete update help : Command

abbrev pub command_name : Command → String
command_name codex = "codex"
command_name claude = "claude"
command_name open_code = "opencode"
command_name shell = "shell"
command_name make = "make"
command_name create = "create"
command_name config = "config"
command_name status = "status"
command_name stop = "stop"
command_name delete = "delete"
command_name update = "update"
command_name help = "help"

-- `CLI`, as kong fills it; `arguments` are those of the command, and `all` is the flag of `stop` or `delete`
pub record Cli : Type 0 where
  pub recreate : Bool
  pub with_agent : List String
  pub state_dir : Option String
  pub project_state : Bool
  pub arguments : List String
  pub all : Bool
  pub update_agent : String

-- `isAgentCommand`
unfoldable pub is_agent_command : Command → Bool
is_agent_command codex = true
is_agent_command claude = true
is_agent_command open_code = true
is_agent_command _ = false

-- `forwardedArguments`
unfoldable pub forwarded_arguments : List String → List String
forwarded_arguments [] = []
forwarded_arguments (first ∷ rest) = if first == "--" then rest else first ∷ rest

-- The commands besides an agent's that take `--recreate`.
unfoldable pub takes_recreate : Command → Bool
takes_recreate create = true
takes_recreate shell = true
takes_recreate make = true
takes_recreate update = true
takes_recreate _ = false

abbrev pub is_nil : List String → Bool
is_nil [] = true
is_nil (x ∷ xs) = false

-- `requestedAgents`
unfoldable pub requested_agents : Cli → Command → Result (List String)
requested_agents cli command =
    if cli.recreate && (not (takes_recreate command) && not (is_agent_command command))
    then err (
        lja "--recreate is only valid with create, shell, make, agent launch, and update commands"
          [])
    else if not (is_nil cli.with_agent) && not (is_agent_command command)
    then err (lja "--with-agent is only valid with agent launch commands" [])
    else if not (is_agent_command command)
    then ok []
    else normalize_agent_names (command_name command) cli.with_agent

-- `allVMs`
unfoldable pub all_vms : Cli → Command → Bool
all_vms cli stop = cli.all
all_vms cli delete = cli.all
all_vms cli _ = false

-- What a launch, a shell or an update gets of `WorkflowOptions`.
pub record Launch : Type 0 where
  pub recreate : Bool
  pub state_root : FilePath
  pub development : DevelopmentConfig
  pub environment : Dict String String

-- The handler that runs: its project, and what else it is given.
pub data Action : Type 0 where
  stop_all_vms delete_all_vms : Action
  delete_vm : PathText → Action
  show_configuration : DevelopmentConfig → Action
  show_status stop_vm : PathText → FilePath → Action
  create_vm : PathText → FilePath → DevelopmentConfig → Bool → Action
  open_shell : PathText → List String → PathText → Launch → Action
  install_agent : PathText → String → Launch → Action
  run_agent : PathText → String → List String → List String → PathText → Launch → Action

abbrev tail_of : List String → List String
tail_of [] = []
tail_of (x ∷ xs) = xs

-- `load` is `loadDevelopmentConfig`, and `environment` the process's.
module _ (h : Host) (load : PathText → Result DevelopmentConfig) (environment : Dict String String)
    (cli : Cli) (project directory : PathText) where
  -- The switch at the end, for a command that starts a VM.
  unfoldable pub launch : Command → List String → Launch → Result Action
  launch shell agents l = ok (open_shell project (forwarded_arguments cli.arguments) directory l)
  launch make agents l =
      ok (open_shell project ("make" ∷ forwarded_arguments cli.arguments) directory l)
  launch update agents l = ok (install_agent project cli.update_agent l)
  launch codex agents l =
      ok
        (run_agent project "codex" (forwarded_arguments cli.arguments) (tail_of agents) directory l)
  launch claude agents l =
      ok (
        run_agent project "claude" (forwarded_arguments cli.arguments) (tail_of agents) directory l)
  launch open_code agents l = ok (
      run_agent project "opencode" (forwarded_arguments cli.arguments) (tail_of agents) directory l)
  launch command agents l = err (lja "%s is not implemented yet" (str (command_name command) ∷ []))

  -- The commands that need the state root, once it is known.
  unfoldable pub with_root : Command → List String → DevelopmentConfig → FilePath → Result Action
  with_root status agents development root = ok (show_status project root)
  with_root stop agents development root = ok (stop_vm project root)
  with_root create agents development root = ok (create_vm project root development cli.recreate)
  with_root command agents development root =
      resolve_environment development environment >>= λ resolved. launch command agents (record {
        recreate = cli.recreate;
        state_root = root;
        development = development;
        environment = resolved;
      })

  -- The commands that need the configuration, once it is loaded.
  unfoldable pub with_configuration : Command → List String → DevelopmentConfig → Result Action
  with_configuration config agents development = ok (show_configuration development)
  with_configuration command agents development =
      resolve_state_root h project cli.state_dir cli.project_state (some environment)
      >>= with_root command agents development

  unfoldable pub in_project : Command → List String → Result Action
  in_project delete agents = ok (delete_vm project)
  in_project command agents = load project >>= with_configuration command agents

  unfoldable pub all_action : Command → Action
  all_action delete = delete_all_vms
  all_action _ = stop_all_vms

  unfoldable pub dispatch : Command → List String → Result Action
  dispatch command agents =
      if all_vms cli command
      then ok (all_action command)
      else if is_empty project
      then err (lja "%s requires a project" (str (command_name command) ∷ []))
      else in_project command agents

  -- `runCommand`, up to the handler
  unfoldable pub run_command : Command → Result Action
  run_command command = requested_agents cli command >>= dispatch command
