-- ===== src/Lib.antt =====
-- A model of LJA, the Go package that gives each project a Lima VM for its coding agents, and theorems
-- on it. The files named here stand at the root of the repository.
--
-- The parts and their files:
-- - Base: texts, lists, errors and fallible results, and config.go's `uniqueStrings` (Base/Unique).
-- - Host: what the operating system shows: `os`, `filepath.EvalSymlinks`, `crypto/sha256`.
-- - Path: path.go. Path/Text has the functions of `path/filepath` that the program calls;
--   Path/Canonical `canonicalPath`; Path/Within `pathIsWithin`; Path/Slug `ProjectSlug` and
--   `ProjectVMName`; Path/Policy `projectDirectoryPolicy` and `ResolveProject`.
-- - Run: computations that act on the world. Every call that changes something is an event of a trace,
--   and a world tells after each trace what the system shows and what the next call would answer. So
--   the theorems over all worlds cover every behaviour of limactl and of the file system.
-- - Process: process.go, the runs of limactl and of commands in a guest.
-- - Workflow: the options of a workflow of agent.go.
-- - Lima: lima.go. Lima/Instances parses what `limactl list` prints, Lima/Inspect looks VMs up,
--   Lima/Mounts compares mounts, Lima/Lifecycle stops and deletes VMs (with `StopVM` and `ShowStatus`
--   of discovery.go), Lima/Prepare creates and starts them.
-- - Recreate: recreate.go, the replacement of a VM with a backup.
-- - Discovery: discovery.go's search for the project of a directory.
-- - Lock: lock.go's `withAdvisoryLock`, with `defaultLockDirectory` of path.go.
-- - StateRoot: lock.go's `resolveStateRoot`.
-- - Agent: the agents of agent.go; Agent/Names their names in a launch, Agent/Invocation
--   `BuildAgentInvocation` (Agent/Invocation/Daemon when it has `--no-daemon`), Agent/State the
--   environment and the directories of lock.go, Agent/Instructions its `RefreshAgentInstructions`,
--   Agent/Install `installAgentLocked`, Agent/Wrapper the wrapper scripts, Agent/Prepare
--   `prepareAgentNamesLocked`.
-- - Files: the replacement of a file by way of a temporary one, as claude.go and codex.go write it out.
-- - AgentConfig: what `ensureClaudeDirectoryTrust` and `ensureCodexConfiguration` share: the lock, the
--   checks and the replacement. Claude and Codex are their updates of the content.
-- - Git: git.go; Git/Environment the configuration in the environment.
-- - Tools: tools.go; Tools/Resolve `resolveLogicalTools`, Tools/Ensure `ensureLogicalTools` and
--   `guestExecutableVersion` of agent.go.
-- - LimaConfig: lima_config.go's merging of configurations.
-- - Config: the development configuration of config.go, its layers and its environment.
-- - Token: the GitHub tokens of github.go.
-- - Cli: the dispatch of cli.go's `runCommand` to its handlers.
-- - Packages: packages.go; Packages/OsRelease its parser, Packages/Ensure the queries and the
--   installation in a guest, Packages/Development what a configuration needs there, Packages/Quote
--   `shellQuote` of git.go, against how a shell reads a word.
-- - Tests: sample inputs, runs on them, and the theorems at them.
--
-- How the parts interact: Recreate and Lima/Prepare compute in the monad of Run, call Process for every
-- limactl, look at VMs by Lima/Inspect and check their mounts by Lima/Mounts, which stands on the paths
-- of Path. Discovery asks the policy of Path/Policy at each directory.
--
-- Choices. An absolute clean path is the list of its names, and a path as it is written the list of its
-- pieces between slashes, so that `filepath` is a function on lists. Numbers are natural numbers. An
-- error is its format with its arguments and cause. Log lines are left out. The world may change
-- between any two events, and the file system answers are those of the trace so far.
--
-- Parameters, for what the repository only calls: what `encoding/json` reads in an output (`decode`),
-- the hash of a path, the lower case of a character, `strconv.Quote` and `strconv.Unquote`,
-- `utf8.Valid`, how `encoding/json` writes a map, the operations of the TOML editor that codex.go
-- imports, and the random names of a replacement and of temporary files. The theorems hold for every
-- text of process.go's bootstrap script, so it is an argument too. The parts of a `Workflow` that act
-- in guests are any computations that are `GuestOnly`: they run no limactl operation but `shell` and
-- `list`.
--
-- The functions are structurally recursive: the climbs of `canonicalPath` and of the discovery go
-- through the names of a path. Only the visit of tools and their prerequisites has fuel, three levels;
-- the closed form of its result shows that this is enough.
--
-- Numbers as texts have 20 digits of fuel, which hold every 64-bit number.
--
-- Not modelled: the sockets and processes of gpg.go, YAML, TOML and JSON texts, the copy of Git
-- configurations into a guest, the entries of the workflow around its locks (`PrepareVM`,
-- `InstallAgent`, `RunAgent`, `OpenShell`), the longest line that `bufio.Scanner` reads, signals, and
-- what runs inside a guest.
pub mod Base
pub mod Host
pub mod Path
pub mod Run
pub mod Process
pub mod Workflow
pub mod Lima
pub mod Recreate
pub mod Discovery
pub mod Lock
pub mod StateRoot
pub mod Agent
pub mod Tools
pub mod LimaConfig
pub mod Config
pub mod Token
pub mod Cli
pub mod Packages
pub mod Files
pub mod AgentConfig
pub mod Claude
pub mod Codex
pub mod Git
pub mod Tests
