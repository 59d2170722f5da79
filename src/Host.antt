-- ===== src/Host.antt =====
-- What the program asks of the operating system and of other programs, as a snapshot: the standard
-- library's `os`, `filepath.EvalSymlinks` and `crypto/sha256` as path.go, lock.go and discovery.go
-- call them, and the reply that the next run of `limactl` would give.
use lima_jailed_agents.Base.{
  String, Bool, List, ℕ, Option, FilePath, Result, Error, ok, err, ExitStatus,
}
use lima_jailed_agents.Base.Dict.{Dict}

-- A path as it is written: `strings.Split(path, "/")`, so that "" is `"" ∷ []` and "/" is `"" ∷ "" ∷ []`.
abbrev pub PathText : Type 0
PathText = List String

-- What a call of `os` returns; `not_exist` is an error for which `os.IsNotExist` holds.
pub data Outcome (A : Type 0) : Type 0 where
  found : A → Outcome A
  not_exist : Error → Outcome A
  failed : Error → Outcome A

abbrev pub to_result : {A : Type 0} → Outcome A → Result A
to_result (found a) = ok a
to_result (not_exist e) = err e
to_result (failed e) = err e

pub data FileKind : Type 0 where
  directory regular symlink special : FileKind

-- `os.FileInfo`; `owner` is the `Uid` of `Sys().(*syscall.Stat_t)`, or `none` where that fails.
pub record FileInfo : Type 0 where
  pub kind : FileKind
  pub owner : Option ℕ

abbrev pub is_directory : FileKind → Bool
is_directory directory = Bool.true
is_directory _ = Bool.false

abbrev pub is_regular : FileKind → Bool
is_regular regular = Bool.true
is_regular _ = Bool.false

abbrev pub is_symlink : FileKind → Bool
is_symlink symlink = Bool.true
is_symlink _ = Bool.false

-- `ProcessResult` of process.go
pub record ProcessResult : Type 0 where
  pub stdout : String
  pub stderr : String
  pub exit_code : ExitStatus

pub record Host : Type 0 where
  pub user_home_dir : Result PathText
  pub getwd : Result PathText
  pub temp_dir : PathText
  pub environ : Dict String String
  pub is_darwin : Bool
  pub uid : ℕ
  pub eval_symlinks : FilePath → Outcome FilePath
  pub lstat : FilePath → Outcome FileInfo
  pub stat : FilePath → Outcome FileInfo
  pub sha256_hex : FilePath → String
