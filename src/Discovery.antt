-- ===== src/Discovery.antt =====
-- discovery.go: the search for the project of a directory, upward to the root.
pub mod Laws
use mathlib.Core.List.{reverse}
use lima_jailed_agents.Base.{
  String, Bool, true, false, not, Option, none, some, List, [], ◌∷◌, ◌++◌, FilePath,
}
use lima_jailed_agents.Base.{Result, ok, err, lja, wrap, str, loc, map_error, ◌>>=◌, map}
use lima_jailed_agents.Base.{◌==◌, string_eq, if◌then◌else◌, contains}
use lima_jailed_agents.Host.{Host, FileInfo, Outcome, found, not_exist, failed, is_regular}
use lima_jailed_agents.Path.Policy.{Policy, rejection}
use lima_jailed_agents.Path.Text.{join}

-- What the loop does at one candidate.
pub data Verdict : Type 0 where
  stop : String → Verdict
  marked : Verdict
  go_on : Verdict

-- Whether `.lja.yaml` is a regular file there.
unfoldable pub has_config : FilePath → Outcome FileInfo → Result Bool
has_config path (found info) = ok (is_regular info.kind)
has_config path (not_exist _) = ok false
has_config path (failed e) =
    err (wrap "cannot inspect project configuration %s: %w" (loc path ∷ []) e)

-- `names` is what one call of `limactl list` shows; Go makes it when the first name is needed, and a
-- failure of it is a failure of the search. `vm_name` is `projectVMName`, which may fail.
module _ (policy : Policy) (names : Result (List String)) (vm_name : FilePath → Result String) where
  unfoldable pub has_vm : FilePath → Result Bool
  has_vm candidate = do known ← names; name ← vm_name candidate; ok (contains known name)

  unfoldable pub inspect : FilePath → Result Verdict
  inspect candidate = do
    reason ← rejection policy candidate
    if not (reason == "") then ok (stop reason) else (do
      configured ←
          has_config (join candidate (".lja.yaml" ∷ []))
            (policy.stat (join candidate (".lja.yaml" ∷ [])))
      if configured
          then ok marked
          else (do running ← has_vm candidate; if running then ok marked else ok go_on))

  -- What the loop returns at a candidate above the directory: `rest` is what it would find further up.
  unfoldable pub choose : FilePath → FilePath → Result FilePath → Verdict → Result FilePath
  choose directory candidate rest (stop _) = ok directory
  choose directory candidate rest marked = ok candidate
  choose directory candidate rest go_on = rest

  -- The candidates above the directory, by their names, innermost first; the root has none above it.
  unfoldable pub search_above : FilePath → List String → Result FilePath
  search_above directory [] = inspect [] >>= choose directory [] (ok directory)
  search_above directory (name ∷ back) =
      let rest = search_above directory back in
      inspect (reverse (name ∷ back)) >>= choose directory (reverse (name ∷ back)) rest

  -- What it returns at the directory itself, which must not be rejected.
  unfoldable pub choose_first : FilePath → Result FilePath → Verdict → Result FilePath
  choose_first directory rest (stop reason) = err (lja "%s: %s" (str reason ∷ loc directory ∷ []))
  choose_first directory rest marked = ok directory
  choose_first directory rest go_on = rest

  unfoldable pub search_from : FilePath → List String → Result FilePath
  search_from directory [] = inspect directory >>= choose_first directory (ok directory)
  search_from directory (name ∷ back) =
      let rest = search_above directory back in inspect directory >>= choose_first directory rest

  -- `discover`
  unfoldable pub discover : FilePath → Result FilePath
  discover directory = search_from directory (reverse directory)
