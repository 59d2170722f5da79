-- ===== src/Discovery/Laws.antt =====
-- What the search finds: the nearest marked directory below the first one that it must not enter.
use mathlib.Core.Path.{subst}
use mathlib.Core.List.{reverse, reverse-reverse}
use lima_jailed_agents.Base.{String, ◌≡◌, ◌≢◌, sym, ap, ◌∙◌, List, [], ◌∷◌, FilePath}
use lima_jailed_agents.Base.{Result, ok, >>=-eq_ok, arith, ◌⊎◌, inl, inr, string_eq}
use lima_jailed_agents.Path.Policy.{Policy, rejection}
use lima_jailed_agents.Discovery.{
  Verdict, stop, marked, go_on, inspect, search_above, search_from, discover, choose, choose_first,
}

module _ (policy : Policy) (names : Result (List String)) (vm_name : FilePath → Result String) where
  abbrev Sees : FilePath → Verdict → Type 0
  Sees directory v = inspect policy names vm_name directory ≡ ok v

  -- The way up from a directory, its names innermost first, over directories that are accepted and have
  -- no marker, to a marked one.
  pub data Climb : List String → FilePath → Type 0 where
    here :
        {back : List String} {project : FilePath}
        → project ≡ reverse back
        → Sees project marked
        → Climb back project
    up :
        {name : String} {back : List String} {project : FilePath}
        → Sees (reverse (name ∷ back)) go_on
        → Climb back project
        → Climb (name ∷ back) project

  -- The way up to the first directory that is rejected, or to the root, with no marker before it.
  pub data Unmarked : List String → Type 0 where
    root : Sees [] go_on → Unmarked []
    refused :
        {back : List String} (reason : String) → Sees (reverse back) (stop reason) → Unmarked back
    above :
        {name : String} {back : List String}
        → Sees (reverse (name ∷ back)) go_on
        → Unmarked back
        → Unmarked (name ∷ back)

  abbrev Ends : FilePath → List String → FilePath → Type 0
  Ends directory back project = Climb back project ⊎ (Unmarked back × (project ≡ directory))

  choose_cases :
      (directory : FilePath) (back : List String) (v : Verdict) {rest : Result FilePath}
      {project : FilePath}
      → Sees (reverse back) v
      → (Sees (reverse back) go_on → rest ≡ ok project → Ends directory back project)
      → choose policy names vm_name directory (reverse back) rest v ≡ ok project
      → Ends directory back project
  unfolding choose
  choose_cases directory back (stop reason) seen next e = inr (refused reason seen, cc)
  choose_cases directory back marked {project} seen next e = inl (
      let same : project ≡ reverse back = cc in
      here same (subst (λ p. Sees p marked) (sym same) seen))
  choose_cases directory back go_on seen next e = next seen e

  search_above_cases :
      (directory : FilePath) (back : List String) {project : FilePath}
      → search_above policy names vm_name directory back ≡ ok project
      → Ends directory back project
  unfolding search_above
  search_above_cases directory [] e =
      let (v, seen, k) = >>=-eq_ok (inspect policy names vm_name []) _ e in
      choose_cases directory [] v seen (λ on same. inr (root on, cc)) k
  search_above_cases directory (name ∷ back) e =
      let (v, seen, k) = >>=-eq_ok (inspect policy names vm_name (reverse (name ∷ back))) _ e in
      choose_cases directory (name ∷ back) v seen
        (λ on same. climb on (search_above_cases directory back same)) k
    where
      climb :
          {project : FilePath}
          → Sees (reverse (name ∷ back)) go_on
          → Ends directory back project
          → Ends directory (name ∷ back) project
      climb on (inl c) = inl (up on c)
      climb on (inr (u, same)) = inr (above on u, same)

  choose_first_cases :
      (directory : FilePath) (back : List String) (v : Verdict) {rest : Result FilePath}
      {project : FilePath}
      → directory ≡ reverse back
      → Sees directory v
      → (Sees (reverse back) go_on → rest ≡ ok project → Ends directory back project)
      → choose_first policy names vm_name directory rest v ≡ ok project
      → Ends directory back project
  unfolding choose_first
  choose_first_cases directory back (stop reason) d seen next e = cc
  choose_first_cases directory back marked {project} d seen next e = inl (
      let same : project ≡ directory = cc in
      here (same ∙ d) (subst (λ p. Sees p marked) (sym same) seen))
  choose_first_cases directory back go_on d seen next e = next (subst (λ p. Sees p go_on) d seen) e

  search_from_cases :
      (directory : FilePath) (back : List String) {project : FilePath}
      → directory ≡ reverse back
      → search_from policy names vm_name directory back ≡ ok project
      → Ends directory back project
  unfolding search_from
  search_from_cases directory [] d e =
      let (v, seen, k) = >>=-eq_ok (inspect policy names vm_name directory) _ e in
      choose_first_cases directory [] v d seen (λ on same. inr (root on, cc)) k
  search_from_cases directory (name ∷ back) d e =
      let (v, seen, k) = >>=-eq_ok (inspect policy names vm_name directory) _ e in
      choose_first_cases directory (name ∷ back) v d seen
        (λ on same. climb on (search_above_cases directory back same)) k
    where
      climb :
          {project : FilePath}
          → Sees (reverse (name ∷ back)) go_on
          → Ends directory back project
          → Ends directory (name ∷ back) project
      climb on (inl c) = inl (up on c)
      climb on (inr (u, same)) = inr (above on u, same)

  -- A search that succeeds has found the nearest marked directory on the way up, over accepted ones; or
  -- there is none before the first rejected directory or the root, and it returns where it began.
  pub discover_cases :
      (directory : FilePath) {project : FilePath}
      → discover policy names vm_name directory ≡ ok project
      → Climb (reverse directory) project ⊎ (Unmarked (reverse directory) × (project ≡ directory))
  unfolding discover
  discover_cases directory e =
      search_from_cases directory (reverse directory) (sym (reverse-reverse directory)) e

  search_above-Climb :
      (directory : FilePath) (back : List String) {project : FilePath}
      → Climb back project
      → search_above policy names vm_name directory back ≡ ok project
  unfolding search_above choose
  search_above-Climb directory [] (here same seen) =
      rw (subst (λ p. Sees p marked) same seen) (ap ok (sym same))
  search_above-Climb directory (name ∷ back) (here same seen) =
      rw (subst (λ p. Sees p marked) same seen) (ap ok (sym same))
  search_above-Climb directory (name ∷ back) (up on c) = rw on (search_above-Climb directory back c)

  search_from-Climb :
      (directory : FilePath) (back : List String) {project : FilePath}
      → directory ≡ reverse back
      → Climb back project
      → search_from policy names vm_name directory back ≡ ok project
  unfolding search_from choose_first
  search_from-Climb directory [] d (here same seen) =
      rw (subst (λ p. Sees p marked) (same ∙ sym d) seen) (ap ok (d ∙ sym same))
  search_from-Climb directory (name ∷ back) d (here same seen) =
      rw (subst (λ p. Sees p marked) (same ∙ sym d) seen) (ap ok (d ∙ sym same))
  search_from-Climb directory (name ∷ back) d (up on c) =
      rw (subst (λ p. Sees p go_on) (sym d) on) (search_above-Climb directory back c)

  -- The nearest marked directory on the way up is what the search returns.
  pub discover-Climb :
      (directory : FilePath) {project : FilePath}
      → Climb (reverse directory) project
      → discover policy names vm_name directory ≡ ok project
  unfolding discover
  discover-Climb directory c =
      search_from-Climb directory (reverse directory) (sym (reverse-reverse directory)) c

  -- A directory at which the search does not stop is one that the policy accepts.
  inspect_accepts :
      (directory : FilePath) (v : Verdict)
      → Sees directory v
      → ((reason : String) → v ≢ stop reason)
      → rejection policy directory ≡ ok ""
  unfolding inspect
  inspect_accepts directory v seen other =
      let (reason, e, k) = >>=-eq_ok (rejection policy directory) _ seen in
      elim (string_eq.dec reason "") [
        | yes empty ↦ e ∙ ap ok empty
        | no given ↦ absurd (other reason (ground arith))
      ]

  search_from_accepts :
      (directory : FilePath) (back : List String) {project : FilePath}
      → search_from policy names vm_name directory back ≡ ok project
      → rejection policy directory ≡ ok ""
  unfolding search_from choose_first
  search_from_accepts directory [] e =
      let (v, seen, k) = >>=-eq_ok (inspect policy names vm_name directory) _ e in
      inspect_accepts directory v seen (λ reason same. ground arith)
  search_from_accepts directory (name ∷ back) e =
      let (v, seen, k) = >>=-eq_ok (inspect policy names vm_name directory) _ e in
      inspect_accepts directory v seen (λ reason same. ground arith)

  Climb-accepts :
      {back : List String} {project : FilePath}
      → Climb back project
      → rejection policy project ≡ ok ""
  Climb-accepts (here {project = project} same seen) =
      inspect_accepts project marked seen (λ reason e. cc)
  Climb-accepts (up on c) = Climb-accepts c

  -- Neither the directory where a successful search began nor the project that it returns is one that
  -- the policy rejects.
  pub discover_accepts :
      (directory : FilePath) {project : FilePath}
      → discover policy names vm_name directory ≡ ok project
      → (rejection policy directory ≡ ok "") × (rejection policy project ≡ ok "")
  unfolding discover
  discover_accepts directory {project} e =
      let start = search_from_accepts directory (reverse directory) e in
      (start, ends start (discover_cases directory e))
    where
      ends :
          rejection policy directory ≡ ok ""
          → Ends directory (reverse directory) project
          → rejection policy project ≡ ok ""
      ends start (inl c) = Climb-accepts c
      ends start (inr (u, same)) = subst (λ p. rejection policy p ≡ ok "") (sym same) start
