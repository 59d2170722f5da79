-- ===== src/Git/Environment/Laws.antt =====
-- What is read in the environment that `githubGitEnvironment` makes.
use Prim.Native.Nat.{◌<◌, ◌≤◌, ◌^◌}
use lima_jailed_agents.Base.Chars.{chars, has_nul}
use lima_jailed_agents.Base.{
  String, ℕ, zero, suc, ◌+◌, Option, none, some, List, [], ◌++◌, All, ◌≡◌, refl, sym, ap, ◌∙◌,
  arith, Bool-cases, inl, inr,
}
use mathlib.Core.Path.{subst}
use lima_jailed_agents.Base.{string_discrete, ◌&&◌, Error}
use lima_jailed_agents.Git.Environment.{
  check_below, outside_key, outside_value, is_nil, parse_names,
}
use lima_jailed_agents.Base.{Result, ok, err, >>=-eq_ok, ok-injective, string_eq, ltb, length}
use lima_jailed_agents.Base.Decimal.{itoa, atoi, int_limit}
use lima_jailed_agents.Base.Decimal.Laws.{atoi-bound}
use lima_jailed_agents.Base.Dict.{Dict, lookup, insert}
use lima_jailed_agents.Git.Environment.{
  GitConfigEnvironmentEntry, count_env, key_prefix, value_prefix, entry_of, read_entries,
  is_valid_key, entries_for, counted, parse_git_config_environment, managed_entries, write_entries,
  github_git_environment,
}
use lima_jailed_agents.Git.Environment.Names.{
  key_name, value_name, count-ne-key, count-ne-value, lookup-other, lookup-same,
  lookup-write_entries, key-Outside, value-Outside, IsEntry, read-write,
}

-- Two environments with the same values under the names with some indices.
abbrev Agree : Dict String String → Dict String String → ℕ → ℕ → Type 0
Agree d e i n =
    (j : ℕ)
    → i ≤ j
    → j < i + n
    → (lookup (key_name j) e ≡ lookup (key_name j) d)
      × (lookup (value_name j) e ≡ lookup (value_name j) d)

read-Agree :
    (d e : Dict String String) (i n : ℕ) → Agree d e i n → read_entries e i n ≡ read_entries d i n
unfolding read_entries
read-Agree d e i zero h = refl
read-Agree d e i (suc n) h =
    let here = h i (omega arith) (omega arith) in
    rw here.0
      (rw here.1 (rw (read-Agree d e (suc i) n (λ j l b. h j (omega arith) (omega arith))) refl))

suc-append : (m n : ℕ) → suc (m + n) ≡ suc m + n
suc-append m n = omega arith

read-append :
    (d : Dict String String) (i m n : ℕ) (xs ys : List GitConfigEnvironmentEntry)
    → read_entries d i m ≡ ok xs
    → read_entries d (i + m) n ≡ ok ys
    → read_entries d i (m + n) ≡ ok (xs ++ ys)
unfolding read_entries
read-append d i zero n xs ys p q =
    ap (read_entries d i) (omega arith)
    ∙ ap (λ k. read_entries d k n) (omega arith)
    ∙ q
    ∙ ap (λ zs. ok (zs ++ ys)) (ok-injective p)
read-append d i (suc m) n xs ys p q =
    let (entry, e, k) = >>=-eq_ok (entry_of i _ _) _ p in
    let (rest, r, j) = >>=-eq_ok (read_entries d (suc i) m) _ k in
    let others =
      read-append d (suc i) m n rest ys r (ap (λ k. read_entries d k n) (omega arith) ∙ q) in
    subst (λ k. read_entries d i k ≡ ok (xs ++ ys)) (suc-append m n)
      (rw e (rw others (ap (λ zs. ok (zs ++ ys)) (ok-injective j))))

read-length :
    (d : Dict String String) (i n : ℕ) (entries : List GitConfigEnvironmentEntry)
    → read_entries d i n ≡ ok entries
    → length entries ≡ n
unfolding read_entries
read-length d i zero entries p = sym (ap length (ok-injective p))
read-length d i (suc n) entries p =
    let (entry, e, k) = >>=-eq_ok (entry_of i _ _) _ p in
    let (rest, r, j) = >>=-eq_ok (read_entries d (suc i) n) _ k in
    sym (ap length (ok-injective j)) ∙ ap suc (read-length d (suc i) n rest r)

-- What is read for a count are as many entries, fewer than the limit of an `int`.
abbrev IsRead : Dict String String → List GitConfigEnvironmentEntry → Type 0
IsRead d entries = (length entries < int_limit) × (read_entries d 0 (length entries) ≡ ok entries)

counted-IsRead :
    (d : Dict String String) (keys values : List ℕ) (s : String) (o : Option ℕ)
    (entries : List GitConfigEnvironmentEntry)
    → atoi s ≡ o
    → counted d keys values o ≡ ok entries
    → IsRead d entries
unfolding counted
counted-IsRead d keys values s none entries a p = absurd (cc)
counted-IsRead d keys values s (some n) entries a p = elim (Bool-cases (ltb (length d) n)) [
  | inl more ↦ absurd (impossible (rw more at p))
  | inr fits ↦
      let (u, below, k) = >>=-eq_ok (check_below outside_key n keys) _ (rw fits at p) in
      let (v, under, j) = >>=-eq_ok (check_below outside_value n values) _ k in
      let same = read-length d 0 n entries j in
      (rw same (atoi-bound s n a), ap (read_entries d 0) same ∙ j)
]
  where
    impossible :
        {e : Error} → ◌≡◌ {A = Result (List GitConfigEnvironmentEntry)} (err e) (ok entries) → ⊥
    impossible q = cc

entries_for-IsRead :
    (d : Dict String String) (keys values : List ℕ) (o : Option String)
    (entries : List GitConfigEnvironmentEntry)
    → entries_for d keys values o ≡ ok entries
    → IsRead d entries
unfolding entries_for read_entries
entries_for-IsRead d keys values none entries p = elim (Bool-cases (is_nil keys && is_nil values)) [
  | inl empty ↦ subst (IsRead d) (ok-injective (rw empty at p)) (omega arith, refl)
  | inr some_left ↦ absurd (impossible (rw some_left at p))
]
  where
    impossible :
        {e : Error} → ◌≡◌ {A = Result (List GitConfigEnvironmentEntry)} (err e) (ok entries) → ⊥
    impossible q = cc
entries_for-IsRead d keys values (some count) entries p =
    counted-IsRead d keys values count (atoi count) entries refl p

parse-IsRead :
    (d : Dict String String) (entries : List GitConfigEnvironmentEntry)
    → parse_git_config_environment d ≡ ok entries
    → IsRead d entries
unfolding parse_git_config_environment
parse-IsRead d entries p =
    let (keys, a, k) = >>=-eq_ok (parse_names key_prefix d []) _ p in
    let (values, b, j) = >>=-eq_ok (parse_names value_prefix d []) _ k in
    entries_for-IsRead d keys values (lookup count_env d) entries j

managed-IsEntry : All IsEntry managed_entries
unfolding is_valid_key has_nul chars string_eq string_discrete
managed-IsEntry = ((refl, refl), ((refl, refl), ((refl, refl), ((refl, refl), tt))))

count-Agree :
    (d : Dict String String) (count : String) (n : ℕ) → Agree d (insert count_env count d) 0 n
count-Agree d count n j l b = (
  lookup-other (key_name j) count_env count d (λ e. count-ne-key (itoa j) (sym e)),
  lookup-other (value_name j) count_env count d (λ e. count-ne-value (itoa j) (sym e)),
)

write-Agree :
    (d : Dict String String) (n : ℕ) (entries : List GitConfigEnvironmentEntry)
    → n + length entries ≤ 10 ^ 20
    → Agree d (write_entries n entries d) 0 n
write-Agree d n entries fits j l b = (
  lookup-write_entries (key_name j) n entries d
      (key-Outside j n (length entries) (omega arith) fits),
  lookup-write_entries (value_name j) n entries d
      (value-Outside j n (length entries) (omega arith) fits),
)

-- When the environment for GitHub is made, the environment that is given is parsed, and Git reads from the
-- new one under its count the parsed entries, in their order, and behind them the ones for GitHub.
pub github_git_environment-read :
    (d : Dict String String) {updated : Dict String String}
    → github_git_environment d ≡ ok updated
    → (entries : List GitConfigEnvironmentEntry) × (parse_git_config_environment d ≡ ok entries)
      × (lookup count_env updated ≡ some (itoa (length entries + length managed_entries)))
      × (read_entries updated 0 (length entries + length managed_entries)
          ≡ ok (entries ++ managed_entries))
unfolding github_git_environment
github_git_environment-read d {updated} p =
    let (entries, parsed, made) = >>=-eq_ok (parse_git_config_environment d) _ p in
    let read = parse-IsRead d entries parsed in
    let n = length entries in
    (
      entries,
      parsed,
      ap (lookup count_env) (sym (ok-injective made)) ∙ lookup-same count_env _ _,
      ap (λ e. read_entries e 0 (n + 4)) (sym (ok-injective made))
          ∙ read-Agree _ _ 0 (n + 4) (count-Agree _ _ (n + 4))
          ∙ read-append _ 0 n 4 entries managed_entries
              (read-Agree d _ 0 n (write-Agree d n managed_entries (omega arith)) ∙ read.1)
              (ap (λ k. read_entries (write_entries n managed_entries d) k 4) (omega arith)
                ∙ read-write n managed_entries d managed-IsEntry (omega arith)),
    )
