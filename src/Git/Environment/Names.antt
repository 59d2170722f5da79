-- ===== src/Git/Environment/Names.antt =====
-- The names of entries with different indices, and the values under them after entries are written.
use Prim.Native.Nat.{◌<◌, ◌≤◌, ◌^◌}
use Prim.Native.Char.{Char, code}
use lima_jailed_agents.Base.Chars.{chars, has_nul}
use Prim.Native.String.{◌++◌ as ◌<>◌}
use native.Mathlib.Numerals.{unary_clauses}
use text.Mathlib.TextLemmas.{append_cancel_left, nil-append, cons-append}
use lima_jailed_agents.Base.{
  String, ℕ, zero, suc, ◌+◌, true, false, some, List, [], ◌∷◌, ◌++◌, All, ◌≡◌, ◌≢◌, refl, sym, ap,
  ◌∙◌, arith,
}
use lima_jailed_agents.Git.Environment.{}
use lima_jailed_agents.Base.{ok, string_eq, length}
use lima_jailed_agents.Base.Decimal.{itoa}
use lima_jailed_agents.Base.Decimal.Laws.{itoa-injective}
use lima_jailed_agents.Base.Dict.{Dict, lookup, insert, lookup-insert}
use lima_jailed_agents.Git.Environment.{
  GitConfigEnvironmentEntry, count_env, key_prefix, value_prefix, entry_of, read_entries,
  is_valid_key, write_entries,
}

abbrev pub key_name : ℕ → String
key_name i = key_prefix <> itoa i

abbrev pub value_name : ℕ → String
value_name i = value_prefix <> itoa i

-- The character codes of a text from a place on, as far as three.
abbrev code_at : ℕ → List Char → ℕ
code_at k [] = 0
code_at zero (c ∷ cs) = code c
code_at (suc k) (c ∷ cs) = code_at k cs

chars-append : (s t : String) → chars (s <> t) ≡ chars s ++ chars t
unfolding chars
chars-append String.[] t = ap chars (nil-append t)
chars-append (String.◌∷◌ c s) t =
    ap chars (cons-append c s t) ∙ ap (λ cs. c ∷ cs) (chars-append s t)

-- Texts that begin differently are different.
apart :
    (k : ℕ) (s t u v : String)
    → code_at k (chars s ++ chars u) ≢ code_at k (chars t ++ chars v)
    → s <> u ≢ t <> v
apart k s t u v other p =
    other (ap (code_at k) (sym (chars-append s u) ∙ ap chars p ∙ chars-append t v))

key-ne-value : (s t : String) → key_prefix <> s ≢ value_prefix <> t
unfolding chars
key-ne-value s t = apart 11 key_prefix value_prefix s t (λ e. absurd (omega arith))

pub count-ne-key : (s : String) → count_env ≢ key_prefix <> s
unfolding chars
count-ne-key s = apart 11 count_env key_prefix "" s (λ e. absurd (omega arith))

pub count-ne-value : (s : String) → count_env ≢ value_prefix <> s
unfolding chars
count-ne-value s = apart 11 count_env value_prefix "" s (λ e. absurd (omega arith))

pub lookup-other :
    (name other value : String) (d : Dict String String)
    → name ≢ other
    → lookup name (insert other value d) ≡ lookup name d
lookup-other name other value d h = lookup-insert name other value d ∙ ground (arith, h)

pub lookup-same :
    (name value : String) (d : Dict String String) → lookup name (insert name value d) ≡ some value
lookup-same name value d = lookup-insert name name value d ∙ ground arith

-- The names with indices from `i` on, up to the limit that 20 digits allow, are not the name.
abbrev Outside : String → ℕ → ℕ → Type 0
Outside name i n = (j : ℕ) → i ≤ j → j < i + n → (name ≢ key_name j) × (name ≢ value_name j)

later : (name : String) (i n : ℕ) → Outside name i (suc n) → Outside name (suc i) n
later name i n out j h k = out j (omega arith) (omega arith)

-- The names of other entries keep their values.
pub lookup-write_entries :
    (name : String) (i : ℕ) (entries : List GitConfigEnvironmentEntry) (d : Dict String String)
    → Outside name i (length entries)
    → lookup name (write_entries i entries d) ≡ lookup name d
unfolding write_entries
lookup-write_entries name i [] d out = refl
lookup-write_entries name i (entry ∷ entries) d out =
    let here = out i (omega arith) (omega arith) in
    lookup-write_entries name (suc i) entries _ (later name i (length entries) out)
    ∙ lookup-other name (value_name i) entry.value _ here.1
    ∙ lookup-other name (key_name i) entry.key d here.0

-- Two indices below the limit have different names.
pub key-Outside : (m i n : ℕ) → m < i → i + n ≤ 10 ^ 20 → Outside (key_name m) i n
key-Outside m i n h k j l b = (
  λ p.
      ground (
        arith,
        itoa-injective m j (omega arith) (omega arith) (append_cancel_left key_prefix _ _ p),
      ),
  key-ne-value (itoa m) (itoa j),
)

pub value-Outside : (m i n : ℕ) → m < i → i + n ≤ 10 ^ 20 → Outside (value_name m) i n
value-Outside m i n h k j l b = (
  λ p. key-ne-value (itoa j) (itoa m) (sym p),
  λ p. ground (
    arith,
    itoa-injective m j (omega arith) (omega arith) (append_cancel_left value_prefix _ _ p),
  ),
)

-- Entries with a valid key and no NUL character.
abbrev pub IsEntry : GitConfigEnvironmentEntry → Type 0
IsEntry entry = (is_valid_key entry.key ≡ true) × (has_nul entry.value ≡ false)

entry_of-valid :
    (i : ℕ) (entry : GitConfigEnvironmentEntry)
    → IsEntry entry
    → entry_of i (some entry.key) (some entry.value) ≡ ok entry
unfolding entry_of
entry_of-valid i entry valid = rw valid.0 (rw valid.1 refl)

pub read-write :
    (i : ℕ) (entries : List GitConfigEnvironmentEntry) (d : Dict String String)
    → All IsEntry entries
    → i + length entries ≤ 10 ^ 20
    → read_entries (write_entries i entries d) i (length entries) ≡ ok entries
unfolding read_entries write_entries
read-write i [] d valid fits = refl
read-write i (entry ∷ entries) d valid fits =
    let next = insert (value_name i) entry.value (insert (key_name i) entry.key d) in
    let fits = simp unary_clauses at fits in
    let key =
      lookup-write_entries (key_name i) (suc i) entries next
        (key-Outside i (suc i) (length entries) (omega arith) (omega arith))
      ∙ lookup-other (key_name i) (value_name i) entry.value _ (key-ne-value (itoa i) (itoa i))
      ∙ lookup-same (key_name i) entry.key d in
    let value =
      lookup-write_entries (value_name i) (suc i) entries next
        (value-Outside i (suc i) (length entries) (omega arith) (omega arith))
      ∙ lookup-same (value_name i) entry.value _ in
    rw key (
      rw value (
        rw (entry_of-valid i entry valid.0)
          (rw (read-write (suc i) entries next valid.1 (omega arith)) refl)))
