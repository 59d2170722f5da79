-- ===== src/Packages/Quote.antt =====
-- git.go: `shellQuote`, against how a POSIX shell reads one word.
use Prim.Native.Char.{Char, code}
use text.Mathlib.TextEquality.{Char-path}
use Prim.Native.String.{◌++◌ as ◌<>◌}
use lima_jailed_agents.Base.{
  String, Bool, true, false, List, [], ◌∷◌, Option, none, some, ◌≡◌, refl, sym, ap, ◌∙◌,
}
use lima_jailed_agents.Base.{if◌then◌else◌, ◌||◌, arith}
use lima_jailed_agents.Base.Chars.{chars, from_chars, is_char, is_space}

-- `strings.Join`
abbrev pub join_with : String → List String → String
join_with separator [] = ""
join_with separator (s ∷ []) = s
join_with separator (s ∷ rest) = s <> (separator <> join_with separator rest)

-- `strings.ReplaceAll(value, "'", "'\"'\"'")`, and the closing quote
unfoldable pub quote_rest : List Char → List Char
quote_rest [] = "'" ∷ []
quote_rest (c ∷ cs) =
    if is_char b'\'' c then "'" ∷ "\"" ∷ "'" ∷ "\"" ∷ "'" ∷ quote_rest cs else c ∷ quote_rest cs

-- `shellQuote`; the empty value needs no case of its own, `''` is what the quotes alone give
unfoldable pub shell_quote : String → String
unfolding chars from_chars quote_rest
shell_quote value = from_chars ("'" ∷ quote_rest (chars value))

-- Where the reader of a word is.
pub data Quoting : Type 0 where
  bare single double : Quoting

-- Characters that end a bare word or make a shell do more than copy them.
abbrev is_special : Char → Bool
is_special c =
    is_space c
    || is_char b'\\' c
    || is_char b'$' c
    || is_char b'`' c
    || is_char b'&' c
    || is_char b';' c
    || is_char b'|' c
    || is_char b'<' c
    || is_char b'>' c
    || is_char b'(' c
    || is_char b')' c
    || is_char b'*' c
    || is_char b'?' c
    || is_char b'[' c
    || is_char b'#' c
    || is_char b'~' c

abbrev and_then : Char → Option (List Char) → Option (List Char)
and_then c none = none
and_then c (some cs) = some (c ∷ cs)

-- What a POSIX shell takes a text for, when it is one word in which nothing is expanded: within single
-- quotes all is literal, within double quotes all but `$`, the backquote, the backslash and `"`.
unfoldable pub read_word : Quoting → List Char → Option (List Char)
read_word bare [] = some []
read_word bare (c ∷ cs) =
    let in_single = read_word single cs in
    let in_double = read_word double cs in
    let further = read_word bare cs in
    if is_char b'\'' c
    then in_single
    else if is_char b'"' c
    then in_double
    else if is_special c
    then none
    else and_then c further
read_word single [] = none
read_word single (c ∷ cs) =
    let after = read_word bare cs in
    let further = read_word single cs in if is_char b'\'' c then after else and_then c further
read_word double [] = none
read_word double (c ∷ cs) =
    let after = read_word bare cs in
    let further = read_word double cs in
    if is_char b'"' c
    then after
    else if is_char b'\\' c || is_char b'$' c || is_char b'`' c
    then none
    else and_then c further

abbrev pub shell_word : String → Option (List Char)
unfolding read_word chars
shell_word text = read_word bare (chars text)

chars-from_chars : (cs : List Char) → chars (from_chars cs) ≡ cs
unfolding chars from_chars
chars-from_chars [] = refl
chars-from_chars (c ∷ cs) = ap (λ ds. c ∷ ds) (chars-from_chars cs)

is_char-true : (k : Char) (c : Char) → is_char (code k) c ≡ true → c ≡ k
is_char-true k c e = Char-path c k (ground arith)

copied :
    (c : Char) (cs : List Char) (b : Bool)
    → is_char b'\'' c ≡ b
    → read_word single (quote_rest cs) ≡ some cs
    → read_word single
        (if b then "'" ∷ "\"" ∷ "'" ∷ "\"" ∷ "'" ∷ quote_rest cs else c ∷ quote_rest cs)
      ≡ some (c ∷ cs)
unfolding read_word
copied c cs true e h = ap (and_then "'") h ∙ ap (λ d. some (d ∷ cs)) (sym (is_char-true "'" c e))
copied c cs false e h =
    ap
      (λ b.
        if b then read_word bare (quote_rest cs) else and_then c (read_word single (quote_rest cs)))
      e
    ∙ ap (and_then c) h

read_word-quote_rest : (cs : List Char) → read_word single (quote_rest cs) ≡ some cs
unfolding read_word quote_rest
read_word-quote_rest [] = refl
read_word-quote_rest (c ∷ cs) = copied c cs (is_char b'\'' c) refl (read_word-quote_rest cs)

-- A shell reads a quoted value as one word, which is the value: nothing in it is expanded or ends the word,
-- whatever its characters are.
pub shell_word-shell_quote : (value : String) → shell_word (shell_quote value) ≡ some (chars value)
unfolding shell_quote read_word chars
shell_word-shell_quote value =
    ap (read_word single) (chars-from_chars (quote_rest (chars value)))
    ∙ read_word-quote_rest (chars value)
