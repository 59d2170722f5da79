-- ===== src/Base/Chars.antt =====
-- Texts as lists of characters: `strings.TrimSpace`, the tests on characters, and the patterns of
-- config.go and packages.go as matchers.
use Prim.Native.Char.{Char, code}
use lima_jailed_agents.Base.{
  String, ℕ, Bool, true, false, ◌&&◌, ◌||◌, List, [], ◌∷◌, leb, nat_eq, if◌then◌else◌,
}

unfoldable pub chars : String → List Char
chars String.[] = []
chars (String.◌∷◌ c s) = c ∷ chars s

unfoldable pub from_chars : List Char → String
from_chars [] = ""
from_chars (c ∷ cs) = String.◌∷◌ c (from_chars cs)

abbrev within : ℕ → ℕ → Char → Bool
within lo hi c = leb lo (code c) && leb (code c) hi

abbrev pub is_char : ℕ → Char → Bool
is_char k c = nat_eq (code c) k

-- `unicode.IsSpace`
abbrev pub is_space : Char → Bool
is_space c =
    within 9 13 c
    || is_char 32 c
    || is_char 0x85 c
    || is_char 0xa0 c
    || is_char 0x1680 c
    || within 0x2000 0x200a c
    || within 0x2028 0x2029 c
    || is_char 0x202f c
    || is_char 0x205f c
    || is_char 0x3000 c

-- `unicode.IsControl`
abbrev pub is_control : Char → Bool
is_control c = within 0 31 c || within 127 159 c

abbrev pub is_lower : Char → Bool
is_lower c = within b'a' b'z' c

abbrev pub is_upper : Char → Bool
is_upper c = within b'A' b'Z' c

abbrev pub is_digit : Char → Bool
is_digit c = within b'0' b'9' c

pub trim_left_space : List Char → List Char
trim_left_space [] = []
trim_left_space (c ∷ cs) = if is_space c then trim_left_space cs else c ∷ cs

keep : Char → List Char → List Char
keep c [] = if is_space c then [] else c ∷ []
keep c (d ∷ ds) = c ∷ d ∷ ds

pub trim_right_space : List Char → List Char
trim_right_space [] = []
trim_right_space (c ∷ cs) = keep c (trim_right_space cs)

-- `strings.TrimSpace`
unfoldable pub trim_space : String → String
unfolding trim_left_space trim_right_space keep chars from_chars
trim_space s = from_chars (trim_right_space (trim_left_space (chars s)))

abbrev pub all_chars : (Char → Bool) → List Char → Bool
all_chars p [] = true
all_chars p (c ∷ cs) = p c && all_chars p cs

abbrev pub any_char : (Char → Bool) → List Char → Bool
any_char p [] = false
any_char p (c ∷ cs) = p c || any_char p cs

-- `strings.IndexByte(value, 0) >= 0`
unfoldable pub has_nul : String → Bool
unfolding chars
has_nul s = any_char (is_char 0) (chars s)

abbrev is_name_start : Char → Bool
is_name_start c = is_upper c || is_lower c || is_char b'_' c

is_name_chars : List Char → Bool
is_name_chars [] = false
is_name_chars (c ∷ cs) = is_name_start c && all_chars (λ d. is_name_start d || is_digit d) cs

-- `^[A-Za-z_][A-Za-z0-9_]*$`
unfoldable pub is_environment_name : String → Bool
unfolding is_name_chars chars
is_environment_name s = is_name_chars (chars s)
