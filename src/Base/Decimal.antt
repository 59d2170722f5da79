-- ===== src/Base/Decimal.antt =====
-- `strconv.Itoa` and `strconv.Atoi` for numbers that are not negative, in the range of a 64-bit `int`.
pub mod Laws
use Prim.Native.Char.{Char, code}
use Prim.Native.Nat.{◌*◌, ◌/◌, ◌%◌, ◌^◌}
use lima_jailed_agents.Base.{String, ℕ, zero, suc, ◌+◌, ◌-◌, Option, none, some, List, [], ◌∷◌}
use lima_jailed_agents.Base.{ltb, nat_eq, if◌then◌else◌}
use lima_jailed_agents.Base.Chars.{chars, from_chars, is_digit, is_char}

-- The digit of a number below ten.
unfoldable pub digit : ℕ → Char
digit n =
    if nat_eq n 0
    then "0"
    else if nat_eq n 1
    then "1"
    else if nat_eq n 2
    then "2"
    else if nat_eq n 3
    then "3"
    else if nat_eq n 4
    then "4"
    else if nat_eq n 5
    then "5"
    else if nat_eq n 6
    then "6"
    else if nat_eq n 7
    then "7"
    else if nat_eq n 8
    then "8"
    else "9"

-- The digits of a number in front of others; a number below ten to the power of the fuel needs no more.
unfoldable pub digits_onto : ℕ → ℕ → List Char → List Char
unfolding digit
digits_onto zero n out = out
digits_onto (suc fuel) n out =
    let rest = digits_onto fuel (n / 10) (digit (n % 10) ∷ out) in
    if ltb n 10 then digit n ∷ out else rest

-- 20 digits hold every 64-bit number.
unfoldable pub itoa : ℕ → String
unfolding digits_onto from_chars
itoa n = from_chars (digits_onto 20 n [])

-- The number that digits spell behind another, if all are digits.
unfoldable pub digits_value : ℕ → List Char → Option ℕ
digits_value n [] = some n
digits_value n (c ∷ cs) =
    let rest = digits_value (n * 10 + (code c - b'0')) cs in if is_digit c then rest else none

abbrev pub int_limit : ℕ
int_limit = 2 ^ 63

in_range : Option ℕ → Option ℕ
in_range none = none
in_range (some n) = if ltb n int_limit then some n else none

zero_only : Option ℕ → Option ℕ
zero_only none = none
zero_only (some n) = if nat_eq n 0 then some 0 else none

unsigned : List Char → Option ℕ
unfolding digits_value
unsigned [] = none
unsigned (c ∷ cs) = digits_value 0 (c ∷ cs)

atoi_chars : List Char → Option ℕ
unfolding unsigned in_range zero_only
atoi_chars [] = none
atoi_chars (c ∷ cs) =
    if is_char b'-' c
    then zero_only (unsigned cs)
    else if is_char b'+' c
    then in_range (unsigned cs)
    else in_range (unsigned (c ∷ cs))

-- `strconv.Atoi`, where the result is not negative
unfoldable pub atoi : String → Option ℕ
unfolding atoi_chars chars unsigned in_range zero_only digits_value
atoi s = atoi_chars (chars s)
