-- ===== src/Base/Decimal/Laws.antt =====
-- The digits of `strconv.Itoa` and the bound of `strconv.Atoi`.
use Prim.Native.Char.{Char, code}
use Prim.Native.Nat.{◌*◌, ◌/◌, ◌%◌, ◌^◌, ◌<◌}
use lima_jailed_agents.Base.{
  String, ℕ, zero, suc, ◌+◌, ◌-◌, Option, some, List, [], ◌∷◌, ◌≡◌, refl, sym, ap, ◌∙◌, arith,
  Bool-cases, inl, inr, true,
}
use native.Mathlib.Numerals.{unary_clauses}
use lima_jailed_agents.Base.{ltb}
use lima_jailed_agents.Base.Chars.{chars, from_chars, is_digit}
use lima_jailed_agents.Base.Decimal.{digit, digits_onto, itoa, digits_value, atoi, int_limit}

digit_facts : (n : ℕ) → n < 10 → (is_digit (digit n) ≡ true) × (code (digit n) - b'0' ≡ n)
unfolding digit
digit_facts zero h = (refl, refl)
digit_facts (suc zero) h = (refl, refl)
digit_facts (suc (suc zero)) h = (refl, refl)
digit_facts (suc (suc (suc zero))) h = (refl, refl)
digit_facts (suc (suc (suc (suc zero)))) h = (refl, refl)
digit_facts (suc (suc (suc (suc (suc zero))))) h = (refl, refl)
digit_facts (suc (suc (suc (suc (suc (suc zero)))))) h = (refl, refl)
digit_facts (suc (suc (suc (suc (suc (suc (suc zero))))))) h = (refl, refl)
digit_facts (suc (suc (suc (suc (suc (suc (suc (suc zero)))))))) h = (refl, refl)
digit_facts (suc (suc (suc (suc (suc (suc (suc (suc (suc zero))))))))) h = (refl, refl)
digit_facts (suc (suc (suc (suc (suc (suc (suc (suc (suc (suc n)))))))))) h = absurd (omega arith)

digits_value-digit :
    (acc n : ℕ) (out : List Char)
    → n < 10
    → digits_value acc (digit n ∷ out) ≡ digits_value (acc * 10 + n) out
unfolding digits_value
digits_value-digit acc n out h =
    rw (digit_facts n h).0 (ap (λ k. digits_value (acc * 10 + k) out) (digit_facts n h).1)

digits_value-digits_onto :
    (fuel n : ℕ) (out : List Char)
    → n < 10 ^ fuel
    → digits_value 0 (digits_onto fuel n out) ≡ digits_value n out
unfolding digits_onto
digits_value-digits_onto zero n out h = ap (λ k. digits_value k out) (omega arith)
digits_value-digits_onto (suc fuel) n out h = elim (Bool-cases (ltb n 10)) [
  | inl small ↦
      rw small
        (digits_value-digit 0 n out (ground arith) ∙ ap (λ k. digits_value k out) (omega arith))
  | inr big ↦ rw big (
      digits_value-digits_onto fuel (n / 10) (digit (n % 10) ∷ out)
        (let g = simp unary_clauses at h in omega arith)
      ∙ digits_value-digit (n / 10) (n % 10) out (omega arith)
      ∙ ap (λ k. digits_value k out) (omega arith))
]

chars-from_chars : (cs : List Char) → chars (from_chars cs) ≡ cs
unfolding chars from_chars
chars-from_chars [] = refl
chars-from_chars (c ∷ cs) = ap (λ ds. c ∷ ds) (chars-from_chars cs)

some-injective : {m n : ℕ} → ◌≡◌ {A = Option ℕ} (some m) (some n) → m ≡ n
some-injective p = cc

pub itoa-injective : (m n : ℕ) → m < 10 ^ 20 → n < 10 ^ 20 → itoa m ≡ itoa n → m ≡ n
unfolding itoa digits_value
itoa-injective m n hm hn p =
    let same = sym (chars-from_chars _) ∙ ap chars p ∙ chars-from_chars _ in
    some-injective (
      sym (digits_value-digits_onto 20 m [] hm)
      ∙ ap (digits_value 0) same
      ∙ digits_value-digits_onto 20 n [] hn)

pub atoi-bound : (s : String) (n : ℕ) → atoi s ≡ some n → n < int_limit
unfolding atoi
atoi-bound s n p = ground arith
