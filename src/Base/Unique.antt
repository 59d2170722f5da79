-- ===== src/Base/Unique.antt =====
-- `uniqueStrings` of config.go, which agent.go's `normalizeAgentNames` and the trust directories of
-- codex.go and claude.go repeat: the first occurrence of each value, in order.
use lima_jailed_agents.Base.{Bool, true, false, ◌||◌, ◌≡◌, refl, List, [], ◌∷◌, arith}
use lima_jailed_agents.Base.{Eq, contains, if◌then◌else◌}

module _ {ℓ} {A : Type ℓ} ⦃e : Eq A⦄ where
  unfoldable pub unique_from : List A → List A → List A
  unique_from seen [] = []
  unique_from seen (x ∷ xs) =
      let known = unique_from seen xs in
      let fresh = unique_from (x ∷ seen) xs in if contains seen x then known else x ∷ fresh

  unfoldable pub unique : List A → List A
  unfolding unique_from
  unique xs = unique_from [] xs

  abbrev pub has_duplicate : List A → Bool
  has_duplicate [] = false
  has_duplicate (x ∷ xs) = contains xs x || has_duplicate xs

  contains-unique_from :
      (xs seen : List A) (a : A)
      → contains (unique_from seen xs) a ≡ (if contains seen a then false else contains xs a)
  unfolding unique_from
  contains-unique_from [] seen a = ground arith
  contains-unique_from (x ∷ xs) seen a =
      ground (arith, contains-unique_from xs seen a, contains-unique_from xs (x ∷ seen) a)

  -- A value occurs in the result exactly when it occurs in the list.
  pub contains-unique : (xs : List A) (a : A) → contains (unique xs) a ≡ contains xs a
  unfolding unique
  contains-unique xs a = contains-unique_from xs [] a

  has_duplicate-unique_from : (xs seen : List A) → has_duplicate (unique_from seen xs) ≡ false
  unfolding unique_from
  has_duplicate-unique_from [] seen = refl
  has_duplicate-unique_from (x ∷ xs) seen = ground (
    arith,
    has_duplicate-unique_from xs seen,
    has_duplicate-unique_from xs (x ∷ seen),
    contains-unique_from xs (x ∷ seen) x,
  )

  -- No value occurs twice in the result.
  pub has_duplicate-unique : (xs : List A) → has_duplicate (unique xs) ≡ false
  unfolding unique
  has_duplicate-unique xs = has_duplicate-unique_from xs []

  -- None of the values is among those seen.
  abbrev disjoint : List A → List A → Bool
  disjoint seen [] = true
  disjoint seen (x ∷ xs) = if contains seen x then false else disjoint seen xs

  disjoint-cons :
      (x : A) (seen xs : List A)
      → contains xs x ≡ false
      → disjoint seen xs ≡ true
      → disjoint (x ∷ seen) xs ≡ true
  disjoint-cons x seen [] h k = refl
  disjoint-cons x seen (y ∷ ys) h k = ground (arith, disjoint-cons x seen ys)

  unique_from_of_fresh :
      (xs seen : List A)
      → has_duplicate xs ≡ false
      → disjoint seen xs ≡ true
      → unique_from seen xs ≡ xs
  unfolding unique_from
  unique_from_of_fresh [] seen h k = refl
  unique_from_of_fresh (x ∷ xs) seen h k =
      ground (arith, unique_from_of_fresh xs (x ∷ seen), disjoint-cons x seen xs)

  disjoint-nil : (xs : List A) → disjoint [] xs ≡ true
  disjoint-nil [] = refl
  disjoint-nil (x ∷ xs) = disjoint-nil xs

  -- A list without duplicates is left as it is.
  pub unique_of_no_duplicate : (xs : List A) → has_duplicate xs ≡ false → unique xs ≡ xs
  unfolding unique
  unique_of_no_duplicate xs h = unique_from_of_fresh xs [] h (disjoint-nil xs)

  pub unique-unique : (xs : List A) → unique (unique xs) ≡ unique xs
  unique-unique xs = unique_of_no_duplicate (unique xs) (has_duplicate-unique xs)
