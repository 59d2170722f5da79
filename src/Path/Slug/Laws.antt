-- ===== src/Path/Slug/Laws.antt =====
-- The slug of any project name, whatever its characters, is a valid part of a VM name.
use Prim.Native.Char.{Char}
use lima_jailed_agents.Base.{
  Bool, true, false, ◌≡◌, ◌≢◌, List, [], ◌∷◌, map, FilePath, ℕ, ◌≤◌, ◌⊎◌, arith,
}
use lima_jailed_agents.Base.{length, All, All-take, length-take, take, ◌||◌, zero, suc}
use lima_jailed_agents.Path.Slug.{
  is_dash, is_slug_char, slug_loop, trim_left, trim_dashes, or_default,
}
use lima_jailed_agents.Path.Slug.{trim_right, project_slug, vm_slug_max_length, dash}
use lima_jailed_agents.Base.Chars.{chars}
use lima_jailed_agents.Path.Text.{base}

abbrev IsVmChar : Char → Type 0
IsVmChar c = is_slug_char c || is_dash c ≡ true

-- No two dashes stand side by side.
abbrev IsSpaced : List Char → Type 0
IsSpaced [] = Unit
IsSpaced (c ∷ []) = Unit
IsSpaced (c ∷ d ∷ cs) = ((is_dash c ≡ false) ⊎ (is_dash d ≡ false)) × IsSpaced (d ∷ cs)

abbrev HeadFree : List Char → Type 0
HeadFree [] = Unit
HeadFree (c ∷ cs) = is_dash c ≡ false

abbrev LastFree : List Char → Type 0
LastFree [] = Unit
LastFree (c ∷ []) = is_dash c ≡ false
LastFree (c ∷ d ∷ cs) = LastFree (d ∷ cs)

pub record IsSlug (s : List Char) : Type 0 where
  pub not_empty : s ≢ []
  pub short : length s ≤ vm_slug_max_length
  pub allowed : All IsVmChar s
  pub starts : HeadFree s
  pub ends : LastFree s
  pub spaced : IsSpaced s

slug_loop-allowed : (b : Bool) (cs : List Char) → All IsVmChar (slug_loop b cs)
unfolding slug_loop
slug_loop-allowed b [] = tt
slug_loop-allowed b (c ∷ cs) = ground (arith, slug_loop-allowed false cs, slug_loop-allowed true cs)

-- After a dash the loop goes on with none.
slug_loop-head : (cs : List Char) → HeadFree (slug_loop true cs)
unfolding slug_loop
slug_loop-head [] = tt
slug_loop-head (c ∷ cs) = ground (arith, slug_loop-head cs)

IsSpaced-cons :
    (c : Char) (cs : List Char)
    → (is_dash c ≡ false) ⊎ HeadFree cs
    → IsSpaced cs
    → IsSpaced (c ∷ cs)
IsSpaced-cons c [] h s = tt
IsSpaced-cons c (d ∷ cs) h s = (h, s)

slug_loop-IsSpaced : (b : Bool) (cs : List Char) → IsSpaced (slug_loop b cs)
unfolding slug_loop
slug_loop-IsSpaced b [] = tt
slug_loop-IsSpaced b (c ∷ cs) = ground (
  arith,
  IsSpaced-cons c (slug_loop false cs),
  IsSpaced-cons dash (slug_loop true cs),
  slug_loop-head cs,
  slug_loop-IsSpaced false cs,
  slug_loop-IsSpaced true cs,
)

-- What a trim keeps of a text.
record Kept (s t : List Char) : Type 0 where
  length-le : length t ≤ length s
  allowed : All IsVmChar s → All IsVmChar t
  spaced : IsSpaced s → IsSpaced t

IsSpaced-tail : (c : Char) (cs : List Char) → IsSpaced (c ∷ cs) → IsSpaced cs
IsSpaced-tail c [] h = tt
IsSpaced-tail c (d ∷ cs) h = h.1

trim_left-Kept : (s : List Char) → Kept s (trim_left s)
unfolding trim_left
trim_left-Kept [] = record { length-le = omega arith; allowed = λ h. h; spaced = λ h. h }
trim_left-Kept (c ∷ cs) = record {
  length-le = ground (arith, (trim_left-Kept cs).length-le);
  allowed = λ h. ground (arith, (trim_left-Kept cs).allowed h.1);
  spaced = λ h. ground (arith, (trim_left-Kept cs).spaced (IsSpaced-tail c cs h));
}

trim_left-starts : (s : List Char) → HeadFree (trim_left s)
unfolding trim_left
trim_left-starts [] = tt
trim_left-starts (c ∷ cs) = ground (arith, trim_left-starts cs)

trim_right-IsSpaced : (s : List Char) → IsSpaced s → IsSpaced (trim_right s)
unfolding trim_right
trim_right-IsSpaced [] h = tt
trim_right-IsSpaced (c ∷ []) h = ground arith
trim_right-IsSpaced (c ∷ d ∷ cs) h = ground (arith, trim_right-IsSpaced (d ∷ cs) h.1)

trim_right-length : (s : List Char) → length (trim_right s) ≤ length s
unfolding trim_right
trim_right-length [] = omega arith
trim_right-length (c ∷ cs) = ground (arith, trim_right-length cs)

trim_right-allowed : (s : List Char) → All IsVmChar s → All IsVmChar (trim_right s)
unfolding trim_right
trim_right-allowed [] h = tt
trim_right-allowed (c ∷ cs) h = ground (arith, trim_right-allowed cs h.1, h.0)

trim_right-starts : (s : List Char) → HeadFree s → HeadFree (trim_right s)
unfolding trim_right
trim_right-starts [] h = tt
trim_right-starts (c ∷ cs) h = ground arith

trim_right-ends : (s : List Char) → LastFree (trim_right s)
unfolding trim_right
trim_right-ends [] = tt
trim_right-ends (c ∷ cs) = ground (arith, trim_right-ends cs)

or_default-IsSlug :
    (s : List Char)
    → length s ≤ vm_slug_max_length
    → All IsVmChar s
    → HeadFree s
    → LastFree s
    → IsSpaced s
    → IsSlug (or_default s)
unfolding or_default
or_default-IsSlug [] _ _ _ _ _ = record {
  not_empty = λ e. cc;
  short = omega arith;
  allowed = ground arith;
  starts = ground arith;
  ends = ground arith;
  spaced = ground arith;
}
or_default-IsSlug (c ∷ cs) short allowed starts ends spaced = record {
  not_empty = λ e. cc;
  short = short;
  allowed = allowed;
  starts = starts;
  ends = ends;
  spaced = spaced;
}

IsSpaced-take : (n : ℕ) (s : List Char) → IsSpaced s → IsSpaced (take n s)
IsSpaced-take zero s h = tt
IsSpaced-take (suc n) [] h = tt
IsSpaced-take (suc zero) (c ∷ cs) h = tt
IsSpaced-take (suc (suc n)) (c ∷ []) h = tt
IsSpaced-take (suc (suc n)) (c ∷ d ∷ cs) h = (h.0, IsSpaced-take (suc n) (d ∷ cs) h.1)

trim_dashes-IsSlug :
    (s : List Char)
    → length s ≤ vm_slug_max_length
    → All IsVmChar s
    → IsSpaced s
    → IsSlug (or_default (trim_dashes s))
unfolding trim_dashes
trim_dashes-IsSlug s short allowed spaced =
    let k = trim_left-Kept s in
    let t = trim_left s in
    or_default-IsSlug _ (omega (arith, trim_right-length t, k.length-le))
      (trim_right-allowed t (k.allowed allowed)) (trim_right-starts t (trim_left-starts s))
      (trim_right-ends t) (trim_right-IsSpaced t (k.spaced spaced))

-- Whatever the characters of the project directory's name, its slug is not empty, has 20 characters at
-- most, all of them a-z, 0-9 or a dash, neither starts nor ends with a dash, and has no two dashes side
-- by side.
pub project_slug-IsSlug :
    (lower : Char → Char) (project : FilePath) → IsSlug (project_slug lower project)
unfolding project_slug
project_slug-IsSlug lower project =
    let s = slug_loop false (map lower (chars (base project))) in
    trim_dashes-IsSlug _ (length-take 20 s) (All-take IsVmChar 20 s (slug_loop-allowed false _))
      (IsSpaced-take 20 s (slug_loop-IsSpaced false _))
