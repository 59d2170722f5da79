-- ===== src/Path/Text/Laws.antt =====
-- What a cleaned path looks like, and when cleaning and joining change nothing.
use mathlib.Core.Path.{subst}
use mathlib.Core.List.{
  reverse, reverse-reverse, reverse-append, reverse-cons, append_assoc, append-nil,
}
use lima_jailed_agents.Base.{
  String, ◌≡◌, ◌≢◌, refl, sym, ap, ◌∙◌, List, [], ◌∷◌, ◌++◌, FilePath, arith,
}
use lima_jailed_agents.Base.{All, All-append, string_eq}
use lima_jailed_agents.Host.{PathText}
use lima_jailed_agents.Path.Text.{clean, clean_onto, enter, join, parent_names}

-- A name that may stand in a clean absolute path.
abbrev pub IsName : String → Type 0
IsName name = (name ≢ "") × (name ≢ ".") × (name ≢ "..")

-- A clean absolute path, which `filepath.Clean` leaves as it is.
abbrev pub IsClean : FilePath → Type 0
IsClean p = All IsName p

pub All-reverse : (P : String → Type 0) (xs : List String) → All P xs → All P (reverse xs)
All-reverse P [] h = h
All-reverse P (x ∷ xs) h =
    subst (All P) (sym (reverse-cons x xs))
      (All-append P (reverse xs) (x ∷ []) (All-reverse P xs h.1) (h.0, tt))

parent_names-IsClean : (back : List String) → IsClean back → IsClean (parent_names back)
parent_names-IsClean [] h = h
parent_names-IsClean (name ∷ back) h = h.1

enter-IsClean : (back : List String) (name : String) → IsClean back → IsClean (enter back name)
unfolding enter
enter-IsClean back name h = ground (arith, parent_names-IsClean back h)

clean_onto-IsClean : (names back : List String) → IsClean back → IsClean (clean_onto back names)
unfolding clean_onto
clean_onto-IsClean [] back h = h
clean_onto-IsClean (name ∷ names) back h =
    clean_onto-IsClean names (enter back name) (enter-IsClean back name h)

pub clean-IsClean : (names : PathText) → IsClean (clean names)
unfolding clean
clean-IsClean names = All-reverse IsName _ (clean_onto-IsClean names [] tt)

pub join-IsClean : (p : FilePath) (names : PathText) → IsClean p → IsClean (join p names)
unfolding join
join-IsClean p names h = All-reverse IsName _ (clean_onto-IsClean names _ (All-reverse IsName p h))

enter_name : (back : List String) (name : String) → IsName name → enter back name ≡ name ∷ back
unfolding enter
enter_name back name h = ground (arith, h.0, h.1, h.2)

clean_onto_names :
    (names back : List String) → IsClean names → clean_onto back names ≡ reverse names ++ back
unfolding clean_onto
clean_onto_names [] back h = refl
clean_onto_names (name ∷ names) back h =
    ap (λ b. clean_onto b names) (enter_name back name h.0)
    ∙ clean_onto_names names (name ∷ back) h.1
    ∙ sym (
        ap (λ l. l ++ back) (reverse-cons name names)
        ∙ append_assoc (reverse names) (name ∷ []) back)

-- Joining proper names appends them.
pub join-eq-append : (p : FilePath) (names : PathText) → IsClean names → join p names ≡ p ++ names
unfolding join
join-eq-append p names h =
    ap reverse (clean_onto_names names (reverse p) h)
    ∙ reverse-append (reverse names) (reverse p)
    ∙ ap (λ l. l ++ reverse (reverse names)) (reverse-reverse p)
    ∙ ap (λ l. p ++ l) (reverse-reverse names)

pub clean_of_IsClean : (p : FilePath) → IsClean p → clean p ≡ p
unfolding clean
clean_of_IsClean p h =
    ap reverse (clean_onto_names p [] h ∙ append-nil (reverse p)) ∙ reverse-reverse p
