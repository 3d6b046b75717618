-- ===== src/Go/Paths/Cleaning.antt =====
-- What path.Clean leaves of a path's components.
use job_dock.Base.{
  ◌≡◌, ◌≢◌, refl, ap, ◌∙◌, ◌⊎◌, inl, inr, Bool, true, false, ◌||◌, List, [], ◌∷◌, ◌++◌, Text, eqb,
  is_empty, join, any, All, arith, Bool-cases, append_assoc, ◌==◌,
}
use job_dock.Go.Paths.{slash, dot, dot_dot, cut, split_path, climb, clean_part, clean_parts}

abbrev pub IsWhole : Text → Type 0
IsWhole part = any (λ c. eqb c slash) part ≡ false

-- A name in a directory: not empty, not `.`, not `..`, and without a slash.
pub record IsOrdinary (part : Text) : Type 0 where
  pub whole : IsWhole part
  pub named : part ≢ []
  pub not_here : part ≢ dot
  pub not_above : part ≢ dot_dot

pub cut-All : (text : Text) → IsWhole (cut text).0 × All IsWhole (cut text).1
unfolding cut
cut-All [] = (refl, tt)
cut-All (c ∷ text) = elim (Bool-cases (eqb c slash)) [
  | inl here ↦ rw here (refl, cut-All text)
  | inr there ↦ rw there (ground (arith, there, (cut-All text).0), (cut-All text).1)
]

pub split_path-All : (text : Text) → All IsWhole (split_path text)
unfolding split_path
split_path-All text = cut-All text

pub cut-whole : (part : Text) → IsWhole part → cut part ≡ (part, [])
unfolding cut
cut-whole [] h = refl
cut-whole (c ∷ part) h =
    let off : eqb c slash ≡ false = ground (arith, h) in
    let more = cut-whole part (ground (arith, h)) in rw (off, more) refl

cut-append :
    (part text : Text) → IsWhole part → cut (part ++ slash ∷ text) ≡ (part, split_path text)
unfolding cut split_path
cut-append [] text h = refl
cut-append (c ∷ part) text h =
    let off : eqb c slash ≡ false = ground (arith, h) in
    let more = cut-append part text (ground (arith, h)) in rw (off, more) refl

pub join-cons :
    (part next : Text) (parts : List Text)
    → join (slash ∷ []) (part ∷ next ∷ parts) ≡ part ++ slash ∷ join (slash ∷ []) (next ∷ parts)
unfolding join
join-cons part next parts = append_assoc part (slash ∷ []) (join (slash ∷ []) (next ∷ parts))

split_path-whole : (part : Text) → IsWhole part → split_path part ≡ part ∷ []
unfolding split_path
split_path-whole part h = rw (cut-whole part h) refl

split_path-append :
    (part text : Text) → IsWhole part → split_path (part ++ slash ∷ text) ≡ part ∷ split_path text
unfolding split_path
split_path-append part text h = rw (cut-append part text h, split_path) refl

pub split_path-join :
    (part : Text) (parts : List Text)
    → All IsWhole (part ∷ parts)
    → split_path (join (slash ∷ []) (part ∷ parts)) ≡ part ∷ parts
unfolding join
split_path-join part [] h = split_path-whole part h.0
split_path-join part (next ∷ parts) h =
    ap split_path (join-cons part next parts)
    ∙ split_path-append part (join (slash ∷ []) (next ∷ parts)) h.0
    ∙ ap (λ (ps : List Text). part ∷ ps) (split_path-join next parts h.1)

-- The stack: ordinary names on `..` components.
abbrev pub IsClean : List Text → Type 0
IsClean [] = Unit {0}
IsClean (part ∷ stack) =
    IsOrdinary part × IsClean stack ⊎ (part ≡ dot_dot) × All (λ p. p ≡ dot_dot) stack

climbs-IsClean : (stack : List Text) → All (λ p. p ≡ dot_dot) stack → IsClean stack
climbs-IsClean [] h = tt
climbs-IsClean (part ∷ stack) h = inr h

not_above : (part : Text) → (part == dot_dot) ≡ false → part ≢ dot_dot
not_above part h e = ground (arith, h, e)

climb-IsClean : (rooted : Bool) (stack : List Text) → IsClean stack → IsClean (climb rooted stack)
unfolding climb
climb-IsClean true [] h = tt
climb-IsClean false [] h = inr (refl, tt)
climb-IsClean rooted (top ∷ stack) (inl (ordinary, h)) = elim (Bool-cases (top == dot_dot)) [
  | inl above ↦ absurd (ordinary.not_above (ground (arith, above)))
  | inr below ↦ rw below h
]
climb-IsClean rooted (top ∷ stack) (inr (above, h)) = elim (Bool-cases (top == dot_dot)) [
  | inl same ↦ rw same (inr (refl, (above, h)))
  | inr other ↦ absurd (not_above top other above)
]

clean_part-IsClean :
    (rooted : Bool) (part : Text) (stack : List Text)
    → IsWhole part
    → IsClean stack
    → IsClean (clean_part rooted part stack)
unfolding clean_part
clean_part-IsClean rooted part stack whole h = elim (Bool-cases (is_empty part || (part == dot))) [
  | inl skipped ↦ rw skipped h
  | inr pushed ↦ elim (Bool-cases (part == dot_dot)) [
    | inl above ↦ rw (pushed, above) (climb-IsClean rooted stack h)
    | inr below ↦
        rw (pushed, below)
          (inl (
            record {
              whole = whole;
              named = λ e. ground (arith, pushed, e);
              not_here = λ e. ground (arith, pushed, e);
              not_above = not_above part below;
            },
            h,
          ))
  ]
]

pub clean_parts-IsClean :
    (rooted : Bool) (parts stack : List Text)
    → All IsWhole parts
    → IsClean stack
    → IsClean (clean_parts rooted parts stack)
unfolding clean_parts
clean_parts-IsClean rooted [] stack whole h = h
clean_parts-IsClean rooted (part ∷ parts) stack whole h =
    clean_parts-IsClean rooted parts (clean_part rooted part stack) whole.1
      (clean_part-IsClean rooted part stack whole.0 h)
