-- ===== src/Go/Paths/Inside.antt =====
-- When a relative path is clean and stays in its directory.
use job_dock.Base.{
  Text-discrete, eqb, append-nil, ◌↔◌, ℕ, arith, ◌==◌, append_assoc, ◌≡◌, ◌≢◌, refl, sym, ap, ◌∙◌,
  subst, ◌⊎◌, inl, inr, false, List, [], ◌∷◌, ◌++◌, Text, is_empty, join, All, All-append, All-map,
  Bool-cases, if◌then◌else◌,
}
use job_dock.Go.Bytes.{reverse-reverse, reverse, has_prefix}
use job_dock.Go.Paths.{
  clean_part, cut, slash, dot, dot_dot, split_path, is_abs, clean_parts, clean_path,
}
use job_dock.Go.Paths.Cleaning.{
  split_path-All, join-cons, clean_parts-IsClean, IsWhole, IsOrdinary, IsClean, split_path-join,
}

abbrev pub above_slash : Text
above_slash = 46 ∷ 46 ∷ 47 ∷ []

-- The stack, bottom first, has only ordinary names, or begins with `..`.
abbrev Climbs : List Text → Type 0
Climbs parts = (rest : List Text) × (parts ≡ dot_dot ∷ rest)

reverse-Climbs :
    (part : Text) (stack : List Text)
    → part ≡ dot_dot
    → All (λ p. p ≡ dot_dot) stack
    → Climbs (reverse stack ++ part ∷ [])
reverse-Climbs part [] e h = ([], ap (λ (p : Text). p ∷ []) e)
reverse-Climbs part (next ∷ stack) e h =
    let (rest, more) = reverse-Climbs next stack h.0 h.1 in
    (rest ++ part ∷ [], ap (λ (ps : List Text). ps ++ part ∷ []) more)

reverse-IsClean :
    (stack : List Text) → IsClean stack → All IsOrdinary (reverse stack) ⊎ Climbs (reverse stack)
reverse-IsClean [] h = inl tt
reverse-IsClean (part ∷ stack) (inr (e, h)) = inr (reverse-Climbs part stack e h)
reverse-IsClean (part ∷ stack) (inl (ordinary, h)) = elim (reverse-IsClean stack h) [
  | inl all ↦ inl (All-append IsOrdinary (reverse stack) (part ∷ []) all (ordinary, tt))
  | inr (rest, e) ↦ inr (rest ++ part ∷ [], ap (λ (ps : List Text). ps ++ part ∷ []) e)
]

joined-IsOrdinary :
    (parts : List Text)
    → is_empty (join (slash ∷ []) parts) ≡ false
    → All IsOrdinary parts
    → All IsOrdinary (split_path (join (slash ∷ []) parts))
unfolding join
joined-IsOrdinary [] some_name h = cc
joined-IsOrdinary (part ∷ parts) some_name h =
    subst (λ (ps : List Text). All IsOrdinary ps)
      (sym
        (split_path-join part parts (All-map IsOrdinary IsWhole (part ∷ parts) (λ _ o. o.whole) h)))
      h

joined_climb :
    (rest : List Text)
    → join (slash ∷ []) (dot_dot ∷ rest) ≢ dot_dot
    → has_prefix (join (slash ∷ []) (dot_dot ∷ rest)) above_slash ≡ false
    → ⊥
unfolding join has_prefix above_slash
joined_climb [] h p = h refl
joined_climb (next ∷ rest) h p = cc p

clean_path-relative :
    (text : Text)
    → is_abs text ≡ false
    → let names = join (slash ∷ []) (reverse (clean_parts false (split_path text) [])) in
      clean_path text ≡ (if is_empty names then dot else names)
unfolding clean_path
clean_path-relative text relative = rw relative refl

stays :
    (text : Text) (stack : List Text)
    → IsClean stack
    → text ≢ dot_dot
    → has_prefix text above_slash ≡ false
    → (if is_empty (join (slash ∷ []) (reverse stack))
        then dot
        else join (slash ∷ []) (reverse stack))
      ≡ text
    → (text ≡ dot) ⊎ All IsOrdinary (split_path text)
stays text stack clean other below e =
    elim (Bool-cases (is_empty (join (slash ∷ []) (reverse stack)))) [
      | inl nothing ↦ inl (sym (rw nothing at e))
      | inr something ↦
          let same : join (slash ∷ []) (reverse stack) ≡ text = rw something at e in
          elim (reverse-IsClean stack clean) [
            | inl all ↦ inr (
                subst (λ t. All IsOrdinary (split_path t)) same
                  (joined-IsOrdinary (reverse stack) something all))
            | inr (rest, climbs) ↦
                let whole : text ≡ join (slash ∷ []) (dot_dot ∷ rest) =
                  sym same ∙ ap (λ (ps : List Text). join (slash ∷ []) ps) climbs in
                absurd (
                  joined_climb rest (λ h. other (whole ∙ h))
                    (subst (λ t. has_prefix t above_slash ≡ false) whole below))
          ]
    ]

dot-clean : clean_path dot ≡ dot
unfolding clean_path split_path cut is_abs clean_parts clean_part join Text-discrete
dot-clean = refl

clean_part-ordinary :
    (part : Text) (stack : List Text) → IsOrdinary part → clean_part false part stack ≡ part ∷ stack
unfolding clean_part
clean_part-ordinary [] stack o = absurd (o.named refl)
clean_part-ordinary (c ∷ part) stack o = elim (Bool-cases (c ∷ part == dot)) [
  | inl here ↦ absurd (o.not_here (ground (arith, here)))
  | inr there ↦ elim (Bool-cases (c ∷ part == dot_dot)) [
    | inl above ↦ absurd (o.not_above (ground (arith, above)))
    | inr below ↦ rw (there, below) refl
  ]
]

clean_parts-ordinary :
    (parts stack : List Text)
    → All IsOrdinary parts
    → clean_parts false parts stack ≡ reverse parts ++ stack
unfolding clean_parts
clean_parts-ordinary [] stack h = refl
clean_parts-ordinary (part ∷ parts) stack h =
    ap (clean_parts false parts) (clean_part-ordinary part stack h.0)
    ∙ clean_parts-ordinary parts (part ∷ stack) h.1
    ∙ sym (append_assoc (reverse parts) (part ∷ []) stack)

join-longer :
    (c : ℕ) (part : Text) (parts : List Text)
    → join (slash ∷ []) ((c ∷ part) ∷ parts) ≡ c ∷ join (slash ∷ []) (part ∷ parts)
unfolding join
join-longer c part [] = refl
join-longer c part (next ∷ parts) = refl

join-split_path : (text : Text) → join (slash ∷ []) (split_path text) ≡ text
unfolding split_path cut join
join-split_path [] = refl
join-split_path (c ∷ text) = elim (Bool-cases (eqb c slash)) [
  | inl here ↦ rw here (
      join-cons [] (cut text).0 (cut text).1
      ∙ ap (λ (t : Text). slash ∷ t) (join-split_path text)
      ∙ ap (λ (k : ℕ). k ∷ text) (ground (arith, here)))
  | inr there ↦
      rw there
        (join-longer c (cut text).0 (cut text).1 ∙ ap (λ (t : Text). c ∷ t) (join-split_path text))
]

not_empty : (text : Text) → All IsOrdinary (split_path text) → is_empty text ≡ false
unfolding split_path cut
not_empty [] h = absurd (h.0.named refl)
not_empty (c ∷ text) h = refl

ordinary-stays :
    (text : Text)
    → All IsOrdinary (split_path text)
    → join (slash ∷ []) (reverse (clean_parts false (split_path text) [])) ≡ text
ordinary-stays text h =
    ap (λ (ps : List Text). join (slash ∷ []) (reverse ps))
      (clean_parts-ordinary (split_path text) [] h ∙ append-nil (reverse (split_path text)))
    ∙ ap (λ (ps : List Text). join (slash ∷ []) ps) (reverse-reverse (split_path text))
    ∙ join-split_path text

pub clean_path-inside :
    (text : Text)
    → is_abs text ≡ false
    → text ≢ dot_dot
    → has_prefix text above_slash ≡ false
    → (clean_path text ≡ text) ↔ (text ≡ dot) ⊎ All IsOrdinary (split_path text)
clean_path-inside text relative other below = (
  (λ clean.
      stays text (clean_parts false (split_path text) [])
        (clean_parts-IsClean false (split_path text) [] (split_path-All text) tt) other below
        (sym (clean_path-relative text relative) ∙ clean)),
  (λ found. elim found [
    | inl here ↦ subst (λ (t : Text). clean_path t ≡ t) (sym here) dot-clean
    | inr all ↦
        let same = ordinary-stays text all in
        clean_path-relative text relative ∙ rw (same, not_empty text all) refl
  ]),
)
