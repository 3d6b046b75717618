-- ===== src/Domain/Validation/Paths.antt =====
-- internal/domain/validate.go: the paths of a build and the file names of secrets.
use job_dock.Base.{
  join, Text-discrete, is_empty_of_ne, ◌≡◌, ◌≢◌, refl, ap, ◌∙◌, subst, ◌⊎◌, ◌↔◌, inl, inr, Bool,
  true, false, ◌≤◌, [], ◌∷◌, Text, eqb, All, arith, Bool-cases, ◌==◌, codes, length, none,
}
use job_dock.Go.Bytes.{has_prefix-append, has_prefix, contains_any}
use job_dock.Go.Paths.{
  clean_parts, clean_part, cut, slash, dot, dot_dot, split_path, is_abs, clean_path,
}
use job_dock.Go.Paths.Cleaning.{IsOrdinary}
use job_dock.Go.Paths.Inside.{clean_path-inside, above_slash}
use job_dock.Domain.Validation.{validate_build_relative_path}

has_prefix-slash : (t : Text) → has_prefix t (codes "/") ≡ is_abs t
unfolding has_prefix is_abs
has_prefix-slash [] = refl
has_prefix-slash (c ∷ t) = ground arith

eq_of_same : (a b : Text) → (a == b) ≡ true → a ≡ b
eq_of_same a b h = ground (arith, h)

same_refl : (a : Text) → (a == a) ≡ true
same_refl a = ground arith

ne_of_not_same : (a b : Text) → (a == b) ≡ false → a ≢ b
ne_of_not_same a b h e = ground (arith, h, e)

-- A path of at most 512 bytes that is not blank and stays in its directory.
abbrev pub StaysInside : Text → Bool → Type 0
StaysInside value allow_dot =
    (length value ≤ 512)
    × (contains_any value (92 ∷ 58 ∷ 0 ∷ []) ≡ false)
    × ((value ≡ dot) × (allow_dot ≡ true) ⊎ All IsOrdinary (split_path value))

accepted-StaysInside :
    (value : Text) (allow_dot : Bool)
    → validate_build_relative_path value allow_dot ≡ none
    → StaysInside value allow_dot
unfolding validate_build_relative_path
accepted-StaysInside value allow_dot e =
    let relative : is_abs value ≡ false = ground (arith, e, has_prefix-slash value) in
    let small : length value ≤ 512 = ground (arith, e) in
    let plain : contains_any value (92 ∷ 58 ∷ 0 ∷ []) ≡ false = ground (arith, e) in
    let clean : clean_path value ≡ value = ground (arith, e) in
    let below : has_prefix (clean_path value) (codes "../") ≡ false = ground (arith, e) in
    let other : (clean_path value == codes "..") ≡ false = ground (arith, e) in
    let (finds, _) =
      clean_path-inside value relative
        (λ above. ne_of_not_same (clean_path value) (codes "..") other (clean ∙ above))
        (subst (λ (t : Text). has_prefix t (codes "../") ≡ false) clean below) in
    (
      small,
      plain,
      elim (finds clean) [
        | inr all ↦ inr all
        | inl here ↦ inl (here, ground (arith, e, here, clean))
      ],
    )

ordinary-below :
    (value : Text) → All IsOrdinary (split_path value) → has_prefix value above_slash ≡ false
unfolding split_path cut
ordinary-below value h = elim (Bool-cases (has_prefix value above_slash)) [
  | inr below ↦ below
  | inl above ↦
      let (rest, e) = has_prefix-append value above_slash above in
      absurd ((subst (λ (t : Text). All IsOrdinary (split_path t)) e h).0.not_above refl)
]

ordinary-is_abs : (value : Text) → All IsOrdinary (split_path value) → is_abs value ≡ false
unfolding split_path cut is_abs
ordinary-is_abs [] h = refl
ordinary-is_abs (c ∷ text) h = elim (Bool-cases (eqb c slash)) [
  | inr there ↦ there
  | inl here ↦ absurd (IsOrdinary.named (rw here at h).0 refl)
]

ordinary-names :
    (value : Text)
    → All IsOrdinary (split_path value)
    → (value ≢ []) × (value ≢ dot) × (value ≢ dot_dot)
unfolding split_path cut
ordinary-names value h = (
  (λ e. (subst (λ (t : Text). All IsOrdinary (split_path t)) e h).0.named refl),
  (λ e. (subst (λ (t : Text). All IsOrdinary (split_path t)) e h).0.not_here refl),
  (λ e. (subst (λ (t : Text). All IsOrdinary (split_path t)) e h).0.not_above refl),
)

dot-accepted : validate_build_relative_path dot true ≡ none
unfolding validate_build_relative_path clean_path contains_any has_prefix split_path cut clean_parts
    clean_part is_abs join Text-discrete
dot-accepted = refl

StaysInside-accepted :
    (value : Text) (allow_dot : Bool)
    → StaysInside value allow_dot
    → validate_build_relative_path value allow_dot ≡ none
unfolding validate_build_relative_path
StaysInside-accepted value allow_dot (small, plain, inl (here, allowed)) =
    ap (λ (t : Text). validate_build_relative_path t allow_dot) here
    ∙ ap (λ (b : Bool). validate_build_relative_path dot b) allowed
    ∙ dot-accepted
StaysInside-accepted value allow_dot (small, plain, inr all) =
    let (named, not_here, not_above) = ordinary-names value all in
    let below = ordinary-below value all in
    let relative = ordinary-is_abs value all in
    let (_, cleans) = clean_path-inside value relative not_above below in
    let clean = cleans (inr all) in
    let first = has_prefix-slash value in
    ground (
      arith,
      is_empty_of_ne value named,
      small,
      plain,
      first,
      relative,
      clean,
      below,
      not_above,
      not_here,
    )

-- A path is accepted exactly if it has at most 512 bytes, no backslash, colon or NUL, and is `.`
-- where that is allowed, or all its components are names: none is empty, `.` or `..`.
pub validate_build_relative_path-none :
    (value : Text) (allow_dot : Bool)
    → (validate_build_relative_path value allow_dot ≡ none) ↔ StaysInside value allow_dot
validate_build_relative_path-none value allow_dot =
    (accepted-StaysInside value allow_dot, StaysInside-accepted value allow_dot)
