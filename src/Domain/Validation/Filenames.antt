-- ===== src/Domain/Validation/Filenames.antt =====
-- internal/domain/validate.go, `validSecretFilename`, and path.Base of a name.
use job_dock.Base.{
  is_empty_of_ne, ◌≡◌, ◌≢◌, refl, sym, ap, ◌∙◌, subst, ◌⊎◌, ◌↔◌, inl, inr, true, false, ℕ, ◌≤◌,
  List, [], ◌∷◌, ◌++◌, Text, eqb, is_empty, arith, Bool-cases, if◌then◌else◌, length,
}
use job_dock.Go.Bytes.{reverse-reverse, reverse, contains_any}
use job_dock.Go.Paths.{cut, slash, dot, dot_dot, path_base, drop_slashes}
use job_dock.Go.Paths.Cleaning.{IsWhole, cut-All, cut-whole}
use job_dock.Domain.Validation.Specs.{valid_secret_filename}

IsWhole-snoc : (part : Text) (c : ℕ) → eqb c slash ≡ false → IsWhole part → IsWhole (part ++ c ∷ [])
IsWhole-snoc [] c off h = ground (arith, off)
IsWhole-snoc (d ∷ part) c off h = ground (arith, h, IsWhole-snoc part c off)

IsWhole-reverse : (part : Text) → IsWhole part → IsWhole (reverse part)
IsWhole-reverse [] h = refl
IsWhole-reverse (c ∷ part) h =
    IsWhole-snoc (reverse part) c (ground (arith, h)) (IsWhole-reverse part (ground (arith, h)))

drop_slashes-whole : (part : Text) → IsWhole part → drop_slashes part ≡ part
unfolding drop_slashes
drop_slashes-whole [] h = refl
drop_slashes-whole (c ∷ part) h = ground (arith, h)

name_of : Text → Text
name_of value = reverse (cut (drop_slashes (reverse value))).0

path_base-cons :
    (c : ℕ) (text : Text)
    → path_base (c ∷ text)
      ≡ (if is_empty (name_of (c ∷ text)) then slash ∷ [] else name_of (c ∷ text))
unfolding path_base name_of
path_base-cons c text = refl

name_of-whole : (value : Text) → IsWhole value → name_of value ≡ value
unfolding name_of
name_of-whole value h =
    let back = IsWhole-reverse value h in
    ap (λ (t : Text). reverse (cut t).0) (drop_slashes-whole (reverse value) back)
    ∙ ap (λ (p : Text × List Text). reverse p.0) (cut-whole (reverse value) back)
    ∙ reverse-reverse value

name_of-IsWhole : (value : Text) → IsWhole (name_of value)
unfolding name_of
name_of-IsWhole value =
    let part = cut (drop_slashes (reverse value)) in
    IsWhole-reverse part.0 (cut-All (drop_slashes (reverse value))).0

path_base-root : path_base (slash ∷ []) ≡ slash ∷ []
unfolding path_base drop_slashes cut
path_base-root = refl

path_base-same :
    (value : Text) → value ≢ [] → (path_base value ≡ value) ↔ IsWhole value ⊎ (value ≡ slash ∷ [])
path_base-same [] h = absurd (h refl)
path_base-same (c ∷ text) h = (
  (λ same. elim (Bool-cases (is_empty (name_of (c ∷ text)))) [
    | inl nameless ↦ inr (sym same ∙ path_base-cons c text ∙ rw nameless refl)
    | inr named ↦
        let e : name_of (c ∷ text) ≡ c ∷ text =
          sym (path_base-cons c text ∙ rw named refl) ∙ same in
        inl (subst IsWhole e (name_of-IsWhole (c ∷ text)))
  ]),
  (λ found. elim found [
    | inl whole ↦ path_base-cons c text ∙ rw (name_of-whole (c ∷ text) whole) refl
    | inr root ↦ ap path_base root ∙ path_base-root ∙ sym root
  ]),
)

-- A file name of a secret is accepted exactly if it is not empty, has at most 255 bytes, no backslash
-- and no NUL, is not `.` and not `..`, and has no slash, or is the slash alone.
pub valid_secret_filename_iff :
    (value : Text)
    → (valid_secret_filename value ≡ true)
      ↔ (value ≢ [])
        × (length value ≤ 255)
        × (contains_any value (92 ∷ 0 ∷ []) ≡ false)
        × (value ≢ dot)
        × (value ≢ dot_dot)
        × (IsWhole value ⊎ (value ≡ slash ∷ []))
unfolding valid_secret_filename
valid_secret_filename_iff value = (
  (λ ok.
      let named : value ≢ [] = λ e. ground (arith, ok, e) in
      let same : path_base value ≡ value = ground (arith, ok) in
      (
        named,
        ground (arith, ok),
        ground (arith, ok),
        (λ e. ground (arith, ok, e)),
        (λ e. ground (arith, ok, e)),
        (path_base-same value named).0 same,
      )),
  (λ (named, small, plain, not_here, not_above, whole).
      let same = (path_base-same value named).1 whole in
      ground (arith, is_empty_of_ne value named, small, plain, not_here, not_above, same)),
)
