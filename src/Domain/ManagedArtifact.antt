-- ===== src/Domain/ManagedArtifact.antt =====
-- internal/domain/managed_artifact.go: references to the images that builds made. The pattern is matched
-- byte by byte; its first group, `[^/@]+`, ends at the first `/` or `@`, which it excludes.
pub mod Reading
use job_dock.Base.{
  ◌≡◌, refl, sym, ap, ◌∙◌, Bool, true, false, not, ◌&&◌, ◌||◌, ℕ, List, [], ◌∷◌, ◌++◌, Option, none,
  some, if◌then◌else◌, Text, codes, eqb, leb, length, is_empty, any, arith, inl, inr, Bool-cases,
  Option-cases, ◌↔◌,
}

unfoldable pub strip_prefix : Text → Text → Option Text
strip_prefix [] text = some text
strip_prefix (p ∷ prefix) [] = none
strip_prefix (p ∷ prefix) (c ∷ text) =
    let rest = strip_prefix prefix text in if eqb p c then rest else none

-- `/` and `@`.
abbrev pub is_mark : ℕ → Bool
is_mark c = eqb c 47 || eqb c 64

unfoldable pub until_mark : Text → Text × Text
until_mark [] = ([], [])
until_mark (c ∷ text) =
    let (name, rest) = until_mark text in if is_mark c then ([], c ∷ text) else (c ∷ name, rest)

-- `[a-f0-9]`
abbrev pub is_hex : ℕ → Bool
is_hex c = leb 48 c && leb c 57 || leb 97 c && leb c 102

-- `sha256:[a-f0-9]{64}`
unfoldable pub is_digest : Text → Bool
is_digest digest = elim (strip_prefix (codes "sha256:") digest) [
  | none ↦ false
  | some hex ↦ eqb (length hex) 64 && not (any (λ c. not (is_hex c)) hex)
]

unfoldable pub managed_artifact_reference : Text → Text → Text
managed_artifact_reference build_id digest =
    codes "jobdock://build/" ++ build_id ++ codes "@" ++ digest

pub data Reference : Type 0 where
  unmanaged invalid : Reference
  managed : Text → Text → Reference

unfoldable pub matched_digest : Text → Option Text → Reference
matched_digest build_id none = invalid
matched_digest build_id (some digest) =
    if is_digest digest then managed build_id digest else invalid

unfoldable pub matched_rest : Option Text → Reference
matched_rest none = invalid
matched_rest (some rest) =
    let (build_id, tail) = until_mark rest in
    if is_empty build_id then invalid else matched_digest build_id (strip_prefix (codes "@") tail)

unfoldable pub parse_managed_artifact_reference : Text → Reference
parse_managed_artifact_reference reference = elim (strip_prefix (codes "jobdock://") reference) [
  | none ↦ unmanaged
  | some _ ↦ matched_rest (strip_prefix (codes "jobdock://build/") reference)
]
