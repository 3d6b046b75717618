-- ===== src/Domain/ManagedArtifact/Reading.antt =====
-- internal/domain/managed_artifact.go: which texts are references, and to what.
use job_dock.Base.{
  append_assoc, sym, subst, ap, ◌∙◌, ◌↔◌, Bool-cases, inr, inl, codes, Option-cases, true, refl, [],
  ◌&&◌, is_empty, ◌∷◌, arith, some, false, not, Bool, ◌++◌, any, ◌≡◌, Text,
}
use job_dock.Domain.ManagedArtifact.{
  is_digest, managed, matched_digest, matched_rest, managed_artifact_reference,
  parse_managed_artifact_reference, strip_prefix, is_mark, until_mark,
}

strip_prefix-append : (p t : Text) → strip_prefix p (p ++ t) ≡ some t
unfolding strip_prefix
strip_prefix-append [] t = refl
strip_prefix-append (c ∷ p) t = ground (arith, strip_prefix-append p t)

strip_prefix-some : (p t rest : Text) → strip_prefix p t ≡ some rest → t ≡ p ++ rest
unfolding strip_prefix
strip_prefix-some [] t rest e = ground (arith, e)
strip_prefix-some (c ∷ p) [] rest e = cc e
strip_prefix-some (c ∷ p) (d ∷ t) rest e = ground (arith, e, strip_prefix-some p t rest)

-- A name for a build: not empty, and without marks.
abbrev pub is_name : Text → Bool
is_name name = not (is_empty name) && not (any is_mark name)

until_mark-append :
    (name rest : Text)
    → any is_mark name ≡ false
    → until_mark (name ++ 64 ∷ rest) ≡ (name, 64 ∷ rest)
unfolding until_mark
until_mark-append [] rest e = refl
until_mark-append (c ∷ name) rest e = ground (arith, e, until_mark-append name rest)

until_mark-split :
    (t : Text) → (t ≡ (until_mark t).0 ++ (until_mark t).1) × (any is_mark (until_mark t).0 ≡ false)
unfolding until_mark
until_mark-split [] = (refl, refl)
until_mark-split (c ∷ t) = ground (arith, until_mark-split t)

reference-append :
    (build_id digest : Text)
    → managed_artifact_reference build_id digest
      ≡ codes "jobdock://build/" ++ (build_id ++ 64 ∷ digest)
unfolding managed_artifact_reference
reference-append build_id digest =
    ap (λ (x : Text). codes "jobdock://build/" ++ x) (append_assoc build_id (codes "@") digest)

reads_joined :
    (build_id digest : Text)
    → is_name build_id ≡ true
    → is_digest digest ≡ true
    → parse_managed_artifact_reference (codes "jobdock://build/" ++ (build_id ++ 64 ∷ digest))
      ≡ managed build_id digest
unfolding parse_managed_artifact_reference matched_rest matched_digest strip_prefix
reads_joined build_id digest n d =
    let has_name : is_empty build_id ≡ false = ground (arith, n) in
    rw (until_mark-append build_id digest (ground (arith, n)), has_name, d) refl

-- A printed reference is read back.
reads_printed :
    (build_id digest : Text)
    → is_name build_id ≡ true
    → is_digest digest ≡ true
    → parse_managed_artifact_reference (managed_artifact_reference build_id digest)
      ≡ managed build_id digest
reads_printed build_id digest n d =
    ap parse_managed_artifact_reference (reference-append build_id digest)
    ∙ reads_joined build_id digest n d

-- What is read as managed was printed.
reads_only_printed :
    (t build_id digest : Text)
    → parse_managed_artifact_reference t ≡ managed build_id digest
    → (t ≡ managed_artifact_reference build_id digest)
      × (is_name build_id ≡ true)
      × (is_digest digest ≡ true)
unfolding parse_managed_artifact_reference managed_artifact_reference matched_rest matched_digest
reads_only_printed t build_id digest e = elim (Option-cases (strip_prefix (codes "jobdock://") t)) [
  | inl other ↦ cc (rw (other, parse_managed_artifact_reference) at e)
  | inr (_, scheme) ↦ elim (Option-cases (strip_prefix (codes "jobdock://build/") t)) [
    | inl bad ↦ cc (rw (scheme, parse_managed_artifact_reference, bad) at e)
    | inr (rest, good) ↦
        let (split, plain) = until_mark-split rest in
        elim (Bool-cases (is_empty (until_mark rest).0)) [
          | inl nameless ↦ cc (rw (scheme, parse_managed_artifact_reference, good, nameless) at e)
          | inr has_name ↦ elim (Option-cases (strip_prefix (codes "@") (until_mark rest).1)) [
            | inl no_at ↦
                cc (rw (scheme, parse_managed_artifact_reference, good, has_name, no_at) at e)
            | inr (found, at_mark) ↦ elim (Bool-cases (is_digest found)) [
              | inr not_digest ↦ cc (
                  rw (scheme, parse_managed_artifact_reference, good, has_name, at_mark, not_digest)
                    at e)
              | inl proper ↦
                  let both =
                    rw (scheme, parse_managed_artifact_reference, good, has_name, at_mark, proper)
                      at e in
                  let named : (until_mark rest).0 ≡ build_id = ground (arith, both) in
                  let same : found ≡ digest = ground (arith, both) in
                  let tail : (until_mark rest).1 ≡ codes "@" ++ digest =
                    strip_prefix-some (codes "@") (until_mark rest).1 found at_mark
                    ∙ ap (λ (d : Text). codes "@" ++ d) same in
                  let whole : rest ≡ build_id ++ 64 ∷ digest =
                    split
                    ∙ ap (λ (x : Text). x ++ (until_mark rest).1) named
                    ∙ ap (λ (x : Text). build_id ++ x) tail in
                  (
                    strip_prefix-some (codes "jobdock://build/") t rest good
                        ∙ ap (λ (x : Text). codes "jobdock://build/" ++ x) whole
                        ∙ sym (reference-append build_id digest),
                    ground (arith, has_name, plain, named),
                    subst (λ (x : Text). is_digest x ≡ true) same proper,
                  )
            ]
          ]
        ]
  ]
]

-- A text is read as the managed artifact of a build and a digest exactly if it is the reference
-- printed for them, the build's name is not empty and has no `/` and no `@`, and the digest is one of
-- SHA-256, in 64 lowercase hexadecimal digits.
pub parse_managed_artifact_reference-managed :
    (t build_id digest : Text)
    → (parse_managed_artifact_reference t ≡ managed build_id digest)
      ↔ (t ≡ managed_artifact_reference build_id digest)
        × (is_name build_id ≡ true)
        × (is_digest digest ≡ true)
parse_managed_artifact_reference-managed t build_id digest = (
  reads_only_printed t build_id digest,
  (λ (printed, named, proper).
      ap parse_managed_artifact_reference printed ∙ reads_printed build_id digest named proper),
)
