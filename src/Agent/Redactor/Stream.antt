-- ===== src/Agent/Redactor/Stream.antt =====
-- internal/agent/redactor.go: output that comes in pieces.
use job_dock.Base.{
  ◌≡◌, ◌≢◌, refl, sym, ap, ◌∙◌, ◌≤◌, ◌<◌, ℕ, zero, suc, ◌+◌, ◌-◌, Bool, false, ◌&&◌, List, [], ◌∷◌,
  ◌++◌, Text, length, any, eqb, leb, arith, Bool-cases, inl, inr, append_assoc, append-nil,
}
use job_dock.Go.Bytes.{has_prefix}
use job_dock.Agent.Redactor.{StreamRedactor, star, mask_secret, mask, take, drop, push, flush}

-- A secret without stars.
abbrev pub IsStarless : Text → Type 0
IsStarless secret = any (eqb star) secret ≡ false

pub has_prefix-star :
    (secret t : Text) → secret ≢ [] → IsStarless secret → has_prefix (star ∷ t) secret ≡ false
unfolding has_prefix
has_prefix-star [] t some_byte starless = absurd (some_byte refl)
has_prefix-star (p ∷ secret) t some_byte starless = ground (arith, starless)

has_prefix-longer :
    (t r secret : Text)
    → length secret ≤ length t
    → has_prefix (t ++ r) secret ≡ has_prefix t secret
unfolding has_prefix
has_prefix-longer t r [] h = refl
has_prefix-longer [] r (p ∷ secret) h = absurd (omega (arith, h))
has_prefix-longer (c ∷ t) r (p ∷ secret) h =
    ap (λ (b : Bool). eqb c p && b) (has_prefix-longer t r secret (omega (arith, h)))

has_prefix-short : (t secret : Text) → length t < length secret → has_prefix t secret ≡ false
unfolding has_prefix
has_prefix-short t [] h = absurd (omega (arith, h))
has_prefix-short [] (p ∷ secret) h = refl
has_prefix-short (c ∷ t) (p ∷ secret) h =
    ground (arith, has_prefix-short t secret (omega (arith, h)))

module _ (secret : Text) (some_byte : secret ≢ []) (starless : IsStarless secret) where
  mask_secret-star :
      (t : Text) → mask_secret secret zero (star ∷ t) ≡ star ∷ mask_secret secret zero t
  unfolding mask_secret
  mask_secret-star t = rw (has_prefix-star secret t some_byte starless) refl

  mask_secret-short : (t : Text) → length t < length secret → mask_secret secret zero t ≡ t
  unfolding mask_secret
  mask_secret-short [] h = refl
  mask_secret-short (c ∷ t) h =
      rw (has_prefix-short (c ∷ t) secret h, mask_secret-short t (omega (arith, h))) refl

  -- The kept bytes, which are too few for a match: what is masked of them is masked already.
  mask_secret-kept :
      (n : ℕ) (t r : Text)
      → n ≤ length t
      → length t < length secret
      → mask_secret secret n (t ++ r) ≡ mask_secret secret zero (mask_secret secret n t ++ r)
  unfolding mask_secret
  mask_secret-kept zero t r h k =
      ap (λ (x : Text). mask_secret secret zero (x ++ r)) (sym (mask_secret-short t k))
  mask_secret-kept (suc n) [] r h k = absurd (omega (arith, h))
  mask_secret-kept (suc n) (c ∷ t) r h k =
      ap (λ (x : Text). star ∷ x) (mask_secret-kept n t r (omega (arith, h)) (omega (arith, k)))
      ∙ sym (mask_secret-star (mask_secret secret n t ++ r))

  -- Masking the whole is masking what is passed on, and then the rest after what is kept.
  mask_secret-cut :
      (n cut : ℕ) (t r : Text)
      → n < length secret
      → length t + 1 ≡ cut + length secret
      → mask_secret secret n (t ++ r)
        ≡ take cut (mask_secret secret n t)
          ++ mask_secret secret zero (drop cut (mask_secret secret n t) ++ r)
  unfolding mask_secret
  mask_secret-cut n zero t r h e = mask_secret-kept n t r (omega (arith, h, e)) (omega (arith, e))
  mask_secret-cut n (suc cut) [] r h e = absurd (omega (arith, h, e))
  mask_secret-cut (suc n) (suc cut) (c ∷ t) r h e =
      ap (λ (x : Text). star ∷ x) (mask_secret-cut n cut t r (omega (arith, h)) (omega (arith, e)))
  mask_secret-cut zero (suc cut) (c ∷ t) r h e =
      let same = has_prefix-longer (c ∷ t) r secret (omega (arith, e)) in
      elim (Bool-cases (has_prefix (c ∷ t) secret)) [
        | inl hit ↦
            rw (same, hit)
              (ap (λ (x : Text). star ∷ x)
                (mask_secret-cut (length secret - 1) cut t r (omega (arith, h)) (omega (arith, e))))
        | inr miss ↦
            rw (same, miss)
              (ap (λ (x : Text). c ∷ x) (mask_secret-cut zero cut t r h (omega (arith, e))))
      ]

-- The pieces one after another: the redactor at the end, and what was passed on.
unfoldable pub push_all : List Text → StreamRedactor → StreamRedactor × Text
push_all [] r = (r, [])
push_all (piece ∷ pieces) r =
    let (r', out) = push piece r in let (r'', outs) = push_all pieces r' in (r'', out ++ outs)

abbrev pub concat : List Text → Text
concat [] = []
concat (piece ∷ pieces) = piece ++ concat pieces

-- A redactor of one secret.
pub record IsFor (secret : Text) (r : StreamRedactor) : Type 0 where
  pub only : r.secrets ≡ secret ∷ []
  pub long : r.max ≡ length secret

module _ (secret : Text) (some_byte : secret ≢ []) (starless : IsStarless secret) where
  some_length : 0 < length secret
  some_length = nonempty secret some_byte
    where
      nonempty : (s : Text) → s ≢ [] → 0 < length s
      nonempty [] h = absurd (h refl)
      nonempty (c ∷ s) h = omega arith

  mask-one : (t : Text) → mask (secret ∷ []) t ≡ mask_secret secret zero t
  unfolding mask
  mask-one t = refl

  cut_whole :
      (whole more : Text) (r : StreamRedactor)
      → IsFor secret r
      → leb (length whole) (r.max - 1) ≡ false
      → take (length whole - (r.max - 1)) (mask r.secrets whole)
          ++ mask (secret ∷ []) (drop (length whole - (r.max - 1)) (mask r.secrets whole) ++ more)
        ≡ mask (secret ∷ []) (whole ++ more)
  unfolding mask
  cut_whole whole more r f many =
      let cut = length whole - (r.max - 1) in
      let masked : mask r.secrets whole ≡ mask_secret secret zero whole =
        ap (λ (ss : List Text). mask ss whole) f.only in
      ap (λ (t : Text). take cut t ++ mask_secret secret zero (drop cut t ++ more)) masked
      ∙ sym (
          mask_secret-cut secret some_byte starless zero cut whole more some_length
            (ground (arith, f.long, many, some_length)))

  push-keeps :
      (piece more : Text) (r : StreamRedactor)
      → IsFor secret r
      → IsFor secret (push piece r).0
        × ((push piece r).1 ++ mask (secret ∷ []) ((push piece r).0.pending ++ more)
            ≡ mask (secret ∷ []) (r.pending ++ piece ++ more))
  unfolding push mask
  push-keeps piece more r f =
      let busy : eqb r.max 0 ≡ false = ground (arith, f.long, some_length) in
      elim (Bool-cases (leb (length (r.pending ++ piece)) (r.max - 1))) [
        | inl few ↦ rw (busy, few) (record { only = f.only; long = f.long }, refl)
        | inr many ↦
            rw (busy, many)
              (
                record { only = f.only; long = f.long },
                cut_whole (r.pending ++ piece) more r f many,
              )
      ]

  -- However the output of a container is cut into pieces, what a redactor of one secret, which is not
  -- empty and has no star, passes on of them and at the end is what masking makes of the whole output
  -- after what was kept before.
  pub push_all-mask :
      (pieces : List Text) (r : StreamRedactor)
      → IsFor secret r
      → (push_all pieces r).1 ++ (flush (push_all pieces r).0).1
        ≡ mask (secret ∷ []) (r.pending ++ concat pieces)
  unfolding push_all flush
  push_all-mask [] r f =
      ap (λ (ss : List Text). mask ss r.pending) f.only
      ∙ ap (mask (secret ∷ [])) (sym (append-nil r.pending))
  push_all-mask (piece ∷ pieces) r f =
      let (f', kept) = push-keeps piece (concat pieces) r f in
      append_assoc (push piece r).1 (push_all pieces (push piece r).0).1
        (flush (push_all pieces (push piece r).0).0).1
      ∙ ap (λ (t : Text). (push piece r).1 ++ t) (push_all-mask pieces (push piece r).0 f')
      ∙ kept
      ∙ ap (mask (secret ∷ [])) (append_assoc r.pending piece (concat pieces))
