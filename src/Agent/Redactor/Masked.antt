-- ===== src/Agent/Redactor/Masked.antt =====
-- internal/agent/redactor.go: what is left of the secrets in masked output.
use job_dock.Base.{
  ◌≡◌, ◌≢◌, refl, ◌∙◌, subst, ◌⊎◌, ℕ, zero, suc, ◌-◌, Bool, false, ◌||◌, List, [], ◌∷◌, Text,
  length, eqb, arith, Bool-cases, inl, inr, Memᴰ,
}
use job_dock.Go.Bytes.{has_prefix}
use job_dock.Agent.Redactor.{star, mask_secret, mask}
use job_dock.Agent.Redactor.Stream.{IsStarless, has_prefix-star}

-- The secret stands somewhere in the text.
unfoldable pub occurs : Text → Text → Bool
occurs secret [] = has_prefix [] secret
occurs secret (c ∷ t) = has_prefix (c ∷ t) secret || occurs secret t

-- The second text is the first with some bytes starred.
abbrev pub Stars : Text → Text → Type 0
Stars [] [] = Unit {0}
Stars (c ∷ t) (d ∷ u) = ((d ≡ star) ⊎ (d ≡ c)) × Stars t u
Stars [] (d ∷ u) = ⊥
Stars (c ∷ t) [] = ⊥

Stars-refl : (t : Text) → Stars t t
Stars-refl [] = tt
Stars-refl (c ∷ t) = (inr refl, Stars-refl t)

Stars-trans : (t u v : Text) → Stars t u → Stars u v → Stars t v
Stars-trans [] [] [] p q = tt
Stars-trans [] [] (e ∷ v) p q = q
Stars-trans [] (d ∷ u) v p q = absurd p
Stars-trans (c ∷ t) [] v p q = absurd p
Stars-trans (c ∷ t) (d ∷ u) [] p q = q
Stars-trans (c ∷ t) (d ∷ u) (e ∷ v) (p, ps) (q, qs) = (step c d e p q, Stars-trans t u v ps qs)
  where
    step : (c d e : ℕ) → (d ≡ star) ⊎ (d ≡ c) → (e ≡ star) ⊎ (e ≡ d) → (e ≡ star) ⊎ (e ≡ c)
    step c d e p (inl starred) = inl starred
    step c d e (inl starred) (inr same) = inl (same ∙ starred)
    step c d e (inr same2) (inr same) = inr (same ∙ same2)

mask_secret-Stars : (secret : Text) (n : ℕ) (t : Text) → Stars t (mask_secret secret n t)
unfolding mask_secret
mask_secret-Stars secret n [] = tt
mask_secret-Stars secret (suc n) (c ∷ t) = (inl refl, mask_secret-Stars secret n t)
mask_secret-Stars secret zero (c ∷ t) = elim (Bool-cases (has_prefix (c ∷ t) secret)) [
  | inl hit ↦ rw hit (inl refl, mask_secret-Stars secret (length secret - 1) t)
  | inr miss ↦ rw miss (inr refl, mask_secret-Stars secret zero t)
]

mask-Stars : (secrets : List Text) (t : Text) → Stars t (mask secrets t)
unfolding mask
mask-Stars [] t = Stars-refl t
mask-Stars (secret ∷ secrets) t =
    Stars-trans t (mask_secret secret zero t) (mask secrets (mask_secret secret zero t))
      (mask_secret-Stars secret zero t) (mask-Stars secrets (mask_secret secret zero t))

nothing_has_prefix : (s : Text) → s ≢ [] → has_prefix [] s ≡ false
unfolding has_prefix
nothing_has_prefix [] h = absurd (h refl)
nothing_has_prefix (p ∷ s) h = refl

module _ (secret : Text) (some_byte : secret ≢ []) (starless : IsStarless secret) where
  -- Stars make no match.
  Stars-has_prefix :
      (s t u : Text) → IsStarless s → Stars t u → has_prefix t s ≡ false → has_prefix u s ≡ false
  unfolding has_prefix
  Stars-has_prefix [] t u h stars miss = cc miss
  Stars-has_prefix (p ∷ s) [] [] h stars miss = refl
  Stars-has_prefix (p ∷ s) [] (d ∷ u) h stars miss = absurd stars
  Stars-has_prefix (p ∷ s) (c ∷ t) [] h stars miss = refl
  Stars-has_prefix (p ∷ s) (c ∷ t) (d ∷ u) h (inl starred, stars) miss = ground (arith, h, starred)
  Stars-has_prefix (p ∷ s) (c ∷ t) (d ∷ u) h (inr same, stars) miss = elim (Bool-cases (eqb c p)) [
    | inr other ↦ ground (arith, same, other)
    | inl hit ↦
        let rest = Stars-has_prefix s t u (ground (arith, h)) stars (ground (arith, miss, hit)) in
        ground (arith, rest)
  ]

  Stars-occurs : (t u : Text) → Stars t u → occurs secret t ≡ false → occurs secret u ≡ false
  unfolding occurs
  Stars-occurs [] [] stars miss = miss
  Stars-occurs [] (d ∷ u) stars miss = absurd stars
  Stars-occurs (c ∷ t) [] stars miss = absurd stars
  Stars-occurs (c ∷ t) (d ∷ u) stars miss =
      let here = Stars-has_prefix secret (c ∷ t) (d ∷ u) starless stars (ground (arith, miss)) in
      let there = Stars-occurs t u stars.1 (ground (arith, miss)) in ground (arith, here, there)

  mask_secret-occurs : (n : ℕ) (t : Text) → occurs secret (mask_secret secret n t) ≡ false
  unfolding mask_secret occurs
  mask_secret-occurs n [] = nothing_has_prefix secret some_byte
  mask_secret-occurs (suc n) (c ∷ t) =
      let here = has_prefix-star secret (mask_secret secret n t) some_byte starless in
      rw here (mask_secret-occurs n t)
  mask_secret-occurs zero (c ∷ t) = elim (Bool-cases (has_prefix (c ∷ t) secret)) [
    | inl hit ↦
        let here =
          has_prefix-star secret (mask_secret secret (length secret - 1) t) some_byte starless in
        rw (hit, here) (mask_secret-occurs (length secret - 1) t)
    | inr miss ↦
        let here =
          Stars-has_prefix secret (c ∷ t) (c ∷ mask_secret secret zero t) starless
            (inr refl, mask_secret-Stars secret zero t) miss in
        rw (miss, here) (mask_secret-occurs zero t)
  ]

  -- In masked output no secret of the redactor occurs that is not empty and has no star.
  pub mask-occurs :
      (secrets : List Text) (t : Text)
      → Memᴰ secret secrets
      → occurs secret (mask secrets t) ≡ false
  unfolding mask
  mask-occurs [] t m = elim m [ ]
  mask-occurs (s ∷ secrets) t (Memᴰ.head e) =
      Stars-occurs (mask_secret s zero t) (mask secrets (mask_secret s zero t))
        (mask-Stars secrets (mask_secret s zero t))
        (subst (λ (x : Text). occurs secret (mask_secret x zero t) ≡ false) e
          (mask_secret-occurs zero t))
  mask-occurs (s ∷ secrets) t (Memᴰ.tail m) = mask-occurs secrets (mask_secret s zero t) m
