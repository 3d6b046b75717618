-- ===== src/Go/Bytes.antt =====
-- strings.ContainsAny, strings.HasPrefix, strings.ReplaceAll of one byte, and a reversed list.
use job_dock.Base.{
  arith, refl, ◌∙◌, ap, ◌≡◌, ℕ, Bool, true, false, ◌&&◌, List, [], ◌∷◌, ◌++◌, Text, eqb, any,
  if◌then◌else◌,
}

abbrev pub reverse {ℓ} : {A : Type ℓ} → List A → List A
reverse [] = []
reverse (x ∷ xs) = reverse xs ++ x ∷ []

-- A test for the bytes of a set.
abbrev pub is_one_of : Text → ℕ → Bool
is_one_of set c = any (eqb c) set

unfoldable pub contains_any : Text → Text → Bool
contains_any text set = any (is_one_of set) text

unfoldable pub has_prefix : Text → Text → Bool
has_prefix text [] = true
has_prefix [] (p ∷ prefix) = false
has_prefix (c ∷ text) (p ∷ prefix) = eqb c p && has_prefix text prefix

unfoldable pub replace_byte : ℕ → ℕ → Text → Text
replace_byte old new [] = []
replace_byte old new (c ∷ text) = (if eqb c old then new else c) ∷ replace_byte old new text

module _ {ℓ} {A : Type ℓ} where
  reverse-snoc : (xs : List A) (x : A) → reverse (xs ++ x ∷ []) ≡ x ∷ reverse xs
  reverse-snoc [] x = refl
  reverse-snoc (y ∷ ys) x = ap (λ (zs : List A). zs ++ y ∷ []) (reverse-snoc ys x)

  pub reverse-reverse : (xs : List A) → reverse (reverse xs) ≡ xs
  reverse-reverse [] = refl
  reverse-reverse (x ∷ xs) =
      reverse-snoc (reverse xs) x ∙ ap (λ (zs : List A). x ∷ zs) (reverse-reverse xs)

pub has_prefix-append :
    (text prefix : Text) → has_prefix text prefix ≡ true → (rest : Text) × (text ≡ prefix ++ rest)
unfolding has_prefix
has_prefix-append text [] h = (text, refl)
has_prefix-append [] (p ∷ prefix) h = cc h
has_prefix-append (c ∷ text) (p ∷ prefix) h =
    let (rest, e) = has_prefix-append text prefix (ground (arith, h)) in
    (rest, ground (arith, h, e))
