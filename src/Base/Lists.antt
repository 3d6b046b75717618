-- ===== src/Base/Lists.antt =====
-- Lists measured by native numbers, Boolean search, and predicates by recursion.
use Prim.Native.Nat.{ℕ, suc, ◌+◌, ◌≤◌}
use mathlib.Core.Path.{◌≡◌, refl, sym, subst}
use mathlib.Core.Bool.{Bool, true, false, ◌||◌, ◌&&◌}
use mathlib.Core.List.{List, [], ◌∷◌, ◌++◌, Memᴰ}
use native.Mathlib.Omega.{arith}
use mathlib.Core.Logic.{inl, inr, ◌≢◌}
use mathlib.Core.Option.{Option, none, some}
use job_dock.Base.Tests.{if◌then◌else◌, Bool-cases}

module _ {ℓ} {A : Type ℓ} where
  abbrev pub length : List A → ℕ
  length [] = 0
  length (x ∷ xs) = suc (length xs)

  pub length-append : (xs ys : List A) → length (xs ++ ys) ≡ length xs + length ys
  length-append [] ys = omega arith
  length-append (x ∷ xs) ys = omega (arith, length-append xs ys)

  abbrev pub is_empty : List A → Bool
  is_empty [] = true
  is_empty (_ ∷ _) = false

  pub is_empty_of_ne : (xs : List A) → xs ≢ [] → is_empty xs ≡ false
  is_empty_of_ne [] h = absurd (h refl)
  is_empty_of_ne (x ∷ xs) h = refl

  pub eq_nil_of_is_empty : (xs : List A) → is_empty xs ≡ true → xs ≡ []
  eq_nil_of_is_empty [] h = refl
  eq_nil_of_is_empty (x ∷ xs) h = cc

  -- The elements that a test keeps. (The library's `filter` wants a decision.)
  abbrev pub keep : (A → Bool) → List A → List A
  keep p [] = []
  keep p (x ∷ xs) = let rest = keep p xs in if p x then x ∷ rest else rest

  -- How many elements a test accepts.
  abbrev pub count_if : (A → Bool) → List A → ℕ
  count_if p [] = 0
  count_if p (x ∷ xs) = let rest = count_if p xs in if p x then suc rest else rest

  pub count_if-le-length : (p : A → Bool) (xs : List A) → count_if p xs ≤ length xs
  count_if-le-length p [] = omega arith
  count_if-le-length p (x ∷ xs) = ground (arith, count_if-le-length p xs)

  abbrev pub any : (A → Bool) → List A → Bool
  any p [] = false
  any p (x ∷ xs) = p x || any p xs

  abbrev pub All {κ} : (A → Type κ) → List A → Type κ
  All P [] = Unit
  All P (x ∷ xs) = P x × All P xs

module _ {ℓ κ} {A : Type ℓ} (P : A → Type κ) where
  pub All-Memᴰ : {a : A} (xs : List A) → All P xs → Memᴰ a xs → P a
  All-Memᴰ [] h m = elim m [ ]
  All-Memᴰ (x ∷ xs) h (Memᴰ.head e) = subst P (sym e) h.0
  All-Memᴰ (x ∷ xs) h (Memᴰ.tail m) = All-Memᴰ xs h.1 m

  pub All-snoc : (xs : List A) (x : A) → All P xs → P x → All P (xs ++ x ∷ [])
  All-snoc [] x h p = (p, tt)
  All-snoc (y ∷ ys) x h p = (h.0, All-snoc ys x h.1 p)

  pub All-map {μ} : (Q : A → Type μ) (xs : List A) → ((a : A) → P a → Q a) → All P xs → All Q xs
  All-map Q [] f h = tt
  All-map Q (x ∷ xs) f h = (f x h.0, All-map Q xs f h.1)

  pub All-keep : (p : A → Bool) (xs : List A) → All P xs → All P (keep p xs)
  All-keep p [] h = tt
  All-keep p (x ∷ xs) h = elim (Bool-cases (p x)) [
    | inl hit ↦ rw hit (h.0, All-keep p xs h.1)
    | inr miss ↦ rw miss (All-keep p xs h.1)
  ]

  pub All-append : (xs ys : List A) → All P xs → All P ys → All P (xs ++ ys)
  All-append [] ys h k = k
  All-append (x ∷ xs) ys h k = (h.0, All-append xs ys h.1 k)

pub All-here {ℓ} : {A : Type ℓ} (xs : List A) → All (λ x. Memᴰ x xs) xs
All-here [] = tt
All-here (x ∷ xs) = (
  Memᴰ.head refl,
  All-map (λ y. Memᴰ y xs) (λ y. Memᴰ y (x ∷ xs)) xs (λ _ m. Memᴰ.tail m) (All-here xs),
)

pub keep-All {ℓ} : {A : Type ℓ} (p : A → Bool) (xs : List A) → All (λ x. p x ≡ true) (keep p xs)
keep-All p [] = tt
keep-All p (x ∷ xs) = elim (Bool-cases (p x)) [
  | inl hit ↦ rw hit (hit, keep-All p xs)
  | inr miss ↦ rw miss (keep-All p xs)
]

pub Memᴰ-keep {ℓ} :
    {A : Type ℓ} (p : A → Bool) {a : A} (xs : List A) → Memᴰ a (keep p xs) → Memᴰ a xs
Memᴰ-keep p xs m =
    All-Memᴰ (λ x. Memᴰ x xs) (keep p xs) (All-keep (λ x. Memᴰ x xs) p xs (All-here xs)) m

module _ {ℓ} {A : Type ℓ} (p : A → Bool) where
  -- The first element that a test accepts.
  unfoldable pub find_if : List A → Option A
  find_if [] = none
  find_if (x ∷ xs) = if p x then some x else find_if xs

  pub find_if_found : (xs : List A) {a : A} → find_if xs ≡ some a → Memᴰ a xs × (p a ≡ true)
  unfolding find_if
  find_if_found [] e = ground arith
  find_if_found (x ∷ xs) {a} e = elim (Bool-cases (p x)) [
    | inl hit ↦
        let same : x ≡ a = ground arith in (Memᴰ.head (sym same), subst (λ y. p y ≡ true) same hit)
    | inr miss ↦ let (m, t) = find_if_found xs (rw (miss, find_if) at e) in (Memᴰ.tail m, t)
  ]

  pub find_if-none : (xs : List A) → find_if xs ≡ none → All (λ x. p x ≡ false) xs
  unfolding find_if
  find_if-none [] e = tt
  find_if-none (x ∷ xs) e = ground (arith, find_if-none xs)

pub any-found {ℓ} :
    {A : Type ℓ} (p : A → Bool) (xs : List A) → any p xs ≡ true → (a : A) × Memᴰ a xs × (p a ≡ true)
any-found p [] h = cc h
any-found p (x ∷ xs) h = elim (Bool-cases (p x)) [
  | inl hit ↦ (x, Memᴰ.head refl, hit)
  | inr miss ↦ let (a, m, e) = any-found p xs (ground (arith, h, miss)) in (a, Memᴰ.tail m, e)
]

pub any-Memᴰ {ℓ} :
    {A : Type ℓ} (p : A → Bool) {a : A} (xs : List A) → Memᴰ a xs → p a ≡ true → any p xs ≡ true
any-Memᴰ p [] m h = elim m [ ]
any-Memᴰ p (x ∷ xs) (Memᴰ.head e) h = let here = subst (λ y. p y ≡ true) e h in ground (arith, here)
any-Memᴰ p (x ∷ xs) (Memᴰ.tail m) h = ground (arith, any-Memᴰ p xs m h)

pub Memᴰ-kept {ℓ} :
    {A : Type ℓ} (p : A → Bool) {a : A} (xs : List A) → Memᴰ a xs → p a ≡ true → Memᴰ a (keep p xs)
Memᴰ-kept p [] m h = elim m [ ]
Memᴰ-kept p (x ∷ xs) (Memᴰ.head e) h = rw (subst (λ y. p y ≡ true) e h) (Memᴰ.head e)
Memᴰ-kept p (x ∷ xs) (Memᴰ.tail m) h = elim (Bool-cases (p x)) [
  | inl hit ↦ rw hit (Memᴰ.tail (Memᴰ-kept p xs m h))
  | inr miss ↦ rw miss (Memᴰ-kept p xs m h)
]

pub keep_same {ℓ} :
    {A : Type ℓ} (p q : A → Bool) (xs : List A) → All (λ x. p x ≡ q x) xs → keep p xs ≡ keep q xs
keep_same p q [] h = refl
keep_same p q (x ∷ xs) h = rw (h.0, keep_same p q xs h.1) refl

pub keep-keep {ℓ} :
    {A : Type ℓ} (p q : A → Bool) (xs : List A) → keep p (keep q xs) ≡ keep (λ x. q x && p x) xs
keep-keep p q [] = refl
keep-keep p q (x ∷ xs) = ground (arith, keep-keep p q xs)

pub keep-all {ℓ} :
    {A : Type ℓ} (p : A → Bool) (xs : List A) → All (λ x. p x ≡ true) xs → keep p xs ≡ xs
keep-all p [] h = refl
keep-all p (x ∷ xs) h = rw (h.0, keep-all p xs h.1) refl
