-- ===== src/Base/Keys.antt =====
-- Lists in which no two elements have one key, as the rows of a table with a primary key.
use mathlib.Core.Path.{◌≡◌, sym, subst, ap, ◌∙◌}
use mathlib.Core.Bool.{false}
use native.Mathlib.Omega.{arith}
use mathlib.Core.Logic.{◌≢◌}
use mathlib.Core.List.{List, [], ◌∷◌, ◌++◌, map, Memᴰ}
use job_dock.Base.Lists.{All, All-Memᴰ, All-snoc, any}
use job_dock.Base.Strings.{Text, ◌==◌}

module _ {A : Type 0} (key : A → Text) where
  abbrev pub IsKeyedBy : List A → Type 0
  IsKeyedBy [] = Unit {0}
  IsKeyedBy (x ∷ xs) = All (λ (y : A). key y ≢ key x) xs × IsKeyedBy xs

  map-apart :
      (g : A → A) (id : Text) (xs : List A)
      → ((a : A) → key (g a) ≡ key a)
      → All (λ (y : A). key y ≢ id) xs
      → All (λ (y : A). key y ≢ id) (map g xs)
  map-apart g id [] keeps h = tt
  map-apart g id (x ∷ xs) keeps h = ((λ e. h.0 (sym (keeps x) ∙ e)), map-apart g id xs keeps h.1)

  -- An UPDATE that leaves the keys alone.
  pub map-IsKeyedBy :
      (g : A → A) (xs : List A)
      → ((a : A) → key (g a) ≡ key a)
      → IsKeyedBy xs
      → IsKeyedBy (map g xs)
  map-IsKeyedBy g [] keeps k = tt
  map-IsKeyedBy g (x ∷ xs) keeps k = (
    subst (λ i. All (λ (y : A). key y ≢ i) (map g xs)) (sym (keeps x))
        (map-apart g (key x) xs keeps k.0),
    map-IsKeyedBy g xs keeps k.1,
  )

  -- A key belongs to one element.
  pub unique_by_key :
      (xs : List A) (a b : A) → IsKeyedBy xs → Memᴰ a xs → Memᴰ b xs → key a ≡ key b → a ≡ b
  unique_by_key [] a b k i j e = elim i [ ]
  unique_by_key (x ∷ xs) a b k (Memᴰ.head p) (Memᴰ.head q) e = p ∙ sym q
  unique_by_key (x ∷ xs) a b k (Memᴰ.head p) (Memᴰ.tail j) e =
      absurd (All-Memᴰ (λ y. key y ≢ key x) xs k.0 j (sym e ∙ ap key p))
  unique_by_key (x ∷ xs) a b k (Memᴰ.tail i) (Memᴰ.head q) e =
      absurd (All-Memᴰ (λ y. key y ≢ key x) xs k.0 i (e ∙ ap key q))
  unique_by_key (x ∷ xs) a b k (Memᴰ.tail i) (Memᴰ.tail j) e = unique_by_key xs a b k.1 i j e

  -- An INSERT of a new key.
  pub IsKeyedBy-snoc :
      (xs : List A) (y : A)
      → any (λ x. key x == key y) xs ≡ false
      → IsKeyedBy xs
      → IsKeyedBy (xs ++ y ∷ [])
  IsKeyedBy-snoc [] y new k = (tt, tt)
  IsKeyedBy-snoc (x ∷ xs) y new k = (
    All-snoc (λ z. key z ≢ key x) xs y k.0 (λ e. ground (arith, new, e)),
    IsKeyedBy-snoc xs y (ground (arith, new)) k.1,
  )
