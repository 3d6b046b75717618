-- ===== src/Store/Pairs.antt =====
-- internal/store: the rows of a table before and after an UPDATE, one by one.
use job_dock.Base.{◌≡◌, ap, subst, Bool, true, false, List, [], ◌∷◌, Memᴰ, Bool-cases, inl, inr}
use job_dock.Store.Tables.{update}

module _ {A : Type 0} where
  abbrev pub Rows : (A → A → Type 0) → List A → List A → Type 0
  Rows R [] [] = Unit {0}
  Rows R (a ∷ before) (b ∷ after) = R a b × Rows R before after
  Rows R [] (b ∷ after) = ⊥
  Rows R (a ∷ before) [] = ⊥

  pub update-Rows :
      (R : A → A → Type 0) (test : A → Bool) (set : A → A) (rows : List A)
      → ((a : A) → test a ≡ true → R a (set a))
      → ((a : A) → test a ≡ false → R a a)
      → Rows R rows (update test set rows)
  update-Rows R test set [] hits misses = tt
  update-Rows R test set (a ∷ rows) hits misses =
      let rest = update-Rows R test set rows hits misses in
      elim (Bool-cases (test a)) [
        | inl hit ↦ rw hit (hits a hit, rest)
        | inr miss ↦ rw miss (misses a miss, rest)
      ]

  pub same-Rows : (R : A → A → Type 0) (rows : List A) → ((a : A) → R a a) → Rows R rows rows
  same-Rows R [] same = tt
  same-Rows R (a ∷ rows) same = (same a, same-Rows R rows same)

  -- A row that is set is in the table.
  pub update-Memᴰ :
      (test : A → Bool) (set : A → A) {a : A} (rows : List A)
      → Memᴰ a rows
      → test a ≡ true
      → Memᴰ (set a) (update test set rows)
  update-Memᴰ test set [] m h = elim m [ ]
  update-Memᴰ test set (x ∷ rows) (Memᴰ.head e) h =
      rw (subst (λ y. test y ≡ true) e h) (Memᴰ.head (ap set e))
  update-Memᴰ test set (x ∷ rows) (Memᴰ.tail m) h = Memᴰ.tail (update-Memᴰ test set rows m h)
