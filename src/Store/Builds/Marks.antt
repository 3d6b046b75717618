-- ===== src/Store/Builds/Marks.antt =====
-- Rows with a key and a mark: which keys have a marked row, and how the statements change that.
use job_dock.Base.{
  ◌≡◌, ◌≢◌, refl, Bool, true, false, not, ◌||◌, ◌&&◌, List, [], ◌∷◌, ◌++◌, Text, All, All-keep,
  keep, any, arith, Bool-cases, ◌==◌, inl, inr, IsKeyedBy,
}
use job_dock.Store.Tables.{update}

module _ {A : Type 0} (key : A → Text) (mark : A → Bool) where
  -- Some row with the key is marked.
  abbrev pub marks : Text → List A → Bool
  marks i rows = any (λ x. key x == i && mark x) rows

  pub marks-snoc :
      (i : Text) (rows : List A) (x : A)
      → marks i (rows ++ x ∷ []) ≡ (marks i rows || (key x == i && mark x))
  marks-snoc i [] x = ground arith
  marks-snoc i (y ∷ rows) x = ground (arith, marks-snoc i rows x)

  pub marks-keep :
      (i id : Text) (rows : List A)
      → marks i (keep (λ x. not (key x == id)) rows) ≡ (marks i rows && not (id == i))
  marks-keep i id [] = refl
  marks-keep i id (x ∷ rows) = ground (arith, marks-keep i id rows)

  module _ (test : A → Bool) (set : A → A) where
    -- The rows that are set keep their key and their mark.
    pub marks-kept :
        (i : Text) (rows : List A)
        → All (λ x. test x ≡ true → (key (set x) ≡ key x) × (mark (set x) ≡ mark x)) rows
        → marks i (update test set rows) ≡ marks i rows
    marks-kept i [] h = refl
    marks-kept i (x ∷ rows) h = elim (Bool-cases (test x)) [
      | inl hit ↦ let (k, m) = h.0 hit in rw (hit, k, m, marks-kept i rows h.1) refl
      | inr miss ↦ rw (miss, marks-kept i rows h.1) refl
    ]

    -- The rows that are set have the key `id` and lose their mark, and so do all marked rows with it.
    pub marks-off :
        (id i : Text) (rows : List A)
        → All
            (λ x.
              (test x ≡ true → (key x ≡ id) × (key (set x) ≡ id) × (mark (set x) ≡ false))
              × (test x ≡ false → key x ≡ id → mark x ≡ false))
            rows
        → marks i (update test set rows) ≡ (marks i rows && not (id == i))
    marks-off id i [] h = refl
    marks-off id i (x ∷ rows) h =
        let rest = marks-off id i rows h.1 in
        elim (Bool-cases (test x)) [
          | inl hit ↦
              let (was, is, off) = h.0.0 hit in rw (hit, is, off, was) (ground (arith, rest))
          | inr miss ↦ rw miss (ground (arith, rest, h.0.1 miss))
        ]

    -- The rows that are set, of which there is one, have the key `id` and get a mark.
    pub marks-on :
        (id i : Text) (rows : List A)
        → ((x : A) → test x ≡ true → (key x ≡ id) × (key (set x) ≡ id) × (mark (set x) ≡ true))
        → marks i (update test set rows) ≡ (marks i rows || (any test rows && (id == i)))
    marks-on id i [] h = refl
    marks-on id i (x ∷ rows) h =
        let rest = marks-on id i rows h in
        elim (Bool-cases (test x)) [
          | inl hit ↦ let (was, is, on) = h x hit in rw (hit, is, on, was) (ground (arith, rest))
          | inr miss ↦ rw miss (ground (arith, rest))
        ]

pub keep-IsKeyedBy :
    {A : Type 0} (key : A → Text) (test : A → Bool) (rows : List A)
    → IsKeyedBy key rows
    → IsKeyedBy key (keep test rows)
keep-IsKeyedBy key test [] k = tt
keep-IsKeyedBy key test (x ∷ rows) k = elim (Bool-cases (test x)) [
  | inl hit ↦ rw hit (All-keep (λ y. key y ≢ key x) test rows k.0, keep-IsKeyedBy key test rows k.1)
  | inr miss ↦ rw miss (keep-IsKeyedBy key test rows k.1)
]
