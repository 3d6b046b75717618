-- ===== src/Store/Lookup.antt =====
-- Looking a row up after an UPDATE, and the rows that an UPDATE counts.
use job_dock.Base.{
  Memᴰ, IsKeyedBy, All-Memᴰ, inr, inl, Bool-cases, count_if, ◌<◌, ◌≢◌, true, find_if_found, ◌∙◌,
  ◌==◌, ap, Text, Option, ◌≡◌, refl, Bool, List, [], ◌∷◌, some, none, arith, if◌then◌else◌, find_if,
}
use job_dock.Domain.Types.{Job}
use job_dock.Store.Jobs.{job}
use job_dock.Store.Tables.{Db, update}

-- What an UPDATE makes of the row that is looked up.
abbrev pub taken {ℓ} : {A : Type ℓ} → (A → Bool) → (A → A) → Option A → Option A
taken test set none = none
taken test set (some x) = some (if test x then set x else x)

module _ {ℓ} {A : Type ℓ} (p test : A → Bool) (set : A → A) where
  -- The rows keep their keys, so the row found is the one found before, perhaps updated.
  pub find_if-update :
      (xs : List A)
      → ((x : A) → p (set x) ≡ p x)
      → find_if p (update test set xs) ≡ taken test set (find_if p xs)
  unfolding find_if
  find_if-update [] keeps = refl
  find_if-update (x ∷ xs) keeps = ground (arith, keeps x, find_if-update xs keeps)

-- A job after an UPDATE of the table that keeps the names of the jobs.
pub job-update :
    (db db' : Db) (test : Job → Bool) (set : Job → Job) (id : Text)
    → db'.jobs ≡ update test set db.jobs
    → ((j : Job) → (set j).id ≡ j.id)
    → job db' id ≡ taken test set (job db id)
unfolding job
job-update db db' test set id e names =
    ap (find_if (λ (j : Job). j.id == id)) e
    ∙ find_if-update (λ (j : Job). j.id == id) test set db.jobs (λ j. ap (λ i. i == id) (names j))

pub job-named : (db : Db) (id : Text) {j : Job} → job db id ≡ some j → j.id ≡ id
unfolding job
job-named db id {j} e =
    let (_, named) = find_if_found (λ (x : Job). x.id == id) db.jobs e in ground (arith, named)

pub job-Memᴰ : (db : Db) (id : Text) {j : Job} → job db id ≡ some j → Memᴰ j db.jobs
unfolding job
job-Memᴰ db id {j} e = (find_if_found (λ (x : Job). x.id == id) db.jobs e).0

-- The primary key of the table of jobs.
abbrev pub IsKeyed : List Job → Type 0
IsKeyed = IsKeyedBy (λ (j : Job). j.id)

-- With no other row of its name, the row that a test for that name counts is the one looked up.
pub find_if_of_count :
    (id : Text) (test : Job → Bool) (xs : List Job)
    → IsKeyed xs
    → ((j : Job) → test j ≡ true → j.id ≡ id)
    → 0 < count_if test xs
    → (j : Job) × (find_if (λ (x : Job). x.id == id) xs ≡ some j) × (test j ≡ true)
unfolding find_if
find_if_of_count id test [] k own c = elim c [ ]
find_if_of_count id test (x ∷ xs) k own c = elim (Bool-cases (test x)) [
  | inl hit ↦ (x, ground (arith, own x hit), hit)
  | inr miss ↦
      let (j, found, hit) = find_if_of_count id test xs k.1 own (rw miss at c) in
      let (m, _) = find_if_found (λ (y : Job). y.id == id) xs found in
      let other = All-Memᴰ (λ (y : Job). y.id ≢ x.id) xs k.0 m in
      (j, ground (arith, other, own j hit, found), hit)
]
