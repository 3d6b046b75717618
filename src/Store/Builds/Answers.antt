-- ===== src/Store/Builds/Answers.antt =====
-- Transactions and the answers of their steps.
use job_dock.Base.{inr, inl, ◌⊎◌, ◌≡◌, refl, Bool, true, false, Option, none, some}
use job_dock.Domain.Validation.{Invalid}
use job_dock.Store.Builds.{
  BuildDb, BuildError, Answer, ok, err, ◌>>=◌, ◌>>◌, require, valid, found, transaction,
}

-- What holds of the database before, and after every success, holds after a transaction.
pub transaction-keeps {ℓ κ} :
    {A : Type ℓ} (P : BuildDb → Type κ) (db : BuildDb) (m : Answer (BuildDb × A))
    → P db
    → ((db' : BuildDb) (a : A) → m ≡ ok (db', a) → P db')
    → P (transaction db m).0
unfolding transaction
transaction-keeps P db (ok (db', a)) before after = after db' a refl
transaction-keeps P db (err e) before after = before

pub transaction-ok {ℓ} :
    {A : Type ℓ} (db db' : BuildDb) (m : Answer (BuildDb × A)) (a : A)
    → transaction db m ≡ (db', ok a)
    → m ≡ ok (db', a)
unfolding transaction
transaction-ok db db' (ok (db2, b)) a e = cc
transaction-ok db db' (err x) a e = cc

pub transaction-err {ℓ} :
    {A : Type ℓ} (db db' : BuildDb) (m : Answer (BuildDb × A)) (x : BuildError)
    → transaction db m ≡ (db', err x)
    → db' ≡ db
unfolding transaction
transaction-err db db' (ok (db2, b)) a e = cc
transaction-err db db' (err x) a e = cc

module _ {ℓ κ} {A : Type ℓ} {B : Type κ} where
  pub >>=-ok :
      (m : Answer A) (f : A → Answer B) {b : B}
      → (m >>= f) ≡ ok b
      → (a : A) × (m ≡ ok a) × (f a ≡ ok b)
  >>=-ok (ok a) f h = (a, refl, h)
  >>=-ok (err e) f h = cc

pub require-ok {κ} :
    {B : Type κ} (test : Bool) (x : BuildError) (m : Answer B) {b : B}
    → (require test x >> m) ≡ ok b
    → (test ≡ true) × (m ≡ ok b)
require-ok true x m h = (refl, h)
require-ok false x m h = cc

pub valid-ok {κ} :
    {B : Type κ} (check : Option Invalid) (m : Answer B) {b : B}
    → (valid check >> m) ≡ ok b
    → (check ≡ none) × (m ≡ ok b)
valid-ok none m h = (refl, h)
valid-ok (some x) m h = cc

pub found-ok {ℓ} :
    {A : Type ℓ} (o : Option A) (x : BuildError) {a : A} → found o x ≡ ok a → o ≡ some a
found-ok none x h = cc
found-ok (some a) x h = cc

pub Answer-cases {ℓ} :
    {A : Type ℓ} (m : Answer A) → ((a : A) × (m ≡ ok a)) ⊎ ((x : BuildError) × (m ≡ err x))
Answer-cases (ok a) = inl (a, refl)
Answer-cases (err x) = inr (x, refl)

-- The database of an answer that only reads back a row.
pub read_back-ok {ℓ} :
    {A : Type ℓ} (d : BuildDb) (m : Answer A) (d' : BuildDb) (a : A)
    → ◌>>=◌ {B = BuildDb × A} m (λ b. ok (d, b)) ≡ ok (d', a)
    → d ≡ d'
read_back-ok d (ok b) d' a e = cc e
read_back-ok d (err x) d' a e = cc
