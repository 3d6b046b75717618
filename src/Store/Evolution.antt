-- ===== src/Store/Evolution.antt =====
-- How the operations move the status of a job.
use job_dock.Base.{
  ◌&&◌, eqb_iff, ap, eqb, ◌∙◌, ℕ, zero, suc, ◌≡◌, refl, ◌⊎◌, inl, inr, Bool, true, some, arith,
  if◌then◌else◌, Text, Bool-cases, Option-cases, count_if,
}
use job_dock.Domain.Status.{JobStatus, can_transition}
use job_dock.Domain.Status.Lifecycle.{◌⟶*◌, stay, move}
use job_dock.Domain.Types.{Job}
use job_dock.Store.Tables.{conflict, Db, Outcome, done, update}
use job_dock.Store.Jobs.{◌is◌, job, Report, unchanged, reported_job}
use job_dock.Store.Reports.{
  written, current_attempt, write_report, update_tries, update_job_status, started_now,
  finished_now,
}
use job_dock.Store.Lookup.{taken, job-update}

-- Every job is still there, and its status has moved along permitted changes only.
abbrev pub Evolves : Db → Db → Type 0
Evolves db db' =
    (id : Text) (j : Job)
    → job db id ≡ some j
    → (j' : Job) × (job db' id ≡ some j') × (j.status ⟶* j'.status)

pub Evolves-refl : (db : Db) → Evolves db db
Evolves-refl db id j e = (j, e, stay)

⟶*-trans : {s t u : JobStatus} → s ⟶* t → t ⟶* u → s ⟶* u
⟶*-trans stay r = r
⟶*-trans (move h q) r = move h (⟶*-trans q r)

pub Evolves-trans : (a b c : Db) → Evolves a b → Evolves b c → Evolves a c
Evolves-trans a b c f g id j e =
    let (j', e', p) = f id j e in let (j'', e'', q) = g id j' e' in (j'', e'', ⟶*-trans p q)

-- An UPDATE of jobs that keeps their names, and moves the status of what it takes by the table.
pub Evolves-update :
    (db db' : Db) (test : Job → Bool) (set : Job → Job)
    → db'.jobs ≡ update test set db.jobs
    → ((j : Job) → (set j).id ≡ j.id)
    → ((j : Job) → test j ≡ true → can_transition j.status (set j).status ≡ true)
    → Evolves db db'
Evolves-update db db' test set e names moves id j found =
    let now : job db' id ≡ some (if test j then set j else j) =
      job-update db db' test set id e names ∙ ap (taken test set) found in
    elim (Bool-cases (test j)) [
      | inl hit ↦ (set j, rw hit at now, move (moves j hit) stay)
      | inr miss ↦ (j, rw miss at now, stay)
    ]

-- A try that ends the loop has found the job as it was read, and writes all or nothing.
pub write_report-cases :
    (r : Report) (now : Text) (read : Job) (db db' : Db) (o : Outcome)
    → write_report r now read db ≡ some (db', o)
    → (count_if (unchanged read) db.jobs ≡ 1)
      × ((db' ≡ db) × (o ≡ Outcome.failed conflict)
          ⊎ (db' ≡ written r now read db)
            × (o ≡ done)
            × (count_if (current_attempt read) db.attempts ≡ 1))
unfolding write_report
write_report-cases r now read db db' o e =
    elim (Bool-cases (eqb (count_if (unchanged read) db.jobs) 1)) [
      | inr miss ↦ cc (rw (miss, write_report) at e)
      | inl hit ↦ elim (Bool-cases (eqb (count_if (current_attempt read) db.attempts) 1)) [
        | inr orphan ↦
            let e1 = rw (hit, write_report, orphan) at e in
            ((eqb_iff _ 1).0 hit, inl (cc e1, cc e1))
        | inl owned ↦
            let e1 = rw (hit, write_report, owned) at e in
            ((eqb_iff _ 1).0 hit, inr (cc e1, cc e1, (eqb_iff _ 1).0 owned))
      ]
    ]

written-Evolves :
    (r : Report) (now : Text) (read : Job) (db : Db)
    → can_transition read.status r.status ≡ true
    → Evolves db (written r now read db)
written-Evolves r now read db legal =
    Evolves-update db (written r now read db) (unchanged read)
      (reported_job r (started_now r now read) (finished_now r now)) refl (λ _. refl)
      (λ j hit. ground (arith, hit))

write_report-Evolves :
    (r : Report) (now : Text) (read : Job) (db db' : Db) (o : Outcome)
    → can_transition read.status r.status ≡ true
    → write_report r now read db ≡ some (db', o)
    → Evolves db db'
write_report-Evolves r now read db db' o legal e =
    elim (write_report-cases r now read db db' o e).1 [
      | inl (same, _) ↦ rw same (Evolves-refl db)
      | inr (new, _, _) ↦ rw new (written-Evolves r now read db legal)
    ]

-- What other requests commit in between lets jobs evolve.
module _ (others : ℕ → Db → Db) (rely : (n : ℕ) (db : Db) → Evolves db (others n db)) where
  update_tries-Evolves :
      (id : Text) (r : Report) (now : Text) (n : ℕ) (db : Db)
      → Evolves db (update_tries others id r now n db).0
  unfolding update_tries
  update_tries-Evolves id r now zero db = Evolves-refl db
  update_tries-Evolves id r now (suc n) db = elim (Option-cases (job db id)) [
    | inl absent ↦ rw (absent, update_tries) (Evolves-refl db)
    | inr (read, found) ↦
        elim (Bool-cases (read.status is r.status && read.observed_status is r.status)) [
          | inl same ↦ rw (found, update_tries, same) (Evolves-refl db)
          | inr differs ↦ elim (Bool-cases (can_transition read.status r.status)) [
            | inr illegal ↦ rw (found, update_tries, differs, illegal) (Evolves-refl db)
            | inl legal ↦ elim (Option-cases (write_report r now read (others n db))) [
              | inl lost ↦
                  rw (found, update_tries, differs, legal, lost)
                    (Evolves-trans db (others n db) _ (rely n db)
                      (update_tries-Evolves id r now n (others n db)))
              | inr ((db', o), wrote) ↦
                  rw (found, update_tries, differs, legal, wrote)
                    (Evolves-trans db (others n db) db' (rely n db)
                      (write_report-Evolves r now read (others n db) db' o legal wrote))
            ]
          ]
        ]
  ]

  -- A report, interleaved with other requests that move jobs by permitted changes only and lose none,
  -- moves every job by permitted changes only and loses none.
  pub update_job_status-Evolves :
      (id : Text) (r : Report) (now : Text) (db : Db)
      → Evolves db (update_job_status others id r now db).0
  unfolding update_job_status
  update_job_status-Evolves id r now db = update_tries-Evolves id r now 3 db
