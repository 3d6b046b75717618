-- ===== src/Store/Agreement.antt =====
-- What `UpdateJobStatus` promises when it reports success.
use job_dock.Store.Evolution.{write_report-cases}
use job_dock.Store.Reports.{
  finished_now, write_report, started_now, update_job_status, written, update_tries,
}
use job_dock.Store.Lookup.{job-named, taken, job-update, find_if_of_count, IsKeyed}
use job_dock.Base.{
  refl, zero, ap, ◌&&◌, ◌∙◌, Bool-cases, subst, inr, inl, Option-cases, arith, suc, count_if, ℕ,
  ◌≡◌, some, Text,
}
use job_dock.Domain.Status.{can_transition, JobStatus}
use job_dock.Domain.Types.{Job}
use job_dock.Store.Tables.{Outcome, done, Db}
use job_dock.Store.Jobs.{◌is◌, reported_job, unchanged, Report, job}

-- The job has the status that was reported, as its status and as the one observed.
pub record Shows (s : JobStatus) (id : Text) (db : Db) : Type 0 where
  pub shown : Job
  pub there : job db id ≡ some shown
  pub status : shown.status ≡ s
  pub observed : shown.observed_status ≡ s

written-Shows :
    (r : Report) (now : Text) (read : Job) (db : Db)
    → IsKeyed db.jobs
    → count_if (unchanged read) db.jobs ≡ 1
    → Shows r.status read.id (written r now read db)
unfolding job
written-Shows r now read db keyed one =
    let (j, found, hit) =
      find_if_of_count read.id (unchanged read) db.jobs keyed (λ x h. ground (arith, h))
        (omega arith) in
    let set = reported_job r (started_now r now read) (finished_now r now) in
    record {
      shown = set j;
      there =
          job-update db (written r now read db) (unchanged read) set read.id refl (λ _. refl)
          ∙ ap (taken (unchanged read) set) found
          ∙ ground (arith, hit);
      status = refl;
      observed = refl;
    }

wrote-Shows :
    (id : Text) (r : Report) (now : Text) (read : Job) (db db' : Db)
    → IsKeyed db.jobs
    → read.id ≡ id
    → (o : Outcome) → write_report r now read db ≡ some (db', o)
    → o ≡ done
    → Shows r.status id db'
wrote-Shows id r now read db db' keyed named o e good =
    let (one, cases) = write_report-cases r now read db db' o e in
    elim cases [
      | inl (_, bad) ↦ cc (bad, good)
      | inr (new, _, _) ↦ rw new (
          subst (λ i. Shows r.status i (written r now read db)) named
            (written-Shows r now read db keyed one))
    ]

module _ (others : ℕ → Db → Db)
    (keeps : (n : ℕ) (db : Db) → IsKeyed db.jobs → IsKeyed (others n db).jobs) where
  update_tries-Shows :
      (id : Text) (r : Report) (now : Text) (n : ℕ) (db : Db)
      → IsKeyed db.jobs
      → (update_tries others id r now n db).1 ≡ done
      → Shows r.status id (update_tries others id r now n db).0
  unfolding update_tries
  update_tries-Shows id r now zero db keyed e = cc e
  update_tries-Shows id r now (suc n) db keyed e = elim (Option-cases (job db id)) [
    | inl absent ↦ cc (rw (absent, update_tries) at e)
    | inr (read, found) ↦
        elim (Bool-cases (read.status is r.status && read.observed_status is r.status)) [
          | inl same ↦
              rw (found, update_tries, same)
                (record {
                  shown = read;
                  there = found;
                  status = ground (arith, same);
                  observed = ground (arith, same);
                })
          | inr differs ↦ elim (Bool-cases (can_transition read.status r.status)) [
            | inr illegal ↦ cc (rw (found, update_tries, differs, illegal) at e)
            | inl legal ↦ elim (Option-cases (write_report r now read (others n db))) [
              | inl lost ↦
                  rw (found, update_tries, differs, legal, lost)
                    (update_tries-Shows id r now n (others n db) (keeps n db keyed)
                      (rw (found, update_tries, differs, legal, lost) at e))
              | inr ((db', o), wrote) ↦
                  rw (found, update_tries, differs, legal, wrote)
                    (wrote-Shows id r now read (others n db) db' (keeps n db keyed)
                      (job-named db id found) o wrote
                      (rw (found, update_tries, differs, legal, wrote) at e))
            ]
          ]
        ]
  ]

  -- When `UpdateJobStatus` returns no error, the job exists and has the reported status, as its
  -- status and as the status observed, whatever other requests commit between its reads and writes
  -- (no two jobs have one name, and the other requests keep it so).
  pub update_job_status-Shows :
      (id : Text) (r : Report) (now : Text) (db : Db)
      → IsKeyed db.jobs
      → (update_job_status others id r now db).1 ≡ done
      → Shows r.status id (update_job_status others id r now db).0
  unfolding update_job_status
  update_job_status-Shows id r now db keyed e = update_tries-Shows id r now 3 db keyed e
