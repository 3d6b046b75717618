-- ===== src/Store/Reports.antt =====
-- internal/store/store.go, `UpdateJobStatus`: a report from an agent is written by a
-- compare-and-swap on what was read, which is tried three times.
use job_dock.Base.{
  ℕ, zero, suc, Bool, not, ◌&&◌, Option, some, none, if◌then◌else◌, Text, ◌==◌, count_if, eqb,
}
use job_dock.Domain.Status.{running, can_transition}
use job_dock.Domain.Types.{Job}
use job_dock.Store.Tables.{Attempt, Db, Outcome, done, not_found, conflict, update}
use job_dock.Store.Jobs.{
  job, Report, is_final, when, unchanged, reported_job, reported_attempt, is_missing, ◌is◌,
}

abbrev pub current_attempt : Job → Attempt → Bool
current_attempt read a = a.id == read.attempt_id && a.job_id == read.id

abbrev pub started_now : Report → Text → Job → Option Text
started_now r now read = when (r.status is running && is_missing read.started_at) now

abbrev pub finished_now : Report → Text → Option Text
finished_now r now = when (is_final r.status) now

-- The database with the report on the job and on its current attempt.
abbrev pub written : Report → Text → Job → Db → Db
written r now read db =
    let started = started_now r now read in
    let finished = finished_now r now in
    record db {
      jobs = update (unchanged read) (reported_job r started finished) db.jobs;
      attempts = update (current_attempt read) (reported_attempt r started finished) db.attempts;
    }

-- The transaction. `none`: the swap found another row, and is rolled back and tried again.
unfoldable pub write_report : Report → Text → Job → Db → Option (Db × Outcome)
write_report r now read db =
    if not (eqb (count_if (unchanged read) db.jobs) 1)
    then none
    else if not (eqb (count_if (current_attempt read) db.attempts) 1)
    then some (db, Outcome.failed conflict)
    else some (written r now read db, done)

-- The loop, by the tries left. `others n` commits between the read and the write of a try.
unfoldable pub update_tries :
    (others : ℕ → Db → Db) (id : Text) (r : Report) (now : Text) → ℕ → Db → Db × Outcome
update_tries others id r now zero db = (db, Outcome.failed conflict)
update_tries others id r now (suc n) db = elim (job db id) [
  | none ↦ (db, Outcome.failed not_found)
  | some read ↦
      if read.status is r.status && read.observed_status is r.status
      then (db, done)
      else if not (can_transition read.status r.status)
      then (db, Outcome.failed conflict)
      else elim (write_report r now read (others n db)) [
        | some result ↦ result
        | none ↦ update_tries others id r now n (others n db)
      ]
]

unfoldable pub update_job_status : (others : ℕ → Db → Db) → Text → Report → Text → Db → Db × Outcome
unfolding update_tries
update_job_status others id r now db = update_tries others id r now 3 db
