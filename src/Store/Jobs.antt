-- ===== src/Store/Jobs.antt =====
-- internal/store/store.go: the lifecycle of a job. A method that runs in one transaction, or as one
-- statement, is a function from the database to the database and the outcome, and leaves the
-- database alone when it fails. A method that reads first and writes later lets other requests
-- commit in between: `others n` is what they do before its n-th write. Errors of the driver are not
-- modelled, nor the JSON and time codecs, through which a row comes back as it was written.
use job_dock.Base.{
  ℕ, ◌+◌, Bool, true, false, not, ◌&&◌, ◌||◌, List, [], Option, some, none, if◌then◌else◌, Text,
  ◌==◌, codes, count_if, eqb, find_if, is_empty, holds, ◌++◌, Int64,
}
use job_dock.Domain.Status.{
  JobStatus, queued, assigned, running, cancelled, succeeded, failed, JobStatus-discrete,
}
use job_dock.Domain.Types.{Job}
use job_dock.Store.Tables.{
  Attempt, Assignment, JobEvent, Db, Outcome, done, conflict, constraint, update, max_of,
  unless_empty, coalesce, insert_attempt, insert_assignment, insert_event,
}

infix 50 ◌is◌
abbrev pub ◌is◌ : JobStatus → JobStatus → Bool
s is t = holds (JobStatus-discrete s t)

unfoldable pub job : Db → Text → Option Job
job db id = find_if (λ (j : Job). j.id == id) db.jobs

-- Transactions: a failure leaves the database as it was.
abbrev pub commit : Db → Option Db → Db × Outcome
commit db none = (db, Outcome.failed constraint)
commit db (some db') = (db', done)

infixl 5 ◌>>=◌
abbrev pub ◌>>=◌ : Option Db → (Db → Option Db) → Option Db
none >>= f = none
some db >>= f = f db

-- What the scheduler reserves for a job.
pub record Reservation : Type 0 where
  pub job_id : Text
  pub node_id : Text
  pub attempt_id : Text
  pub assignment_id : Text
  pub job_token_hash : Text
  pub job_token_ciphertext : Text
  pub gpu_uuids : List Text
  pub cpu_package_id : Text
  pub cpu_set : Text

abbrev pub waits : Text → Job → Bool
waits id j = j.id == id && j.status is queued

-- The rows that `ReserveJobWithAffinity` writes.
abbrev pub assigned_job : Reservation → Job → Job
assigned_job r j = record j {
  status = assigned;
  desired_status = running;
  assigned_node_id = r.node_id;
  attempt_id = r.attempt_id;
  queue_reason_code = [];
  queue_reason = [];
  version = j.version + 1;
}

abbrev pub new_attempt : Reservation → Text → Db → Attempt
new_attempt r now db = record {
  id = r.attempt_id;
  job_id = r.job_id;
  attempt_number =
      max_of (λ (a : Attempt). a.job_id == r.job_id) (λ a. a.attempt_number) db.attempts + 1;
  node_id = r.node_id;
  assignment_id = r.assignment_id;
  container_id = [];
  cpu_package_id = r.cpu_package_id;
  gpu_uuids = r.gpu_uuids;
  status = assigned;
  job_token_hash = r.job_token_hash;
  image_digest = [];
  exit_code = none;
  failure_reason = [];
  outputs = [];
  created_at = now;
  started_at = none;
  finished_at = none;
}

abbrev pub new_assignment : Reservation → Text → Assignment
new_assignment r now = record {
  id = r.assignment_id;
  job_id = r.job_id;
  attempt_id = r.attempt_id;
  node_id = r.node_id;
  gpu_uuids = r.gpu_uuids;
  job_token_ciphertext = r.job_token_ciphertext;
  delivered_at = none;
  accepted_at = none;
  created_at = now;
  cpu_package_id = r.cpu_package_id;
  cpu_set = r.cpu_set;
}

abbrev pub next_sequence : Text → Db → ℕ
next_sequence id db = max_of (λ (e : JobEvent). e.job_id == id) (λ e. e.sequence) db.events + 1

abbrev pub assigned_event : Reservation → Text → Db → JobEvent
assigned_event r now db = record {
  job_id = r.job_id;
  attempt_id = r.attempt_id;
  sequence = next_sequence r.job_id db;
  kind = codes "assigned";
  status = some assigned;
  payload = codes "{}";
  created_at = now;
}

unfoldable pub reserve : Reservation → Text → Db → Db × Outcome
reserve r now db =
    if not (eqb (count_if (waits r.job_id) db.jobs) 1)
    then (db, Outcome.failed conflict)
    else let claimed = record db { jobs = update (waits r.job_id) (assigned_job r) db.jobs } in
      commit db (
        insert_attempt (new_attempt r now claimed) claimed
        >>= insert_assignment (new_assignment r now)
        >>= λ db'. insert_event (assigned_event r now db') db')

-- A status report: the new status and what came with it.
pub record Report : Type 0 where
  pub status : JobStatus
  pub exit_code : Option Int64
  pub image_digest : Text
  pub reason : Text

abbrev pub is_final : JobStatus → Bool
is_final s = s is succeeded || s is failed || s is cancelled

abbrev pub when : Bool → Text → Option Text
when true now = some now
when false now = none

-- The row that the compare-and-swap of `UpdateJobStatus` looks for: NULL equals no attempt.
abbrev pub unchanged : Job → Job → Bool
unchanged read j =
    j.id == read.id
    && j.status is read.status
    && not (is_empty j.attempt_id)
    && j.attempt_id == read.attempt_id

abbrev pub reported_job : Report → Option Text → Option Text → Job → Job
reported_job r started finished j = record j {
  status = r.status;
  observed_status = r.status;
  exit_code = coalesce r.exit_code j.exit_code;
  image_digest = unless_empty r.image_digest j.image_digest;
  failure_reason = unless_empty r.reason j.failure_reason;
  started_at = coalesce started j.started_at;
  finished_at = coalesce finished j.finished_at;
  version = j.version + 1;
}

abbrev pub reported_attempt : Report → Option Text → Option Text → Attempt → Attempt
reported_attempt r started finished a = record a {
  status = r.status;
  exit_code = coalesce r.exit_code a.exit_code;
  image_digest = unless_empty r.image_digest a.image_digest;
  failure_reason = unless_empty r.reason a.failure_reason;
  started_at = coalesce started a.started_at;
  finished_at = coalesce finished a.finished_at;
  job_token_hash = if is_final r.status then codes "revoked:" ++ a.id else a.job_token_hash;
}

abbrev pub is_missing : Option Text → Bool
is_missing none = true
is_missing (some _) = false
