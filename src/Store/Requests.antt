-- ===== src/Store/Requests.antt =====
-- internal/store/store.go: what users and the control plane ask of a job.
use job_dock.Base.{
  ◌∷◌, ◌++◌, any, ℕ, ◌+◌, Bool, true, false, not, ◌&&◌, ◌||◌, [], some, none, if◌then◌else◌, Text,
  ◌==◌, count_if, eqb, is_empty,
}
use job_dock.Domain.Status.{
  JobStatus, queued, assigned, pulling_image, starting, running, stopping, cancelled, lost,
  deleting, deleted, is_active,
}
use job_dock.Domain.Types.{Job, JobSpec}
use job_dock.Store.Tables.{
  coalesce, Assignment, constraint, Attempt, Db, Outcome, done, not_found, conflict, update,
}
use job_dock.Store.Jobs.{job, ◌is◌, waits, is_final}

-- The statements on one job.
abbrev pub has_id : Text → Job → Bool
has_id id j = j.id == id

unfoldable pub set_queue_reason : Text → Text → Text → Db → Db × Outcome
set_queue_reason id code message db = (
  record db {
    jobs =
        update (waits id)
          (λ j. record j {
            queue_reason_code = code;
            queue_reason = message;
            version = j.version + 1;
          })
          db.jobs;
  },
  done,
)

-- The row of a new job: the columns that `CreateJob` does not name are NULL or have defaults.
abbrev pub new_row : Job → Job
new_row j = record j {
  assigned_node_id = [];
  attempt_id = [];
  image_digest = [];
  exit_code = none;
  queue_reason_code = [];
  queue_reason = [];
  failure_reason = [];
  started_at = none;
  finished_at = none;
  deleted_at = none;
  version = 1;
}

-- The reference to the owner is not checked here: users are not part of this database.
unfoldable pub create_job : Job → Db → Db × Outcome
create_job j db =
    if any (λ (i : Job). i.id == j.id) db.jobs
    then (db, Outcome.failed constraint)
    else (record db { jobs = db.jobs ++ new_row j ∷ [] }, done)

abbrev pub ended : Text → Job → Bool
ended id j = j.id == id && is_final j.status

abbrev pub rerun_row : Job → Job
rerun_row j = record j {
  status = queued;
  desired_status = running;
  observed_status = queued;
  assigned_node_id = [];
  attempt_id = [];
  image_digest = [];
  exit_code = none;
  queue_reason_code = [];
  queue_reason = [];
  failure_reason = [];
  started_at = none;
  finished_at = none;
  version = j.version + 1;
}

unfoldable pub rerun_job : Text → Db → Db × Outcome
rerun_job id db =
    if not (eqb (count_if (ended id) db.jobs) 1)
    then (db, Outcome.failed conflict)
    else (record db { jobs = update (ended id) rerun_row db.jobs }, done)

abbrev pub cancelled_row : Text → Job → Job
cancelled_row now j = record j {
  status = cancelled;
  desired_status = cancelled;
  observed_status = cancelled;
  finished_at = some now;
  version = j.version + 1;
}

abbrev pub stopping_row : Job → Job
stopping_row j = record j { status = stopping; desired_status = cancelled; version = j.version + 1 }

abbrev pub is_stoppable : JobStatus → Bool
is_stoppable assigned = true
is_stoppable pulling_image = true
is_stoppable starting = true
is_stoppable running = true
is_stoppable lost = true
is_stoppable _ = false

unfoldable pub stop_attempt : Job → Db → Db
stop_attempt read db = if is_empty read.attempt_id then db else record db {
  attempts =
      update (λ (a : Attempt). a.id == read.attempt_id && a.job_id == read.id)
        (λ a. record a { status = stopping }) db.attempts;
}

-- `RequestStop`: `others` is what commits between the read, the first write and the second.
unfoldable pub request_stop : (others : ℕ → Db → Db) → Text → Text → Db → Db × Outcome
request_stop others id now db = elim (job db id) [
  | none ↦ (db, Outcome.failed not_found)
  | some read ↦
      let db1 = others 0 db in
      if read.status is queued
      then (record db1 { jobs = update (waits id) (cancelled_row now) db1.jobs }, done)
      else if is_stoppable read.status
      then (
        stop_attempt read
            (others 1 (record db1 { jobs = update (has_id id) stopping_row db1.jobs })),
        done,
      )
      else (db, Outcome.failed conflict)
]

abbrev pub accepted_row : Text → Assignment → Assignment
accepted_row now a = record a { accepted_at = coalesce a.accepted_at (some now) }

abbrev pub starting_attempt : Text → Attempt → Attempt
starting_attempt container_id a = record a { container_id = container_id; status = starting }

-- `AcceptAssignment`: the agent of the node has created the container.
unfoldable pub accept_assignment :
    (node_id assignment_id container_id now : Text) → Db → Db × Outcome
accept_assignment node_id assignment_id container_id now db =
    let named = λ (a : Assignment). a.id == assignment_id && a.node_id == node_id in
    if eqb (count_if named db.assignments) 0 then (db, Outcome.failed not_found) else (
      record db {
        assignments = update named (accepted_row now) db.assignments;
        attempts =
            update (λ (a : Attempt). a.assignment_id == assignment_id)
              (starting_attempt container_id) db.attempts;
      },
      done,
    )

abbrev pub deleting_row : Job → Job
deleting_row j = record j { status = deleting; desired_status = deleting; version = j.version + 1 }

unfoldable pub mark_deleting : (others : Db → Db) → Text → Db → Db × Outcome
mark_deleting others id db = elim (job db id) [
  | none ↦ (db, Outcome.failed not_found)
  | some read ↦
      if is_active read.status
      then (db, Outcome.failed conflict)
      else if read.status is deleted || read.status is deleting
      then (db, done)
      else let db1 = others db in
        (record db1 { jobs = update (has_id id) deleting_row db1.jobs }, done)
]

-- A deleted job's specification is the empty object, which decodes to the zero value.
abbrev pub no_spec : JobSpec
no_spec = record {
  name = [];
  image = [];
  command = [];
  working_directory = [];
  environment = [];
  secret_refs = [];
  registry_secret = [];
  resources = record {
    cpu_millis = 0;
    cpu_package_id = [];
    memory_bytes = 0;
    gpu = record { count = 0; min_vram_bytes = 0; uuids = [] };
  };
  labels = [];
  node_selector = [];
  target_node_id = [];
  inputs = [];
}

abbrev pub deleted_row : Text → Job → Job
deleted_row now j = record j {
  status = deleted;
  desired_status = deleted;
  observed_status = deleted;
  spec = no_spec;
  image_digest = [];
  failure_reason = [];
  deleted_at = some now;
  version = j.version + 1;
}

unfoldable pub mark_deleted : Text → Text → Db → Db × Outcome
mark_deleted id now db = (record db { jobs = update (has_id id) (deleted_row now) db.jobs }, done)
