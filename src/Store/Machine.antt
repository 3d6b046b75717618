-- ===== src/Store/Machine.antt =====
-- internal/store/store.go: the database under the operations on jobs, one at a time.
pub mod Rows
pub mod Owned
pub mod Invariant
use job_dock.Base.{◌≡◌, ℕ, Text, [], List}
use job_dock.Domain.Status.{queued}
use job_dock.Domain.Types.{Job}
use job_dock.Store.Tables.{Db, NodeRow}
use job_dock.Store.Jobs.{Reservation, Report, reserve}
use job_dock.Store.Reports.{update_job_status}
use job_dock.Store.Requests.{
  accept_assignment, create_job, set_queue_reason, rerun_job, request_stop, mark_deleting,
  mark_deleted,
}

-- One operation, with nothing in between its reads and writes. The API creates jobs queued.
infix 30 ◌⟹◌
pub data ◌⟹◌ : Db → Db → Type 0 where
  creates : {db : Db} (j : Job) → j.status ≡ queued → db ⟹ (create_job j db).0
  delays : {db : Db} (id code message : Text) → db ⟹ (set_queue_reason id code message db).0
  reserves : {db : Db} (r : Reservation) (now : Text) → db ⟹ (reserve r now db).0
  accepts :
      {db : Db} (node_id assignment_id container_id now : Text)
      → db ⟹ (accept_assignment node_id assignment_id container_id now db).0
  reports :
      {db : Db} (id : Text) (r : Report) (now : Text)
      → db ⟹ (update_job_status (λ _ d. d) id r now db).0
  reruns : {db : Db} (id : Text) → db ⟹ (rerun_job id db).0
  stops : {db : Db} (id now : Text) → db ⟹ (request_stop (λ _ d. d) id now db).0
  deletes : {db : Db} (id : Text) → db ⟹ (mark_deleting (λ d. d) id db).0
  forgets : {db : Db} (id now : Text) → db ⟹ (mark_deleted id now db).0

infix 30 ◌⟹*◌
pub data ◌⟹*◌ : Db → Db → Type 0 where
  start : {db : Db} → db ⟹* db
  next : {db db1 db2 : Db} → db ⟹* db1 → db1 ⟹ db2 → db ⟹* db2

-- A database with nodes only.
abbrev pub no_jobs : List NodeRow → Db
no_jobs nodes = record { jobs = []; attempts = []; assignments = []; events = []; nodes = nodes }
