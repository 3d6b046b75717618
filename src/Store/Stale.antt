-- ===== src/Store/Stale.antt =====
-- internal/store/store.go: AppendServerEvent, and MarkStaleNodes with what other requests commit between
-- its statements.
pub mod Losing
pub mod Swept
use job_dock.Base.{
  Bool, true, false, not, ◌&&◌, ◌||◌, Option, none, some, List, [], ◌∷◌, Text, ◌==◌, ℕ, ◌+◌, codes,
  if◌then◌else◌, any, find_if, keep, map, text_ltb,
}
use job_dock.Domain.Status.{
  JobStatus, NodeStatus, online, degraded, offline, assigned, pulling_image, starting, running,
  stopping, lost,
}
use job_dock.Domain.Types.{Job}
use job_dock.Store.Tables.{
  Attempt, Db, JobEvent, NodeRow, Outcome, done, conflict, constraint, insert_event, update,
}
use job_dock.Store.Jobs.{job, next_sequence}
use job_dock.Store.Requests.{has_id}
use job_dock.Store.Nodes.{is_unset}

-- (SELECT attempt_id FROM jobs WHERE id=?), where NULL is the empty string.
abbrev pub attempt_of : Option Job → Text
attempt_of none = []
attempt_of (some j) = j.attempt_id

-- (SELECT status FROM jobs WHERE id=?)
abbrev pub status_of : Option Job → Option JobStatus
status_of none = none
status_of (some j) = some j.status

abbrev pub server_event : Text → Text → Text → Text → Db → JobEvent
server_event id kind payload now db = record {
  job_id = id;
  attempt_id = attempt_of (job db id);
  sequence = next_sequence id db;
  kind = kind;
  status = status_of (job db id);
  payload = payload;
  created_at = now;
}

abbrev pub inserted : Db → Option Db → Db × Outcome
inserted db none = (db, Outcome.failed constraint)
inserted db (some db') = (db', done)

-- The INSERT reads and writes in one statement, so its sequence is new, and it fails only on the reference
-- to the job: the further tries, which are for a sequence that is not new, are never made.
unfoldable pub append_server_event : Text → Text → Text → Text → Db → Db × Outcome
append_server_event id kind payload now db =
    inserted db (insert_event (server_event id kind payload now db) db)

abbrev pub is_up : NodeStatus → Bool
is_up online = true
is_up degraded = true
is_up _ = false

-- deleted_at IS NULL AND last_heartbeat < ?
abbrev pub is_silent : Text → NodeRow → Bool
is_silent before n = is_unset n.deleted_at && text_ltb n.last_heartbeat before

abbrev pub may_be_lost : JobStatus → Bool
may_be_lost assigned = true
may_be_lost pulling_image = true
may_be_lost starting = true
may_be_lost running = true
may_be_lost stopping = true
may_be_lost _ = false

abbrev pub is_on_silent : Text → List NodeRow → Job → Bool
is_on_silent before nodes j =
    may_be_lost j.status && any (λ n. is_silent before n && (n.id == j.assigned_node_id)) nodes

abbrev pub lost_row : Job → Job
lost_row j = record j { status = lost; observed_status = lost; version = j.version + 1 }

abbrev pub lose_job : Text → Db → Db
lose_job id db = record db {
  jobs = update (λ (j : Job). j.id == id && may_be_lost j.status) lost_row db.jobs;
}

abbrev pub lose_attempt : Text → Db → Db
lose_attempt id db = record db {
  attempts =
      update (λ (a : Attempt). a.id == attempt_of (job db id)) (λ a. record a { status = lost })
        db.attempts;
}

-- The three statements on one of the jobs that were found.
unfoldable pub lose_one : (ℕ → Db → Db) → Text → ℕ → Text → Db → Db × Outcome
lose_one others now n id db =
    append_server_event id (codes "lost") (codes "{}") now
      (others (n + 2) (lose_attempt id (others (n + 1) (lose_job id (others n db)))))

-- An error ends the loop.
abbrev pub and_then : (Db → Db × Outcome) → Db × Outcome → Db × Outcome
and_then next (db, done) = next db
and_then next (db, Outcome.failed e) = (db, Outcome.failed e)

unfoldable pub lose_jobs : (ℕ → Db → Db) → Text → ℕ → List Text → Db → Db × Outcome
lose_jobs others now n [] db = (db, done)
lose_jobs others now n (id ∷ ids) db =
    and_then (λ d. lose_jobs others now (n + 3) ids d) (lose_one others now n id db)

abbrev pub set_offline : Text → Db → Db
set_offline before db = record db {
  nodes =
      update (λ (n : NodeRow). is_silent before n && is_up n.status)
        (λ n. record n { status = offline }) db.nodes;
}

unfoldable pub mark_stale_nodes : (ℕ → Db → Db) → Text → Text → Text → Db → Db × Outcome
mark_stale_nodes others offline_before lost_before now db =
    let read = others 0 (set_offline offline_before db) in
    let found = keep (is_on_silent lost_before read.nodes) read.jobs in
    lose_jobs others now 1 (map (λ (j : Job). j.id) found) read
