-- ===== src/Store/Tables.antt =====
-- internal/store: the tables that the lifecycle of jobs touches (migrations/*.sql), and the SQL
-- statements as operations on lists of rows. NULL in a column that the code reads through
-- COALESCE(…, '') is the empty string, as `scanJob` returns it; other nullable columns are options.
-- A time is the text that `formatTime` stores. Integer columns do not wrap in SQLite.
use job_dock.Base.{
  ◌++◌, some, none, ℕ, Bool, not, ◌&&◌, ◌||◌, List, [], ◌∷◌, Option, map, if◌then◌else◌, Text, ◌==◌,
  Int64, any, eqb, ltb,
}
use job_dock.Domain.Status.{JobStatus, NodeStatus}
use job_dock.Domain.Types.{Job}

pub record OutputFile : Type 0 where
  pub path : Text
  pub size : Int64
  pub sha256 : Text

-- job_attempts
pub record Attempt : Type 0 where
  pub id : Text
  pub job_id : Text
  pub attempt_number : ℕ
  pub node_id : Text
  pub assignment_id : Text
  pub container_id : Text
  pub cpu_package_id : Text
  pub gpu_uuids : List Text
  pub status : JobStatus
  pub job_token_hash : Text
  pub image_digest : Text
  pub exit_code : Option Int64
  pub failure_reason : Text
  pub outputs : List OutputFile
  pub created_at : Text
  pub started_at : Option Text
  pub finished_at : Option Text

-- assignments
pub record Assignment : Type 0 where
  pub id : Text
  pub job_id : Text
  pub attempt_id : Text
  pub node_id : Text
  pub gpu_uuids : List Text
  pub job_token_ciphertext : Text
  pub delivered_at : Option Text
  pub accepted_at : Option Text
  pub created_at : Text
  pub cpu_package_id : Text
  pub cpu_set : Text

-- job_events
pub record JobEvent : Type 0 where
  pub job_id : Text
  pub attempt_id : Text
  pub sequence : ℕ
  pub kind : Text
  pub status : Option JobStatus
  pub payload : Text
  pub created_at : Text

-- nodes
pub record NodeRow : Type 0 where
  pub id : Text
  pub status : NodeStatus
  pub credential_hash : Text
  pub previous_credential_hash : Option Text
  pub previous_credential_expires_at : Option Text
  pub credential_created_at : Text
  pub last_heartbeat : Text
  pub deleted_at : Option Text

pub record Db : Type 0 where
  pub jobs : List Job
  pub attempts : List Attempt
  pub assignments : List Assignment
  pub events : List JobEvent
  pub nodes : List NodeRow

pub data StoreError : Type 0 where
  not_found conflict constraint raw_telemetry : StoreError

-- What a method returns besides the database that it leaves.
pub data Outcome : Type 0 where
  done : Outcome
  failed : StoreError → Outcome

-- UPDATE … SET set WHERE test.
abbrev pub update {ℓ} : {A : Type ℓ} → (A → Bool) → (A → A) → List A → List A
update test set = map (λ row. if test row then set row else row)

-- COALESCE(MAX(column), 0) of the rows that pass a test.
abbrev pub max_of {ℓ} : {A : Type ℓ} → (A → Bool) → (A → ℕ) → List A → ℕ
max_of test column [] = 0
max_of test column (row ∷ rows) =
    let rest = max_of test column rows in
    if test row && ltb rest (column row) then column row else rest

-- CASE WHEN ?='' THEN column ELSE ? END
abbrev pub unless_empty : Text → Text → Text
unless_empty [] column = column
unless_empty (x ∷ xs) column = x ∷ xs

-- COALESCE(?, column)
abbrev pub coalesce {ℓ} : {A : Type ℓ} → Option A → Option A → Option A
coalesce none column = column
coalesce (some v) column = some v

-- The primary key of job_attempts and its unique columns.
abbrev pub clashes : Attempt → Attempt → Bool
clashes a b =
    b.id == a.id
    || b.assignment_id == a.assignment_id
    || b.job_token_hash == a.job_token_hash
    || (b.job_id == a.job_id && eqb b.attempt_number a.attempt_number)

-- INSERT fails on a second row with the same primary key or unique columns, and on a reference to
-- a row that is not there.
unfoldable pub insert_attempt : Attempt → Db → Option Db
insert_attempt a db =
    if any (clashes a) db.attempts
    then none
    else if not (any (λ (j : Job). j.id == a.job_id) db.jobs)
    then none
    else if not (any (λ (n : NodeRow). n.id == a.node_id) db.nodes)
    then none
    else some (record db { attempts = db.attempts ++ a ∷ [] })

unfoldable pub insert_assignment : Assignment → Db → Option Db
insert_assignment a db =
    if any (λ (b : Assignment). b.id == a.id) db.assignments
    then none
    else if not (any (λ (j : Job). j.id == a.job_id) db.jobs)
    then none
    else if not (any (λ (t : Attempt). t.id == a.attempt_id) db.attempts)
    then none
    else if not (any (λ (n : NodeRow). n.id == a.node_id) db.nodes)
    then none
    else some (record db { assignments = db.assignments ++ a ∷ [] })

unfoldable pub insert_event : JobEvent → Db → Option Db
insert_event e db =
    if any (λ (f : JobEvent). f.job_id == e.job_id && eqb f.sequence e.sequence) db.events
    then none
    else if not (any (λ (j : Job). j.id == e.job_id) db.jobs)
    then none
    else some (record db { events = db.events ++ e ∷ [] })
