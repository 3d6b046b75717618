-- ===== src/Store/Builds/Completion.antt =====
-- internal/store/build_assignments.go: RequestBuildCancellation and CompleteBuildAssignment.
use job_dock.Base.{
  Bool, true, ◌&&◌, ◌||◌, none, some, [], ◌+◌, Text, ◌==◌, codes, if◌then◌else◌, find_if, count_if,
  eqb,
}
use job_dock.Domain.Builds.{
  Build, BuildStatus, BuildAssignment, BuildAssignmentStatus, ◌is_build◌, ◌is_assignment◌,
  build_building, build_succeeded, build_failed, build_cancelled, pending_assignment,
  running_assignment, succeeded_assignment, failed_assignment, cancelled_assignment,
}
use job_dock.Domain.Validation.{validate_build}
use job_dock.Store.Tables.{update}
use job_dock.Store.Builds.{
  BuildDb, Answer, ok, conflict, not_terminal, ◌>>=◌, ◌>>◌, require, valid, found, transaction,
  is_of_build, build, build_assignment, insert_build_event, has_assignment_id,
}
use job_dock.Store.Builds.Lifecycle.{has_status}

abbrev pub is_open : BuildAssignmentStatus → Bool
is_open s = s is_assignment pending_assignment || (s is_assignment running_assignment)

abbrev pub may_be_cancelled : Text → BuildAssignment → Bool
may_be_cancelled build_id row = row.build_id == build_id && is_open row.status

-- A pending assignment is cancelled at once; a running one keeps its status until its builder ends.
abbrev pub asked_to_cancel : Text → BuildAssignment → BuildAssignment
asked_to_cancel now row = record row {
  cancel_requested = true;
  status = if row.status is_assignment pending_assignment then cancelled_assignment else row.status;
  updated_at = now;
}

abbrev pub cancelled_build : Text → Build → Build
cancelled_build now row = record row {
  status = build_cancelled;
  failure_reason = [];
  finished_at = some now;
  version = row.version + 1;
}

abbrev cancelled_db : Text → Text → BuildDb → BuildDb
cancelled_db now build_id db =
    insert_build_event build_id build_cancelled (codes "Cancellation requested by user") now
      (record db {
        build_assignments =
            update (may_be_cancelled build_id) (asked_to_cancel now) db.build_assignments;
        builds = update (has_status build_id build_building) (cancelled_build now) db.builds;
      })

-- The rest of the transaction where the build is not yet cancelled.
unfoldable pub cancel_build : Text → Text → BuildDb → Build → Answer (BuildDb × Build)
unfolding build insert_build_event
cancel_build now build_id db row = do
  require (row.status is_build build_building) conflict
  require (eqb (count_if (may_be_cancelled build_id) db.build_assignments) 1) conflict
  let db' = cancelled_db now build_id db
  after ← build build_id db'
  ok (db', after)

unfoldable pub request_build_cancellation : Text → Text → BuildDb → BuildDb × Answer Build
unfolding build cancel_build
request_build_cancellation now build_id db = transaction db (do
  row ← build build_id db
  let cancel = cancel_build now build_id db row
  if row.status is_build build_cancelled then ok (db, row) else cancel)

-- What a builder reports: the status of its assignment, the digest of the image, and a message.
pub record Completion : Type 0 where
  pub status : BuildAssignmentStatus
  pub digest : Text
  pub message : Text

abbrev pub is_terminal : BuildAssignmentStatus → Bool
is_terminal s =
    s is_assignment succeeded_assignment
    || (s is_assignment failed_assignment)
    || (s is_assignment cancelled_assignment)

-- A cancellation takes the place of what was reported.
abbrev pub heeded : BuildAssignment → Build → Completion → Completion
heeded assignment row c =
    if assignment.cancel_requested || (row.status is_build build_cancelled)
    then record { status = cancelled_assignment; digest = []; message = codes "Build cancelled" }
    else c

-- A success wants an artifact of the build with the reported digest.
unfoldable pub check_artifact : Text → Completion → BuildDb → Answer (Unit {0})
check_artifact build_id c db =
    if c.status is_assignment succeeded_assignment
    then (do
      artifact ← found (find_if (is_of_build build_id) db.artifacts) conflict
      require (artifact.digest == c.digest) conflict)
    else ok tt

abbrev pub ended_as : BuildAssignmentStatus → BuildStatus
ended_as s =
    if s is_assignment failed_assignment
    then build_failed
    else if s is_assignment cancelled_assignment
    then build_cancelled
    else build_succeeded

abbrev pub digest_of : Completion → Text
digest_of c =
    if c.status is_assignment failed_assignment || (c.status is_assignment cancelled_assignment)
    then []
    else c.digest

abbrev pub reason_of : Completion → Text
reason_of c = if c.status is_assignment failed_assignment then c.message else []

abbrev pub completed : Completion → Build → Build
completed c row = record row {
  status = ended_as c.status;
  oci_digest = digest_of c;
  failure_reason = reason_of c;
}

abbrev pub completed_row : Text → Completion → Build → Build
completed_row now c row = record (completed c row) {
  finished_at = some now;
  version = row.version + 1;
}

-- The build is ended if it is still running.
unfoldable pub end_build : Text → Completion → Build → BuildDb → Answer BuildDb
unfolding insert_build_event
end_build now c row db =
    if row.status is_build build_building
    then (do
      valid (validate_build (completed c row))
      ok (
          insert_build_event row.id (ended_as c.status) c.message now (record db {
            builds = update (has_status row.id build_building) (completed_row now c) db.builds;
          })))
    else ok db

abbrev pub closed : Text → BuildAssignmentStatus → BuildAssignment → BuildAssignment
closed now status row = record row { status = status; lease_expires_at = none; updated_at = now }

abbrev pub may_complete : Text → BuildAssignmentStatus → BuildAssignment → Bool
may_complete builder_id status assignment =
    assignment.builder_id == builder_id
    && (assignment.status is_assignment running_assignment
        || (assignment.status is_assignment status))

unfoldable pub complete_build_assignment :
    Text → Text → Text → Completion → BuildDb → BuildDb × Answer Build
unfolding build build_assignment check_artifact end_build
complete_build_assignment now id builder_id reported db = transaction db (do
  require (is_terminal reported.status) not_terminal
  assignment ← build_assignment id db
  require (may_complete builder_id reported.status assignment) conflict
  row ← build assignment.build_id db
  let c = heeded assignment row reported
  check_artifact row.id c db
  ended ← end_build now c row db
  let db' = record ended {
    build_assignments = update (has_assignment_id id) (closed now c.status) ended.build_assignments;
  }
  after ← build row.id db'
  ok (db', after))
