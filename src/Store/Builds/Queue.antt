-- ===== src/Store/Builds/Queue.antt =====
-- internal/store/build_assignments.go: a build is queued as one assignment, builders lease it, and
-- its completion ends the build. `now` is the clock's time and `expiry` the time when the new lease
-- ends, both as text; SQL compares texts.
use job_dock.Base.{
  Bool, true, false, not, ◌&&◌, ◌||◌, Option, none, some, List, [], ◌∷◌, ◌++◌, ◌+◌, Text, ◌==◌,
  codes, if◌then◌else◌, any, find_if, count_if, eqb, keep, sort, text_ltb,
}
use job_dock.Domain.Builds.{
  Build, BuildPlan, BuildAssignment, BuildWork, ◌is_build◌, ◌is_mode◌, ◌is_assignment◌,
  build_created, build_analyzing, build_building, railpack, dockerfile, other_mode,
  pending_assignment, running_assignment,
}
use job_dock.Domain.Validation.{validate_build_assignment}
use job_dock.Store.Tables.{update, coalesce}
use job_dock.Store.Builds.{
  BuildDb, Answer, ok, err, not_found, conflict, ◌>>=◌, ◌>>◌, require, valid, found, transaction,
  plans, assigns, build, build_plan, build_assignment, insert_build_event,
}
use job_dock.Store.Builds.Lifecycle.{confirmed, has_status}

abbrev to_option {ℓ} : {A : Type ℓ} → Answer A → Option A
to_option (ok a) = some a
to_option (err e) = none

-- The switch on the mode: the plan that goes with the work, and the rows of plans.
unfoldable pub queue_mode : Text → Build → BuildDb → Answer (Option BuildPlan × List BuildPlan)
unfolding build_plan
queue_mode now row db = elim row.mode [
  | railpack ↦ do
    require (row.status is_build build_analyzing) conflict
    plan ← build_plan row.id db
    ok (some (confirmed now plan), update (plans row.id) (confirmed now) db.build_plans)
  | dockerfile ↦ do require (row.status is_build build_created) conflict; ok (none, db.build_plans)
  | other_mode ↦ err conflict
]

abbrev pub building_row : Text → Build → Build
building_row now row = record row {
  status = build_building;
  failure_reason = [];
  started_at = coalesce row.started_at (some now);
  finished_at = none;
  version = row.version + 1;
}

abbrev pub new_build_assignment : Text → Text → Text → BuildAssignment
new_build_assignment id build_id now = record {
  id = id;
  build_id = build_id;
  status = pending_assignment;
  cancel_requested = false;
  builder_id = [];
  lease_expires_at = none;
  created_at = now;
  updated_at = now;
}

abbrev pub clashes_with : Text → Text → BuildAssignment → Bool
clashes_with id build_id row = row.id == id || (row.build_id == build_id)

abbrev queued_db : Text → Text → Text → Build → List BuildPlan → BuildDb → BuildDb
queued_db now build_id assignment_id row rows db =
    let db' = record db {
      build_plans = rows;
      builds = update (has_status build_id row.status) (building_row now) db.builds;
    } in
    record (insert_build_event build_id build_building
      (codes "Queued for isolated BuildKit execution") now db') {
        build_assignments =
            db.build_assignments ++ new_build_assignment assignment_id build_id now ∷ [];
      }

-- The rest of the transaction where the build has no assignment yet.
unfoldable pub queue_new : Text → Text → Text → BuildDb → Build → Answer (BuildDb × BuildWork)
unfolding queue_mode insert_build_event build
queue_new now build_id assignment_id db row = do
  (plan, rows) ← queue_mode now row db
  require (eqb (count_if (has_status build_id row.status) db.builds) 1) conflict
  let assignment = new_build_assignment assignment_id build_id now
  valid (validate_build_assignment assignment)
  require (not (any (clashes_with assignment_id build_id) db.build_assignments)) conflict
  let db' = queued_db now build_id assignment_id row rows db
  after ← build build_id db'
  ok (db', record { assignment = assignment; build = after; plan = plan })

-- An assignment that is there already is the answer.
unfoldable pub queue_row : Text → Text → Text → BuildDb → Build → Answer (BuildDb × BuildWork)
unfolding queue_new build_plan
queue_row now build_id assignment_id db row =
    let plan = to_option (build_plan build_id db) in
    let queue = queue_new now build_id assignment_id db row in
    elim (find_if (assigns build_id) db.build_assignments) [
      | some existing ↦ ok (db, record { assignment = existing; build = row; plan = plan })
      | none ↦ queue
    ]

unfoldable pub queue_build : Text → Text → Text → BuildDb → BuildDb × Answer BuildWork
unfolding queue_row build
queue_build now build_id assignment_id db =
    transaction db (do row ← build build_id db; queue_row now build_id assignment_id db row)

-- lease_expires_at<?, which NULL does not pass.
abbrev pub has_expired : Text → Option Text → Bool
has_expired now none = false
has_expired now (some lease) = text_ltb lease now

-- What a builder may take: a pending assignment, its own, or one whose lease is over.
abbrev pub is_takeable : Text → Text → BuildAssignment → Bool
is_takeable now builder_id row =
    not row.cancel_requested
    && (row.status is_assignment pending_assignment
        || (row.status is_assignment running_assignment)
          && (row.builder_id == builder_id || has_expired now row.lease_expires_at))

-- The builder's own assignments first, then the older ones.
abbrev pub comes_first : Text → BuildAssignment → BuildAssignment → Bool
comes_first builder_id a b =
    let a_mine = a.builder_id == builder_id in
    let b_mine = b.builder_id == builder_id in
    if a_mine
    then (if b_mine then text_ltb a.created_at b.created_at else true)
    else if b_mine
    then false
    else text_ltb a.created_at b.created_at

abbrev pub leased : Text → Text → Text → BuildAssignment → BuildAssignment
leased now expiry builder_id row = record row {
  status = running_assignment;
  builder_id = builder_id;
  lease_expires_at = some expiry;
  updated_at = now;
}

abbrev pub next_taken : Text → Text → List BuildAssignment → Option BuildAssignment
next_taken now builder_id rows =
    find_if (λ _. true) (sort (comes_first builder_id) (keep (is_takeable now builder_id) rows))

abbrev pub is_still : Text → Text → BuildAssignment → BuildAssignment → Bool
is_still now builder_id taken row =
    row.id == taken.id && (row.updated_at == taken.updated_at) && is_takeable now builder_id row

-- A missing plan is in order for a Dockerfile build.
unfoldable pub plan_of_work : Build → BuildDb → Answer (Option BuildPlan)
unfolding build_plan
plan_of_work row db = elim (find_if (plans row.id) db.build_plans) [
  | some plan ↦ ok (some plan)
  | none ↦ if row.mode is_mode dockerfile then ok none else err not_found
]

abbrev pub leased_db : Text → Text → Text → BuildAssignment → BuildDb → BuildDb
leased_db now expiry builder_id taken db = record db {
  build_assignments =
      update (is_still now builder_id taken) (leased now expiry builder_id) db.build_assignments;
}

-- The rest of the transaction, with the assignment that was read.
unfoldable pub take_work :
    Text → Text → Text → BuildDb → BuildAssignment → Answer (BuildDb × BuildWork)
unfolding build plan_of_work
take_work now expiry builder_id db taken = do
  require (eqb (count_if (is_still now builder_id taken) db.build_assignments) 1) conflict
  let db' = leased_db now expiry builder_id taken db
  row ← build taken.build_id db'
  plan ← plan_of_work row db'
  ok (db', record { assignment = leased now expiry builder_id taken; build = row; plan = plan })

unfoldable pub next_build_work : Text → Text → Text → BuildDb → BuildDb × Answer BuildWork
unfolding take_work
next_build_work now expiry builder_id db = transaction db (do
  taken ← found (next_taken now builder_id db.build_assignments) not_found
  take_work now expiry builder_id db taken)

abbrev pub holds_lease : Text → Text → BuildAssignment → Bool
holds_lease id builder_id row =
    row.id == id && (row.builder_id == builder_id) && (row.status is_assignment running_assignment)

abbrev pub renewed : Text → Text → BuildAssignment → BuildAssignment
renewed now expiry row = record row { lease_expires_at = some expiry; updated_at = now }

-- No transaction: the UPDATE is committed, then its rows are counted, then the row is read.
unfoldable pub renew_build_assignment :
    Text → Text → Text → Text → BuildDb → BuildDb × Answer BuildAssignment
unfolding build_assignment
renew_build_assignment now expiry id builder_id db =
    let db' = record db {
      build_assignments =
          update (holds_lease id builder_id) (renewed now expiry) db.build_assignments;
    } in
    (
      db',
      if eqb (count_if (holds_lease id builder_id) db.build_assignments) 1
          then build_assignment id db'
          else err conflict,
    )
