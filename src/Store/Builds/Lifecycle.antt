-- ===== src/Store/Builds/Lifecycle.antt =====
-- internal/store/builds.go: CreateBuild, SaveBuildPlan, ConfirmBuildPlan, ListBuilds, BuildEvents,
-- UpdateBuildStatus and DeleteBuild. `now` is the clock's time as text.
use job_dock.Base.{
  Bool, false, not, ◌&&◌, ◌||◌, none, some, List, [], ◌∷◌, ◌++◌, ◌+◌, Text, ◌==◌, if◌then◌else◌,
  any, is_empty, count_if, eqb, keep, map, sort, text_ltb,
}
use job_dock.Domain.Status.{deleted}
use job_dock.Domain.ManagedArtifact.{managed_artifact_reference}
use job_dock.Domain.Types.{Job}
use job_dock.Domain.Builds.{
  Build, BuildStatus, BuildPlan, BuildEvent, ◌is_build◌, can_build_transition, build_analyzing,
  build_building, build_succeeded, build_failed, build_cancelled,
}
use job_dock.Domain.Validation.{validate_build, validate_build_plan}
use job_dock.Store.Tables.{update, coalesce}
use job_dock.Store.Jobs.{◌is◌}
use job_dock.Store.Builds.{
  BuildDb, Answer, ok, err, not_found, conflict, ◌>>=◌, ◌>>◌, require, valid, transaction,
  has_build_id, plans, assigns, is_of_build, build, build_row, build_plan, scan_build,
  insert_build_event,
}

-- The columns that the INSERT names; the others have their defaults.
abbrev pub new_build : Build → Build
new_build b = record b {
  oci_digest = [];
  artifact_reference = [];
  artifact_available = false;
  failure_reason = [];
  started_at = none;
  finished_at = none;
  version = 1;
}

abbrev insert_build : Build → BuildDb → BuildDb
insert_build b db =
    insert_build_event b.id b.status [] b.created_at
      (record db { builds = db.builds ++ new_build b ∷ [] })

unfoldable pub create_build : Build → BuildDb → BuildDb × Answer (Unit {0})
unfolding insert_build_event
create_build b db = transaction db (do
  valid (validate_build b)
  require (not (any (has_build_id b.id) db.builds)) conflict
  ok (insert_build b db, tt))

module _ (json_valid : Text → Bool) where
  unfoldable pub save_build_plan : BuildPlan → BuildDb → BuildDb × Answer (Unit {0})
  save_build_plan plan db = transaction db (do
    valid (validate_build_plan json_valid plan)
    row ← build_row plan.build_id db
    require (row.status is_build build_analyzing) conflict
    require (not (any (plans plan.build_id) db.build_plans)) conflict
    ok (record db { build_plans = db.build_plans ++ record plan { confirmed_at = none } ∷ [] }, tt))

-- SET confirmed_at=COALESCE(confirmed_at,?)
abbrev pub confirmed : Text → BuildPlan → BuildPlan
confirmed now row = record row { confirmed_at = coalesce row.confirmed_at (some now) }

abbrev is_analyzing : BuildDb → Text → Bool
is_analyzing db build_id =
    any (λ (b : Build). b.id == build_id && (b.status is_build build_analyzing)) db.builds

abbrev pub may_confirm : BuildDb → Text → BuildPlan → Bool
may_confirm db build_id row = row.build_id == build_id && is_analyzing db row.build_id

-- No transaction: the UPDATE is committed, then its rows are counted, then the plan is read.
unfoldable pub confirm_build_plan : Text → Text → BuildDb → BuildDb × Answer BuildPlan
unfolding build_plan
confirm_build_plan now build_id db =
    let db' = record db {
      build_plans = update (may_confirm db build_id) (confirmed now) db.build_plans;
    } in
    (
      db',
      if eqb (count_if (may_confirm db build_id) db.build_plans) 1
          then build_plan build_id db'
          else err conflict,
    )

-- ORDER BY created_at DESC
unfoldable pub list_builds : Text → BuildDb → List Build
list_builds owner_id db =
    let mine = keep (λ (b : Build). is_empty owner_id || (b.owner_id == owner_id)) db.builds in
    map (scan_build db) (sort (λ (a b : Build). text_ltb b.created_at a.created_at) mine)

unfoldable pub events_of : Text → BuildDb → List BuildEvent
events_of build_id db = keep (λ (e : BuildEvent). e.build_id == build_id) db.build_events

abbrev pub is_ended_build : BuildStatus → Bool
is_ended_build s =
    s is_build build_succeeded || (s is_build build_failed) || (s is_build build_cancelled)

abbrev pub begins : BuildStatus → Bool
begins s = s is_build build_analyzing || (s is_build build_building)

-- The build that is checked: the new status, digest and reason on the row that was read.
abbrev pub candidate_build : BuildStatus → Text → Text → Build → Build
candidate_build status oci_digest message current = record current {
  status = status;
  oci_digest = oci_digest;
  failure_reason = if status is_build build_failed then message else [];
}

-- The columns that the UPDATE sets.
abbrev pub moved : Text → BuildStatus → Text → Text → Build → Build
moved now status oci_digest message row = record row {
  status = status;
  oci_digest = oci_digest;
  failure_reason = if status is_build build_failed then message else [];
  started_at = coalesce row.started_at (if begins status then some now else none);
  finished_at = if is_ended_build status then some now else none;
  version = row.version + 1;
}

abbrev pub has_status : Text → BuildStatus → Build → Bool
has_status id status row = row.id == id && (row.status is_build status)

abbrev move_build : Text → Text → BuildStatus → BuildStatus → Text → Text → BuildDb → BuildDb
move_build now id from status oci_digest message db =
    insert_build_event id status message now (record db {
      builds = update (has_status id from) (moved now status oci_digest message) db.builds;
    })

-- The rest of the transaction where the status changes.
unfoldable pub change_build_status :
    Text → Text → BuildStatus → Text → Text → BuildDb → Build → Answer (BuildDb × Build)
unfolding build insert_build_event
change_build_status now id status oci_digest message db current = do
  require (can_build_transition current.status status) conflict
  valid (validate_build (candidate_build status oci_digest message current))
  require (eqb (count_if (has_status id current.status) db.builds) 1) conflict
  let db' = move_build now id current.status status oci_digest message db
  after ← build id db'
  ok (db', after)

unfoldable pub update_build_status :
    Text → Text → BuildStatus → Text → Text → BuildDb → BuildDb × Answer Build
unfolding build change_build_status
update_build_status now id status oci_digest message db = transaction db (do
  current ← build id db
  let same = current.status is_build status
  let change = change_build_status now id status oci_digest message db current
  if same then ok (db, current) else change)

-- The jobs that are not deleted and run the image.
abbrev pub runs_image : Text → Job → Bool
runs_image reference j = not (j.status is deleted) && (j.spec.image == reference)

abbrev pub is_referenced : Text → Text → BuildDb → Bool
is_referenced id digest db =
    not (is_empty digest) && any (runs_image (managed_artifact_reference id digest)) db.main.jobs

-- DELETE FROM builds, with the rows that refer to the build (ON DELETE CASCADE).
abbrev pub without_build : Text → BuildDb → BuildDb
without_build id db = record db {
  builds = keep (λ row. not (has_build_id id row)) db.builds;
  build_events = keep (λ (row : BuildEvent). not (row.build_id == id)) db.build_events;
  build_plans = keep (λ row. not (plans id row)) db.build_plans;
  build_assignments = keep (λ row. not (assigns id row)) db.build_assignments;
  artifacts = keep (λ row. not (is_of_build id row)) db.artifacts;
}

unfoldable pub delete_build : Text → BuildDb → BuildDb × Answer (Unit {0})
unfolding build_row
delete_build id db = transaction db (do
  row ← build_row id db
  require (not (begins row.status)) conflict
  require (not (is_referenced id row.oci_digest db)) conflict
  require (eqb (count_if (has_build_id id) db.builds) 1) not_found
  ok (without_build id db, tt))
