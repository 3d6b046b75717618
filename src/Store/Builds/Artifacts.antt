-- ===== src/Store/Builds/Artifacts.antt =====
-- internal/store/managed_artifacts.go: the images that builds made. `now` is the clock's time and
-- `before` the bound of the collection, both as text.
use job_dock.Base.{
  Bool, not, ◌&&◌, ◌||◌, Option, none, some, List, [], ◌∷◌, ◌++◌, Text, ◌==◌, if◌then◌else◌, any,
  find_if, count_if, eqb, eq64, keep, text_ltb,
}
use job_dock.Domain.Status.{assigned, pulling_image, starting, running}
use job_dock.Domain.Types.{Job}
use job_dock.Domain.Builds.{Build, ManagedArtifact, ◌is_build◌, build_building, build_succeeded}
use job_dock.Domain.ManagedArtifact.{managed_artifact_reference}
use job_dock.Domain.Validation.{validate_managed_artifact}
use job_dock.Store.Tables.{update, Assignment}
use job_dock.Store.Jobs.{◌is◌}
use job_dock.Store.Requests.{new_row}
use job_dock.Store.Builds.{
  BuildDb, Answer, ok, err, not_found, conflict, ◌>>=◌, ◌>>◌, require, valid, found, transaction,
  is_of_build, build_row,
}
use job_dock.Store.Builds.Lifecycle.{runs_image}

-- The row that INSERT … ON CONFLICT(build_id) DO UPDATE may change.
abbrev pub same_image : ManagedArtifact → ManagedArtifact → Bool
same_image a row =
    row.build_id == a.build_id
    && (row.digest == a.digest)
    && (row.sha256 == a.sha256)
    && eq64 row.size a.size
    && (row.runtime_image == a.runtime_image)

abbrev pub referenced_at : Text → ManagedArtifact → ManagedArtifact
referenced_at now row = record row { last_referenced_at = now }

unfoldable pub upsert_artifact :
    ManagedArtifact → List ManagedArtifact → Answer (List ManagedArtifact)
upsert_artifact a rows =
    if any (is_of_build a.build_id) rows
    then (do
      require (eqb (count_if (same_image a) rows) 1) conflict
      ok (update (same_image a) (referenced_at a.last_referenced_at) rows))
    else ok (rows ++ a ∷ [])

unfoldable pub save_managed_artifact : ManagedArtifact → BuildDb → BuildDb × Answer (Unit {0})
unfolding build_row upsert_artifact
save_managed_artifact a db = transaction db (do
  valid (validate_managed_artifact a)
  row ← build_row a.build_id db
  require (row.owner_id == a.owner_id && (row.status is_build build_building)) conflict
  rows ← upsert_artifact a db.artifacts
  ok (record db { artifacts = rows }, tt))

unfoldable pub managed_artifact : Text → BuildDb → Answer ManagedArtifact
managed_artifact build_id db = found (find_if (is_of_build build_id) db.artifacts) not_found

abbrev pub has_succeeded : BuildDb → Text → Bool
has_succeeded db build_id =
    any (λ (b : Build). b.id == build_id && (b.status is_build build_succeeded)) db.builds

abbrev pub is_owned : BuildDb → Text → Text → Text → ManagedArtifact → Bool
is_owned db build_id owner_id digest row =
    is_of_build build_id row
    && (row.owner_id == owner_id)
    && (row.digest == digest)
    && has_succeeded db row.build_id

unfoldable pub managed_artifact_for_owner : Text → Text → Text → BuildDb → Answer ManagedArtifact
managed_artifact_for_owner build_id owner_id digest db =
    found (find_if (is_owned db build_id owner_id digest) db.artifacts) not_found

abbrev pub reference_of : ManagedArtifact → Text
reference_of row = managed_artifact_reference row.build_id row.digest

abbrev is_under_way : Job → Bool
is_under_way j =
    j.status is assigned
    || (j.status is pulling_image)
    || (j.status is starting)
    || (j.status is running)

-- The image of the job that the assignment puts on the node, while it is that of its last attempt.
unfoldable pub image_of_assignment : Text → Text → BuildDb → Option Text
image_of_assignment assignment_id node_id db =
    elim (find_if (λ (x : Assignment). x.id == assignment_id && (x.node_id == node_id))
      db.main.assignments) [
        | none ↦ none
        | some x ↦
            elim (find_if
              (λ (j : Job). j.id == x.job_id && (x.attempt_id == j.attempt_id) && is_under_way j)
              db.main.jobs) [ none ↦ none | some j ↦ some j.spec.image ]
      ]

unfoldable pub artifact_of_assignment : Text → Text → BuildDb → Answer ManagedArtifact
unfolding image_of_assignment
artifact_of_assignment assignment_id node_id db = do
  image ← found (image_of_assignment assignment_id node_id db) not_found
  found (find_if (λ row. reference_of row == image) db.artifacts) not_found

-- No transaction: the artifact is read, and then the time of the reference is set; the artifact is the
-- answer whether that succeeds or not.
unfoldable pub managed_artifact_for_assignment :
    Text → Text → Text → BuildDb → BuildDb × Answer ManagedArtifact
managed_artifact_for_assignment now assignment_id node_id db =
    elim (artifact_of_assignment assignment_id node_id db) [
      | err x ↦ (db, err x)
      | ok artifact ↦ (
        record db {
          artifacts = update (is_of_build artifact.build_id) (referenced_at now) db.artifacts;
        },
        ok artifact,
      )
    ]

unfoldable pub create_job_with_managed_artifact :
    Text → Job → Text → Text → BuildDb → BuildDb × Answer (Unit {0})
create_job_with_managed_artifact now j build_id digest db = transaction db (do
  require (any (is_owned db build_id j.owner_id digest) db.artifacts) not_found
  require (not (any (λ (i : Job). i.id == j.id) db.main.jobs)) conflict
  let main = record db.main { jobs = db.main.jobs ++ new_row j ∷ [] }
  let rows = update (is_of_build build_id) (referenced_at now) db.artifacts
  ok (record db { main = main; artifacts = rows }, tt))

-- An artifact that no job which is not deleted names, and that was last referenced before the bound.
abbrev pub is_garbage : Text → BuildDb → ManagedArtifact → Bool
is_garbage before db row =
    text_ltb row.last_referenced_at before && not (any (runs_image (reference_of row)) db.main.jobs)

abbrev pub dropped : Text → BuildDb → ManagedArtifact → ManagedArtifact → Bool
dropped before db a row =
    row.build_id == a.build_id
    && text_ltb row.last_referenced_at before
    && not (any (runs_image (reference_of a)) db.main.jobs)

-- The loop of DELETE statements.
unfoldable pub drop_all :
    Text → BuildDb → List ManagedArtifact → List ManagedArtifact → List ManagedArtifact
drop_all before db [] rows = rows
drop_all before db (a ∷ garbage) rows =
    drop_all before db garbage (keep (λ row. not (dropped before db a row)) rows)

unfoldable pub garbage_collect_managed_artifacts : Text → BuildDb → BuildDb × List ManagedArtifact
unfolding drop_all
garbage_collect_managed_artifacts before db =
    let garbage = keep (is_garbage before db) db.artifacts in
    (record db { artifacts = drop_all before db garbage db.artifacts }, garbage)
