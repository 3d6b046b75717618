-- ===== src/Store/Builds/Machine.antt =====
-- The builds under the operations of internal/store, one method at a time, and the handler of
-- internal/httpapi/builds.go that cancels a build, with no other request between its read and its
-- write. UpdateBuildStatus is used as the handlers use it; what a stale read of the cancelling handler
-- leads to is in Agreement/Stale.
use job_dock.Store.Tables.{Db}
use job_dock.Base.{◌≡◌, Bool, Text, [], codes, if◌then◌else◌}
use job_dock.Domain.Types.{Job}
use job_dock.Domain.Builds.{
  Build, BuildPlan, ManagedArtifact, build_created, build_analyzing, build_building, build_failed,
  build_cancelled, ◌is_build◌,
}
use job_dock.Store.Builds.{Db, BuildDb, ok, err, build, build_row}
use job_dock.Store.Builds.Lifecycle.{
  create_build, save_build_plan, confirm_build_plan, update_build_status, delete_build,
}
use job_dock.Store.Builds.Queue.{queue_build, next_build_work, renew_build_assignment}
use job_dock.Store.Builds.Completion.{
  request_build_cancellation, complete_build_assignment, Completion,
}
use job_dock.Store.Builds.Artifacts.{
  save_managed_artifact, managed_artifact_for_assignment, create_job_with_managed_artifact,
  garbage_collect_managed_artifacts,
}

-- The cancelling handler reads the build and takes one of two ways.
unfoldable pub cancel : Text → Text → BuildDb → BuildDb
unfolding build
cancel now id db = elim (build id db) [
  | err _ ↦ db
  | ok row ↦
      let ask = (request_build_cancellation now id db).0 in
      let move = (update_build_status now id build_cancelled [] (codes "Cancelled by user") db).0 in
      if row.status is_build build_building then ask else move
]

-- The API creates builds CREATED, and its analysis starts one and may fail while it is ANALYZING.
infix 30 ◌⟼◌
pub data ◌⟼◌ : BuildDb → BuildDb → Type 0 where
  creates : {db : BuildDb} (b : Build) → b.status ≡ build_created → db ⟼ (create_build b db).0
  analyses :
      {db : BuildDb} (now id message : Text)
      → db ⟼ (update_build_status now id build_analyzing [] message db).0
  fails :
      {db : BuildDb} (now id message : Text) (row : Build)
      → build_row id db ≡ ok row
      → row.status ≡ build_analyzing
      → db ⟼ (update_build_status now id build_failed [] message db).0
  plans :
      {db : BuildDb} (json_valid : Text → Bool) (plan : BuildPlan)
      → db ⟼ (save_build_plan json_valid plan db).0
  confirms : {db : BuildDb} (now id : Text) → db ⟼ (confirm_build_plan now id db).0
  queues : {db : BuildDb} (now id assignment : Text) → db ⟼ (queue_build now id assignment db).0
  leases :
      {db : BuildDb} (now expiry builder : Text) → db ⟼ (next_build_work now expiry builder db).0
  renews :
      {db : BuildDb} (now expiry id builder : Text)
      → db ⟼ (renew_build_assignment now expiry id builder db).0
  cancels : {db : BuildDb} (now id : Text) → db ⟼ cancel now id db
  completes :
      {db : BuildDb} (now id builder : Text) (c : Completion)
      → db ⟼ (complete_build_assignment now id builder c db).0
  saves : {db : BuildDb} (a : ManagedArtifact) → db ⟼ (save_managed_artifact a db).0
  fetches :
      {db : BuildDb} (now assignment node : Text)
      → db ⟼ (managed_artifact_for_assignment now assignment node db).0
  uses :
      {db : BuildDb} (now : Text) (j : Job) (id digest : Text)
      → db ⟼ (create_job_with_managed_artifact now j id digest db).0
  collects : {db : BuildDb} (before : Text) → db ⟼ (garbage_collect_managed_artifacts before db).0
  deletes : {db : BuildDb} (id : Text) → db ⟼ (delete_build id db).0

infix 30 ◌⟼*◌
pub data ◌⟼*◌ : BuildDb → BuildDb → Type 0 where
  start : {db : BuildDb} → db ⟼* db
  next : {db db1 db2 : BuildDb} → db ⟼* db1 → db1 ⟼ db2 → db ⟼* db2

-- A database without builds.
abbrev pub no_builds : Db → BuildDb
no_builds main = record {
  main = main;
  builds = [];
  build_events = [];
  next_event = 1;
  build_plans = [];
  build_assignments = [];
  artifacts = [];
}
