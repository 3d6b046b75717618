-- ===== src/Tests/Builds.antt =====
-- A Dockerfile build that is queued, leased, completed, run by a job, and kept.
use job_dock.Store.Builds.Retention.{garbage_collect_managed_artifacts-keep, delete_build-protected}
use job_dock.Domain.Status.{JobStatus-discrete}
use job_dock.Store.Builds.Lifecycle.{
  change_build_status, create_build, update_build_status, delete_build,
}
use job_dock.Store.Builds.Artifacts.{is_garbage, garbage_collect_managed_artifacts}
use job_dock.Domain.Types.{Job}
use job_dock.Store.Builds.Endings.{complete_build_assignment-Ends, Ends}
use job_dock.Base.{
  join, rank, slt, not, text_ltb, keep, arith, IsKeyedBy, ◌≢◌, ◌≡◌, refl, true, false, [], ◌∷◌,
  none, some, codes, Text, Text-discrete, Memᴰ, sort, find_if,
}
use job_dock.Domain.ManagedArtifact.{managed_artifact_reference}
use job_dock.Domain.Builds.{
  can_build_transition, build_cancelled, BuildPlan, BuildStatus-discrete, Build, BuildAssignment,
  ManagedArtifact, BuildWork, build_building, build_succeeded, pending_assignment,
  succeeded_assignment, BuildMode-discrete, BuildAssignmentStatus-discrete,
}
use job_dock.Domain.Validation.{
  validate_build_assignment, is_lowercase_sha256, validate_build_relative_path, validate_result,
  validate_context, validate_build, managed_image_media_type,
}
use job_dock.Go.Trim.{trim_space, trim_left, trim_from, space_width}
use job_dock.Go.Bytes.{has_prefix, contains_any}
use job_dock.Go.Paths.{clean_path, is_abs, split_path, cut, clean_parts, clean_part}
use job_dock.Domain.ManagedArtifact.{is_digest, strip_prefix}
use job_dock.Store.Builds.{
  build_plan, not_terminal, conflict, err, build_assignment, insert_build_event, BuildDb, ok,
  transaction, build, build_row, scan_build,
}
use job_dock.Store.Builds.Queue.{
  queue_row, queue_new, queue_mode, queue_build, next_build_work, leased, take_work, plan_of_work,
}
use job_dock.Store.Builds.Completion.{
  end_build, check_artifact, Completion, complete_build_assignment,
}
use job_dock.Store.Builds.Machine.{◌⟼*◌, no_builds, cancel, ◌⟼◌}
use job_dock.Store.Builds.Agreement.{Agrees, id_of, build_id_of, is_under_way, is_live}
use job_dock.Store.Builds.Agreement.Stale.{update_build_status-stale}
use job_dock.Store.Builds.Marks.{marks}
use job_dock.Store.Builds.Agreement.Invariant.{⟼*-Agrees}
use job_dock.Store.Builds.Moves.{Moves}
use job_dock.Store.Builds.Leases.{next_build_work-Leases, IsFree, Kept, IsLeased}
use job_dock.Store.Pairs.{Rows}
use job_dock.Tests.Samples.{waiting_job, waiting_db}
use job_dock.Tests.Validation.{web, sha}
use job_dock.Tests.References.{digest}

abbrev new_db : BuildDb
new_db = record {
  main = waiting_db;
  builds = web ∷ [];
  build_events = [];
  next_event = 1;
  build_plans = [];
  build_assignments = [];
  artifacts = [];
}

abbrev building_web : Build
building_web = record web { status = build_building; started_at = some (codes "t2"); version = 2 }

abbrev pending : BuildAssignment
pending = record {
  id = codes "s1";
  build_id = codes "b1";
  status = pending_assignment;
  cancel_requested = false;
  builder_id = [];
  lease_expires_at = none;
  created_at = codes "t2";
  updated_at = codes "t2";
}

abbrev pending_db : BuildDb
pending_db = record new_db { builds = building_web ∷ []; build_assignments = pending ∷ [] }

abbrev bob : Text
bob = codes "bob"

abbrev taken : BuildAssignment
taken = leased (codes "t3") (codes "t9") bob pending

abbrev leased_by_bob : BuildDb
leased_by_bob = record pending_db { build_assignments = taken ∷ [] }

abbrev work : BuildWork
work = record { assignment = taken; build = building_web; plan = none }

takes_it : next_build_work (codes "t3") (codes "t9") bob pending_db ≡ (leased_by_bob, ok work)
unfolding next_build_work take_work transaction build build_row scan_build plan_of_work find_if sort
    Text-discrete BuildMode-discrete BuildAssignmentStatus-discrete
takes_it = refl

next_build_work-Leases_example :
    (a : BuildAssignment) × Memᴰ a (pending ∷ [])
    × IsFree (codes "t3") bob a
    × IsLeased (codes "t3") (codes "t9") bob a work.assignment
    × Memᴰ work.assignment (taken ∷ [])
    × (build (codes "b1") leased_by_bob ≡ ok work.build)
    × Rows (Kept (codes "s1") (codes "t3") (codes "t9") bob) (pending ∷ []) (taken ∷ [])
next_build_work-Leases_example =
    next_build_work-Leases (codes "t3") (codes "t9") bob pending_db leased_by_bob work takes_it

abbrev artifact : ManagedArtifact
artifact = record {
  build_id = codes "b1";
  owner_id = codes "u";
  digest = digest;
  sha256 = sha;
  size = 7;
  media_type = managed_image_media_type;
  runtime_image = codes "jobdock.local/managed/b1:artifact";
  created_at = codes "t4";
  last_referenced_at = codes "t4";
}

abbrev imaged_db : BuildDb
imaged_db = record leased_by_bob { artifacts = artifact ∷ [] }

abbrev success : Completion
success = record { status = succeeded_assignment; digest = digest; message = [] }

abbrev done_db : BuildDb
done_db = (complete_build_assignment (codes "t5") (codes "s1") bob success imaged_db).0

abbrev done_web : Build
done_web = record building_web {
  status = build_succeeded;
  oci_digest = digest;
  finished_at = some (codes "t5");
  version = 3;
  artifact_available = true;
  artifact_reference = managed_artifact_reference (codes "b1") digest;
}

completes_it :
    complete_build_assignment (codes "t5") (codes "s1") bob success imaged_db
    ≡ (done_db, ok done_web)
unfolding complete_build_assignment transaction build build_row build_assignment scan_build
    check_artifact end_build insert_build_event find_if is_digest strip_prefix
    managed_artifact_reference validate_build validate_context validate_result
    validate_build_relative_path is_lowercase_sha256 trim_space trim_left trim_from space_width slt
    rank clean_path is_abs has_prefix contains_any split_path cut clean_parts clean_part join
    Text-discrete BuildStatus-discrete BuildMode-discrete BuildAssignmentStatus-discrete
completes_it = refl

complete_build_assignment-Ends_example :
    Ends (codes "t5") (codes "s1") bob success imaged_db done_db
complete_build_assignment-Ends_example =
    complete_build_assignment-Ends (codes "t5") (codes "s1") bob success imaged_db done_db done_web
      completes_it

abbrev old_artifact : ManagedArtifact
old_artifact = record artifact { build_id = codes "b2" }

abbrev web_job : Job
web_job = record waiting_job {
  spec = record waiting_job.spec { image = managed_artifact_reference (codes "b1") digest };
}

abbrev kept_db : BuildDb
kept_db = record imaged_db {
  main = record waiting_db { jobs = web_job ∷ [] };
  builds = record done_web { artifact_available = false; artifact_reference = [] } ∷ [];
  artifacts = artifact ∷ old_artifact ∷ [];
}

two_builds : codes "b2" ≢ codes "b1"
two_builds e = ground (arith, e)

keyed : IsKeyedBy (λ (a : ManagedArtifact). a.build_id) kept_db.artifacts
keyed = ((two_builds, tt), (tt, tt))

garbage_collect_managed_artifacts-keep_example :
    garbage_collect_managed_artifacts (codes "t8") kept_db ≡ (
      record kept_db {
        artifacts = keep (λ row. not (is_garbage (codes "t8") kept_db row)) kept_db.artifacts;
      },
      keep (is_garbage (codes "t8") kept_db) kept_db.artifacts,
    )
garbage_collect_managed_artifacts-keep_example =
    garbage_collect_managed_artifacts-keep (codes "t8") kept_db keyed

collects_one : (garbage_collect_managed_artifacts (codes "t8") kept_db).1 ≡ old_artifact ∷ []
unfolding garbage_collect_managed_artifacts text_ltb managed_artifact_reference Text-discrete
    JobStatus-discrete
collects_one = refl

row_there :
    build_row (codes "b1") kept_db
    ≡ ok (record done_web { artifact_available = false; artifact_reference = [] })
unfolding build_row find_if Text-discrete
row_there = refl

delete_build-protected_example :
    (delete_build (codes "b1") kept_db ≡ (kept_db, err conflict))
    × Memᴰ artifact (garbage_collect_managed_artifacts (codes "t8") kept_db).0.artifacts
delete_build-protected_example =
    delete_build-protected (codes "b1") digest kept_db web_job
      (record done_web { artifact_available = false; artifact_reference = [] }) artifact
      (codes "t8") (Memᴰ.head refl) (λ e. ground (arith, e)) refl row_there refl
      (λ e. ground (arith, e)) keyed (Memᴰ.head refl) refl refl

abbrev plan : BuildPlan
plan = record {
  build_id = codes "b1";
  provider = codes "node";
  runtime = [];
  package_manager = [];
  entrypoint = [];
  railpack_version = [];
  plan = codes "{}";
  info = codes "{}";
  created_at = codes "t1";
  confirmed_at = none;
}

abbrev by_hand : BuildDb
by_hand = (create_build web (no_builds waiting_db)).0

abbrev queued_by_hand : BuildDb
queued_by_hand = (queue_build (codes "t2") (codes "b1") (codes "s1") by_hand).0

abbrev cancelled_by_hand : BuildDb
cancelled_by_hand = cancel (codes "t3") (codes "b1") queued_by_hand

cancelled_run : no_builds waiting_db ⟼* cancelled_by_hand
cancelled_run =
    ◌⟼*◌.next
      (◌⟼*◌.next (◌⟼*◌.next ◌⟼*◌.start (◌⟼◌.creates web refl))
        (◌⟼◌.queues (codes "t2") (codes "b1") (codes "s1")))
      (◌⟼◌.cancels (codes "t3") (codes "b1"))

⟼*-Agrees_example : Agrees cancelled_by_hand
⟼*-Agrees_example = ⟼*-Agrees cancelled_run

abbrev late : Completion
late = record { status = pending_assignment; digest = []; message = [] }

refuses_late :
    complete_build_assignment (codes "t1") (codes "b1") bob late imaged_db
    ≡ (imaged_db, err not_terminal)
unfolding complete_build_assignment transaction BuildAssignmentStatus-discrete
refuses_late = refl

abbrev stale_db : BuildDb
stale_db = (update_build_status (codes "t5") (codes "b1") build_cancelled [] [] queued_by_hand).0

abbrev stale_web : Build
stale_web = record web {
  status = build_cancelled;
  started_at = some (codes "t2");
  finished_at = some (codes "t5");
  version = 3;
}

cancels_stale :
    update_build_status (codes "t5") (codes "b1") build_cancelled [] [] queued_by_hand
    ≡ (stale_db, ok stale_web)
unfolding create_build queue_build queue_row queue_new queue_mode update_build_status
    change_build_status transaction build build_row scan_build build_plan can_build_transition
    insert_build_event find_if is_digest strip_prefix validate_build_assignment validate_build
    validate_context validate_result validate_build_relative_path is_lowercase_sha256 trim_space
    trim_left trim_from space_width slt rank clean_path is_abs has_prefix contains_any split_path
    cut clean_parts clean_part join Text-discrete BuildStatus-discrete BuildMode-discrete
    BuildAssignmentStatus-discrete
cancels_stale = refl

reads_building : build (codes "b1") queued_by_hand ≡ ok building_web
unfolding create_build queue_build queue_row queue_new queue_mode transaction build build_row
    scan_build build_plan insert_build_event find_if is_digest strip_prefix
    validate_build_assignment validate_build validate_context validate_result
    validate_build_relative_path is_lowercase_sha256 trim_space trim_left trim_from space_width slt
    rank clean_path is_abs has_prefix contains_any split_path cut clean_parts clean_part join
    Text-discrete BuildStatus-discrete BuildMode-discrete BuildAssignmentStatus-discrete
reads_building = refl

queued_run : no_builds waiting_db ⟼* queued_by_hand
queued_run =
    ◌⟼*◌.next (◌⟼*◌.next ◌⟼*◌.start (◌⟼◌.creates web refl))
      (◌⟼◌.queues (codes "t2") (codes "b1") (codes "s1"))

update_build_status-stale_example :
    (marks id_of is_under_way (codes "b1") stale_db.builds ≡ false)
    × (marks build_id_of is_live (codes "b1") stale_db.build_assignments ≡ true)
update_build_status-stale_example =
    update_build_status-stale (codes "t5") (codes "b1") [] queued_by_hand building_web stale_db
      stale_web (⟼*-Agrees queued_run) reads_building refl cancels_stale
