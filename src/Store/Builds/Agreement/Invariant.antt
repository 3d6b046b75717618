-- ===== src/Store/Builds/Agreement/Invariant.antt =====
-- All the operations on builds, and every database that they reach.
use job_dock.Base.{
  ◌≡◌, refl, ap, subst, sym, ◌∙◌, Text, true, false, arith, codes, [], Bool-cases, inl, inr,
}
use job_dock.Domain.Builds.{
  Build, BuildStatus, BuildStatus-discrete, ◌is_build◌, build_building, build_analyzing,
  build_failed, build_cancelled, can_build_transition, build_allowed,
}
use job_dock.Store.Tables.{Db}
use job_dock.Store.Builds.{Answer, BuildDb, ok, build, build_row, scan_build}
use job_dock.Store.Builds.Answers.{Answer-cases}
use job_dock.Store.Builds.Lifecycle.{update_build_status}
use job_dock.Store.Builds.Permitted.{
  BothSame, save_build_plan-Same, confirm_build_plan-Same, save_managed_artifact-Same,
  managed_artifact_for_assignment-Same, create_job_with_managed_artifact-Same, collect-Same,
}
use job_dock.Store.Builds.Machine.{◌⟼◌, ◌⟼*◌, cancel, no_builds}
use job_dock.Store.Builds.Agreement.{Agrees, shift-Agrees, stays, builds-stay, assignments-stay}
use job_dock.Store.Builds.Agreement.Updates.{
  create_build-Agrees, update_build_status-Agrees, delete_build-Agrees,
}
use job_dock.Store.Builds.Agreement.Queueing.{
  queue_build-Agrees, next_build_work-Agrees, renew_build_assignment-Agrees,
}
use job_dock.Store.Builds.Agreement.Ending.{
  request_build_cancellation-Agrees, complete_build_assignment-Agrees,
}

both-Agrees : (db db' : BuildDb) → BothSame db db' → Agrees db → Agrees db'
both-Agrees db db' (builds, assignments) a =
    shift-Agrees stays db db' a (builds-stay db.builds db'.builds builds)
      (assignments-stay db.build_assignments db'.build_assignments assignments)

-- Only a build that is not BUILDING can become ANALYZING.
before_analysis :
    (s : BuildStatus)
    → can_build_transition s build_analyzing ≡ true
    → (s is_build build_building) ≡ false
unfolding can_build_transition build_allowed BuildStatus-discrete
before_analysis s h = ground (arith, h)

analyses-Agrees :
    (now id message : Text) (db : BuildDb)
    → Agrees db
    → Agrees (update_build_status now id build_analyzing [] message db).0
unfolding BuildStatus-discrete
analyses-Agrees now id message db a =
    update_build_status-Agrees now id build_analyzing [] message db refl
      (λ current _ permitted. before_analysis current.status permitted) a

read_status :
    (id : Text) (db : BuildDb) (row current : Build)
    → build_row id db ≡ ok row
    → build id db ≡ ok current
    → current.status ≡ row.status
unfolding build scan_build
read_status id db row current there read = ground (arith, there, read)

fails-Agrees :
    (now id message : Text) (row : Build) (db : BuildDb)
    → build_row id db ≡ ok row
    → row.status ≡ build_analyzing
    → Agrees db
    → Agrees (update_build_status now id build_failed [] message db).0
unfolding BuildStatus-discrete
fails-Agrees now id message row db there analyzing a =
    update_build_status-Agrees now id build_failed [] message db refl
      (λ current read _.
        let same = read_status id db row current there read ∙ analyzing in
        ap (λ (s : BuildStatus). s is_build build_building) same)
      a

same_answer : (row current : Build) → ◌≡◌ {A = Answer Build} (ok row) (ok current) → row ≡ current
same_answer row current e = cc e

cancel-Agrees : (now id : Text) (db : BuildDb) → Agrees db → Agrees (cancel now id db)
unfolding cancel BuildStatus-discrete
cancel-Agrees now id db a = elim (Answer-cases (build id db)) [
  | inr (x, gone) ↦ rw (gone, cancel) a
  | inl (row, there) ↦ elim (Bool-cases (row.status is_build build_building)) [
    | inl under_way ↦ rw (there, cancel, under_way) (request_build_cancellation-Agrees now id db a)
    | inr other ↦
        rw (there, cancel, other)
          (update_build_status-Agrees now id build_cancelled [] (codes "Cancelled by user") db refl
            (λ current read _.
              subst (λ (b : Build). (b.status is_build build_building) ≡ false)
                (same_answer row current (sym there ∙ read)) other)
            a)
  ]
]

pub step-Agrees : {db db' : BuildDb} → db ⟼ db' → Agrees db → Agrees db'
step-Agrees {db} (◌⟼◌.creates b fresh) a = create_build-Agrees b db fresh a
step-Agrees {db} (◌⟼◌.analyses now id message) a = analyses-Agrees now id message db a
step-Agrees {db} (◌⟼◌.fails now id message row there analyzing) a =
    fails-Agrees now id message row db there analyzing a
step-Agrees {db} {db'} (◌⟼◌.plans json_valid plan) a =
    both-Agrees db db' (save_build_plan-Same json_valid plan db) a
step-Agrees {db} {db'} (◌⟼◌.confirms now id) a =
    both-Agrees db db' (confirm_build_plan-Same now id db) a
step-Agrees {db} (◌⟼◌.queues now id assignment) a = queue_build-Agrees now id assignment db a
step-Agrees {db} (◌⟼◌.leases now expiry builder) a = next_build_work-Agrees now expiry builder db a
step-Agrees {db} (◌⟼◌.renews now expiry id builder) a =
    renew_build_assignment-Agrees now expiry id builder db a
step-Agrees {db} (◌⟼◌.cancels now id) a = cancel-Agrees now id db a
step-Agrees {db} (◌⟼◌.completes now id builder c) a =
    complete_build_assignment-Agrees now id builder c db a
step-Agrees {db} {db'} (◌⟼◌.saves artifact) a =
    both-Agrees db db' (save_managed_artifact-Same artifact db) a
step-Agrees {db} {db'} (◌⟼◌.fetches now assignment node) a =
    both-Agrees db db' (managed_artifact_for_assignment-Same now assignment node db) a
step-Agrees {db} {db'} (◌⟼◌.uses now j id digest) a =
    both-Agrees db db' (create_job_with_managed_artifact-Same now j id digest db) a
step-Agrees {db} {db'} (◌⟼◌.collects before) a = both-Agrees db db' (collect-Same before db) a
step-Agrees {db} (◌⟼◌.deletes id) a = delete_build-Agrees id db a

runs-Agrees : {db db' : BuildDb} → db ⟼* db' → Agrees db → Agrees db'
runs-Agrees ◌⟼*◌.start a = a
runs-Agrees (◌⟼*◌.next run step) a = step-Agrees step (runs-Agrees run a)

-- In every database that is reached from one without builds by the operations, each undisturbed by
-- other requests and used as the API uses it (builds are created CREATED; UpdateBuildStatus starts an
-- analysis, fails a build that is ANALYZING, or cancels one that is not BUILDING when it is called), no
-- two builds and no two assignments have one name, no build has two assignments, and a build with a
-- name is BUILDING exactly if an assignment of that name's build is open and was not asked to be
-- cancelled.
pub ⟼*-Agrees : {main : Db} {db : BuildDb} → no_builds main ⟼* db → Agrees db
⟼*-Agrees run = runs-Agrees run (record { built = tt; named = tt; one = tt; agree = λ i. refl })
