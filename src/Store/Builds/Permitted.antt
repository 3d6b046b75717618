-- ===== src/Store/Builds/Permitted.antt =====
-- The operations that leave the builds alone, and all of them together.
use job_dock.Base.{Option, subst, inr, inl, count_if, eqb, ◌≡◌, refl, Text, Bool, arith}
use job_dock.Domain.Types.{Job}
use job_dock.Domain.Builds.{Build, BuildWork, BuildAssignment, BuildPlan, ManagedArtifact}
use job_dock.Store.Builds.{err, ◌>>=◌, Answer, BuildDb, ok, build, conflict}
use job_dock.Store.Builds.Answers.{Answer-cases, transaction-keeps, >>=-ok, require-ok}
use job_dock.Store.Builds.Lifecycle.{save_build_plan, confirm_build_plan}
use job_dock.Store.Builds.Queue.{is_still, leased, leased_db, take_work, plan_of_work}
use job_dock.Store.Builds.Artifacts.{
  artifact_of_assignment, save_managed_artifact, managed_artifact_for_assignment,
  create_job_with_managed_artifact, garbage_collect_managed_artifacts,
}
use job_dock.Store.Builds.Moves.{Moves}

-- The builds are as they were.
abbrev Same : BuildDb → BuildDb → Type 0
Same db db' = db.builds ≡ db'.builds

-- The builds and the assignments are as they were.
abbrev pub BothSame : BuildDb → BuildDb → Type 0
BothSame db db' = (db.builds ≡ db'.builds) × (db.build_assignments ≡ db'.build_assignments)

pub save_build_plan-Same :
    (json_valid : Text → Bool) (plan : BuildPlan) (db : BuildDb)
    → BothSame db (save_build_plan json_valid plan db).0
unfolding save_build_plan
save_build_plan-Same json_valid plan db =
    transaction-keeps (BothSame db) db _ (refl, refl)
      (λ db' a e. (ground (arith, e), ground (arith, e)))

pub confirm_build_plan-Same :
    (now id : Text) (db : BuildDb) → BothSame db (confirm_build_plan now id db).0
unfolding confirm_build_plan
confirm_build_plan-Same now id db = (refl, refl)

given-ok :
    (d : BuildDb) (a : BuildAssignment) (b : Build) (m : Answer (Option BuildPlan)) (d' : BuildDb)
    (work : BuildWork)
    → ◌>>=◌ {B = BuildDb × BuildWork} m
        (λ plan. ok (d, record { assignment = a; build = b; plan = plan }))
      ≡ ok (d', work)
    → (d ≡ d') × (work.assignment ≡ a) × (b ≡ work.build)
given-ok d a b (ok plan) d' work e = (cc e, cc e, cc e)
given-ok d a b (err x) d' work e = cc e

-- What taking work leaves, and what was taken.
pub take_work-ok :
    (now expiry builder : Text) (db : BuildDb) (taken : BuildAssignment) (db' : BuildDb)
    (work : BuildWork)
    → take_work now expiry builder db taken ≡ ok (db', work)
    → (leased_db now expiry builder taken db ≡ db')
      × (work.assignment ≡ leased now expiry builder taken)
      × (build taken.build_id db' ≡ ok work.build)
unfolding take_work
take_work-ok now expiry builder db taken db' work e =
    let (_, e1) =
      require-ok (eqb (count_if (is_still now builder taken) db.build_assignments) 1) conflict _
        e in
    let (row, built, e2) =
      >>=-ok (build taken.build_id (leased_db now expiry builder taken db)) _ e1 in
    let (left, given, same) =
      given-ok (leased_db now expiry builder taken db) (leased now expiry builder taken) row
        (plan_of_work row (leased_db now expiry builder taken db)) db' work e2 in
    (
      left,
      given,
      subst (λ (d : BuildDb). build taken.build_id d ≡ ok work.build) left
          (subst
            (λ (b : Build). build taken.build_id (leased_db now expiry builder taken db) ≡ ok b)
            same built),
    )

pub save_managed_artifact-Same :
    (a : ManagedArtifact) (db : BuildDb) → BothSame db (save_managed_artifact a db).0
unfolding save_managed_artifact
save_managed_artifact-Same a db =
    transaction-keeps (BothSame db) db _ (refl, refl)
      (λ db' b e. (ground (arith, e), ground (arith, e)))

pub managed_artifact_for_assignment-Same :
    (now assignment node : Text) (db : BuildDb)
    → BothSame db (managed_artifact_for_assignment now assignment node db).0
unfolding managed_artifact_for_assignment
managed_artifact_for_assignment-Same now assignment node db =
    elim (Answer-cases (artifact_of_assignment assignment node db)) [
      | inl (artifact, there) ↦ rw (there, managed_artifact_for_assignment) (refl, refl)
      | inr (x, missing) ↦ rw (missing, managed_artifact_for_assignment) (refl, refl)
    ]

pub create_job_with_managed_artifact-Same :
    (now : Text) (j : Job) (id digest : Text) (db : BuildDb)
    → BothSame db (create_job_with_managed_artifact now j id digest db).0
unfolding create_job_with_managed_artifact
create_job_with_managed_artifact-Same now j id digest db =
    transaction-keeps (BothSame db) db _ (refl, refl)
      (λ db' a e. (ground (arith, e), ground (arith, e)))

pub collect-Same :
    (before : Text) (db : BuildDb) → BothSame db (garbage_collect_managed_artifacts before db).0
unfolding garbage_collect_managed_artifacts
collect-Same before db = (refl, refl)
