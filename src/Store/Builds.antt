-- ===== src/Store/Builds.antt =====
-- internal/store: the tables of source builds (migrations/009 to 014) and the statements on them. A
-- method that runs in a transaction answers with the rows it leaves and a value, or with an error
-- and then leaves the database as it was; the row that it reads back after its commit is the one that
-- it committed. ConfirmBuildPlan, RenewBuildAssignment and ManagedArtifactForAssignment run in none,
-- and no other request comes between their statements here. Of the columns with a reference to users, the user is taken to exist.
pub mod Lifecycle
pub mod Queue
pub mod Completion
pub mod Artifacts
pub mod Answers
pub mod Machine
pub mod Moves
pub mod Steps
pub mod Permitted
pub mod Leases
pub mod Retention
pub mod Endings
pub mod Marks
pub mod Agreement
use job_dock.Base.{
  Bool, true, false, not, ◌&&◌, ◌||◌, Option, none, some, List, [], ◌∷◌, ◌++◌, ℕ, ◌+◌, Text, ◌==◌,
  if◌then◌else◌, any, find_if, is_empty, count_if, eqb, keep, map, ◌≡◌, refl,
}
use job_dock.Domain.ManagedArtifact.{managed_artifact_reference}
use job_dock.Domain.Builds.{
  Build, BuildStatus, BuildPlan, BuildAssignment, BuildEvent, ManagedArtifact,
}
use job_dock.Domain.Validation.{Invalid}
use job_dock.Store.Tables.{Db}

-- The rows of builds have no artifact columns: `scan_build` fills them in. `next_event` is the
-- next number of the AUTOINCREMENT key.
pub record BuildDb : Type 0 where
  pub main : Db
  pub builds : List Build
  pub build_events : List BuildEvent
  pub next_event : ℕ
  pub build_plans : List BuildPlan
  pub build_assignments : List BuildAssignment
  pub artifacts : List ManagedArtifact

pub data BuildError : Type 0 where
  not_found conflict not_terminal : BuildError
  invalid : Invalid → BuildError

pub data Answer {ℓ} (A : Type ℓ) : Type ℓ where
  ok : A → Answer A
  err : BuildError → Answer A

infixl 5 ◌>>=◌ ◌>>◌
abbrev pub ◌>>=◌ {ℓ κ} : {A : Type ℓ} {B : Type κ} → Answer A → (A → Answer B) → Answer B
ok a >>= f = f a
err e >>= f = err e

abbrev pub ◌>>◌ {ℓ} : {B : Type ℓ} → Answer (Unit {0}) → Answer B → Answer B
m >> k = m >>= λ _. k

abbrev pub require : Bool → BuildError → Answer (Unit {0})
require true e = ok tt
require false e = err e

abbrev pub valid : Option Invalid → Answer (Unit {0})
valid none = ok tt
valid (some e) = err (invalid e)

-- `sql.ErrNoRows` as the given error.
abbrev pub found {ℓ} : {A : Type ℓ} → Option A → BuildError → Answer A
found none e = err e
found (some a) e = ok a

-- BeginTx, the deferred Rollback and Commit.
unfoldable pub transaction {ℓ} : {A : Type ℓ} → BuildDb → Answer (BuildDb × A) → BuildDb × Answer A
transaction db (ok (db', a)) = (db', ok a)
transaction db (err e) = (db, err e)

abbrev pub has_build_id : Text → Build → Bool
has_build_id id row = row.id == id

abbrev pub plans : Text → BuildPlan → Bool
plans build_id row = row.build_id == build_id

abbrev pub has_assignment_id : Text → BuildAssignment → Bool
has_assignment_id id row = row.id == id

abbrev pub assigns : Text → BuildAssignment → Bool
assigns build_id row = row.build_id == build_id

abbrev pub is_of_build : Text → ManagedArtifact → Bool
is_of_build build_id row = row.build_id == build_id

-- The row with its artifact, if there is one.
unfoldable pub scan_build : BuildDb → Build → Build
scan_build db row =
    let available = any (is_of_build row.id) db.artifacts in
    record row {
      artifact_available = available;
      artifact_reference =
          if available then managed_artifact_reference row.id row.oci_digest else [];
    }

unfoldable pub build_row : Text → BuildDb → Answer Build
build_row id db = found (find_if (has_build_id id) db.builds) not_found

unfoldable pub build : Text → BuildDb → Answer Build
unfolding build_row scan_build
build id db = do row ← build_row id db; ok (scan_build db row)

unfoldable pub build_plan : Text → BuildDb → Answer BuildPlan
build_plan build_id db = found (find_if (plans build_id) db.build_plans) not_found

unfoldable pub build_assignment : Text → BuildDb → Answer BuildAssignment
build_assignment id db = found (find_if (has_assignment_id id) db.build_assignments) not_found

-- INSERT INTO build_events
unfoldable pub insert_build_event : Text → BuildStatus → Text → Text → BuildDb → BuildDb
insert_build_event build_id status message created_at db = record db {
  build_events =
      db.build_events
      ++ record {
        id = db.next_event;
        build_id = build_id;
        status = status;
        message = message;
        created_at = created_at;
      }
        ∷ [];
  next_event = db.next_event + 1;
}
