-- ===== src/Domain/Builds.antt =====
-- internal/domain/types.go: the records of source builds, with the conventions of Domain.Types. A
-- string of a type with named values that is none of them is `other_mode` or `other_assignment`.
use job_dock.Base.{Bool, true, false, Option, Text, Int64, holds, if◌then◌else◌}

pub data BuildStatus : Type 0 where
  build_created build_analyzing build_building : BuildStatus
  build_succeeded build_failed build_cancelled : BuildStatus

unfoldable pub BuildStatus-discrete : Discrete BuildStatus
BuildStatus-discrete = hlevel

pub data BuildMode : Type 0 where
  railpack dockerfile other_mode : BuildMode

unfoldable pub BuildMode-discrete : Discrete BuildMode
BuildMode-discrete = hlevel

pub data BuildAssignmentStatus : Type 0 where
  pending_assignment running_assignment succeeded_assignment : BuildAssignmentStatus
  failed_assignment cancelled_assignment other_assignment : BuildAssignmentStatus

unfoldable pub BuildAssignmentStatus-discrete : Discrete BuildAssignmentStatus
BuildAssignmentStatus-discrete = hlevel

infix 50 ◌is_build◌
abbrev pub ◌is_build◌ : BuildStatus → BuildStatus → Bool
a is_build b = holds (BuildStatus-discrete a b)

infix 50 ◌is_mode◌
abbrev pub ◌is_mode◌ : BuildMode → BuildMode → Bool
a is_mode b = holds (BuildMode-discrete a b)

infix 50 ◌is_assignment◌
abbrev pub ◌is_assignment◌ : BuildAssignmentStatus → BuildAssignmentStatus → Bool
a is_assignment b = holds (BuildAssignmentStatus-discrete a b)

pub record BuildSource : Type 0 where
  pub filename : Text
  pub size : Int64
  pub sha256 : Text

pub record Build : Type 0 where
  pub id : Text
  pub owner_id : Text
  pub name : Text
  pub mode : BuildMode
  pub status : BuildStatus
  pub source : BuildSource
  pub context_path : Text
  pub dockerfile_path : Text
  pub oci_digest : Text
  pub artifact_reference : Text
  pub artifact_available : Bool
  pub failure_reason : Text
  pub created_at : Text
  pub started_at : Option Text
  pub finished_at : Option Text
  pub version : Int64

pub record ManagedArtifact : Type 0 where
  pub build_id : Text
  pub owner_id : Text
  pub digest : Text
  pub sha256 : Text
  pub size : Int64
  pub media_type : Text
  pub runtime_image : Text
  pub created_at : Text
  pub last_referenced_at : Text

pub record BuildPlan : Type 0 where
  pub build_id : Text
  pub provider : Text
  pub runtime : Text
  pub package_manager : Text
  pub entrypoint : Text
  pub railpack_version : Text
  pub plan : Text
  pub info : Text
  pub created_at : Text
  pub confirmed_at : Option Text

pub record BuildAssignment : Type 0 where
  pub id : Text
  pub build_id : Text
  pub status : BuildAssignmentStatus
  pub cancel_requested : Bool
  pub builder_id : Text
  pub lease_expires_at : Option Text
  pub created_at : Text
  pub updated_at : Text

pub record BuildEvent : Type 0 where
  pub id : Int64
  pub build_id : Text
  pub status : BuildStatus
  pub message : Text
  pub created_at : Text

pub record BuildWork : Type 0 where
  pub assignment : BuildAssignment
  pub build : Build
  pub plan : Option BuildPlan

-- The table of `CanBuildTransition`; a status without a row may not change.
unfoldable pub build_allowed : BuildStatus → BuildStatus → Bool
build_allowed build_created build_analyzing = true
build_allowed build_created build_building = true
build_allowed build_created build_failed = true
build_allowed build_created build_cancelled = true
build_allowed build_analyzing build_building = true
build_allowed build_analyzing build_failed = true
build_allowed build_analyzing build_cancelled = true
build_allowed build_building build_succeeded = true
build_allowed build_building build_failed = true
build_allowed build_building build_cancelled = true
build_allowed _ _ = false

unfoldable pub can_build_transition : BuildStatus → BuildStatus → Bool
unfolding build_allowed BuildStatus-discrete
can_build_transition from to = if from is_build to then true else build_allowed from to
