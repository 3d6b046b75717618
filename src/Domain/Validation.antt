-- ===== src/Domain/Validation.antt =====
-- internal/domain/validate.go: the checks of a build, a plan, an assignment, an artifact and a job.
-- An error is a constructor that stands for its message; `none` is nil. The three patterns are those
-- of managed_artifact.go and byte tests. `json.Valid` is a parameter.
pub mod Paths
pub mod Filenames
pub mod Specs
pub mod Accepted
pub mod Proper
use job_dock.Base.{
  ℕ, ◌≡◌, Bool, true, false, not, ◌&&◌, ◌||◌, Option, none, some, List, [], ◌∷◌, ◌++◌, Text, codes,
  eqb, leb, ltb, any, length, is_empty, Int64, slt, eq64, if◌then◌else◌, ◌==◌,
}
use job_dock.Domain.ManagedArtifact.{is_hex, is_digest}
use job_dock.Domain.Builds.{
  ◌is_assignment◌, BuildStatus, build_succeeded, build_failed, Build, BuildMode, railpack,
  dockerfile, ◌is_build◌, ◌is_mode◌, BuildPlan, BuildAssignment, BuildAssignmentStatus,
  pending_assignment, running_assignment, succeeded_assignment, failed_assignment,
  cancelled_assignment, other_assignment, ManagedArtifact,
}
use job_dock.Go.Trim.{trim_space}
use job_dock.Go.Bytes.{contains_any, has_prefix}
use job_dock.Go.Paths.{clean_path, slash, dot, dot_dot}

pub data PathError : Type 0 where
  not_relative not_normalized : PathError

pub data Invalid : Type 0 where
  invalid_name invalid_mode invalid_filename invalid_source : Invalid
  invalid_context invalid_dockerfile : PathError → Invalid
  unexpected_context succeeded_without_digest unexpected_digest invalid_digest : Invalid
  failed_without_reason plan_without_build plan_without_provider plan_too_large plan_not_json :
      Invalid
  assignment_without_ids invalid_assignment_status running_without_builder : Invalid
  artifact_without_ids invalid_artifact_digest invalid_artifact_type other_runtime_image : Invalid
  artifact_without_times : Invalid

-- `^[0-9a-f]{64}$`
unfoldable pub is_lowercase_sha256 : Text → Bool
is_lowercase_sha256 t = eqb (length t) 64 && not (any (λ c. not (is_hex c)) t)

abbrev pub is_blank : Text → Bool
is_blank t = is_empty (trim_space t)

-- The second argument is `allowDot`.
unfoldable pub validate_build_relative_path : Text → Bool → Option PathError
validate_build_relative_path value allow_dot =
    if is_empty value
      || ltb 512 (length value)
      || contains_any value (92 ∷ 58 ∷ 0 ∷ [])
      || has_prefix value (codes "/")
    then some not_relative
    else let cleaned = clean_path value in
      if (cleaned == codes "..")
        || has_prefix cleaned (codes "../")
        || not allow_dot && (cleaned == codes ".")
        || not (cleaned == value)
      then some not_normalized
      else none

-- The checks of the two paths, with their defaults.
unfoldable pub validate_context : Build → Option Invalid
unfolding validate_build_relative_path
validate_context build =
    let context_path = if is_empty build.context_path then codes "." else build.context_path in
    let dockerfile_path =
      if is_empty build.dockerfile_path then codes "Dockerfile" else build.dockerfile_path in
    elim (validate_build_relative_path context_path true) [
      | some err ↦ some (invalid_context err)
      | none ↦ elim (validate_build_relative_path dockerfile_path false) [
        | some err ↦ some (invalid_dockerfile err)
        | none ↦ none
      ]
    ]

-- The checks of the status, the digest and the reason.
unfoldable pub validate_result : Build → Option Invalid
validate_result build =
    if build.status is_build build_succeeded && not (is_digest build.oci_digest)
    then some succeeded_without_digest
    else if not (build.status is_build build_succeeded) && not (is_empty build.oci_digest)
    then some unexpected_digest
    else if not (is_empty build.oci_digest) && not (is_digest build.oci_digest)
    then some invalid_digest
    else if build.status is_build build_failed && is_blank build.failure_reason
    then some failed_without_reason
    else none

unfoldable pub validate_build : Build → Option Invalid
unfolding validate_context validate_result
validate_build build =
    let n = length (trim_space build.name) in
    if ltb n 3 || ltb 120 n
    then some invalid_name
    else if not (build.mode is_mode railpack) && not (build.mode is_mode dockerfile)
    then some invalid_mode
    else if is_blank build.source.filename || ltb 255 (length build.source.filename)
    then some invalid_filename
    else if not (slt 0 build.source.size) || not (is_lowercase_sha256 build.source.sha256)
    then some invalid_source
    else if build.mode is_mode dockerfile
    then elim (validate_context build) [ some err ↦ some err | none ↦ validate_result build ]
    else if not (is_empty build.context_path) || not (is_empty build.dockerfile_path)
    then some unexpected_context
    else validate_result build

module _ (json_valid : Text → Bool) where
  unfoldable pub validate_build_plan : BuildPlan → Option Invalid
  validate_build_plan plan =
      if is_blank plan.build_id
      then some plan_without_build
      else if is_blank plan.provider || ltb 128 (length plan.provider)
      then some plan_without_provider
      else if ltb 256 (length plan.runtime)
          || ltb 256 (length plan.package_manager)
          || ltb 8192 (length plan.entrypoint)
          || ltb 128 (length plan.railpack_version)
      then some plan_too_large
      else if not (json_valid plan.plan) || not (json_valid plan.info)
      then some plan_not_json
      else none

unfoldable pub validate_build_assignment : BuildAssignment → Option Invalid
validate_build_assignment assignment =
    if is_blank assignment.id || is_blank assignment.build_id
    then some assignment_without_ids
    else if assignment.status is_assignment other_assignment
    then some invalid_assignment_status
    else if (assignment.status is_assignment running_assignment) && is_blank assignment.builder_id
    then some running_without_builder
    else none

abbrev pub managed_image_media_type : Text
managed_image_media_type = codes "application/vnd.jobdock.image.archive.v1+tar"

-- The text of `time.Time{}`.
abbrev pub zero_time : Text
zero_time = codes "0001-01-01T00:00:00Z"

unfoldable pub runtime_image_of : Text → Text
runtime_image_of build_id = codes "jobdock.local/managed/" ++ build_id ++ codes ":artifact"

unfoldable pub validate_managed_artifact : ManagedArtifact → Option Invalid
validate_managed_artifact artifact =
    if is_blank artifact.build_id || is_blank artifact.owner_id
    then some artifact_without_ids
    else if not (is_digest artifact.digest) || not (is_lowercase_sha256 artifact.sha256)
    then some invalid_artifact_digest
    else if not (slt 0 artifact.size) || not (artifact.media_type == managed_image_media_type)
    then some invalid_artifact_type
    else if not (artifact.runtime_image == runtime_image_of artifact.build_id)
    then some other_runtime_image
    else if (artifact.created_at == zero_time) || (artifact.last_referenced_at == zero_time)
    then some artifact_without_times
    else none
