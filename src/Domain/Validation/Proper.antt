-- ===== src/Domain/Validation/Proper.antt =====
-- internal/domain/validate.go, `ValidateBuild`: what holds of a build that it accepts.
use job_dock.Base.{
  ◌≡◌, ◌≢◌, ◌⊎◌, inl, inr, true, false, ◌≤◌, [], Text, is_empty, arith, if◌then◌else◌, codes,
  length, none, slt, eq_nil_of_is_empty,
}
use job_dock.Go.Trim.{trim_space}
use job_dock.Domain.ManagedArtifact.{is_digest}
use job_dock.Domain.Builds.{
  Build, BuildStatus-discrete, BuildMode-discrete, build_succeeded, build_failed, railpack,
  dockerfile,
}
use job_dock.Domain.Validation.{
  validate_build, validate_context, validate_result, is_blank, is_lowercase_sha256,
}
use job_dock.Domain.Validation.Paths.{StaysInside, validate_build_relative_path-none}

-- A digest exactly where the build succeeded, and a reason where it failed.
pub record HasResult (build : Build) : Type 0 where
  pub digest :
      (build.status ≡ build_succeeded) × (is_digest build.oci_digest ≡ true)
      ⊎ (build.status ≢ build_succeeded) × (build.oci_digest ≡ [])
  pub reason : build.status ≡ build_failed → is_blank build.failure_reason ≡ false

-- The context and the Dockerfile, with their defaults, are inside the source archive.
abbrev or_default : Text → Text → Text
or_default path default = if is_empty path then default else path

abbrev pub HasContext : Build → Type 0
HasContext build =
    (build.mode ≡ railpack) × (build.context_path ≡ []) × (build.dockerfile_path ≡ [])
    ⊎ (build.mode ≡ dockerfile)
      × StaysInside (or_default build.context_path (codes ".")) true
      × StaysInside (or_default build.dockerfile_path (codes "Dockerfile")) false

pub record IsProper (build : Build) : Type 0 where
  pub name : (3 ≤ length (trim_space build.name)) × (length (trim_space build.name) ≤ 120)
  pub filename : (is_blank build.source.filename ≡ false) × (length build.source.filename ≤ 255)
  pub size : slt 0 build.source.size ≡ true
  pub sha256 : is_lowercase_sha256 build.source.sha256 ≡ true
  pub context : HasContext build
  pub result : HasResult build

pub validate_result-none : (build : Build) → validate_result build ≡ none → HasResult build
unfolding validate_result
validate_result-none build e = record {
  digest = elim (BuildStatus-discrete build.status build_succeeded) [
    | yes same ↦ inl (same, ground (arith, e, same))
    | no other ↦ inr (other, eq_nil_of_is_empty build.oci_digest (ground (arith, e, other)))
  ];
  reason = λ failed. ground (arith, e, failed);
}

validate_context-none :
    (build : Build)
    → validate_context build ≡ none
    → StaysInside (or_default build.context_path (codes ".")) true
      × StaysInside (or_default build.dockerfile_path (codes "Dockerfile")) false
unfolding validate_context
validate_context-none build e =
    let context =
      validate_build_relative_path-none (or_default build.context_path (codes ".")) true in
    let file =
      validate_build_relative_path-none (or_default build.dockerfile_path (codes "Dockerfile"))
        false in
    (context.0 (ground (arith, e)), file.0 (ground (arith, e)))

-- A build that is accepted has a name of 3 to 120 bytes without its spaces, a file name, a positive
-- size, a SHA-256 digest, as a Dockerfile build both paths inside the archive and as a Railpack build
-- none, an OCI digest exactly if it succeeded, and a reason if it failed.
pub validate_build-IsProper : (build : Build) → validate_build build ≡ none → IsProper build
unfolding validate_build
validate_build-IsProper build e = record {
  name = (ground (arith, e), ground (arith, e));
  filename = (ground (arith, e), ground (arith, e));
  size = ground (arith, e);
  sha256 = ground (arith, e);
  context = elim (BuildMode-discrete build.mode dockerfile) [
    | yes same ↦
        let (place, file) = validate_context-none build (ground (arith, e, same)) in
        inr (same, place, file)
    | no other ↦ inl (
      ground (arith, e, other),
      eq_nil_of_is_empty build.context_path (ground (arith, e, other)),
      eq_nil_of_is_empty build.dockerfile_path (ground (arith, e, other)),
    )
  ];
  result = validate_result-none build (ground (arith, e));
}
