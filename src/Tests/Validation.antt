-- ===== src/Tests/Validation.antt =====
-- Jobs, builds and paths that the checks accept or refuse.
use job_dock.Base.{
  ◌≡◌, ◌≢◌, refl, true, false, [], ◌∷◌, none, codes, Text, Text-discrete, arith, ◌↔◌, length, ◌≤◌,
  rank, slt, eq64, ◌⊎◌, join,
}
use job_dock.Domain.Types.{JobSpec, InputFile}
use job_dock.Domain.Builds.{
  Build, dockerfile, build_created, BuildStatus-discrete, BuildMode-discrete,
}
use job_dock.Domain.Validation.{
  validate_build, validate_build_relative_path, validate_context, validate_result,
  is_lowercase_sha256,
}
use job_dock.Domain.Validation.Specs.{
  validate_job_spec, validate_inputs, valid_secret_filename, validate_request, validate_resources,
  validate_package, validate_environment, validate_secrets, validate_files, validate_uuids,
  is_bad_path, normalized,
}
use job_dock.Domain.Validation.Paths.{StaysInside, validate_build_relative_path-none}
use job_dock.Domain.Validation.Filenames.{valid_secret_filename_iff}
use job_dock.Domain.Validation.Accepted.{
  validate_job_spec-IsAccepted, IsRepresented, IsAccepted, validate_inputs-dot_dot,
}
use job_dock.Domain.Validation.Proper.{validate_build-IsProper, IsProper}
use job_dock.Go.Trim.{trim_space, trim_from, trim_left, space_width}
use job_dock.Go.Bytes.{contains_any, has_prefix, replace_byte}
use job_dock.Go.Paths.{
  dot, dot_dot, slash, split_path, path_base, clean_path, is_abs, clean_parts, clean_part, climb,
  cut, drop_slashes,
}
use job_dock.Go.Paths.Cleaning.{IsWhole}
use job_dock.Tests.Samples.{training}

abbrev pub sha : Text
sha = codes "0123456789abcdef0123456789abcdef0123456789abcdef0123456789abcdef"

validate_build_relative_path-none_example :
    (validate_build_relative_path (codes "app/web") false ≡ none)
    ↔ StaysInside (codes "app/web") false
validate_build_relative_path-none_example =
    validate_build_relative_path-none (codes "app/web") false

valid_secret_filename_iff_example :
    (valid_secret_filename (slash ∷ []) ≡ true)
    ↔ (slash ∷ [] ≢ [])
      × (length (slash ∷ []) ≤ 255)
      × (contains_any (slash ∷ []) (92 ∷ 0 ∷ []) ≡ false)
      × (slash ∷ [] ≢ dot)
      × (slash ∷ [] ≢ dot_dot)
      × (IsWhole (slash ∷ []) ⊎ (slash ∷ [] ≡ slash ∷ []))
valid_secret_filename_iff_example = valid_secret_filename_iff (slash ∷ [])

accepts_slash : valid_secret_filename (slash ∷ []) ≡ true
unfolding valid_secret_filename path_base drop_slashes cut contains_any Text-discrete
accepts_slash = refl

trims :
    trim_space (32 ∷ 9 ∷ 0xE2 ∷ 0x80 ∷ 0x83 ∷ 65 ∷ 32 ∷ 66 ∷ 0xC2 ∷ 0xA0 ∷ 10 ∷ [])
    ≡ 65 ∷ 32 ∷ 66 ∷ []
unfolding trim_space trim_left trim_from space_width
trims = refl

cleans : clean_path (codes "/a/./b//../../../c/") ≡ codes "/c"
unfolding clean_path is_abs split_path cut clean_parts clean_part climb join Text-discrete
cleans = refl

cleans_relative : clean_path (codes "a/../../b") ≡ codes "../b"
unfolding clean_path is_abs split_path cut clean_parts clean_part climb join Text-discrete
cleans_relative = refl

abbrev two_gpus : JobSpec
two_gpus = record training {
  inputs = record { path = codes "data\\set.csv"; size = 5; sha256 = sha } ∷ [];
  target_node_id = codes "b";
  resources = record training.resources {
    gpu = record { count = 2; min_vram_bytes = 10; uuids = codes "g1" ∷ codes "g2" ∷ [] };
  };
}

two_gpus-IsRepresented : IsRepresented two_gpus
two_gpus-IsRepresented = omega arith

accepts_two_gpus : validate_job_spec two_gpus ≡ none
unfolding validate_job_spec validate_request validate_resources validate_package
    validate_environment validate_secrets validate_files validate_uuids validate_inputs normalized
    is_bad_path replace_byte trim_space trim_left trim_from space_width slt eq64 rank clean_path
    is_abs has_prefix split_path cut clean_parts clean_part join Text-discrete
accepts_two_gpus = refl

validate_job_spec-IsAccepted_example : IsAccepted two_gpus
validate_job_spec-IsAccepted_example =
    validate_job_spec-IsAccepted two_gpus two_gpus-IsRepresented accepts_two_gpus

abbrev above : InputFile
above = record { path = codes ".."; size = 5; sha256 = sha }

five : slt 5 0 ≡ false
unfolding slt rank
five = refl

validate_inputs-dot_dot_example : validate_inputs [] (above ∷ []) ≡ none
validate_inputs-dot_dot_example = validate_inputs-dot_dot above refl five refl refl

abbrev pub web : Build
web = record {
  id = codes "b1";
  owner_id = codes "u";
  name = codes "web";
  mode = dockerfile;
  status = build_created;
  source = record { filename = codes "web.tgz"; size = 9; sha256 = sha };
  context_path = codes "app";
  dockerfile_path = [];
  oci_digest = [];
  artifact_reference = [];
  artifact_available = false;
  failure_reason = [];
  created_at = codes "t1";
  started_at = none;
  finished_at = none;
  version = 1;
}

accepts_web : validate_build web ≡ none
unfolding validate_build validate_context validate_result validate_build_relative_path
    is_lowercase_sha256 trim_space trim_left trim_from space_width slt rank clean_path is_abs
    has_prefix contains_any split_path cut clean_parts clean_part join Text-discrete
    BuildStatus-discrete BuildMode-discrete
accepts_web = refl

validate_build-IsProper_example : IsProper web
validate_build-IsProper_example = validate_build-IsProper web accepts_web
