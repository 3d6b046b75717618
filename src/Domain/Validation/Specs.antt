-- ===== src/Domain/Validation/Specs.antt =====
-- internal/domain/validate.go, `ValidateJobSpec`: the parts of the check, and the whole in their order.
-- The environment is the list of its entries, in the order in which the loop over the map takes them.
use job_dock.Base.{
  ℕ, Bool, false, not, ◌&&◌, ◌||◌, Option, none, some, List, [], ◌∷◌, Text, codes, eqb, leb, ltb,
  any, length, is_empty, slt, eq64, if◌then◌else◌, ◌==◌,
}
use job_dock.Domain.ManagedArtifact.{is_hex}
use job_dock.Domain.Types.{JobSpec, SecretRef, InputFile}
use job_dock.Domain.Validation.{is_blank}
use job_dock.Go.Trim.{trim_space}
use job_dock.Go.Bytes.{contains_any, has_prefix, replace_byte}
use job_dock.Go.Paths.{clean_path, path_base, is_abs, slash}

pub data SpecError : Type 0 where
  spec_name spec_image too_many_arguments long_argument : SpecError
  no_cpu_or_memory negative_gpus gpus_without_target gpu_count gpu_uuids : SpecError
  package_without_target reserved_variable secret_mode secret_name : SpecError
  secret_variable secret_filename too_many_inputs : SpecError
  invalid_input duplicate_input unsized_input undigested_input : Text → SpecError

-- `^[A-Za-z_][A-Za-z0-9_]*$`
abbrev is_letter : ℕ → Bool
is_letter c = leb 65 c && leb c 90 || leb 97 c && leb c 122 || eqb c 95

abbrev is_digit : ℕ → Bool
is_digit c = leb 48 c && leb c 57

unfoldable pub is_env_name : Text → Bool
is_env_name [] = false
is_env_name (c ∷ name) = is_letter c && not (any (λ d. not (is_letter d || is_digit d)) name)

-- A name that a job may not set.
unfoldable pub is_reserved : Text → Bool
is_reserved name = not (is_env_name name) || has_prefix name (codes "JOBDOCK_")

unfoldable pub valid_secret_filename : Text → Bool
valid_secret_filename value =
    not (is_empty value)
    && leb (length value) 255
    && not (value == codes ".")
    && not (value == codes "..")
    && (path_base value == value)
    && not (contains_any value (92 ∷ 0 ∷ []))

-- `seen[id]` for a name in the list.
abbrev pub is_seen : List Text → Text → Bool
is_seen seen id = any (λ x. x == id) seen

unfoldable pub validate_uuids : List Text → List Text → Option SpecError
validate_uuids seen [] = none
validate_uuids seen (id ∷ ids) =
    let rest = validate_uuids (id ∷ seen) ids in
    if is_blank id || is_seen seen id then some gpu_uuids else rest

unfoldable pub validate_resources : JobSpec → Option SpecError
unfolding validate_uuids
validate_resources spec =
    let gpu = spec.resources.gpu in
    if not (slt 0 spec.resources.cpu_millis) || not (slt 0 spec.resources.memory_bytes)
    then some no_cpu_or_memory
    else if slt gpu.count 0 || slt gpu.min_vram_bytes 0
    then some negative_gpus
    else if is_empty gpu.uuids
    then none
    else if is_empty spec.target_node_id
    then some gpus_without_target
    else if not (eq64 gpu.count (length gpu.uuids))
    then some gpu_count
    else validate_uuids [] gpu.uuids

unfoldable pub validate_secret : SecretRef → Option SpecError
unfolding is_reserved valid_secret_filename
validate_secret ref =
    let is_file = ref.mode == codes "file" in
    let is_env = ref.mode == codes "env" in
    if not is_file && not is_env
    then some secret_mode
    else if is_blank ref.name
    then some secret_name
    else if is_env && is_reserved ref.target
    then some secret_variable
    else if is_file && not (valid_secret_filename ref.target)
    then some secret_filename
    else none

unfoldable pub validate_secrets : List SecretRef → Option SpecError
unfolding validate_secret
validate_secrets [] = none
validate_secrets (ref ∷ refs) =
    let rest = validate_secrets refs in
    elim (validate_secret ref) [ some err ↦ some err | none ↦ rest ]

unfoldable pub normalized : Text → Text
normalized p = replace_byte 92 slash p

unfoldable pub is_bad_path : Text → Bool
is_bad_path p =
    is_empty p
    || is_abs p
    || not (clean_path p == p)
    || (p == codes ".")
    || has_prefix p (codes "../")

unfoldable pub validate_inputs : List Text → List InputFile → Option SpecError
unfolding is_bad_path
validate_inputs seen [] = none
validate_inputs seen (input ∷ inputs) =
    let p = normalized input.path in
    let rest = validate_inputs (p ∷ seen) inputs in
    if is_bad_path p
    then some (invalid_input input.path)
    else if is_seen seen p
    then some (duplicate_input input.path)
    else if slt input.size 0 || not (eqb (length input.sha256) 64)
    then some (unsized_input input.path)
    else if any (λ c. not (is_hex c)) input.sha256
    then some (undigested_input input.path)
    else rest

unfoldable pub validate_request : JobSpec → Option SpecError
validate_request spec =
    let n = length (trim_space spec.name) in
    if ltb n 3 || ltb 120 n
    then some spec_name
    else if is_blank spec.image || ltb 512 (length spec.image)
    then some spec_image
    else if ltb 128 (length spec.command)
    then some too_many_arguments
    else if any (λ (arg : Text). ltb 8192 (length arg)) spec.command
    then some long_argument
    else none

unfoldable pub validate_files : JobSpec → Option SpecError
unfolding validate_inputs
validate_files spec =
    if ltb 1024 (length spec.inputs) then some too_many_inputs else validate_inputs [] spec.inputs

unfoldable pub validate_package : JobSpec → Option SpecError
validate_package spec =
    if not (is_empty spec.resources.cpu_package_id) && is_empty spec.target_node_id
    then some package_without_target
    else none

unfoldable pub validate_environment : JobSpec → Option SpecError
validate_environment spec =
    if any (λ (e : Text × Text). is_reserved e.0) spec.environment
    then some reserved_variable
    else none

-- The first error.
infixr 20 ◌or_else◌
abbrev pub ◌or_else◌ : Option SpecError → Option SpecError → Option SpecError
(some err) or_else next = some err
none or_else next = next

unfoldable pub validate_job_spec : JobSpec → Option SpecError
unfolding validate_request validate_resources validate_package validate_environment validate_secrets
    validate_files
validate_job_spec spec =
    validate_request spec
    or_else validate_resources spec
    or_else validate_package spec
    or_else validate_environment spec
    or_else validate_secrets spec.secret_refs
    or_else validate_files spec
