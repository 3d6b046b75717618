-- ===== src/Domain/Validation/Accepted.antt =====
-- internal/domain/validate.go, `ValidateJobSpec`: what holds of a job that it accepts.
use job_dock.Domain.ManagedArtifact.{is_hex}
use job_dock.Domain.Types.{SecretRef, InputFile, JobSpec}
use job_dock.Base.{
  refl, Text-discrete, join, Option-cases, ◌≤◌, is_empty_of_ne, not, true, any, eq_nil_of_is_empty,
  modulus, Int64, length, IsAmount, ◌<◌, rank, is_empty, eq64, slt, ◌≡◌, ◌≢◌, ◌⊎◌, inl, inr, false,
  List, [], ◌∷◌, Text, All, All-map, arith, Bool-cases, ◌==◌, codes, none, IsKeyedBy,
}
use job_dock.Go.Bytes.{replace_byte, has_prefix}
use job_dock.Go.Paths.{
  climb, clean_part, clean_parts, cut, dot, dot_dot, split_path, is_abs, clean_path,
}
use job_dock.Go.Paths.Cleaning.{IsOrdinary}
use job_dock.Go.Paths.Inside.{clean_path-inside}
use job_dock.Domain.Validation.{is_hex, is_blank}
use job_dock.Domain.Validation.Specs.{
  validate_secret, validate_files, validate_package, validate_job_spec, is_reserved,
  validate_secrets, validate_environment, normalized, validate_resources, validate_inputs,
  validate_uuids, is_bad_path, is_seen,
}

-- No name twice, and none that was seen before.
abbrev pub AreDistinct : List Text → Type 0
AreDistinct names = IsKeyedBy (λ (name : Text). name) names

validate_uuids-none :
    (seen ids : List Text)
    → validate_uuids seen ids ≡ none
    → All (λ id. is_seen seen id ≡ false) ids
      × All (λ id. is_blank id ≡ false) ids
      × AreDistinct ids
unfolding validate_uuids
validate_uuids-none seen [] e = (tt, tt, tt)
validate_uuids-none seen (id ∷ ids) e =
    let here : is_seen seen id ≡ false = ground (arith, e) in
    let named : is_blank id ≡ false = ground (arith, e) in
    let (fresh, names, apart) = validate_uuids-none (id ∷ seen) ids (ground (arith, e)) in
    (
      (
        here,
        All-map (λ x. is_seen (id ∷ seen) x ≡ false) (λ x. is_seen seen x ≡ false) ids
            (λ x h. ground (arith, h)) fresh,
      ),
      (named, names),
      (
        All-map (λ x. is_seen (id ∷ seen) x ≡ false) (λ x. x ≢ id) ids
            (λ x h e2. ground (arith, h, e2)) fresh,
        apart,
      ),
    )

-- Where an input comes to lie: below the directory of the inputs, but for the path `..`.
abbrev pub StaysBelow : Text → Type 0
StaysBelow path = (path ≡ dot_dot) ⊎ All IsOrdinary (split_path path)

is_bad_path-false : (p : Text) → is_bad_path p ≡ false → StaysBelow p
unfolding is_bad_path
is_bad_path-false p e = elim (Bool-cases (p == dot_dot)) [
  | inl above ↦ inl (ground (arith, above))
  | inr other ↦
      let relative : is_abs p ≡ false = ground (arith, e) in
      let below : has_prefix p (codes "../") ≡ false = ground (arith, e) in
      let clean : clean_path p ≡ p = ground (arith, e) in
      let not_dot : p ≢ dot = λ h. ground (arith, e, h) in
      let (finds, _) = clean_path-inside p relative (λ h. ground (arith, other, h)) below in
      elim (finds clean) [ inl here ↦ absurd (not_dot here) | inr all ↦ inr all ]
]

abbrev pub FitsInput : InputFile → Type 0
FitsInput input =
    StaysBelow (normalized input.path)
    × (slt input.size 0 ≡ false)
    × (length input.sha256 ≡ 64)
    × (any (λ c. not (is_hex c)) input.sha256 ≡ false)

abbrev HasPath : List Text → InputFile → Type 0
HasPath seen input = is_seen seen (normalized input.path) ≡ false

validate_inputs-none :
    (seen : List Text) (inputs : List InputFile)
    → validate_inputs seen inputs ≡ none
    → All (HasPath seen) inputs
      × All FitsInput inputs
      × IsKeyedBy (λ (input : InputFile). normalized input.path) inputs
unfolding validate_inputs
validate_inputs-none seen [] e = (tt, tt, tt)
validate_inputs-none seen (input ∷ inputs) e =
    let p = normalized input.path in
    let proper : is_bad_path p ≡ false = ground (arith, e) in
    let new : is_seen seen p ≡ false = ground (arith, e) in
    let sized : slt input.size 0 ≡ false = ground (arith, e) in
    let long : length input.sha256 ≡ 64 = ground (arith, e) in
    let hex : any (λ c. not (is_hex c)) input.sha256 ≡ false = ground (arith, e) in
    let (fresh, fits, apart) = validate_inputs-none (p ∷ seen) inputs (ground (arith, e)) in
    (
      (new, All-map (HasPath (p ∷ seen)) (HasPath seen) inputs (λ x h. ground (arith, h)) fresh),
      ((is_bad_path-false p proper, sized, long, hex), fits),
      (
        All-map (HasPath (p ∷ seen)) (λ (x : InputFile). normalized x.path ≢ p) inputs
            (λ x h same. ground (arith, h, same)) fresh,
        apart,
      ),
    )

-- What the scheduler relies on: the amounts of a job, which are bit patterns, are not negative, and
-- the GPUs that it names are as many as it counts, different, and on a node that it names.
pub record FitsResources (spec : JobSpec) : Type 0 where
  pub cpu : IsAmount spec.resources.cpu_millis
  pub cpu_asked : 0 < spec.resources.cpu_millis
  pub memory : IsAmount spec.resources.memory_bytes
  pub memory_asked : 0 < spec.resources.memory_bytes
  pub count : IsAmount spec.resources.gpu.count
  pub vram : IsAmount spec.resources.gpu.min_vram_bytes
  pub gpus :
      (spec.resources.gpu.uuids ≡ [])
      ⊎ (spec.target_node_id ≢ [])
        × (spec.resources.gpu.count ≡ length spec.resources.gpu.uuids)
        × All (λ id. is_blank id ≡ false) spec.resources.gpu.uuids
        × AreDistinct spec.resources.gpu.uuids

-- The fields are bit patterns of 64 bits, and the list of names is no longer than an int can say.
pub record IsRepresented (spec : JobSpec) : Type 0 where
  pub cpu : spec.resources.cpu_millis < modulus
  pub memory : spec.resources.memory_bytes < modulus
  pub count : spec.resources.gpu.count < modulus
  pub vram : spec.resources.gpu.min_vram_bytes < modulus
  pub names : IsAmount (length spec.resources.gpu.uuids)

positive : (a : Int64) → a < modulus → slt 0 a ≡ true → IsAmount a × (0 < a)
unfolding slt rank
positive a small h = (ground (arith, small, h), ground (arith, small, h))

not_negative : (a : Int64) → a < modulus → slt a 0 ≡ false → IsAmount a
unfolding slt rank
not_negative a small h = ground (arith, small, h)

eq_of_eq64 : (a b : Int64) → a < modulus → b < modulus → eq64 a b ≡ true → a ≡ b
unfolding eq64 rank
eq_of_eq64 a b p q h = ground (arith, p, q, h)

validate_resources-none :
    (spec : JobSpec) → IsRepresented spec → validate_resources spec ≡ none → FitsResources spec
unfolding validate_resources
validate_resources-none spec z e =
    let (cpu, cpu_asked) = positive spec.resources.cpu_millis z.cpu (ground (arith, e)) in
    let (memory, memory_asked) =
      positive spec.resources.memory_bytes z.memory (ground (arith, e)) in
    record {
      cpu = cpu;
      cpu_asked = cpu_asked;
      memory = memory;
      memory_asked = memory_asked;
      count = not_negative spec.resources.gpu.count z.count (ground (arith, e));
      vram = not_negative spec.resources.gpu.min_vram_bytes z.vram (ground (arith, e));
      gpus = elim (Bool-cases (is_empty spec.resources.gpu.uuids)) [
        | inl nothing ↦ inl (eq_nil_of_is_empty spec.resources.gpu.uuids nothing)
        | inr named ↦
            let counted : eq64 spec.resources.gpu.count (length spec.resources.gpu.uuids) ≡ true =
              ground (arith, e, named) in
            let (_, names, apart) =
              validate_uuids-none [] spec.resources.gpu.uuids (ground (arith, e, named)) in
            inr (
              (λ h. ground (arith, e, named, h)),
              eq_of_eq64 spec.resources.gpu.count (length spec.resources.gpu.uuids) z.count
                  (omega (arith, z.names)) counted,
              names,
              apart,
            )
      ];
    }

-- What an accepted job has.
pub record IsAccepted (spec : JobSpec) : Type 0 where
  pub resources : FitsResources spec
  pub pinned : spec.resources.cpu_package_id ≢ [] → spec.target_node_id ≢ []
  pub environment : any (λ (e : Text × Text). is_reserved e.0) spec.environment ≡ false
  pub secrets : All (λ ref. validate_secret ref ≡ none) spec.secret_refs
  pub files : length spec.inputs ≤ 1024
  pub inputs : All FitsInput spec.inputs
  pub places : IsKeyedBy (λ (input : InputFile). normalized input.path) spec.inputs

validate_secrets-none :
    (refs : List SecretRef)
    → validate_secrets refs ≡ none
    → All (λ ref. validate_secret ref ≡ none) refs
unfolding validate_secrets
validate_secrets-none [] e = tt
validate_secrets-none (ref ∷ refs) e = elim (Option-cases (validate_secret ref)) [
  | inl ok ↦ (ok, validate_secrets-none refs (ground (arith, e, ok)))
  | inr (err, bad) ↦ ground (arith, e, bad)
]

validate_package-none :
    (spec : JobSpec)
    → validate_package spec ≡ none
    → spec.resources.cpu_package_id ≢ []
    → spec.target_node_id ≢ []
unfolding validate_package
validate_package-none spec e pinned h =
    ground (arith, e, h, is_empty_of_ne spec.resources.cpu_package_id pinned)

validate_environment-none :
    (spec : JobSpec)
    → validate_environment spec ≡ none
    → any (λ (e : Text × Text). is_reserved e.0) spec.environment ≡ false
unfolding validate_environment
validate_environment-none spec e = ground (arith, e)

validate_files-none :
    (spec : JobSpec)
    → validate_files spec ≡ none
    → (length spec.inputs ≤ 1024) × (validate_inputs [] spec.inputs ≡ none)
unfolding validate_files
validate_files-none spec e = (ground (arith, e), ground (arith, e))

-- Of a job that is accepted, and whose numbers are bit patterns of 64 bits: CPU and memory are
-- positive and GPU numbers not negative, named GPUs are on a named node, not blank, different and as
-- many as counted, a CPU package comes with a node, no variable is reserved, every secret is valid,
-- and the inputs, at most 1024, have different normalized paths, each `..` or made of names only, no
-- negative size and a digest of 64 lowercase hexadecimal digits.
pub validate_job_spec-IsAccepted :
    (spec : JobSpec) → IsRepresented spec → validate_job_spec spec ≡ none → IsAccepted spec
unfolding validate_job_spec
validate_job_spec-IsAccepted spec z e =
    let (few, e6) = validate_files-none spec (ground (arith, e)) in
    let (_, fits, apart) = validate_inputs-none [] spec.inputs e6 in
    record {
      resources = validate_resources-none spec z (ground (arith, e));
      pinned = validate_package-none spec (ground (arith, e));
      environment = validate_environment-none spec (ground (arith, e));
      secrets = validate_secrets-none spec.secret_refs (ground (arith, e));
      files = few;
      inputs = fits;
      places = apart;
    }

dot_dot-accepted : is_bad_path dot_dot ≡ false
unfolding is_bad_path clean_path is_abs has_prefix split_path cut clean_parts clean_part climb join
    Text-discrete
dot_dot-accepted = refl

-- An input with the path `..` is accepted, if its size is not negative and its digest has 64 lowercase
-- hexadecimal digits.
pub validate_inputs-dot_dot :
    (input : InputFile)
    → input.path ≡ dot_dot
    → slt input.size 0 ≡ false
    → length input.sha256 ≡ 64
    → any (λ c. not (is_hex c)) input.sha256 ≡ false
    → validate_inputs [] (input ∷ []) ≡ none
unfolding validate_inputs normalized replace_byte
validate_inputs-dot_dot input above sized long hex =
    rw (above, dot_dot-accepted, sized, long, hex) refl
