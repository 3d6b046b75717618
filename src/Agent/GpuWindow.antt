-- ===== src/Agent/GpuWindow.antt =====
-- internal/agent/gpu_window.go: the samples of the last ten seconds of each GPU, and their summary.
-- A time is a number of nanoseconds, a Go map the list of its entries, the newest value first; the
-- lock makes each method one step.
pub mod Recent
use job_dock.Base.{
  ℕ, ◌+◌, ◌-◌, ◌*◌, ◌/◌, ◌%◌, Bool, Option, none, some, List, [], ◌∷◌, ◌++◌, Text, ◌==◌, length,
  map, if◌then◌else◌, ltb, Int64, add64, slt, sign_bit, modulus,
}

-- time.Second, and ten of them.
abbrev pub second : ℕ
second = 1_000_000_000

abbrev pub gpu_telemetry_window : ℕ
gpu_telemetry_window = 10 * second

-- GPUDeviceUsage
pub record GpuDeviceUsage : Type 0 where
  pub utilization_basis_points : Int64
  pub memory_bytes : Int64
  pub temperature_celsius : Option Int64
  pub sampled_at : ℕ

pub record GpuWindowSample : Type 0 where
  pub utilization : Int64
  pub memory : Int64
  pub temperature : Option Int64
  pub captured_at : ℕ

pub record GpuWindowSummary : Type 0 where
  pub average : Int64
  pub peak : Int64
  pub count : ℕ
  pub latest : GpuWindowSample

pub record GpuTelemetryBuffer : Type 0 where
  pub devices : List Text
  pub samples : List (Text × List GpuWindowSample)
  pub summaries : List (Text × GpuWindowSummary)

abbrev pub new_gpu_telemetry_buffer : GpuTelemetryBuffer
new_gpu_telemetry_buffer = record { devices = []; samples = []; summaries = [] }

unfoldable pub entry_of {ℓ} : {A : Type ℓ} → Text → List (Text × A) → Option A
entry_of key [] = none
entry_of key ((k, value) ∷ entries) = if k == key then some value else entry_of key entries

-- The fields of the GPUs of a heartbeat that the buffer knows of or fills in.
pub record GpuReading : Type 0 where
  pub uuid : Text
  pub utilization_basis_points : Option Int64
  pub utilization_average_basis_points : Option Int64
  pub utilization_peak_basis_points : Option Int64
  pub utilization_sampled_at : Option ℕ
  pub utilization_window_seconds : ℕ
  pub utilization_sample_count : ℕ
  pub memory_used_bytes : Option Int64
  pub temperature_celsius : Option Int64

unfoldable pub set_devices : List GpuReading → GpuTelemetryBuffer → GpuTelemetryBuffer
set_devices gpus b = record b { devices = map (λ (gpu : GpuReading). gpu.uuid) gpus }

abbrev pub device_ids : GpuTelemetryBuffer → List Text
device_ids b = b.devices

abbrev pub sample_of : GpuDeviceUsage → GpuWindowSample
sample_of value = record {
  utilization = value.utilization_basis_points;
  memory = value.memory_bytes;
  temperature = value.temperature_celsius;
  captured_at = value.sampled_at;
}

-- Before the cutoff, ten seconds before the new sample.
abbrev pub is_old : ℕ → GpuWindowSample → Bool
is_old captured_at sample = ltb (sample.captured_at + gpu_telemetry_window) captured_at

unfoldable pub drop_old : ℕ → List GpuWindowSample → List GpuWindowSample
drop_old captured_at [] = []
drop_old captured_at (sample ∷ window) =
    let rest = drop_old captured_at window in
    if is_old captured_at sample then rest else sample ∷ window

-- The loop over the window: the total and the peak.
unfoldable pub totals : Int64 → Int64 → List GpuWindowSample → Int64 × Int64
totals total peak [] = (total, peak)
totals total peak (sample ∷ window) =
    totals (add64 total sample.utilization)
      (if slt peak sample.utilization then sample.utilization else peak) window

-- The quotient of int64 by a length that is not zero, towards zero.
unfoldable pub quotient : Int64 → ℕ → Int64
quotient total count =
    if ltb total sign_bit then total / count else (modulus - (modulus - total) / count) % modulus

unfoldable pub slide : GpuWindowSample → List GpuWindowSample → List GpuWindowSample
unfolding drop_old
slide entry window = drop_old entry.captured_at (window ++ entry ∷ [])

unfoldable pub summarize : GpuWindowSample → List GpuWindowSample → GpuWindowSummary
unfolding totals quotient
summarize entry window =
    let (total, peak) = totals 0 0 window in
    record {
      average = quotient total (length window);
      peak = peak;
      count = length window;
      latest = entry;
    }

abbrev pub or_empty : Option (List GpuWindowSample) → List GpuWindowSample
or_empty none = []
or_empty (some window) = window

-- One turn of the loop of `add`.
unfoldable pub add_one : Text → GpuDeviceUsage → GpuTelemetryBuffer → GpuTelemetryBuffer
unfolding entry_of slide summarize
add_one uuid value b =
    let entry = sample_of value in
    let window = slide entry (or_empty (entry_of uuid b.samples)) in
    record b {
      samples = (uuid, window) ∷ b.samples;
      summaries = (uuid, summarize entry window) ∷ b.summaries;
    }

unfoldable pub add : List (Text × GpuDeviceUsage) → GpuTelemetryBuffer → GpuTelemetryBuffer
unfolding add_one
add [] b = b
add ((uuid, value) ∷ values) b = add values (add_one uuid value b)

abbrev or_instead : {A : Type 0} → Option A → Option A → Option A
or_instead none other = other
or_instead (some a) other = some a

abbrev filled : GpuWindowSummary → GpuReading → GpuReading
filled summary gpu = record gpu {
  utilization_basis_points =
      or_instead gpu.utilization_basis_points (some summary.latest.utilization);
  utilization_average_basis_points = some summary.average;
  utilization_peak_basis_points = some summary.peak;
  utilization_sampled_at = some summary.latest.captured_at;
  utilization_window_seconds = gpu_telemetry_window / second;
  utilization_sample_count = summary.count;
  memory_used_bytes = or_instead gpu.memory_used_bytes (some summary.latest.memory);
  temperature_celsius = or_instead gpu.temperature_celsius summary.latest.temperature;
}

unfoldable pub apply : GpuTelemetryBuffer → List GpuReading → List GpuReading
unfolding entry_of
apply b gpus =
    map
      (λ (gpu : GpuReading). elim (entry_of gpu.uuid b.summaries) [
        | none ↦ gpu
        | some summary ↦ filled summary gpu
      ])
      gpus
