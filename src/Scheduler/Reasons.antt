-- ===== src/Scheduler/Reasons.antt =====
-- internal/scheduler/scheduler.go: what the reason for which a job waits says of the nodes.
use job_dock.Scheduler.Flags.{has_cpu_for, is_labelled, has_memory_for, is_aimed, is_ready}
use job_dock.Base.{if◌then◌else◌, ◌≢◌, All, false, any, List, true, slt, ◌&&◌, not, Bool, ◌≡◌}
use job_dock.Scheduler.Devices
use job_dock.Scheduler.Shortages.{
  CannotPin, LacksPackage, LacksRoom, LacksNamedGpu, HoldsNamedGpu, LacksModel, HasSome,
}
use job_dock.Domain.Status.{online}
use job_dock.Domain.Types.{JobSpec, Node}
use job_dock.Scheduler.Waiting.{
  names_gpus, resources_allocated, wants_package, no_compatible_gpu, requested_gpu_allocated,
  requested_gpu_not_found, insufficient_cpu_package, requested_cpu_package_not_found,
  cpu_affinity_unsupported, insufficient_memory, insufficient_cpu, node_selector_mismatch,
  no_online_node, requested_node_unavailable, requested_node_not_found, Reason, is_targeted,
}

-- Nodes pass one test, and none the next.
abbrev pub Stops : (Node → Bool) → (Node → Bool) → List Node → Type 0
Stops before after nodes = (any before nodes ≡ true) × All (λ (n : Node). after n ≡ false) nodes

-- What a reason says of the nodes.
abbrev pub Explains : JobSpec → List Node → Reason → Type 0
Explains spec nodes requested_node_not_found =
    (is_targeted spec ≡ true) × All (λ (n : Node). n.id ≢ spec.target_node_id) nodes
Explains spec nodes requested_node_unavailable =
    (is_targeted spec ≡ true) × Stops (is_aimed spec) (is_ready spec) nodes
Explains spec nodes no_online_node =
    (is_targeted spec ≡ false) × All (λ (n : Node). n.status ≢ online) nodes
Explains spec nodes node_selector_mismatch = Stops (is_ready spec) (is_labelled spec) nodes
Explains spec nodes insufficient_cpu = Stops (is_labelled spec) (has_cpu_for spec) nodes
Explains spec nodes insufficient_memory = Stops (has_cpu_for spec) (has_memory_for spec) nodes
Explains spec nodes cpu_affinity_unsupported = CannotPin spec nodes
Explains spec nodes requested_cpu_package_not_found = LacksPackage spec nodes
Explains spec nodes insufficient_cpu_package = LacksRoom spec nodes
Explains spec nodes requested_gpu_not_found = LacksNamedGpu spec nodes
Explains spec nodes requested_gpu_allocated = HoldsNamedGpu spec nodes
Explains spec nodes no_compatible_gpu = LacksModel spec nodes
Explains spec nodes resources_allocated = HasSome spec nodes

-- The end of the switch.
abbrev last_reason : JobSpec → Bool × Bool × Bool × Bool × Bool × Bool → Reason
last_reason spec (a, b, c, d, e, f) =
    if wants_package spec && not a
    then cpu_affinity_unsupported
    else if wants_package spec && not b
    then requested_cpu_package_not_found
    else if wants_package spec && not c
    then insufficient_cpu_package
    else if names_gpus spec && not d
    then requested_gpu_not_found
    else if names_gpus spec && not e
    then requested_gpu_allocated
    else if slt 0 spec.resources.gpu.count && not f
    then no_compatible_gpu
    else resources_allocated
