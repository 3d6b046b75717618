-- ===== src/Scheduler/Waiting.antt =====
-- internal/scheduler/scheduler.go, the end of `selectNode`: the best candidate, or the reason for
-- which the job has to wait.
use job_dock.Base.{
  Bool, not, ◌&&◌, List, [], ◌∷◌, ◌++◌, if◌then◌else◌, is_empty, sort, Text, ◌==◌, codes, text_ltb,
  itoa, slt, eq64,
}
use job_dock.Domain.Types.{JobSpec, Node}
use job_dock.Scheduler.Select.{Candidate, Seen, nothing_seen, scan}

pub data Reason : Type 0 where
  requested_node_not_found requested_node_unavailable no_online_node : Reason
  node_selector_mismatch insufficient_cpu insufficient_memory : Reason
  cpu_affinity_unsupported requested_cpu_package_not_found insufficient_cpu_package : Reason
  requested_gpu_not_found requested_gpu_allocated no_compatible_gpu : Reason
  resources_allocated : Reason

pub code : Reason → Text
code requested_node_not_found = codes "REQUESTED_NODE_NOT_FOUND"
code requested_node_unavailable = codes "REQUESTED_NODE_UNAVAILABLE"
code no_online_node = codes "NO_ONLINE_NODE"
code node_selector_mismatch = codes "NODE_SELECTOR_MISMATCH"
code insufficient_cpu = codes "INSUFFICIENT_CPU"
code insufficient_memory = codes "INSUFFICIENT_MEMORY"
code cpu_affinity_unsupported = codes "CPU_AFFINITY_UNSUPPORTED"
code requested_cpu_package_not_found = codes "REQUESTED_CPU_PACKAGE_NOT_FOUND"
code insufficient_cpu_package = codes "INSUFFICIENT_CPU_PACKAGE"
code requested_gpu_not_found = codes "REQUESTED_GPU_NOT_FOUND"
code requested_gpu_allocated = codes "REQUESTED_GPU_ALLOCATED"
code no_compatible_gpu = codes "NO_COMPATIBLE_GPU"
code resources_allocated = codes "RESOURCES_ALLOCATED"

pub message : JobSpec → Reason → Text
unfolding itoa
message spec requested_node_not_found =
    codes "Waiting: the requested execution node is not registered"
message spec requested_node_unavailable =
    codes "Waiting: the requested execution node is not online"
message spec no_online_node = codes "Waiting: no execution node is online"
message spec node_selector_mismatch = codes "Waiting: no online node matches the requested labels"
message spec insufficient_cpu = codes "Waiting: compatible nodes do not have enough unreserved CPU"
message spec insufficient_memory =
    codes "Waiting: compatible nodes do not have enough unreserved memory"
message spec cpu_affinity_unsupported =
    codes "Waiting: the requested node does not support CPU package affinity"
message spec requested_cpu_package_not_found =
    codes "Waiting: the requested CPU package is not present on the node"
message spec insufficient_cpu_package =
    codes "Waiting: the requested CPU package does not have enough unreserved capacity"
message spec requested_gpu_not_found =
    codes "Waiting: one or more requested GPUs are not present on the node"
message spec requested_gpu_allocated =
    codes "Waiting: one or more requested GPUs are currently allocated"
message spec no_compatible_gpu =
    codes "Waiting: no node has "
    ++ itoa spec.resources.gpu.count
    ++ codes " GPU(s) with the requested VRAM"
message spec resources_allocated =
    codes "Waiting: compatible resources exist but are currently allocated"

abbrev pub is_targeted : JobSpec → Bool
is_targeted spec = not (spec.target_node_id == [])

abbrev pub wants_package : JobSpec → Bool
wants_package spec = not (spec.resources.cpu_package_id == [])

abbrev pub names_gpus : JobSpec → Bool
names_gpus spec = not (is_empty spec.resources.gpu.uuids)

-- The `switch`, from the top.
unfoldable pub reason : JobSpec → Seen → Reason
reason spec s =
    if is_targeted spec && not s.has_target
    then requested_node_not_found
    else if is_targeted spec && not s.has_online
    then requested_node_unavailable
    else if not s.has_online
    then no_online_node
    else if not s.has_labels
    then node_selector_mismatch
    else if not s.has_cpu
    then insufficient_cpu
    else if not s.has_memory
    then insufficient_memory
    else if wants_package spec && not s.has_cpu_capability
    then cpu_affinity_unsupported
    else if wants_package spec && not s.has_cpu_package
    then requested_cpu_package_not_found
    else if wants_package spec && not s.has_cpu_package_capacity
    then insufficient_cpu_package
    else if names_gpus spec && not s.has_gpu_inventory
    then requested_gpu_not_found
    else if names_gpus spec && not s.has_free_requested_gpu
    then requested_gpu_allocated
    else if slt 0 spec.resources.gpu.count && not s.has_gpu_model
    then no_compatible_gpu
    else resources_allocated

-- The order of the candidates: the least waste of GPU memory, of memory, of CPU, then by name.
unfoldable pub candidate_less : Candidate → Candidate → Bool
candidate_less a b =
    if not (eq64 a.vram_waste b.vram_waste)
    then slt a.vram_waste b.vram_waste
    else if not (eq64 a.ram_waste b.ram_waste)
    then slt a.ram_waste b.ram_waste
    else if not (eq64 a.cpu_waste b.cpu_waste)
    then slt a.cpu_waste b.cpu_waste
    else text_ltb a.node.id b.node.id

pub data Selection : Type 0 where
  selected : Candidate → Selection
  waiting : Reason → Selection

unfoldable pub first : JobSpec → Seen → List Candidate → Selection
first spec s [] = waiting (reason spec s)
first spec s (best ∷ _) = selected best

unfoldable pub select_node : JobSpec → List Node → Selection
select_node spec nodes =
    let s = scan spec nodes nothing_seen in first spec s (sort candidate_less s.candidates)
