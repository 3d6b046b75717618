-- ===== src/Scheduler/Select.antt =====
-- internal/scheduler/scheduler.go, the loop of `selectNode`: one pass over the nodes collects the candidates
-- and, for the message of a job that has to wait, which obstacles some node got past. A
-- `continue` of the loop ends the examination of a node with what was seen so far.
use job_dock.Base.{
  Bool, true, false, not, ◌&&◌, ◌||◌, Option, none, some, List, [], ◌∷◌, ◌++◌, holds, if◌then◌else◌,
  is_empty, length, sort, Text, ◌==◌, codes, Int64, sub64, slt, eq64,
}
use job_dock.Domain.Status.{online, NodeStatus-discrete}
use job_dock.Domain.Types.{GpuRequest, JobSpec, Gpu, CpuPackage, Node}
use job_dock.Scheduler.Match.{contains, labels_match, logical_cpu_set, find_package}
use job_dock.Scheduler.Gpus.{gpu_less, requested, Pick, pick}

pub record Candidate : Type 0 where
  pub node : Node
  pub gpu_uuids : List Text
  pub vram_waste : Int64
  pub ram_waste : Int64
  pub cpu_waste : Int64
  pub cpu_package_id : Text
  pub cpu_set : Text

-- The variables that the loop of `selectNode` updates.
pub record Seen : Type 0 where
  pub candidates : List Candidate
  pub has_target : Bool
  pub has_online : Bool
  pub has_labels : Bool
  pub has_cpu : Bool
  pub has_memory : Bool
  pub has_gpu_model : Bool
  pub has_gpu_inventory : Bool
  pub has_free_requested_gpu : Bool
  pub has_cpu_capability : Bool
  pub has_cpu_package : Bool
  pub has_cpu_package_capacity : Bool

abbrev pub nothing_seen : Seen
nothing_seen = record {
  candidates = [];
  has_target = false;
  has_online = false;
  has_labels = false;
  has_cpu = false;
  has_memory = false;
  has_gpu_model = false;
  has_gpu_inventory = false;
  has_free_requested_gpu = false;
  has_cpu_capability = false;
  has_cpu_package = false;
  has_cpu_package_capacity = false;
}

-- A part of the loop's body passes on a value, or the loop continues with the next node.
pub data Stage (A : Type 0) : Type 0 where
  next_node : Seen → Stage A
  go_on : Seen → A → Stage A

unfoldable pub package_fits : JobSpec → Option CpuPackage → Seen → Stage (Text × Text)
package_fits spec none s = next_node s
package_fits spec (some p) s =
    let s' = record s { has_cpu_package = true } in
    if slt (sub64 p.total_millis p.allocated_millis) spec.resources.cpu_millis
    then next_node s'
    else go_on (record s' { has_cpu_package_capacity = true })
        (p.id, logical_cpu_set p.logical_cpus)

unfoldable pub affinity : JobSpec → Node → Seen → Stage (Text × Text)
affinity spec node s =
    if spec.resources.cpu_package_id == []
    then go_on s ([], [])
    else if not (contains node.capabilities (codes "cpu_package_affinity"))
    then next_node s
    else package_fits spec (find_package spec.resources.cpu_package_id node.cpu_packages)
        (record s { has_cpu_capability = true })

unfoldable pub found_requested : Option (Bool × List Text) → Seen → Stage (List Text × Int64)
found_requested none s = next_node s
found_requested (some (all_free, chosen)) s =
    let s' = record s { has_gpu_inventory = true } in
    if not all_free
    then next_node s'
    else go_on (record s' { has_free_requested_gpu = true; has_gpu_model = true }) (chosen, 0)

unfoldable pub picked : Pick → Seen → Stage (List Text × Int64)
picked p s = go_on (record s { has_gpu_model = s.has_gpu_model || p.model }) (p.chosen, p.waste)

unfoldable pub choose_gpus : GpuRequest → List Gpu → Seen → Stage (List Text × Int64)
choose_gpus r gpus s =
    let sorted = sort gpu_less gpus in
    if not (is_empty r.uuids)
    then found_requested (requested sorted r.uuids true []) s
    else picked (pick r sorted (record { model = false; chosen = []; waste = 0 })) s

infixl 5 ◌>>=◌
abbrev pub ◌>>=◌ : {A : Type 0} → Stage A → (Seen → A → Seen) → Seen
next_node s >>= f = s
go_on s a >>= f = f s a

-- The differences between what is free and what is asked for.
abbrev pub cpu_free : Node → Int64
cpu_free node = sub64 node.cpu_total_millis node.cpu_allocated_millis

abbrev pub memory_free : Node → Int64
memory_free node = sub64 node.memory_total_bytes node.memory_allocated_bytes

abbrev pub candidate : JobSpec → Node → Text × Text → List Text × Int64 → Candidate
candidate spec node (package_id, cpu_set) (chosen, waste) = record {
  node = node;
  gpu_uuids = chosen;
  vram_waste = waste;
  ram_waste = sub64 (memory_free node) spec.resources.memory_bytes;
  cpu_waste = sub64 (cpu_free node) spec.resources.cpu_millis;
  cpu_package_id = package_id;
  cpu_set = cpu_set;
}

unfoldable pub add_candidate : JobSpec → Node → Text × Text → Seen → List Text × Int64 → Seen
add_candidate spec node pinned s gpus =
    if not (eq64 (length gpus.0) spec.resources.gpu.count)
    then s
    else record s { candidates = s.candidates ++ candidate spec node pinned gpus ∷ [] }

-- The loop's body from the choice of a processor package on.
unfoldable pub place : JobSpec → Node → Seen → Seen
place spec node s = affinity spec node s >>= λ s' package_and_set.
    choose_gpus spec.resources.gpu node.gpus s' >>= λ s'' gpus.
    add_candidate spec node package_and_set s'' gpus

-- The loop's body.
unfoldable pub examine : JobSpec → Node → Seen → Seen
examine spec node s =
    if not (spec.target_node_id == []) && not (node.id == spec.target_node_id)
    then s
    else let s1 = record s { has_target = true } in
      if not (holds (NodeStatus-discrete node.status online))
      then s1
      else let s2 = record s1 { has_online = true } in
        if not (labels_match node.labels spec.node_selector)
        then s2
        else let s3 = record s2 { has_labels = true } in
          if slt (cpu_free node) spec.resources.cpu_millis
          then s3
          else let s4 = record s3 { has_cpu = true } in
            if slt (memory_free node) spec.resources.memory_bytes
            then s4
            else place spec node (record s4 { has_memory = true })

unfoldable pub scan : JobSpec → List Node → Seen → Seen
scan spec [] s = s
scan spec (node ∷ nodes) s = scan spec nodes (examine spec node s)
