-- ===== src/Scheduler/Flags.antt =====
-- How far the nodes get through the tests of `selectNode`, as its flags record it.
use job_dock.Base.{[], ◌∷◌, any, List, true, slt, ◌==◌, holds, arith, ◌||◌, ◌&&◌, not, Bool, ◌≡◌}
use job_dock.Domain.Status.{online, NodeStatus-discrete}
use job_dock.Domain.Types.{JobSpec, Node}
use job_dock.Scheduler.Match.{labels_match}
use job_dock.Scheduler.Select.{
  scan, Seen, cpu_free, memory_free, place, affinity, choose_gpus, package_fits, found_requested,
  picked, add_candidate, examine,
}
use job_dock.Scheduler.Waiting.{is_targeted}

-- The tests that a node passes one after the other.
abbrev pub is_aimed : JobSpec → Node → Bool
is_aimed spec n = not (is_targeted spec) || n.id == spec.target_node_id

abbrev pub is_ready : JobSpec → Node → Bool
is_ready spec n = is_aimed spec n && holds (NodeStatus-discrete n.status online)

abbrev pub is_labelled : JobSpec → Node → Bool
is_labelled spec n = is_ready spec n && labels_match n.labels spec.node_selector

abbrev pub has_cpu_for : JobSpec → Node → Bool
has_cpu_for spec n = is_labelled spec n && not (slt (cpu_free n) spec.resources.cpu_millis)

abbrev pub has_memory_for : JobSpec → Node → Bool
has_memory_for spec n = has_cpu_for spec n && not (slt (memory_free n) spec.resources.memory_bytes)

-- The flags of the tests before the choice of a package and of GPUs.
abbrev pub flags : Seen → Bool × Bool × Bool × Bool × Bool
flags s = (s.has_target, s.has_online, s.has_labels, s.has_cpu, s.has_memory)

place-flags : (spec : JobSpec) (n : Node) (s : Seen) → flags (place spec n s) ≡ flags s
unfolding place affinity choose_gpus package_fits found_requested picked add_candidate
place-flags spec n s = ground arith

examine-flags :
    (spec : JobSpec) (n : Node) (s : Seen)
    → flags (examine spec n s) ≡ (
      s.has_target || is_aimed spec n,
      s.has_online || is_ready spec n,
      s.has_labels || is_labelled spec n,
      s.has_cpu || has_cpu_for spec n,
      s.has_memory || has_memory_for spec n,
    )
unfolding examine
examine-flags spec n s = ground (
  arith,
  place-flags spec n (record s {
    has_target = true;
    has_online = true;
    has_labels = true;
    has_cpu = true;
    has_memory = true;
  }),
)

pub scan-flags :
    (spec : JobSpec) (nodes : List Node) (s : Seen)
    → flags (scan spec nodes s) ≡ (
      s.has_target || any (is_aimed spec) nodes,
      s.has_online || any (is_ready spec) nodes,
      s.has_labels || any (is_labelled spec) nodes,
      s.has_cpu || any (has_cpu_for spec) nodes,
      s.has_memory || any (has_memory_for spec) nodes,
    )
unfolding scan
scan-flags spec [] s = ground arith
scan-flags spec (n ∷ nodes) s =
    ground (arith, examine-flags spec n s, scan-flags spec nodes (examine spec n s))
