-- ===== src/Scheduler/Devices.antt =====
-- How far the nodes get through the tests of `selectNode` for packages and GPUs.
use job_dock.Scheduler.Flags.{has_memory_for}
use job_dock.Base.{
  ◌∷◌, any, Int64, [], List, true, false, some, none, Option, slt, sub64, sort, Text, codes, arith,
  ◌||◌, ◌&&◌, not, Bool, ◌≡◌, if◌then◌else◌,
}
use job_dock.Domain.Types.{JobSpec, Node, CpuPackage}
use job_dock.Scheduler.Match.{contains, find_package}
use job_dock.Scheduler.Gpus.{gpu_less, requested, Pick, pick}
use job_dock.Scheduler.Gpus.Missing.{is_present, are_free}
use job_dock.Scheduler.Select.{
  scan, examine, Seen, place, affinity, choose_gpus, package_fits, found_requested, picked,
  add_candidate,
}
use job_dock.Scheduler.Waiting.{wants_package, names_gpus}

abbrev pub can_pin : Node → Bool
can_pin n = contains n.capabilities (codes "cpu_package_affinity")

abbrev pub has_room : JobSpec → Option CpuPackage → Bool
has_room spec none = false
has_room spec (some p) =
    not (slt (sub64 p.total_millis p.allocated_millis) spec.resources.cpu_millis)

abbrev pub the_package : JobSpec → Node → Option CpuPackage
the_package spec n = find_package spec.resources.cpu_package_id n.cpu_packages

abbrev pub the_gpus : JobSpec → Node → Option (Bool × List Text)
the_gpus spec n = requested (sort gpu_less n.gpus) spec.resources.gpu.uuids true []

abbrev pub any_gpus : JobSpec → Node → Pick
any_gpus spec n =
    pick spec.resources.gpu (sort gpu_less n.gpus)
      (record { model = false; chosen = []; waste = 0 })

-- The package is there and has room, if one is asked for.
abbrev pub is_pinned : JobSpec → Node → Bool
is_pinned spec n = not (wants_package spec) || can_pin n && has_room spec (the_package spec n)

abbrev pub has_model : JobSpec → Node → Bool
has_model spec n = if names_gpus spec then are_free (the_gpus spec n) else (any_gpus spec n).model

abbrev pub later_flags : Seen → Bool × Bool × Bool × Bool × Bool × Bool
later_flags s = (
  s.has_cpu_capability, s.has_cpu_package, s.has_cpu_package_capacity, s.has_gpu_inventory,
  s.has_free_requested_gpu, s.has_gpu_model,
)

add-flags :
    (spec : JobSpec) (n : Node) (pinned : Text × Text) (s : Seen) (gpus : List Text × Int64)
    → later_flags (add_candidate spec n pinned s gpus) ≡ later_flags s
unfolding add_candidate
add-flags spec n pinned s gpus = ground arith

place-flags :
    (spec : JobSpec) (n : Node) (s : Seen)
    → later_flags (place spec n s) ≡ (
      s.has_cpu_capability || wants_package spec && can_pin n,
      s.has_cpu_package || wants_package spec && can_pin n && is_present (the_package spec n),
      s.has_cpu_package_capacity
          || wants_package spec && can_pin n && has_room spec (the_package spec n),
      s.has_gpu_inventory || is_pinned spec n && names_gpus spec && is_present (the_gpus spec n),
      s.has_free_requested_gpu || is_pinned spec n && names_gpus spec && are_free (the_gpus spec n),
      s.has_gpu_model || is_pinned spec n && has_model spec n,
    )
unfolding place affinity choose_gpus package_fits found_requested picked add_candidate
place-flags spec n s = ground arith

-- The tests that a node passes after those of the node itself.
abbrev pub is_capable : JobSpec → Node → Bool
is_capable spec n = has_memory_for spec n && (wants_package spec && can_pin n)

abbrev pub has_package : JobSpec → Node → Bool
has_package spec n =
    has_memory_for spec n && (wants_package spec && can_pin n && is_present (the_package spec n))

abbrev pub has_package_room : JobSpec → Node → Bool
has_package_room spec n =
    has_memory_for spec n && (wants_package spec && can_pin n && has_room spec (the_package spec n))

abbrev pub is_past_package : JobSpec → Node → Bool
is_past_package spec n = has_memory_for spec n && is_pinned spec n

abbrev pub has_named_gpus : JobSpec → Node → Bool
has_named_gpus spec n =
    has_memory_for spec n && (is_pinned spec n && names_gpus spec && is_present (the_gpus spec n))

abbrev pub has_free_gpus : JobSpec → Node → Bool
has_free_gpus spec n =
    has_memory_for spec n && (is_pinned spec n && names_gpus spec && are_free (the_gpus spec n))

abbrev pub has_gpu_model : JobSpec → Node → Bool
has_gpu_model spec n = has_memory_for spec n && (is_pinned spec n && has_model spec n)

examine-flags :
    (spec : JobSpec) (n : Node) (s : Seen)
    → later_flags (examine spec n s) ≡ (
      s.has_cpu_capability || is_capable spec n,
      s.has_cpu_package || has_package spec n,
      s.has_cpu_package_capacity || has_package_room spec n,
      s.has_gpu_inventory || has_named_gpus spec n,
      s.has_free_requested_gpu || has_free_gpus spec n,
      s.has_gpu_model || has_gpu_model spec n,
    )
unfolding examine
examine-flags spec n s = ground (
  arith,
  place-flags spec n (record s {
    has_target = true;
    has_online = true;
    has_labels = true;
    has_cpu = true;
    has_memory = true;
  }),
)

pub scan-flags :
    (spec : JobSpec) (nodes : List Node) (s : Seen)
    → later_flags (scan spec nodes s) ≡ (
      s.has_cpu_capability || any (is_capable spec) nodes,
      s.has_cpu_package || any (has_package spec) nodes,
      s.has_cpu_package_capacity || any (has_package_room spec) nodes,
      s.has_gpu_inventory || any (has_named_gpus spec) nodes,
      s.has_free_requested_gpu || any (has_free_gpus spec) nodes,
      s.has_gpu_model || any (has_gpu_model spec) nodes,
    )
unfolding scan
scan-flags spec [] s = ground arith
scan-flags spec (n ∷ nodes) s =
    ground (arith, examine-flags spec n s, scan-flags spec nodes (examine spec n s))
