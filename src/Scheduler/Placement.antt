-- ===== src/Scheduler/Placement.antt =====
-- What a node must offer a job, in the terms of the request and not of the code that tests it, and
-- that every candidate which `selectNode` collects offers it.
use Prim.Native.Nat.{◌+◌, ◌≤◌}
use job_dock.Base.{
  eq_nil_of_is_empty, All-map, All-Memᴰ, find_if, find_if_found, ◌≡◌, refl, sym, ap, ◌≢◌, ◌⊎◌, inl,
  inr, true, false, List, [], Memᴰ, arith, All, All-here, All-sort, length, is_empty, some,
  Bool-cases, Option-cases, Text, ◌==◌, codes, Int64, IsAmount, slt-sub64, sort, subst, slt, sub64,
}
use job_dock.Domain.Status.{online}
use job_dock.Domain.Types.{GpuRequest, JobSpec, Gpu, CpuPackage, Node}
use job_dock.Scheduler.Match.{contains, labels_match, find_package, logical_cpu_set}
use job_dock.Scheduler.Gpus.{gpu_less, requested, Pick, pick}
use job_dock.Scheduler.Gpus.Choice.{
  IsFree-mono, pick-length, IsFree, IsPickable, requested-IsFree, pick-IsPickable,
}
use job_dock.Scheduler.Gpus.Distinct.{best_gpus, pick-best_gpus}
use job_dock.Scheduler.Select.{
  picked, found_requested, package_fits, Candidate, Seen, Stage, next_node, go_on, affinity,
  choose_gpus,
}

-- Amounts are not negative as int64.
pub record IsSizedSpec (spec : JobSpec) : Type 0 where
  pub cpu : IsAmount spec.resources.cpu_millis
  pub memory : IsAmount spec.resources.memory_bytes
  pub count : IsAmount spec.resources.gpu.count
  pub names : IsAmount (length spec.resources.gpu.uuids)

pub record IsSized (node : Node) : Type 0 where
  pub cpu_total : IsAmount node.cpu_total_millis
  pub cpu_allocated : IsAmount node.cpu_allocated_millis
  pub memory_total : IsAmount node.memory_total_bytes
  pub memory_allocated : IsAmount node.memory_allocated_bytes
  pub packages : All (λ p. IsAmount p.total_millis × IsAmount p.allocated_millis) node.cpu_packages

-- The processor package asked for: the node can pin to packages, and this one has room.
pub record HasPackage (spec : JobSpec) (node : Node) (id set : Text) : Type 0 where
  pub capable : contains node.capabilities (codes "cpu_package_affinity") ≡ true
  pub place : CpuPackage
  pub present : Memᴰ place node.cpu_packages
  pub named : place.id ≡ spec.resources.cpu_package_id
  pub room : place.allocated_millis + spec.resources.cpu_millis ≤ place.total_millis
  pub chosen : (id ≡ place.id) × (set ≡ logical_cpu_set place.logical_cpus)

abbrev pub PackageFits : JobSpec → Node → Text × Text → Type 0
PackageFits spec node (id, set) =
    (spec.resources.cpu_package_id ≡ []) × (id ≡ []) × (set ≡ []) ⊎ HasPackage spec node id set

-- The GPUs asked for by name, or the first with enough memory; none of them is held by a job.
abbrev pub GpusFit : GpuRequest → List Gpu → List Text → Type 0
GpusFit r gpus chosen =
    (r.uuids ≢ []) × (chosen ≡ r.uuids) × All (IsFree gpus) chosen
    ⊎ (r.uuids ≡ []) × All (IsPickable r gpus) chosen × (chosen ≡ best_gpus r gpus)

pub record Places (spec : JobSpec) (c : Candidate) : Type 0 where
  pub aimed : (spec.target_node_id ≡ []) ⊎ (c.node.id ≡ spec.target_node_id)
  pub ready : c.node.status ≡ online
  pub labelled : labels_match c.node.labels spec.node_selector ≡ true
  pub cpu : c.node.cpu_allocated_millis + spec.resources.cpu_millis ≤ c.node.cpu_total_millis
  pub memory :
      c.node.memory_allocated_bytes + spec.resources.memory_bytes ≤ c.node.memory_total_bytes
  pub pinned : PackageFits spec c.node (c.cpu_package_id, c.cpu_set)
  pub counted : length c.gpu_uuids ≡ spec.resources.gpu.count
  pub gpus : GpusFit spec.resources.gpu c.node.gpus c.gpu_uuids

-- A stage leaves the candidates alone, and what it passes on has a property.
abbrev pub Ensures : {A : Type 0} → List Candidate → (A → Type 0) → Stage A → Type 0
Ensures cs P (next_node s) = s.candidates ≡ cs
Ensures cs P (go_on s a) = (s.candidates ≡ cs) × P a

package_fits-Ensures :
    (spec : JobSpec) (node : Node) (s : Seen)
    → IsSizedSpec spec
    → IsSized node
    → contains node.capabilities (codes "cpu_package_affinity") ≡ true
    → Ensures s.candidates
        (PackageFits spec node)
        (package_fits spec (find_package spec.resources.cpu_package_id node.cpu_packages) s)
unfolding package_fits find_package
package_fits-Ensures spec node s z n able =
    elim (Option-cases (find_if (λ p. p.id == spec.resources.cpu_package_id) node.cpu_packages)) [
      | inl absent ↦ rw (absent, package_fits)
      | inr (p, found) ↦ rw (found, package_fits) (fits p (find_if_found _ _ found))
    ]
  where
    fits :
        (p : CpuPackage)
        → Memᴰ p node.cpu_packages × ((p.id == spec.resources.cpu_package_id) ≡ true)
        → Ensures s.candidates (PackageFits spec node) (package_fits spec (some p) s)
    fits p (m, e) =
        let sized =
          All-Memᴰ (λ (q : CpuPackage). IsAmount q.total_millis × IsAmount q.allocated_millis)
            node.cpu_packages n.packages m in
        elim (Bool-cases
          (slt (sub64 p.total_millis p.allocated_millis) spec.resources.cpu_millis)) [
            | inl short ↦ rw (short, package_fits)
            | inr room ↦
                rw (room, package_fits)
                  (
                    refl,
                    inr (record {
                      capable = able;
                      place = p;
                      present = m;
                      named = ground arith;
                      room = ground (
                        arith,
                        slt-sub64 p.total_millis p.allocated_millis spec.resources.cpu_millis,
                      );
                      chosen = (refl, refl);
                    }),
                  )
          ]

pub affinity-Ensures :
    (spec : JobSpec) (node : Node) (s : Seen)
    → IsSizedSpec spec
    → IsSized node
    → Ensures s.candidates (PackageFits spec node) (affinity spec node s)
unfolding affinity
affinity-Ensures spec node s z n =
    ground (arith, package_fits-Ensures spec node (record s { has_cpu_capability = true }) z n)

abbrev pub Chosen : GpuRequest → List Gpu → List Text × Int64 → Type 0
Chosen r gpus (chosen, waste) = GpusFit r gpus chosen × IsAmount (length chosen)

found_requested-Ensures :
    (r : GpuRequest) (gpus sorted : List Gpu) (s : Seen)
    → All (λ g. Memᴰ g gpus) sorted
    → r.uuids ≢ []
    → IsAmount (length r.uuids)
    → Ensures s.candidates (Chosen r gpus) (found_requested (requested sorted r.uuids true []) s)
unfolding found_requested
found_requested-Ensures r gpus sorted s within named sized =
    elim (Option-cases (requested sorted r.uuids true [])) [
      | inl absent ↦ rw (absent, found_requested)
      | inr ((true, chosen), found) ↦
          let (_, same, free) = requested-IsFree sorted r.uuids true [] found in
          let free_here =
            All-map (IsFree sorted) (IsFree gpus) r.uuids (λ _ f. IsFree-mono within f) free in
          rw (found, found_requested)
            (
              refl,
              (
                inl (named, same, subst (λ ids. All (IsFree gpus) ids) (sym same) free_here),
                rw same sized,
              ),
            )
      | inr ((false, chosen), found) ↦ rw (found, found_requested)
    ]

picked-Chosen :
    (r : GpuRequest) (gpus : List Gpu)
    → All (λ g. Memᴰ g gpus) (sort gpu_less gpus)
    → r.uuids ≡ []
    → IsAmount r.count
    → let p = pick r (sort gpu_less gpus) (record { model = false; chosen = []; waste = 0 }) in
      Chosen r gpus (p.chosen, p.waste)
picked-Chosen r gpus within unnamed sized =
    let sorted = sort gpu_less gpus in
    let start : Pick = record { model = false; chosen = []; waste = 0 } in
    (
      inr (unnamed, pick-IsPickable r gpus sorted start within tt, pick-best_gpus r gpus sized),
      omega (arith, pick-length r sorted start sized (omega arith)),
    )

pub choose_gpus-Ensures :
    (r : GpuRequest) (gpus : List Gpu) (s : Seen)
    → IsAmount r.count
    → IsAmount (length r.uuids)
    → Ensures s.candidates (Chosen r gpus) (choose_gpus r gpus s)
unfolding choose_gpus picked
choose_gpus-Ensures r gpus s count names =
    let within = All-sort gpu_less (λ g. Memᴰ g gpus) gpus (All-here gpus) in
    elim (Bool-cases (is_empty r.uuids)) [
      | inl unnamed ↦
          rw (unnamed, choose_gpus)
            (refl, picked-Chosen r gpus within (eq_nil_of_is_empty _ unnamed) count)
      | inr named ↦
          rw (named, choose_gpus)
            (found_requested-Ensures r gpus (sort gpu_less gpus) s within (λ e. cc (ap is_empty e))
              names)
    ]
