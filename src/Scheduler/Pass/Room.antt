-- ===== src/Scheduler/Pass/Room.antt =====
-- The room that reservations leave on a node.
use job_dock.Store.Tables.{update}
use job_dock.Base.{
  unique_by_key, not, sym, if◌then◌else◌, All-here, map, ap, IsKeyedBy, map-IsKeyedBy, inr,
  All-Memᴰ, add64-amount, inl, add64, Bool-cases, subst, ◌≢◌, true, [], ◌+◌, Memᴰ, All-map, ◌≡◌,
  ◌∷◌, ◌==◌, IsAmount, ℕ, Bool, All, List, Int64, arith,
}
use Prim.Native.Nat.{ℕ, ◌≤◌}
use job_dock.Scheduler.Placement.{IsSized, Places}
use job_dock.Scheduler.Select.{Candidate}
use job_dock.Capacity.{charge, charge_packages, charge_package}
use job_dock.Capacity.Nodes.{IsKeyedNodes}
use job_dock.Scheduler.Pass.{List, reserve_node, reserve_in_snapshot}
use job_dock.Domain.Types.{Gpu, CpuPackage, Node, Resources, JobSpec}

abbrev pub RoomLeft : Int64 → Int64 → Type 0
RoomLeft allocated total = (allocated ≤ total) × IsAmount total

-- The primary key of the table of processor packages.
abbrev pub IsKeyedPackages : List CpuPackage → Type 0
IsKeyedPackages = IsKeyedBy (λ (p : CpuPackage). p.id)

-- The node has a name, and what is allocated of it does not exceed what it has.
pub record Fits (n : Node) : Type 0 where
  pub has_name : n.id ≢ []
  pub cpu : RoomLeft n.cpu_allocated_millis n.cpu_total_millis
  pub memory : RoomLeft n.memory_allocated_bytes n.memory_total_bytes
  pub packages : All (λ (p : CpuPackage). RoomLeft p.allocated_millis p.total_millis) n.cpu_packages
  pub keyed : IsKeyedPackages n.cpu_packages

pub Fits-IsSized : (n : Node) → Fits n → IsSized n
Fits-IsSized n f = record {
  cpu_total = f.cpu.1;
  cpu_allocated = omega (arith, f.cpu.0, f.cpu.1);
  memory_total = f.memory.1;
  memory_allocated = omega (arith, f.memory.0, f.memory.1);
  packages =
      All-map (λ (p : CpuPackage). RoomLeft p.allocated_millis p.total_millis)
        (λ (p : CpuPackage). IsAmount p.total_millis × IsAmount p.allocated_millis) n.cpu_packages
        (λ p h. (h.1, omega (arith, h.0, h.1))) f.packages;
}

add64-RoomLeft : (a b t : ℕ) → IsAmount t → a + b ≤ t → RoomLeft (add64 a b) t
add64-RoomLeft a b t h room = rw (add64-amount a b t h room) (room, h)

abbrev named : Resources → CpuPackage → Bool
named r p = p.id == r.cpu_package_id

update-RoomLeft :
    (r : Resources) (ps : List CpuPackage)
    → All
        (λ (p : CpuPackage). named r p ≡ true → p.allocated_millis + r.cpu_millis ≤ p.total_millis)
        ps
    → All (λ (p : CpuPackage). RoomLeft p.allocated_millis p.total_millis) ps
    → All
        (λ (p : CpuPackage). RoomLeft p.allocated_millis p.total_millis)
        (update (named r) (charge_package r) ps)
update-RoomLeft r [] room h = tt
update-RoomLeft r (p ∷ ps) room h = elim (Bool-cases (named r p)) [
  | inl hit ↦ rw hit (
    add64-RoomLeft p.allocated_millis r.cpu_millis p.total_millis h.0.1 (room.0 hit),
    update-RoomLeft r ps room.1 h.1,
  )
  | inr miss ↦ rw miss (h.0, update-RoomLeft r ps room.1 h.1)
]

-- With distinct names, the package with room is the only one of its name.
only_named :
    (r : Resources) (ps : List CpuPackage) (p : CpuPackage)
    → IsKeyedPackages ps
    → Memᴰ p ps
    → p.id ≡ r.cpu_package_id
    → p.allocated_millis + r.cpu_millis ≤ p.total_millis
    → All
        (λ (q : CpuPackage). named r q ≡ true → q.allocated_millis + r.cpu_millis ≤ q.total_millis)
        ps
only_named r [] p k m e room = tt
only_named r (x ∷ xs) p k (Memᴰ.head same) e room = (
  (λ _. subst (λ (q : CpuPackage). q.allocated_millis + r.cpu_millis ≤ q.total_millis) same room),
  All-map (λ (y : CpuPackage). y.id ≢ x.id)
      (λ (q : CpuPackage). named r q ≡ true → q.allocated_millis + r.cpu_millis ≤ q.total_millis) xs
      (λ y apart hit. absurd (apart (ground (arith, hit, e, ap (λ (q : CpuPackage). q.id) same))))
      k.0,
)
only_named r (x ∷ xs) p k (Memᴰ.tail m) e room = (
  (λ hit. absurd (All-Memᴰ (λ (y : CpuPackage). y.id ≢ x.id) xs k.0 m (ground (arith, hit, e)))),
  only_named r xs p k.1 m e room,
)

charge-Fits :
    (spec : JobSpec) (c : Candidate)
    → Places spec c
    → Fits c.node
    → Fits (charge spec.resources c.node)
unfolding charge_packages
charge-Fits spec c places f = elim (Bool-cases (spec.resources.cpu_package_id == [])) [
  | inl unpinned ↦ rw unpinned (record {
    has_name = f.has_name;
    cpu = add64-RoomLeft _ _ _ f.cpu.1 places.cpu;
    memory = add64-RoomLeft _ _ _ f.memory.1 places.memory;
    packages = f.packages;
    keyed = f.keyed;
  })
  | inr pinned ↦ elim places.pinned [
    | inl (none_named, _, _) ↦ ground (arith, none_named, pinned)
    | inr p ↦ rw pinned (record {
      has_name = f.has_name;
      cpu = add64-RoomLeft _ _ _ f.cpu.1 places.cpu;
      memory = add64-RoomLeft _ _ _ f.memory.1 places.memory;
      packages =
          update-RoomLeft spec.resources c.node.cpu_packages
            (only_named spec.resources c.node.cpu_packages p.place f.keyed p.present p.named p.room)
            f.packages;
      keyed =
          map-IsKeyedBy (λ (q : CpuPackage). q.id) _ c.node.cpu_packages (λ q. ground arith)
            f.keyed;
    })
  ]
]

with_gpus-Fits : (n : Node) (gpus : List Gpu) → Fits n → Fits (record n { gpus = gpus })
with_gpus-Fits n gpus f = record {
  has_name = f.has_name;
  cpu = f.cpu;
  memory = f.memory;
  packages = f.packages;
  keyed = f.keyed;
}

reserve-each-Fits :
    (spec : JobSpec) (c : Candidate) (all nodes : List Node)
    → Places spec c
    → IsKeyedNodes all
    → Memᴰ c.node all
    → All (λ (n : Node). Memᴰ n all) nodes
    → All Fits nodes
    → All Fits (
        map
          (λ (n : Node).
            if not (n.id == c.node.id) then n else reserve_node spec.resources c.gpu_uuids n)
          nodes)
reserve-each-Fits spec c all [] places k m within f = tt
reserve-each-Fits spec c all (n ∷ nodes) places k m within f = (
  elim (Bool-cases (n.id == c.node.id)) [
    | inr other ↦ rw other f.0
    | inl here ↦
        let same =
          unique_by_key (λ (x : Node). x.id) all n c.node k within.0 m (ground (arith, here)) in
        rw (here) (
          subst (λ (x : Node). Fits (reserve_node spec.resources c.gpu_uuids x)) (sym same)
            (with_gpus-Fits _ _ (charge-Fits spec c places (subst Fits same f.0))))
  ],
  reserve-each-Fits spec c all nodes places k m within.1 f.1,
)

-- When a candidate that can take the job is reserved, no node promises more than it has.
pub reserve_in_snapshot-Fits :
    (spec : JobSpec) (c : Candidate) (nodes : List Node)
    → Places spec c
    → IsKeyedNodes nodes
    → Memᴰ c.node nodes
    → All Fits nodes
    → All Fits (reserve_in_snapshot nodes c.node.id spec.resources c.gpu_uuids)
unfolding reserve_in_snapshot
reserve_in_snapshot-Fits spec c nodes places k m f =
    reserve-each-Fits spec c nodes nodes places k m (All-here nodes) f
