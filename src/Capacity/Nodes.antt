-- ===== src/Capacity/Nodes.antt =====
-- The account of one node.
use mathlib.Core.List.{map-map}
use job_dock.Base.{
  IsKeyedBy, map-IsKeyedBy, ℕ, subst, ◌&&◌, ◌≡◌, refl, sym, ap, ◌∙◌, true, false, Bool-cases, ◌==◌,
  List, [], ◌∷◌, map, Text, All, arith, if◌then◌else◌, any, inl, inr, add64, ◌≢◌,
}
use job_dock.Domain.Types.{Job, Node, CpuPackage, Resources}
use job_dock.Store.Tables.{update}
use job_dock.Capacity.{
  update_by_id, charge_packages, charge, charge_package, takes, charge_job, charge_jobs,
}

pub map-ext : (f g : Node → Node) (xs : List Node) → ((x : Node) → f x ≡ g x) → map f xs ≡ map g xs
map-ext f g [] h = refl
map-ext f g (x ∷ xs) h = rw (h x, map-ext f g xs h) refl

map-id_of : (f : Node → Node) (xs : List Node) → ((x : Node) → f x ≡ x) → map f xs ≡ xs
map-id_of f [] h = refl
map-id_of f (x ∷ xs) h = rw (h x, map-id_of f xs h) refl

-- The primary key of the table of nodes.
abbrev pub IsKeyedNodes : List Node → Type 0
IsKeyedNodes = IsKeyedBy (λ (n : Node). n.id)

-- The job's share of a node: all of what it asks for if it runs there, and else nothing.
unfoldable pub charge_if : Job → Node → Node
charge_if j n = if takes j && n.id == j.assigned_node_id then charge j.spec.resources n else n

pub charge_if-here :
    (j : Job) (n : Node)
    → (takes j && n.id == j.assigned_node_id) ≡ true
    → charge_if j n ≡ charge j.spec.resources n
unfolding charge_if
charge_if-here j n h = rw h refl

pub charge_if-elsewhere :
    (j : Job) (n : Node) → (takes j && n.id == j.assigned_node_id) ≡ false → charge_if j n ≡ n
unfolding charge_if
charge_if-elsewhere j n h = rw h refl

pub charge_if-id : (j : Job) (n : Node) → (charge_if j n).id ≡ n.id
unfolding charge_if
charge_if-id j n = ground arith

unfoldable pub charge_all : List Job → Node → Node
charge_all [] n = n
charge_all (j ∷ jobs) n = charge_all jobs (charge_if j n)

any_absent :
    (id : Text) (xs : List Node)
    → All (λ (y : Node). y.id ≢ id) xs
    → any (λ (m : Node). m.id == id) xs ≡ false
any_absent id [] h = refl
any_absent id (x ∷ xs) h = ground (arith, h.0, any_absent id xs h.1)

update_absent :
    (id : Text) (f : Node → Node) (xs : List Node)
    → any (λ (m : Node). m.id == id) xs ≡ false
    → update (λ (m : Node). m.id == id) f xs ≡ xs
update_absent id f [] h = refl
update_absent id f (x ∷ xs) h = ground (arith, update_absent id f xs)

update_by_id-each :
    (id : Text) (f : Node → Node) (xs : List Node)
    → IsKeyedNodes xs
    → update_by_id id f xs ≡ update (λ (m : Node). m.id == id) f xs
unfolding update_by_id
update_by_id-each id f [] k = refl
update_by_id-each id f (x ∷ xs) k = elim (Bool-cases (any (λ (m : Node). m.id == id) xs)) [
  | inl later ↦ elim (Bool-cases (x.id == id)) [
    | inl here ↦
        let same : x.id ≡ id = ground (arith, here) in
        cc (
          later,
          subst (λ i. any (λ (m : Node). m.id == i) xs ≡ false) same (any_absent x.id xs k.0),
        )
    | inr not_here ↦ rw (later, update_by_id-each id f xs k.1, not_here) refl
  ]
  | inr alone ↦
      rw (alone, update_by_id-each id f xs k.1, update_absent id f xs alone) (ground arith)
]

charge_job-each :
    (j : Job) (xs : List Node) → IsKeyedNodes xs → charge_job j xs ≡ map (charge_if j) xs
unfolding charge_job charge_if
charge_job-each j xs k = elim (Bool-cases (takes j)) [
  | inl runs ↦
      rw (runs, update_by_id-each j.assigned_node_id (charge j.spec.resources) xs k)
        (map-ext _ _ xs (λ n. rw runs refl))
  | inr idle ↦ rw idle (sym (map-id_of (charge_if j) xs (λ n. rw idle refl)))
]

pub charge_jobs-each :
    (jobs : List Job) (xs : List Node)
    → IsKeyedNodes xs
    → charge_jobs jobs xs ≡ map (charge_all jobs) xs
unfolding charge_jobs charge_all
charge_jobs-each [] xs k = sym (map-id_of (charge_all []) xs (λ _. refl))
charge_jobs-each (j ∷ jobs) xs k =
    ap (charge_jobs jobs) (charge_job-each j xs k)
    ∙ charge_jobs-each jobs (map (charge_if j) xs)
        (map-IsKeyedBy (λ (n : Node). n.id) (charge_if j) xs (charge_if-id j) k)
    ∙ map-map (charge_all jobs) (charge_if j) xs

add64_comm_last : (a x y : ℕ) → add64 (add64 a x) y ≡ add64 (add64 a y) x
unfolding add64
add64_comm_last a x y = omega arith

charge_named_comm :
    (r t : Resources) (ps : List CpuPackage)
    → update
        (λ (p : CpuPackage). p.id == r.cpu_package_id)
        (charge_package r)
        (update (λ (p : CpuPackage). p.id == t.cpu_package_id) (charge_package t) ps)
      ≡ update
          (λ (p : CpuPackage). p.id == t.cpu_package_id)
          (charge_package t)
          (update (λ (p : CpuPackage). p.id == r.cpu_package_id) (charge_package r) ps)
charge_named_comm r t [] = refl
charge_named_comm r t (p ∷ ps) =
    ground (
      arith,
      charge_named_comm r t ps,
      add64_comm_last p.allocated_millis t.cpu_millis r.cpu_millis,
    )

charge_packages_comm :
    (r t : Resources) (ps : List CpuPackage)
    → charge_packages r (charge_packages t ps) ≡ charge_packages t (charge_packages r ps)
unfolding charge_packages
charge_packages_comm r t ps = ground (arith, charge_named_comm r t ps)

charge_comm : (r t : Resources) (n : Node) → charge r (charge t n) ≡ charge t (charge r n)
charge_comm r t n =
    rw
      (
        add64_comm_last n.cpu_allocated_millis t.cpu_millis r.cpu_millis,
        add64_comm_last n.memory_allocated_bytes t.memory_bytes r.memory_bytes,
        charge_packages_comm r t n.cpu_packages,
      )
      refl

-- The order in which jobs are charged does not matter.
pub charge_if_comm :
    (i j : Job) (n : Node) → charge_if i (charge_if j n) ≡ charge_if j (charge_if i n)
charge_if_comm i j n = elim (Bool-cases (takes i && n.id == i.assigned_node_id)) [
  | inr idle ↦ elim (Bool-cases (takes j && n.id == j.assigned_node_id)) [
    | inr rests ↦
        rw
          (
            charge_if-elsewhere i n idle,
            charge_if-elsewhere j n rests,
            charge_if-elsewhere i n idle,
          )
          refl
    | inl runs ↦
        rw (charge_if-elsewhere i n idle, charge_if-here j n runs)
          (charge_if-elsewhere i (charge j.spec.resources n) idle)
  ]
  | inl runs ↦ elim (Bool-cases (takes j && n.id == j.assigned_node_id)) [
    | inr rests ↦
        rw (charge_if-here i n runs, charge_if-elsewhere j n rests)
          (charge_if-here i n runs ∙ sym (charge_if-elsewhere j (charge i.spec.resources n) rests))
    | inl both ↦
        rw (charge_if-here i n runs, charge_if-here j n both)
          (charge_if-here i (charge j.spec.resources n) runs
            ∙ charge_comm i.spec.resources j.spec.resources n
            ∙ sym (charge_if-here j (charge i.spec.resources n) both))
  ]
]
