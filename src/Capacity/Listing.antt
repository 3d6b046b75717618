-- ===== src/Capacity/Listing.antt =====
-- A snapshot node by node: jobs charged in another order, and jobs that take nothing.
use job_dock.Capacity.{list_jobs, ◌is◌, account, allocated_gpus, mark, snapshot}
use mathlib.Core.List.{map-map}
use job_dock.Base.{
  map-IsKeyedBy, [], refl, ap, inr, map, arith, inl, Bool-cases, ◌∙◌, true, ◌∷◌, not, ◌≡◌, keep,
  Bool, List, sort, insert,
}
use job_dock.Domain.Status.{JobStatus-discrete, deleted, is_active}
use job_dock.Domain.Types.{Job, Node}
use job_dock.Store.Tables.{Db}
use job_dock.Capacity.Nodes.{
  map-ext, charge_jobs-each, IsKeyedNodes, charge_if-elsewhere, charge_all, charge_if,
  charge_if_comm,
}

module _ (less : Job → Job → Bool) where
  charge_all-insert :
      (x : Job) (xs : List Job) (n : Node)
      → charge_all (insert less x xs) n ≡ charge_all xs (charge_if x n)
  unfolding charge_all insert
  charge_all-insert x [] n = refl
  charge_all-insert x (y ∷ ys) n = elim (Bool-cases (less y x)) [
    | inl later ↦
        rw later
          (charge_all-insert x ys (charge_if y n) ∙ ap (charge_all ys) (charge_if_comm x y n))
    | inr first ↦ rw first refl
  ]

  charge_all-sort : (xs : List Job) (n : Node) → charge_all (sort less xs) n ≡ charge_all xs n
  unfolding charge_all sort
  charge_all-sort [] n = refl
  charge_all-sort (x ∷ xs) n =
      charge_all-insert x (sort less xs) n ∙ charge_all-sort xs (charge_if x n)

deleted_takes_nothing : (j : Job) (n : Node) → (j.status is deleted) ≡ true → charge_if j n ≡ n
unfolding is_active JobStatus-discrete
deleted_takes_nothing j n gone = charge_if-elsewhere j n (ground (arith, gone))

charge_all-keep :
    (xs : List Job) (n : Node)
    → charge_all (keep (λ (j : Job). not (j.status is deleted)) xs) n ≡ charge_all xs n
unfolding charge_all
charge_all-keep [] n = refl
charge_all-keep (x ∷ xs) n = elim (Bool-cases (x.status is deleted)) [
  | inl gone ↦ rw (gone, deleted_takes_nothing x n gone) (charge_all-keep xs n)
  | inr there ↦ rw there (charge_all-keep xs (charge_if x n))
]

-- What a node has left: its share of the table of jobs, and the GPUs that assignments hold.
abbrev pub accounted : Db → Node → Node
accounted db n = charge_all db.jobs (mark (allocated_gpus db) n)

-- A snapshot has every registered node in its place, with the CPU, the package capacity and the
-- memory of exactly the active jobs that are assigned to it, whatever their order, and the marks
-- of its own GPUs (no two nodes have one name).
pub snapshot-each :
    (nodes : List Node) (db : Db)
    → IsKeyedNodes nodes
    → snapshot nodes db ≡ map (accounted db) nodes
unfolding snapshot account list_jobs
snapshot-each nodes db k =
    charge_jobs-each (list_jobs db) (map (mark (allocated_gpus db)) nodes)
      (map-IsKeyedBy (λ (n : Node). n.id) (mark (allocated_gpus db)) nodes (λ _. refl) k)
    ∙ map-map (charge_all (list_jobs db)) (mark (allocated_gpus db)) nodes
    ∙ map-ext _ _ nodes (λ n. charge_all-sort _ _ _ ∙ charge_all-keep db.jobs _)
