-- ===== src/Scheduler/Pass/Snapshot.antt =====
-- The snapshot that a pass keeps in memory, after a reservation.
use mathlib.Core.List.{map-map}
use job_dock.Base.{
  subst, ◌≡◌, ◌≢◌, refl, sym, ap, ◌∙◌, ◌||◌, ◌&&◌, ◌==◌, true, false, not, List, [], ◌∷◌, map, Text,
  arith, All, Bool-cases, inl, inr, some, count_if, find_if, if◌then◌else◌, Bool,
}
use job_dock.Domain.Types.{Job, Node, Gpu}
use job_dock.Domain.Status.{is_active, JobStatus-discrete}
use job_dock.Store.Tables.{Db, Assignment, update, done}
use job_dock.Store.Jobs.{Reservation, waits, assigned_job, job, reserve}
use job_dock.Store.Reserving.{reserved, reserve-cases, reserved-Reserved}
use job_dock.Store.Lookup.{job-named, IsKeyed}
use job_dock.Scheduler.Match.{contains}
use job_dock.Capacity.{allocated_gpus, mark, charge, takes, snapshot}
use job_dock.Capacity.Nodes.{
  charge_if-id, IsKeyedNodes, charge_all, charge_if, charge_if_comm, charge_if-here,
  charge_if-elsewhere, map-ext,
}
use job_dock.Capacity.Listing.{accounted, snapshot-each}
use job_dock.Capacity.Held.{allocated_gpus-reserved}
use job_dock.Scheduler.Pass.{take_gpu, reserve_node, reserve_in_snapshot}

charge_all-charge_if :
    (j : Job) (xs : List Job) (n : Node)
    → charge_all xs (charge_if j n) ≡ charge_if j (charge_all xs n)
unfolding charge_all
charge_all-charge_if j [] n = refl
charge_all-charge_if j (x ∷ xs) n =
    ap (charge_all xs) (charge_if_comm x j n) ∙ charge_all-charge_if j xs (charge_if x n)

waiting_takes_nothing : (id : Text) (j : Job) (n : Node) → waits id j ≡ true → charge_if j n ≡ n
unfolding is_active JobStatus-discrete
waiting_takes_nothing id j n h = charge_if-elsewhere j n (ground (arith, h))

none_waits :
    (r : Reservation) (xs : List Job)
    → count_if (waits r.job_id) xs ≡ 0
    → update (waits r.job_id) (assigned_job r) xs ≡ xs
none_waits r [] c = refl
none_waits r (x ∷ xs) c = ground (arith, none_waits r xs)

-- Of the jobs' shares, only that of the reserved job changes.
charge_all-reserved :
    (r : Reservation) (j : Job) (xs : List Job) (n : Node)
    → count_if (waits r.job_id) xs ≡ 1
    → find_if (λ (x : Job). x.id == r.job_id) xs ≡ some j
    → waits r.job_id j ≡ true
    → charge_all (update (waits r.job_id) (assigned_job r) xs) n
      ≡ charge_if (assigned_job r j) (charge_all xs n)
unfolding charge_all find_if
charge_all-reserved r j [] n c f w = cc c
charge_all-reserved r j (x ∷ xs) n c f w = elim (Bool-cases (x.id == r.job_id)) [
  | inr other ↦ rw other (
      charge_all-reserved r j xs (charge_if x n) (ground (arith, other, c))
        (ground (arith, other, f)) w)
  | inl here ↦
      let same : x ≡ j = ground (arith, here, f) in
      let hit : waits r.job_id x ≡ true = subst (λ y. waits r.job_id y ≡ true) (sym same) w in
      let rest = none_waits r xs (ground (arith, hit, c)) in
      rw (hit, rest, waiting_takes_nothing r.job_id x n hit)
        (charge_all-charge_if (assigned_job r x) xs n
          ∙ ap (λ y. charge_if (assigned_job r y) (charge_all xs n)) same)
]

abbrev with_gpus : List Gpu → Node → Node
with_gpus gpus n = record n { gpus = gpus }

charge_if-with_gpus :
    (j : Job) (gpus : List Gpu) (n : Node)
    → charge_if j (with_gpus gpus n) ≡ with_gpus gpus (charge_if j n)
unfolding charge_if
charge_if-with_gpus j gpus n = ground arith

charge_all-with_gpus :
    (xs : List Job) (gpus : List Gpu) (n : Node)
    → charge_all xs (with_gpus gpus n) ≡ with_gpus gpus (charge_all xs n)
unfolding charge_all
charge_all-with_gpus [] gpus n = refl
charge_all-with_gpus (x ∷ xs) gpus n =
    ap (charge_all xs) (charge_if-with_gpus x gpus n) ∙ charge_all-with_gpus xs gpus (charge_if x n)

pub charge_all-id : (xs : List Job) (n : Node) → (charge_all xs n).id ≡ n.id
unfolding charge_all
charge_all-id [] n = refl
charge_all-id (x ∷ xs) n = charge_all-id xs (charge_if x n) ∙ charge_if-id x n

pub charge_all-gpus : (xs : List Job) (n : Node) → (charge_all xs n).gpus ≡ n.gpus
charge_all-gpus xs n = ap (λ (m : Node). m.gpus) (charge_all-with_gpus xs n.gpus n)

take_gpu-mark :
    (held held' : Text → Bool) (uuids : List Text) (gpus : List Gpu)
    → ((u : Text) → held' u ≡ held u || contains uuids u)
    → map (λ (g : Gpu). record g { allocated = held' g.uuid }) gpus
      ≡ map (take_gpu uuids) (map (λ (g : Gpu). record g { allocated = held g.uuid }) gpus)
take_gpu-mark held held' uuids [] h = refl
take_gpu-mark held held' uuids (g ∷ gpus) h =
    ground (arith, h g.uuid, take_gpu-mark held held' uuids gpus h)

pub mark-same :
    (held held' : Text → Bool) (gpus : List Gpu)
    → ((u : Text) → held' u ≡ held u)
    → map (λ (g : Gpu). record g { allocated = held' g.uuid }) gpus
      ≡ map (λ (g : Gpu). record g { allocated = held g.uuid }) gpus
mark-same held held' [] h = refl
mark-same held held' (g ∷ gpus) h = rw (h g.uuid, mark-same held held' gpus h) refl

assigned_takes : (r : Reservation) (j : Job) → r.node_id ≢ [] → takes (assigned_job r j) ≡ true
unfolding is_active JobStatus-discrete
assigned_takes r j placed = ground (arith, placed)

accounted-reserved :
    (r : Reservation) (now : Text) (db : Db) (j : Job) (n : Node)
    → count_if (waits r.job_id) db.jobs ≡ 1
    → job db r.job_id ≡ some j
    → waits r.job_id j ≡ true
    → All (λ (a : Assignment). a.job_id ≢ r.job_id) db.assignments
    → r.node_id ≢ []
    → accounted (reserved r now db) n ≡ (
        if not ((accounted db n).id == r.node_id)
        then accounted db n
        else reserve_node j.spec.resources r.gpu_uuids (accounted db n))
unfolding job
accounted-reserved r now db j n one found hit first placed =
    let after = allocated_gpus (reserved r now db) in
    let acc = accounted db n in
    let gpus' = (mark after n).gpus in
    let held_after =
      λ (u : Text). allocated_gpus-reserved r now db n.id u (omega (arith, one)) first in
    let same_id = charge_all-id db.jobs (mark (allocated_gpus db) n) in
    let moved : accounted (reserved r now db) n
        ≡ with_gpus gpus' (charge_if (assigned_job r j) (accounted db n)) =
      charge_all-reserved r j db.jobs (mark after n) one found hit
      ∙ ap (charge_if (assigned_job r j))
          (charge_all-with_gpus db.jobs gpus' (mark (allocated_gpus db) n))
      ∙ charge_if-with_gpus (assigned_job r j) gpus' (accounted db n) in
    elim (Bool-cases (n.id == r.node_id)) [
      | inl here ↦
          let runs : (takes (assigned_job r j) && acc.id == r.node_id) ≡ true =
            rw (assigned_takes r j placed, same_id) here in
          let marks =
            take_gpu-mark (allocated_gpus db n.id) (after n.id) r.gpu_uuids n.gpus
              (λ u. held_after u ∙ ground (arith, here))
            ∙ ap (map (take_gpu r.gpu_uuids))
                (sym (charge_all-gpus db.jobs (mark (allocated_gpus db) n))) in
          let acc_here : (acc.id == r.node_id) ≡ true = rw same_id here in
          rw acc_here (
            moved
            ∙ ap (with_gpus gpus') (charge_if-here (assigned_job r j) acc runs)
            ∙ ap (λ gs. with_gpus gs (charge j.spec.resources acc)) marks)
      | inr elsewhere ↦
          let rests : (takes (assigned_job r j) && acc.id == r.node_id) ≡ false =
            rw (assigned_takes r j placed, same_id) elsewhere in
          let marks =
            mark-same (allocated_gpus db n.id) (after n.id) n.gpus
              (λ u. held_after u ∙ ground (arith, elsewhere))
            ∙ sym (charge_all-gpus db.jobs (mark (allocated_gpus db) n)) in
          let acc_not : (acc.id == r.node_id) ≡ false = rw same_id elsewhere in
          rw acc_not (
            moved
            ∙ ap (with_gpus gpus') (charge_if-elsewhere (assigned_job r j) acc rests)
            ∙ ap (λ gs. with_gpus gs acc) marks)
    ]

-- After a job's first reservation, the snapshot that a pass keeps is the one that would be read
-- from the database again, if no two nodes and no two jobs have one name and the node has a name.
pub reserve_in_snapshot-snapshot :
    (nodes : List Node) (r : Reservation) (now : Text) (db : Db) (j : Job)
    → IsKeyedNodes nodes
    → IsKeyed db.jobs
    → All (λ (a : Assignment). a.job_id ≢ r.job_id) db.assignments
    → r.node_id ≢ []
    → job db r.job_id ≡ some j
    → (reserve r now db).1 ≡ done
    → snapshot nodes (reserve r now db).0
      ≡ reserve_in_snapshot (snapshot nodes db) r.node_id j.spec.resources r.gpu_uuids
unfolding reserve_in_snapshot
reserve_in_snapshot-snapshot nodes r now db j k keyed first placed found good =
    elim (reserve-cases r now db) [
      | inl (_, (_, bad)) ↦ cc (bad, good)
      | inr (all, one, _) ↦
          let res = reserved-Reserved r now db keyed one in
          let same : res.waiting ≡ j = ground (arith, res.found, found) in
          let hit : waits r.job_id j ≡ true =
            ground (arith, res.was_queued, same, job-named db r.job_id found) in
          rw (all, snapshot-each nodes (reserved r now db) k, snapshot-each nodes db k)
            (map-ext _ _ nodes (λ n. accounted-reserved r now db j n one found hit first placed)
              ∙ sym (map-map _ (accounted db) nodes))
    ]
