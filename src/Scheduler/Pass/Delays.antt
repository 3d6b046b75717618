-- ===== src/Scheduler/Pass/Delays.antt =====
-- The database after the reason was noted for which a job waits.
use job_dock.Store.Lookup.{taken, job-update}
use job_dock.Scheduler.Match.{contains}
use job_dock.Scheduler.Pass.Snapshot.{mark-same}
use job_dock.Capacity.Listing.{snapshot-each}
use job_dock.Store.Jobs.{job, waits}
use job_dock.Capacity.Nodes.{map-ext, IsKeyedNodes, charge_if, charge_all}
use job_dock.Base.{
  inr, sym, inl, Option-cases, some, refl, ◌∙◌, ◌==◌, [], arith, ◌&&◌, ◌∷◌, if◌then◌else◌, any, ap,
  List, ◌≡◌, ◌+◌, Text,
}
use job_dock.Domain.Types.{Gpu, Job, Node}
use job_dock.Store.Tables.{update, Db, Assignment}
use job_dock.Store.Requests.{set_queue_reason}
use job_dock.Capacity.{allocated_gpus, joins, mark, snapshot}

module _ (id code message : Text) where
  abbrev delayed : Job → Job
  delayed j = record j { queue_reason_code = code; queue_reason = message; version = j.version + 1 }

  abbrev pub delays : Db → Db
  delays db = record db { jobs = update (waits id) delayed db.jobs }

  pub set_queue_reason-delays : (db : Db) → (set_queue_reason id code message db).0 ≡ delays db
  unfolding set_queue_reason
  set_queue_reason-delays db = refl

  charge_if-delayed :
      (j : Job) (n : Node) → charge_if (if waits id j then delayed j else j) n ≡ charge_if j n
  unfolding charge_if
  charge_if-delayed j n = ground arith

  charge_all-delays :
      (xs : List Job) (n : Node) → charge_all (update (waits id) delayed xs) n ≡ charge_all xs n
  unfolding charge_all
  charge_all-delays [] n = refl
  charge_all-delays (x ∷ xs) n =
      ap (charge_all (update (waits id) delayed xs)) (charge_if-delayed x n)
      ∙ charge_all-delays xs (charge_if x n)

  pub joins-delays :
      (xs : List Job) (a : Assignment) → joins (update (waits id) delayed xs) a ≡ joins xs a
  joins-delays [] a = refl
  joins-delays (x ∷ xs) a = ground (arith, joins-delays xs a)

  any-delays :
      (jobs : List Job) (node uuid : Text) (xs : List Assignment)
      → any
          (λ (a : Assignment).
            joins (update (waits id) delayed jobs) a
            && a.node_id == node
            && contains a.gpu_uuids uuid)
          xs
        ≡ any
            (λ (a : Assignment). joins jobs a && a.node_id == node && contains a.gpu_uuids uuid)
            xs
  any-delays jobs node uuid [] = refl
  any-delays jobs node uuid (x ∷ xs) = rw (joins-delays jobs x, any-delays jobs node uuid xs) refl

  mark-delays :
      (db : Db) (n : Node) → mark (allocated_gpus (delays db)) n ≡ mark (allocated_gpus db) n
  unfolding allocated_gpus
  mark-delays db n =
      ap (λ (gs : List Gpu). record n { gpus = gs })
        (mark-same (allocated_gpus db n.id) (allocated_gpus (delays db) n.id) n.gpus
          (λ u. any-delays db.jobs n.id u db.assignments))

  pub snapshot-delays :
      (nodes : List Node) (db : Db)
      → IsKeyedNodes nodes
      → snapshot nodes (delays db) ≡ snapshot nodes db
  snapshot-delays nodes db k =
      rw (snapshot-each nodes (delays db) k, snapshot-each nodes db k)
        (map-ext _ _ nodes (λ n.
          charge_all-delays db.jobs (mark (allocated_gpus (delays db)) n)
          ∙ ap (charge_all db.jobs) (mark-delays db n)))

  -- A job after the reason was noted, and as it was before.
  pub delays-before :
      (db : Db) (i : Text) (k : Job)
      → job (delays db) i ≡ some k
      → (k' : Job) × (job db i ≡ some k') × (k.spec ≡ k'.spec) × (k.status ≡ k'.status)
  delays-before db i k e =
      let was = job-update db (delays db) (waits id) delayed i refl (λ _. refl) in
      elim (Option-cases (job db i)) [
        | inl absent ↦ cc (rw absent at (sym was ∙ e))
        | inr (k', found) ↦
            let both : some (if waits id k' then delayed k' else k') ≡ some k =
              ap (taken (waits id) delayed) (sym found) ∙ sym was ∙ e in
            (k', found, ground (arith, both), ground (arith, both))
      ]
