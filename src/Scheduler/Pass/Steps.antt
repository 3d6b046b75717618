-- ===== src/Scheduler/Pass/Steps.antt =====
-- The steps of a pass, one job each.
use job_dock.Capacity.Listing.{accounted, snapshot-each}
use job_dock.Scheduler.Found.{select_node-selected}
use job_dock.Scheduler.Pass.Delays.{
  joins-delays, delays-before, snapshot-delays, set_queue_reason-delays,
}
use job_dock.Store.Requests.{set_queue_reason}
use job_dock.Base.{
  [], map-IsKeyedBy, All-Memᴰ, inl, inr, subst, arith, sym, ◌≢◌, ap, All-map, some, ◌∙◌, List, Text,
  ◌≡◌, Memᴰ,
}
use job_dock.Domain.Types.{Job, Node}
use job_dock.Store.Tables.{Outcome, Db, done}
use job_dock.Store.Jobs.{Reservation, job, reserve}
use job_dock.Store.Reserving.{reserved, reserved-Reserved, reserve-cases}
use job_dock.Capacity.{allocated_gpus, mark}
use job_dock.Capacity.Nodes.{IsKeyedNodes}
use job_dock.Scheduler.Select.{Candidate}
use job_dock.Scheduler.Waiting.{message, code, select_node, selected}
use job_dock.Scheduler.Placement.{IsSized}
use job_dock.Scheduler.Pass.{
  message, code, Outcome, set_queue_reason, List, Text, reserve_in_snapshot,
}
use job_dock.Scheduler.Pass.Room.{reserve_in_snapshot-Fits, Fits-IsSized, Fits}
use job_dock.Scheduler.Pass.Exclusive.{reserved-IsExclusive, GpusFit-unmarked}
use job_dock.Scheduler.Pass.Snapshot.{charge_all-id, reserve_in_snapshot-snapshot}
use job_dock.Scheduler.Pass.Steady.{
  Reserved-KeepsSpecs, Reserved-FirstRuns, FirstRuns-none, KeepsSpecs, Known, Steady,
}

-- The pass reserves the selected candidate.
pub Steady-reserved :
    (nodes kept : List Node) (r : Reservation) (now : Text) (db : Db) (j : Job) (c : Candidate)
    → Steady nodes db kept
    → Known db j
    → select_node j.spec kept ≡ selected c
    → r.job_id ≡ j.id
    → r.node_id ≡ c.node.id
    → r.gpu_uuids ≡ c.gpu_uuids
    → (reserve r now db).1 ≡ done
    → Steady nodes
        (reserve r now db).0
        (reserve_in_snapshot kept c.node.id j.spec.resources c.gpu_uuids)
      × KeepsSpecs db (reserve r now db).0
Steady-reserved nodes kept r now db j c st known sel of_job on_node with_gpus good =
    elim (reserve-cases r now db) [
      | inl (_, (_, bad)) ↦ cc (bad, good)
      | inr (all, one, _) ↦
          let res = reserved-Reserved r now db st.keyed one in
          let first = FirstRuns-none r db res.waiting st.first_runs res.found res.was_queued in
          let same_spec : res.waiting.spec ≡ j.spec =
            known.1 res.waiting (subst (λ i. job db i ≡ some res.waiting) of_job res.found) in
          let keyed_kept : IsKeyedNodes kept =
            subst IsKeyedNodes (sym (st.fresh ∙ snapshot-each nodes db st.keyed_nodes)) (
              map-IsKeyedBy (λ (n : Node). n.id) (accounted db) nodes
                (λ n. charge_all-id db.jobs (mark (allocated_gpus db) n)) st.keyed_nodes) in
          let (m, places, _) =
            select_node-selected j.spec kept c known.0
              (All-map Fits IsSized kept Fits-IsSized st.fits) sel in
          let placed : r.node_id ≢ [] =
            λ e. (All-Memᴰ Fits kept st.fits m).has_name (sym on_node ∙ e) in
          let read =
            reserve_in_snapshot-snapshot nodes r now db res.waiting st.keyed_nodes st.keyed first
              placed res.found good in
          let unkept =
            GpusFit-unmarked nodes db c.node j.spec.resources.gpu c.gpu_uuids st.keyed_nodes
              (subst (Memᴰ c.node) st.fresh m) places.gpus in
          let back : (reserve r now db).0 ≡ reserved r now db =
            ap (λ (p : Db × Outcome). p.0) all in
          (
            record {
              keyed_nodes = st.keyed_nodes;
              keyed =
                  rw back
                    (map-IsKeyedBy (λ (x : Job). x.id) _ db.jobs (λ x. ground arith) st.keyed);
              fresh = cc (st.fresh, on_node, with_gpus, same_spec, read);
              fits = reserve_in_snapshot-Fits j.spec c kept places keyed_kept m st.fits;
              first_runs =
                  rw back (Reserved-FirstRuns r now db (reserved r now db) res st.first_runs);
              exclusive = rw back (
                  reserved-IsExclusive r now db first (rw (on_node, with_gpus) unkept)
                    st.exclusive);
            },
            rw back (Reserved-KeepsSpecs r now db (reserved r now db) res),
          )
    ]

-- The pass notes why the job waits.
pub Steady-delayed :
    (nodes kept : List Node) (id code message : Text) (db : Db)
    → Steady nodes db kept
    → Steady nodes (set_queue_reason id code message db).0 kept
      × KeepsSpecs db (set_queue_reason id code message db).0
Steady-delayed nodes kept id code message db st = (
  record {
    keyed_nodes = st.keyed_nodes;
    keyed =
        rw (set_queue_reason-delays id code message db)
          (map-IsKeyedBy (λ (x : Job). x.id) _ db.jobs (λ x. ground arith) st.keyed);
    fresh =
        rw (set_queue_reason-delays id code message db)
          (st.fresh ∙ sym (snapshot-delays id code message nodes db st.keyed_nodes));
    fits = st.fits;
    first_runs = rw (set_queue_reason-delays id code message db) (λ a m j e q.
        let (k, e', _, same) = delays-before id code message db a.job_id j e in
        st.first_runs a m k e' (sym same ∙ q));
    exclusive = rw (set_queue_reason-delays id code message db) (λ node uuid a b ma mb ka kb.
        st.exclusive node uuid a b ma mb
          (sym (joins-delays id code message db.jobs a) ∙ ka.0, ka.1, ka.2)
          (sym (joins-delays id code message db.jobs b) ∙ kb.0, kb.1, kb.2));
  },
  rw (set_queue_reason-delays id code message db)
      (λ i k e. let (k', e', same, _) = delays-before id code message db i k e in (k', e', same)),
)
