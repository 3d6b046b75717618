-- ===== src/Tests/Capacity.antt =====
-- Reservations, snapshots and passes.
use job_dock.Domain.Status.{is_active, JobStatus-discrete}
use job_dock.Scheduler.Match.{contains}
use job_dock.Base.{
  insert, sort, List, Memᴰ, refl, map, arith, [], find_if, true, ◌⊎◌, Text-discrete, codes, some,
  ◌≡◌, ◌∷◌, ℕ, All,
}
use job_dock.Tests.Samples.{training, node_a, node_b, waiting_job, waiting_db, busy_db, noon}
use job_dock.Tests.Lifecycles.{finds_waiting, reservation}
use job_dock.Store.Lookup.{IsKeyed}
use job_dock.Store.Reserving.{reserve-outcome, reserve-once, IsReserved}
use job_dock.Store.Jobs.{new_assignment, job, reserve, Reservation}
use job_dock.Store.Tables.{
  Assignment, Db, done, conflict, Outcome, StoreError, insert_attempt, insert_assignment,
  insert_event,
}
use job_dock.Capacity.{charge_job, charge_jobs, list_jobs, account, snapshot, allocated_gpus}
use job_dock.Capacity.Listing.{snapshot-each, accounted}
use job_dock.Capacity.Nodes.{IsKeyedNodes}
use job_dock.Capacity.Reruns.{allocated_gpus-rerun}
use job_dock.Scheduler.Pass.{reserve_in_snapshot, schedule, Drawn}
use job_dock.Scheduler.Pass.Snapshot.{reserve_in_snapshot-snapshot}
use job_dock.Scheduler.Pass.Safety.{schedule-Safe}
use job_dock.Scheduler.Pass.Room.{Fits}
use job_dock.Scheduler.Pass.Exclusive.{IsExclusive}
use job_dock.Domain.Types.{Node}

reserves : (reserve reservation noon waiting_db).1 ≡ done
unfolding reserve job find_if Text-discrete JobStatus-discrete insert_attempt insert_assignment
    insert_event
reserves = refl

reserve-outcome_example :
    ((reserve reservation noon waiting_db).0 ≡ waiting_db)
      × ((e : StoreError) × ((reserve reservation noon waiting_db).1 ≡ Outcome.failed e))
    ⊎ IsReserved reservation waiting_db (reserve reservation noon waiting_db).0
      × ((reserve reservation noon waiting_db).1 ≡ done)
reserve-outcome_example = reserve-outcome reservation noon waiting_db (tt, tt)

abbrev later_reservation : Reservation
later_reservation = record reservation { attempt_id = codes "t3"; assignment_id = codes "s3" }

-- The database after the reservation and another change.
abbrev moved_on : Db
moved_on = record (reserve reservation noon waiting_db).0 { nodes = [] }

moved_on-IsKeyed : IsKeyed moved_on.jobs
unfolding reserve job find_if Text-discrete JobStatus-discrete insert_attempt insert_assignment
    insert_event
moved_on-IsKeyed = (tt, tt)

reserve-once_example : reserve later_reservation noon moved_on ≡ (moved_on, Outcome.failed conflict)
unfolding job
reserve-once_example =
    reserve-once reservation noon later_reservation noon waiting_db moved_on (tt, tt) reserves refl
      moved_on-IsKeyed refl

-- The nodes as they are read, with nothing allocated.
abbrev idle_a : Node
idle_a = record node_a { cpu_allocated_millis = 0; memory_allocated_bytes = 0 }

abbrev idle_b : Node
idle_b = record node_b { cpu_allocated_millis = 0; memory_allocated_bytes = 0 }

idle-IsKeyedNodes : IsKeyedNodes (idle_a ∷ idle_b ∷ [])
idle-IsKeyedNodes = (((λ e. ground (arith, e)), tt), (tt, tt))

snapshot-each_example :
    snapshot (idle_a ∷ idle_b ∷ []) busy_db ≡ map (accounted busy_db) (idle_a ∷ idle_b ∷ [])
snapshot-each_example = snapshot-each (idle_a ∷ idle_b ∷ []) busy_db idle-IsKeyedNodes

reserve_in_snapshot-snapshot_example :
    snapshot (idle_a ∷ idle_b ∷ []) (reserve reservation noon waiting_db).0
    ≡ reserve_in_snapshot
        (snapshot (idle_a ∷ idle_b ∷ []) waiting_db)
        (codes "a")
        training.resources
        (codes "g2" ∷ [])
reserve_in_snapshot-snapshot_example =
    reserve_in_snapshot-snapshot (idle_a ∷ idle_b ∷ []) reservation noon waiting_db waiting_job
      idle-IsKeyedNodes (tt, tt) tt (λ e. cc e) finds_waiting reserves

-- The job was run before, on the second node, with its second GPU.
abbrev earlier : Assignment
earlier = record (new_assignment reservation noon) {
  id = codes "s0";
  attempt_id = codes "t0";
  node_id = codes "b";
  gpu_uuids = codes "g1" ∷ [];
}

abbrev rerun_db : Db
rerun_db = record waiting_db { assignments = earlier ∷ [] }

reserves_again : (reserve reservation noon rerun_db).1 ≡ done
unfolding reserve job find_if Text-discrete JobStatus-discrete insert_attempt insert_assignment
    insert_event
reserves_again = refl

had : contains earlier.gpu_uuids (codes "g1") ≡ true
unfolding contains Text-discrete
had = refl

allocated_gpus-rerun_example :
    allocated_gpus (reserve reservation noon rerun_db).0 (codes "b") (codes "g1") ≡ true
allocated_gpus-rerun_example =
    allocated_gpus-rerun reservation noon rerun_db earlier (codes "g1") (Memᴰ.head refl) refl had
      reserves_again

abbrev draws : ℕ → Drawn
draws n = record { attempt_id = codes "t2"; assignment_id = codes "s2"; job_token = codes "token" }

abbrev both_idle : List Node
both_idle = snapshot (idle_a ∷ idle_b ∷ []) waiting_db

idle-Fits : All Fits both_idle
unfolding snapshot account list_jobs sort insert charge_jobs charge_job is_active JobStatus-discrete
idle-Fits = (
  record {
    has_name = λ e. cc e;
    cpu = (omega arith, omega arith);
    memory = (omega arith, omega arith);
    packages = tt;
    keyed = tt;
  },
  (
    record {
      has_name = λ e. cc e;
      cpu = (omega arith, omega arith);
      memory = (omega arith, omega arith);
      packages = tt;
      keyed = tt;
    },
    tt,
  ),
)

schedule-Safe_example :
    let after =
      (schedule draws
        (λ t. t)
        (λ t _. some t)
        (λ _. noon)
        (λ _ d. d)
        (idle_a ∷ idle_b ∷ [])
        waiting_db).0 in
    All Fits (snapshot (idle_a ∷ idle_b ∷ []) after) × IsExclusive after
schedule-Safe_example =
    schedule-Safe draws (λ t. t) (λ t _. some t) (λ _. noon) (idle_a ∷ idle_b ∷ []) waiting_db
      idle-IsKeyedNodes (tt, tt) ((omega arith), tt) (λ a m. elim m [ ]) idle-Fits
      (λ _ _ a b m. elim m [ ])
