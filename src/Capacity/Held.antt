-- ===== src/Capacity/Held.antt =====
-- The GPUs that assignments hold, after a reservation.
use job_dock.Domain.Status.{JobStatus-discrete}
use job_dock.Base.{
  ◌≡◌, ◌≢◌, refl, ◌||◌, ◌&&◌, ◌==◌, true, List, [], ◌∷◌, ◌++◌, Text, arith, any, All, count_if, ◌<◌,
}
use job_dock.Domain.Types.{Job}
use job_dock.Store.Tables.{Db, Assignment, update}
use job_dock.Store.Jobs.{Reservation, waits, assigned_job, new_assignment}
use job_dock.Scheduler.Match.{contains}
use job_dock.Capacity.{allocated_gpus, joins}
use job_dock.Store.Reserving.{reserved}

pub joins-other :
    (r : Reservation) (xs : List Job) (a : Assignment)
    → a.job_id ≢ r.job_id
    → joins (update (waits r.job_id) (assigned_job r) xs) a ≡ joins xs a
joins-other r [] a other = refl
joins-other r (x ∷ xs) a other = ground (arith, joins-other r xs a other)

joins-new :
    (r : Reservation) (now : Text) (xs : List Job)
    → 0 < count_if (waits r.job_id) xs
    → joins (update (waits r.job_id) (assigned_job r) xs) (new_assignment r now) ≡ true
unfolding JobStatus-discrete
joins-new r now [] some_waits = elim some_waits [ ]
joins-new r now (x ∷ xs) some_waits = ground (arith, joins-new r now xs)

any-after :
    (r : Reservation) (now : Text) (jobs : List Job) (node uuid : Text) (xs : List Assignment)
    → 0 < count_if (waits r.job_id) jobs
    → All (λ (a : Assignment). a.job_id ≢ r.job_id) xs
    → let after = update (waits r.job_id) (assigned_job r) jobs in
      any
        (λ (a : Assignment). joins after a && a.node_id == node && contains a.gpu_uuids uuid)
        (xs ++ new_assignment r now ∷ [])
      ≡ any (λ (a : Assignment). joins jobs a && a.node_id == node && contains a.gpu_uuids uuid) xs
        || (r.node_id == node && contains r.gpu_uuids uuid)
any-after r now jobs node uuid [] c h = rw (joins-new r now jobs c) (ground arith)
any-after r now jobs node uuid (x ∷ xs) c h =
    rw (joins-other r jobs x h.0, any-after r now jobs node uuid xs c h.1) (ground arith)

-- A first reservation adds the GPUs of its assignment.
pub allocated_gpus-reserved :
    (r : Reservation) (now : Text) (db : Db) (node uuid : Text)
    → 0 < count_if (waits r.job_id) db.jobs
    → All (λ (a : Assignment). a.job_id ≢ r.job_id) db.assignments
    → allocated_gpus (reserved r now db) node uuid
      ≡ allocated_gpus db node uuid || (r.node_id == node && contains r.gpu_uuids uuid)
unfolding allocated_gpus
allocated_gpus-reserved r now db node uuid c h =
    any-after r now db.jobs node uuid db.assignments c h
