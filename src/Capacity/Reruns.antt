-- ===== src/Capacity/Reruns.antt =====
-- `AllocatedGPUUUIDs` joins the assignments to their jobs, not to the jobs' current attempts.
use job_dock.Base.{
  ◌++◌, ◌==◌, [], ◌&&◌, arith, subst, inr, ◌∷◌, inl, count_if, any, true, ◌<◌, ◌≡◌, List, Memᴰ,
  Bool, Text,
}
use job_dock.Domain.Status.{JobStatus-discrete}
use job_dock.Domain.Types.{Job}
use job_dock.Store.Tables.{update, Db, Assignment, done}
use job_dock.Store.Jobs.{new_assignment, assigned_job, waits, Reservation, reserve}
use job_dock.Store.Reserving.{reserve-cases, reserved}
use job_dock.Scheduler.Match.{contains}
use job_dock.Capacity.{update, Bool, Text, allocated_gpus, joins}

joins-again :
    (r : Reservation) (xs : List Job) (a : Assignment)
    → a.job_id ≡ r.job_id
    → 0 < count_if (waits r.job_id) xs
    → joins (update (waits r.job_id) (assigned_job r) xs) a ≡ true
unfolding JobStatus-discrete
joins-again r [] a same c = elim c [ ]
joins-again r (x ∷ xs) a same c = ground (arith, same, joins-again r xs a same)

any-Memᴰ :
    {A : Type 0} (p : A → Bool) (xs : List A) {x : A} → Memᴰ x xs → p x ≡ true → any p xs ≡ true
any-Memᴰ p [] m e = elim m [ ]
any-Memᴰ p (y ∷ xs) (Memᴰ.head same) e =
    let hit = subst (λ z. p z ≡ true) same e in ground (arith, hit)
any-Memᴰ p (y ∷ xs) (Memᴰ.tail m) e = let rest = any-Memᴰ p xs m e in ground (arith, rest)

Memᴰ-append : {A : Type 0} (xs ys : List A) {x : A} → Memᴰ x xs → Memᴰ x (xs ++ ys)
Memᴰ-append [] ys m = elim m [ ]
Memᴰ-append (y ∷ xs) ys (Memᴰ.head e) = Memᴰ.head e
Memᴰ-append (y ∷ xs) ys (Memᴰ.tail m) = Memᴰ.tail (Memᴰ-append xs ys m)

-- Once a rerun of a job is reserved, every GPU of every earlier assignment of the job counts as
-- allocated on that assignment's node, whatever node and GPUs the rerun was given.
pub allocated_gpus-rerun :
    (r : Reservation) (now : Text) (db : Db) (a : Assignment) (uuid : Text)
    → Memᴰ a db.assignments
    → a.job_id ≡ r.job_id
    → contains a.gpu_uuids uuid ≡ true
    → (reserve r now db).1 ≡ done
    → allocated_gpus (reserve r now db).0 a.node_id uuid ≡ true
unfolding allocated_gpus
allocated_gpus-rerun r now db a uuid m same has good = elim (reserve-cases r now db) [
  | inl (_, (_, bad)) ↦ cc (bad, good)
  | inr (all, one, _) ↦
      let live = joins-again r db.jobs a same (omega (arith, one)) in
      rw all (
        any-Memᴰ
          (λ (b : Assignment).
            joins (reserved r now db).jobs b && b.node_id == a.node_id && contains b.gpu_uuids uuid)
          (reserved r now db).assignments (Memᴰ-append db.assignments (new_assignment r now ∷ []) m)
          (ground (arith, live, has)))
]
