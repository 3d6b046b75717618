-- ===== src/Scheduler/Pass.antt =====
-- internal/scheduler/scheduler.go, `Schedule`: one pass over the queued jobs, the oldest first. What is
-- random or from a library is a parameter: `draw n` are the identifiers and the token of the n-th
-- job, `hash` is `auth.TokenHash`, `encrypt` the secret box, `clock n` the time of the n-th
-- reservation. `others n` is what other requests commit before the n-th write.
pub mod Snapshot
pub mod Room
pub mod Exclusive
pub mod Delays
pub mod Steady
pub mod Steps
pub mod Safety
use job_dock.Base.{
  true, ◌==◌, ◌++◌, ◌+◌, ℕ, not, List, [], ◌∷◌, Option, none, some, map, keep, sort, text_ltb,
  if◌then◌else◌, Text, codes,
}
use job_dock.Domain.Status.{queued}
use job_dock.Domain.Types.{Job, Node, Gpu, Resources}
use job_dock.Store.Tables.{Db, Outcome, done, StoreError, conflict}
use job_dock.Store.Jobs.{◌is◌, Reservation, reserve}
use job_dock.Store.Requests.{set_queue_reason}
use job_dock.Capacity.{charge, snapshot}
use job_dock.Scheduler.Match.{contains}
use job_dock.Scheduler.Select.{Candidate}
use job_dock.Scheduler.Waiting.{selected, waiting, select_node, code, message}

abbrev pub take_gpu : List Text → Gpu → Gpu
take_gpu uuids g = if contains uuids g.uuid then record g { allocated = true } else g

abbrev pub reserve_node : Resources → List Text → Node → Node
reserve_node r uuids n = record (charge r n) { gpus = map (take_gpu uuids) n.gpus }

unfoldable pub reserve_in_snapshot : List Node → Text → Resources → List Text → List Node
reserve_in_snapshot nodes id r uuids =
    map (λ (n : Node). if not (n.id == id) then n else reserve_node r uuids n) nodes

unfoldable pub queued_jobs : Db → List Job
queued_jobs db =
    sort (λ (a b : Job). text_ltb a.created_at b.created_at)
      (keep (λ (j : Job). j.status is queued) db.jobs)

pub record Drawn : Type 0 where
  pub attempt_id : Text
  pub assignment_id : Text
  pub job_token : Text

-- How a pass ends: with no error, or by the first one that is not a conflict.
pub data PassEnd : Type 0 where
  passed encryption_failed : PassEnd
  store_failed : StoreError → PassEnd

module _ (draw : ℕ → Drawn) (hash : Text → Text) (encrypt : Text → Text → Option Text)
    (clock : ℕ → Text) (others : ℕ → Db → Db) where
  abbrev pub reservation_of : ℕ → Job → Candidate → Text → Reservation
  reservation_of n j c ciphertext = record {
    job_id = j.id;
    node_id = c.node.id;
    attempt_id = (draw n).attempt_id;
    assignment_id = (draw n).assignment_id;
    job_token_hash = hash (draw n).job_token;
    job_token_ciphertext = ciphertext;
    gpu_uuids = c.gpu_uuids;
    cpu_package_id = c.cpu_package_id;
    cpu_set = c.cpu_set;
  }

  abbrev pub sealed : ℕ → Option Text
  sealed n = encrypt (draw n).job_token (codes "assignment/" ++ (draw n).assignment_id)

  unfoldable pub schedule_jobs : ℕ → List Job → List Node → Db → Db × PassEnd
  schedule_jobs n [] nodes db = (db, passed)
  schedule_jobs n (j ∷ jobs) nodes db = elim (select_node j.spec nodes) [
    | waiting r ↦
        schedule_jobs (n + 1) jobs nodes
          (set_queue_reason j.id (code r) (message j.spec r) (others n db)).0
    | selected c ↦ elim (sealed n) [
      | none ↦ (db, encryption_failed)
      | some ciphertext ↦
          let (db', o) = reserve (reservation_of n j c ciphertext) (clock n) (others n db) in
          elim o [
            | done ↦
                schedule_jobs (n + 1) jobs
                  (reserve_in_snapshot nodes c.node.id j.spec.resources c.gpu_uuids) db'
            | Outcome.failed conflict ↦ schedule_jobs (n + 1) jobs nodes db'
            | Outcome.failed e ↦ (db', store_failed e)
          ]
    ]
  ]

  unfoldable pub schedule : List Node → Db → Db × PassEnd
  unfolding schedule_jobs queued_jobs snapshot
  schedule nodes db = elim (queued_jobs db) [
    | [] ↦ (db, passed)
    | j ∷ jobs ↦ schedule_jobs 1 (j ∷ jobs) (snapshot nodes (others 0 db)) (others 0 db)
  ]
