-- ===== src/Store/Machine/Owned.antt =====
-- The rows of jobs and attempts after each operation.
use job_dock.Store.Reserving.{reserved, reserve-cases}
use job_dock.Store.Jobs.{new_attempt, assigned_job, ◌is◌, job, reserve, waits, Reservation}
use job_dock.Store.Requests.{
  starting_attempt, accept_assignment, deleting_row, new_row, rerun_row, ended, deleted_row, has_id,
  set_queue_reason, rerun_job, mark_deleted, create_job, mark_deleting,
}
use job_dock.Base.{
  ◌∙◌, ◌&&◌, All-map, ap, IsKeyedBy-snoc, [], ◌∷◌, ◌||◌, arith, map-IsKeyedBy, refl, All-snoc, inr,
  Memᴰ, inl, count_if, true, ◌+◌, ◌==◌, eqb, Option-cases, Bool-cases, any, Text, ◌≡◌, Bool, All,
}
use job_dock.Domain.Status.{deleting, deleted, JobStatus-discrete, is_active, queued}
use job_dock.Domain.Types.{Job}
use job_dock.Store.Tables.{Assignment, Attempt, Db, update}
use job_dock.Store.Lookup.{IsKeyed}
use job_dock.Store.Machine.{
  accept_assignment, Reservation, set_queue_reason, rerun_job, mark_deleted, create_job,
  mark_deleting,
}
use job_dock.Store.Machine.Rows.{
  owns-update, owns-last, Owned-attempts, All-update, owns-append, Owned-idle, owns, Owned,
}

-- No two jobs have one name, an active job has its attempt, on the node that it is assigned to, and
-- a queued job has none.
pub record IsOwned (db : Db) : Type 0 where
  pub keyed : IsKeyed db.jobs
  pub owned : All (Owned db.attempts) db.jobs

-- An UPDATE of jobs that leaves the attempts as they are, or changes what no job's ownership reads.
pub IsOwned-update :
    (db db' : Db) (test : Job → Bool) (set : Job → Job)
    → db'.jobs ≡ update test set db.jobs
    → ((j : Job) → (set j).id ≡ j.id)
    → ((j : Job) → any (owns j) db.attempts ≡ true → any (owns j) db'.attempts ≡ true)
    → ((j : Job)
        → Memᴰ j db.jobs
        → test j ≡ true
        → Owned db.attempts j
        → Owned db'.attempts (set j))
    → IsOwned db
    → IsOwned db'
IsOwned-update db db' test set e names more row o = record {
  keyed = rw e (map-IsKeyedBy (λ (j : Job). j.id) _ db.jobs (λ j. ground (arith, names j)) o.keyed);
  owned = rw e (
      All-update (Owned db.attempts) (Owned db'.attempts) test set db.jobs row
        (λ j. Owned-attempts db.attempts db'.attempts j (more j)) o.owned);
}

pub reserve-IsOwned :
    (r : Reservation) (now : Text) (db : Db) → IsOwned db → IsOwned (reserve r now db).0
unfolding is_active JobStatus-discrete
reserve-IsOwned r now db o = elim (reserve-cases r now db) [
  | inl (same, _) ↦ rw same o
  | inr (all, _, _) ↦ rw all (
      IsOwned-update db (reserved r now db) (waits r.job_id) (assigned_job r) refl (λ _. refl)
        (λ j. owns-append db.attempts (new_attempt r now db ∷ []) j)
        (λ j _ hit p. record {
          active = λ _.
              owns-last db.attempts (new_attempt r now db) (assigned_job r j) (ground (arith, hit));
          waiting = λ e. cc e;
        })
        o)
]

pub set_queue_reason-IsOwned :
    (id code message : Text) (db : Db)
    → IsOwned db
    → IsOwned (set_queue_reason id code message db).0
unfolding set_queue_reason
set_queue_reason-IsOwned id code message db o =
    IsOwned-update db (set_queue_reason id code message db).0 (waits id)
      (λ j. record j { queue_reason_code = code; queue_reason = message; version = j.version + 1 })
      refl (λ _. refl) (λ j h. h) (λ j _ hit p. record { active = p.active; waiting = p.waiting }) o

pub rerun_job-IsOwned : (id : Text) (db : Db) → IsOwned db → IsOwned (rerun_job id db).0
unfolding rerun_job is_active
rerun_job-IsOwned id db o = elim (Bool-cases (eqb (count_if (ended id) db.jobs) 1)) [
  | inr none_ended ↦ rw (none_ended, rerun_job) o
  | inl one ↦
      rw (one, rerun_job)
        (IsOwned-update db _ (ended id) rerun_row refl (λ _. refl) (λ j h. h)
          (λ j _ hit p. Owned-idle db.attempts (rerun_row j) refl (λ _. refl)) o)
]

pub mark_deleted-IsOwned :
    (id now : Text) (db : Db) → IsOwned db → IsOwned (mark_deleted id now db).0
unfolding mark_deleted is_active JobStatus-discrete
mark_deleted-IsOwned id now db o =
    IsOwned-update db _ (has_id id) (deleted_row now) refl (λ _. refl) (λ j h. h)
      (λ j _ hit p. Owned-idle db.attempts (deleted_row now j) refl (λ e. cc e)) o

pub mark_deleting-IsOwned :
    (id : Text) (db : Db) → IsOwned db → IsOwned (mark_deleting (λ d. d) id db).0
unfolding mark_deleting is_active JobStatus-discrete
mark_deleting-IsOwned id db o = elim (Option-cases (job db id)) [
  | inl absent ↦ rw (absent, mark_deleting) o
  | inr (read, found) ↦ elim (Bool-cases (is_active read.status)) [
    | inl busy ↦ rw (found, mark_deleting, busy) o
    | inr idle ↦ elim (Bool-cases (read.status is deleted || read.status is deleting)) [
      | inl gone ↦ rw (found, mark_deleting, idle, gone) o
      | inr there ↦
          rw (found, mark_deleting, idle, there)
            (IsOwned-update db _ (has_id id) deleting_row refl (λ _. refl) (λ j h. h)
              (λ j _ hit p. Owned-idle db.attempts (deleting_row j) refl (λ e. cc e)) o)
    ]
  ]
]

pub create_job-IsOwned :
    (j : Job) (db : Db) → j.status ≡ queued → IsOwned db → IsOwned (create_job j db).0
unfolding create_job is_active
create_job-IsOwned j db q o = elim (Bool-cases (any (λ (i : Job). i.id == j.id) db.jobs)) [
  | inl clash ↦ rw (clash, create_job) o
  | inr free ↦
      rw (free, create_job)
        (record {
          keyed = IsKeyedBy-snoc (λ (i : Job). i.id) db.jobs (new_row j) free o.keyed;
          owned =
              All-snoc (Owned db.attempts) db.jobs (new_row j) o.owned
                (Owned-idle db.attempts (new_row j) (ap is_active q) (λ _. refl));
        })
]

-- An UPDATE of attempts.
pub attempts-IsOwned :
    (db db' : Db) (test : Attempt → Bool) (set : Attempt → Attempt)
    → db'.jobs ≡ db.jobs
    → db'.attempts ≡ update test set db.attempts
    → ((a : Attempt)
        → ((set a).id ≡ a.id) × ((set a).job_id ≡ a.job_id) × ((set a).node_id ≡ a.node_id))
    → IsOwned db
    → IsOwned db'
attempts-IsOwned db db' test set same e keeps o = record {
  keyed = rw same o.keyed;
  owned =
      rw (same, e)
        (All-map (Owned db.attempts) (Owned (update test set db.attempts)) db.jobs
          (λ j.
            Owned-attempts db.attempts (update test set db.attempts) j
              (λ h. owns-update test set db.attempts j keeps ∙ h))
          o.owned);
}

pub accept_assignment-IsOwned :
    (node_id assignment_id container_id now : Text) (db : Db)
    → IsOwned db
    → IsOwned (accept_assignment node_id assignment_id container_id now db).0
unfolding accept_assignment
accept_assignment-IsOwned node_id assignment_id container_id now db o =
    elim (Bool-cases (
      eqb
        (count_if (λ (a : Assignment). a.id == assignment_id && a.node_id == node_id)
          db.assignments)
        0)) [
          | inl absent ↦ rw (absent, accept_assignment) o
          | inr there ↦
              rw (there, accept_assignment)
                (attempts-IsOwned db _ (λ (a : Attempt). a.assignment_id == assignment_id)
                  (starting_attempt container_id) refl refl (λ _. (refl, refl, refl)) o)
        ]
