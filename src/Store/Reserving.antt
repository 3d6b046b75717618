-- ===== src/Store/Reserving.antt =====
-- internal/store/store.go, `ReserveJobWithAffinity`: the database after it.
use job_dock.Domain.Status.{
  running, assigned, JobStatus, JobStatus-discrete, can_transition, queued,
}
use job_dock.Store.Evolution.{Evolves-update, Evolves-refl, Evolves}
use job_dock.Store.Inserts.{insert_attempt-some, insert_assignment-some, insert_event-some}
use job_dock.Store.Lookup.{job-named, job-update, taken, find_if_of_count, IsKeyed}
use job_dock.Base.{
  codes, none, ℕ, Option, subst, true, sym, All-map, ◌+◌, ◌<◌, ◌≢◌, All, List, ◌≡◌, refl, ◌⊎◌, inl,
  inr, ◌∷◌, [], ◌++◌, false, some, Text, arith, Bool-cases, Option-cases, count_if, eqb, any, ◌∙◌,
  ap, ◌==◌,
}
use job_dock.Domain.Types.{Job}
use job_dock.Store.Tables.{
  JobEvent, max_of, constraint, Attempt, Assignment, Db, Outcome, done, StoreError, conflict,
  update, insert_attempt, insert_assignment, insert_event, clashes,
}
use job_dock.Store.Jobs.{
  ◌is◌, job, Reservation, reserve, waits, assigned_job, new_attempt, new_assignment, assigned_event,
}

-- The table of jobs with the job assigned.
abbrev pub claimed : Reservation → Db → Db
claimed r db = record db { jobs = update (waits r.job_id) (assigned_job r) db.jobs }

abbrev with_assignment : Assignment → Db → Db
with_assignment a db = record db { assignments = db.assignments ++ a ∷ [] }

abbrev with_event : Reservation → Text → Db → Db
with_event r now db = record db { events = db.events ++ assigned_event r now db ∷ [] }

-- The database after a reservation.
abbrev pub reserved : Reservation → Text → Db → Db
reserved r now db = record (claimed r db) {
  attempts = db.attempts ++ new_attempt r now db ∷ [];
  assignments = db.assignments ++ new_assignment r now ∷ [];
  events = db.events ++ assigned_event r now db ∷ [];
}

-- A reservation writes all of its rows, for one queued job and an attempt with fresh keys, or none.
pub reserve-cases :
    (r : Reservation) (now : Text) (db : Db)
    → ((reserve r now db).0 ≡ db) × ((e : StoreError) × ((reserve r now db).1 ≡ Outcome.failed e))
      ⊎ (reserve r now db ≡ (reserved r now db, done))
        × (count_if (waits r.job_id) db.jobs ≡ 1)
        × (any (clashes (new_attempt r now db)) db.attempts ≡ false)
unfolding reserve
reserve-cases r now db = elim (Bool-cases (eqb (count_if (waits r.job_id) db.jobs) 1)) [
  | inr none_waits ↦ inl (rw (none_waits, reserve) (refl, (conflict, refl)))
  | inl one ↦
      elim (Option-cases (insert_attempt (new_attempt r now (claimed r db)) (claimed r db))) [
        | inl fails ↦ inl (rw (one, reserve, fails) (refl, (constraint, refl)))
        | inr (db1, e1) ↦ elim (Option-cases (insert_assignment (new_assignment r now) db1)) [
          | inl fails ↦ inl (rw (one, reserve, e1, fails) (refl, (constraint, refl)))
          | inr (db2, e2) ↦ elim (Option-cases (insert_event (assigned_event r now db2) db2)) [
            | inl fails ↦ inl (rw (one, reserve, e1, e2, fails) (refl, (constraint, refl)))
            | inr (db3, e3) ↦
                let (new1, free) =
                  insert_attempt-some (new_attempt r now (claimed r db)) (claimed r db) db1 e1 in
                let new2 = insert_assignment-some (new_assignment r now) db1 db2 e2 in
                let new3 = insert_event-some (assigned_event r now db2) db2 db3 e3 in
                let all : db3 ≡ reserved r now db =
                  new3
                  ∙ ap (λ (d : Db). with_event r now d)
                      (new2 ∙ ap (λ (d : Db). with_assignment (new_assignment r now) d) new1) in
                inr (rw (one, reserve, e1, e2, e3) (rw all refl), ground (arith, one), free)
          ]
        ]
      ]
]

-- The attempt number is above those of all earlier attempts of the job.
max_of-above :
    (id : Text) (xs : List Attempt)
    → All
        (λ a.
          a.job_id ≡ id
          → a.attempt_number
            < max_of (λ (x : Attempt). x.job_id == id) (λ x. x.attempt_number) xs + 1)
        xs
max_of-above id [] = tt
max_of-above id (x ∷ xs) = (
  (λ same. ground arith),
  All-map
      (λ a.
        a.job_id ≡ id
        → a.attempt_number
          < max_of (λ (x : Attempt). x.job_id == id) (λ x. x.attempt_number) xs + 1)
      (λ a.
        a.job_id ≡ id
        → a.attempt_number
          < max_of (λ (x : Attempt). x.job_id == id) (λ x. x.attempt_number) (x ∷ xs) + 1)
      xs (λ a h same. ground (arith, h same)) (max_of-above id xs),
)

-- What a successful reservation has done.
pub record Reserved (r : Reservation) (now : Text) (db db' : Db) : Type 0 where
  pub waiting : Job
  pub found : job db r.job_id ≡ some waiting
  pub was_queued : waiting.status ≡ queued
  pub given : job db' r.job_id ≡ some (assigned_job r waiting)
  pub others : (id : Text) → id ≢ r.job_id → job db' id ≡ job db id
  pub attempt : db'.attempts ≡ db.attempts ++ new_attempt r now db ∷ []
  pub above :
      All
        (λ a. a.job_id ≡ r.job_id → a.attempt_number < (new_attempt r now db).attempt_number)
        db.attempts
  pub assignment : db'.assignments ≡ db.assignments ++ new_assignment r now ∷ []
  pub event : db'.events ≡ db.events ++ assigned_event r now db ∷ []

taken-other :
    (r : Reservation) (db : Db) (id : Text)
    → id ≢ r.job_id
    → taken (waits r.job_id) (assigned_job r) (job db id) ≡ job db id
taken-other r db id other = elim (Option-cases (job db id)) [
  | inl absent ↦ rw absent refl
  | inr (j, e) ↦ let named = job-named db id e in rw e ground (arith, named, other)
]

pub reserved-Reserved :
    (r : Reservation) (now : Text) (db : Db)
    → IsKeyed db.jobs
    → count_if (waits r.job_id) db.jobs ≡ 1
    → Reserved r now db (reserved r now db)
unfolding job
reserved-Reserved r now db keyed one =
    let (j, found, hit) =
      find_if_of_count r.job_id (waits r.job_id) db.jobs keyed (λ x h. ground (arith, h))
        (omega arith) in
    let now_is : (id : Text)
        → job (reserved r now db) id ≡ taken (waits r.job_id) (assigned_job r) (job db id) =
      λ id.
        job-update db (reserved r now db) (waits r.job_id) (assigned_job r) id refl (λ _. refl) in
    record {
      waiting = j;
      found = found;
      was_queued = ground (arith, hit);
      given =
          now_is r.job_id
          ∙ ap (taken (waits r.job_id) (assigned_job r)) found
          ∙ ground (arith, hit);
      others = λ id other. now_is id ∙ taken-other r db id other;
      attempt = refl;
      above = max_of-above r.job_id db.attempts;
      assignment = refl;
      event = refl;
    }

-- The same, field by field.
pub record IsReserved (r : Reservation) (db db' : Db) : Type 0 where
  pub before : Job
  pub after : Job
  pub found : job db r.job_id ≡ some before
  pub was_queued : before.status ≡ queued
  pub given : job db' r.job_id ≡ some after
  pub is_assigned : (after.status ≡ assigned) × (after.desired_status ≡ running)
  pub on_node : after.assigned_node_id ≡ r.node_id
  pub last_attempt : after.attempt_id ≡ r.attempt_id
  pub no_reason : (after.queue_reason_code ≡ []) × (after.queue_reason ≡ [])
  pub same_job : (after.spec ≡ before.spec) × (after.owner_id ≡ before.owner_id)
  pub others : (id : Text) → id ≢ r.job_id → job db' id ≡ job db id
  pub attempt : Attempt
  pub attempts : db'.attempts ≡ db.attempts ++ attempt ∷ []
  pub attempt_named :
      (attempt.id ≡ r.attempt_id)
      × (attempt.job_id ≡ r.job_id)
      × (attempt.assignment_id ≡ r.assignment_id)
  pub attempt_placed :
      (attempt.node_id ≡ r.node_id)
      × (attempt.gpu_uuids ≡ r.gpu_uuids)
      × (attempt.cpu_package_id ≡ r.cpu_package_id)
  pub attempt_new : (attempt.status ≡ assigned) × (attempt.job_token_hash ≡ r.job_token_hash)
  pub above : All (λ a. a.job_id ≡ r.job_id → a.attempt_number < attempt.attempt_number) db.attempts
  pub assignment : Assignment
  pub assignments : db'.assignments ≡ db.assignments ++ assignment ∷ []
  pub assignment_named :
      (assignment.id ≡ r.assignment_id)
      × (assignment.job_id ≡ r.job_id)
      × (assignment.attempt_id ≡ r.attempt_id)
  pub assignment_placed :
      (assignment.node_id ≡ r.node_id)
      × (assignment.gpu_uuids ≡ r.gpu_uuids)
      × (assignment.cpu_package_id ≡ r.cpu_package_id)
      × (assignment.cpu_set ≡ r.cpu_set)
  pub assignment_new :
      (assignment.job_token_ciphertext ≡ r.job_token_ciphertext)
      × (assignment.delivered_at ≡ none)
      × (assignment.accepted_at ≡ none)
  pub event : JobEvent
  pub events : db'.events ≡ db.events ++ event ∷ []
  pub event_of :
      (event.job_id ≡ r.job_id)
      × (event.attempt_id ≡ r.attempt_id)
      × (event.kind ≡ codes "assigned")
      × (event.status ≡ some assigned)

Reserved-IsReserved :
    (r : Reservation) (now : Text) (db db' : Db) → Reserved r now db db' → IsReserved r db db'
Reserved-IsReserved r now db db' res = record {
  before = res.waiting;
  after = assigned_job r res.waiting;
  found = res.found;
  was_queued = res.was_queued;
  given = res.given;
  is_assigned = (refl, refl);
  on_node = refl;
  last_attempt = refl;
  no_reason = (refl, refl);
  same_job = (refl, refl);
  others = res.others;
  attempt = new_attempt r now db;
  attempts = res.attempt;
  attempt_named = (refl, refl, refl);
  attempt_placed = (refl, refl, refl);
  attempt_new = (refl, refl);
  above = res.above;
  assignment = new_assignment r now;
  assignments = res.assignment;
  assignment_named = (refl, refl, refl);
  assignment_placed = (refl, refl, refl, refl);
  assignment_new = (refl, refl, refl);
  event = assigned_event r now db;
  events = res.event;
  event_of = (refl, refl, refl, refl);
}

-- `ReserveJobWithAffinity` either fails and leaves the database as it was, or it succeeds, if no two
-- jobs have one name: the job was queued, and is ASSIGNED to the node with the new attempt, wanted
-- RUNNING, with no reason to wait and its old specification and owner; no other job changes; and there
-- are an ASSIGNED attempt with a number above the job's earlier ones, an assignment that is neither
-- delivered nor accepted, and an event, each of the job, node, GPUs and CPU package of the reservation.
pub reserve-outcome :
    (r : Reservation) (now : Text) (db : Db)
    → IsKeyed db.jobs
    → ((reserve r now db).0 ≡ db) × ((e : StoreError) × ((reserve r now db).1 ≡ Outcome.failed e))
      ⊎ IsReserved r db (reserve r now db).0 × ((reserve r now db).1 ≡ done)
reserve-outcome r now db keyed = elim (reserve-cases r now db) [
  | inl fails ↦ inl fails
  | inr (all, one, _) ↦ inr (
      rw all (
        Reserved-IsReserved r now db (reserved r now db) (reserved-Reserved r now db keyed one),
        refl,
      ))
]

-- The status of a job, if it is there.
abbrev pub shown_status : Option Job → Option JobStatus
shown_status none = none
shown_status (some j) = some j.status

none-wait :
    (id : Text) (db : Db)
    → IsKeyed db.jobs
    → shown_status (job db id) ≡ some assigned
    → eqb (count_if (waits id) db.jobs) 1 ≡ false
unfolding job JobStatus-discrete
none-wait id db keyed e = elim (Bool-cases (eqb (count_if (waits id) db.jobs) 1)) [
  | inr other ↦ other
  | inl one ↦
      let (j, found, hit) =
        find_if_of_count id (waits id) db.jobs keyed (λ x h. ground (arith, h))
          (omega (arith, eqb_one (count_if (waits id) db.jobs) one)) in
      let status : some j.status ≡ some assigned = sym (ap shown_status found) ∙ e in
      absurd (ground (arith, hit, status))
]
  where
    eqb_one : (n : ℕ) → eqb n 1 ≡ true → n ≡ 1
    eqb_one n h = ground (arith, h)

-- After a job was reserved, every further reservation of it fails with a conflict and changes nothing,
-- in any database in which the job's status is still the one that the reservation left, if in both no
-- two jobs have one name.
pub reserve-once :
    (r : Reservation) (now : Text) (again : Reservation) (later : Text) (db db2 : Db)
    → IsKeyed db.jobs
    → (reserve r now db).1 ≡ done
    → again.job_id ≡ r.job_id
    → IsKeyed db2.jobs
    → shown_status (job db2 r.job_id) ≡ shown_status (job (reserve r now db).0 r.job_id)
    → reserve again later db2 ≡ (db2, Outcome.failed conflict)
unfolding reserve
reserve-once r now again later db db2 keyed good same keyed2 still =
    elim (reserve-outcome r now db keyed) [
      | inl (_, (_, bad)) ↦ cc (bad, good)
      | inr (res, _) ↦
          let status : shown_status (job db2 r.job_id) ≡ some assigned =
            still ∙ ap shown_status res.given ∙ ap (λ (s : JobStatus). some s) res.is_assigned.0 in
          let no_job : eqb (count_if (waits again.job_id) db2.jobs) 1 ≡ false =
            subst (λ (id : Text). eqb (count_if (waits id) db2.jobs) 1 ≡ false) (sym same)
              (none-wait r.job_id db2 keyed2 status) in
          rw no_job refl
    ]

assigned_legal : (s : JobStatus) → (s is queued) ≡ true → can_transition s assigned ≡ true
unfolding can_transition JobStatus-discrete
assigned_legal s h = ground arith

-- A reservation moves jobs by permitted changes only.
pub reserve-Evolves : (r : Reservation) (now : Text) (db : Db) → Evolves db (reserve r now db).0
reserve-Evolves r now db = elim (reserve-cases r now db) [
  | inl (same, _) ↦ rw same (Evolves-refl db)
  | inr (all, _, _) ↦ rw all (
      Evolves-update db (reserved r now db) (waits r.job_id) (assigned_job r) refl (λ _. refl)
        (λ j hit. assigned_legal j.status (ground (arith, hit))))
]
