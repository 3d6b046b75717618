-- ===== src/Store/Races.antt =====
-- `RequestStop` and `MarkDeleting` read a job and then write it whatever its status has become:
-- both alone, and with another request in between.
use job_dock.Base.{
  ◌||◌, false, ℕ, subst, sym, ◌≡◌, refl, inl, inr, Bool, true, some, arith, if◌then◌else◌, Text,
  ◌∙◌, ap, Bool-cases, Option-cases,
}
use job_dock.Domain.Status.{
  deleted, deleting, is_active, cancelled, JobStatus, can_transition, JobStatus-discrete, stopping,
  queued,
}
use job_dock.Domain.Status.Lifecycle.{⟶*-phase, phase, stay, move}
use job_dock.Domain.Types.{Job}
use job_dock.Store.Tables.{Db, update}
use job_dock.Store.Jobs.{is_final, is_final, job, waits, ◌is◌}
use job_dock.Store.Requests.{
  deleting_row, mark_deleting, request_stop, is_stoppable, has_id, stopping_row, cancelled_row,
  stop_attempt,
}
use job_dock.Store.Lookup.{job-named, taken, job-update}
use job_dock.Store.Evolution.{Evolves, Evolves-refl}

-- An UPDATE of the one job that was read.
Evolves-update_one :
    (db db' : Db) (read : Job) (id : Text) (test : Job → Bool) (set : Job → Job)
    → job db id ≡ some read
    → db'.jobs ≡ update test set db.jobs
    → ((j : Job) → (set j).id ≡ j.id)
    → ((j : Job) → test j ≡ true → j.id ≡ id)
    → can_transition read.status (set read).status ≡ true
    → Evolves db db'
Evolves-update_one db db' read id test set found e names own legal k j here =
    let now : job db' k ≡ some (if test j then set j else j) =
      job-update db db' test set k e names ∙ ap (taken test set) here in
    elim (Bool-cases (test j)) [
      | inr miss ↦ (j, rw miss at now, stay)
      | inl hit ↦
          let same : k ≡ id = sym (job-named db k here) ∙ own j hit in
          let again = subst (λ i. job db i ≡ some j) same here in
          let one : read ≡ j = cc (found, again) in
          (
            set j,
            rw hit at now,
            move (subst (λ (x : Job). can_transition x.status (set x).status ≡ true) one legal)
                stay,
          )
    ]

stop_attempt-jobs : (read : Job) (db : Db) → (stop_attempt read db).jobs ≡ db.jobs
unfolding stop_attempt
stop_attempt-jobs read db = ground arith

stopping_legal : (s : JobStatus) → is_stoppable s ≡ true → can_transition s stopping ≡ true
unfolding can_transition JobStatus-discrete
stopping_legal s h = ground arith

cancelled_legal : (s : JobStatus) → (s is queued) ≡ true → can_transition s cancelled ≡ true
unfolding can_transition JobStatus-discrete
cancelled_legal s h = ground arith

-- A stop request that nothing interferes with moves jobs by permitted changes only.
pub request_stop-Evolves :
    (id now : Text) (db : Db) → Evolves db (request_stop (λ _ d. d) id now db).0
unfolding request_stop
request_stop-Evolves id now db = elim (Option-cases (job db id)) [
  | inl absent ↦ rw (absent, request_stop) (Evolves-refl db)
  | inr (read, found) ↦ elim (Bool-cases (read.status is queued)) [
    | inl waiting ↦
        rw (found, request_stop, waiting)
          (Evolves-update_one db _ read id (waits id) (cancelled_row now) found refl (λ _. refl)
            (λ j hit. ground (arith, hit)) (cancelled_legal read.status waiting))
    | inr other ↦ elim (Bool-cases (is_stoppable read.status)) [
      | inl stoppable ↦
          rw (found, request_stop, other, stoppable)
            (Evolves-update_one db _ read id (has_id id) stopping_row found
              (stop_attempt-jobs read _) (λ _. refl) (λ j hit. ground (arith, hit))
              (stopping_legal read.status stoppable))
      | inr refused ↦ rw (found, request_stop, other, refused) (Evolves-refl db)
    ]
  ]
]

job-stop_attempt : (read : Job) (d : Db) (id : Text) → job (stop_attempt read d) id ≡ job d id
unfolding job stop_attempt
job-stop_attempt read d id = ground arith

stoppable_not_queued : (s : JobStatus) → is_stoppable s ≡ true → (s is queued) ≡ false
unfolding JobStatus-discrete
stoppable_not_queued s h = ground arith

active_not_deleting : (s : JobStatus) → is_active s ≡ true → can_transition s deleting ≡ false
unfolding is_active can_transition JobStatus-discrete
active_not_deleting s h = ground arith

final_phase : (s : JobStatus) → is_final s ≡ true → phase s ≡ 2
unfolding JobStatus-discrete
final_phase s h = ground arith

-- The job that a stop request reads as stoppable and writes last.
module _ (others : ℕ → Db → Db) (id now : Text) (db : Db) (read j : Job)
    (found : job db id ≡ some read) (between : job (others 0 db) id ≡ some j)
    (quiet : (d : Db) → others 1 d ≡ d) where
  request_stop-writes :
      is_stoppable read.status ≡ true
      → job (request_stop others id now db).0 id ≡ some (stopping_row j)
  unfolding request_stop
  request_stop-writes stoppable =
      rw
        (
          found,
          request_stop,
          stoppable_not_queued read.status stoppable,
          stoppable,
          job-stop_attempt,
          quiet,
        )
        (job-update (others 0 db) _ (has_id id) stopping_row id refl (λ _. refl)
          ∙ ap (taken (has_id id) stopping_row) between
          ∙ ground (arith, job-named (others 0 db) id between))

  -- If the job ends between the read and the write of a stop request, it is brought back from its
  -- end: the request leaves it STOPPING, which no run of permitted changes does.
  pub request_stop-race :
      is_stoppable read.status ≡ true
      → is_final j.status ≡ true
      → (job (request_stop others id now db).0 id ≡ some (stopping_row j))
        × ¬ Evolves (others 0 db) (request_stop others id now db).0
  request_stop-race stoppable final = (request_stop-writes stoppable, broken)
    where
      broken : ¬ Evolves (others 0 db) (request_stop others id now db).0
      broken evolves =
          let (j', now_there, path) = evolves id j between in
          let same : j' ≡ stopping_row j = cc (request_stop-writes stoppable, now_there) in
          let stops : j'.status ≡ stopping = ap (λ (x : Job). x.status) same in
          ground (arith, ⟶*-phase path, stops, final_phase j.status final)

module _ (others : Db → Db) (id : Text) (db : Db) (read j : Job) (found : job db id ≡ some read)
    (between : job (others db) id ≡ some j) where
  -- If a job is assigned between the read and the write of a deletion, it is deleted while it holds
  -- its node's resources: the change is not permitted, and the job stops counting as active.
  pub mark_deleting-race :
      read.status ≡ queued
      → is_active j.status ≡ true
      → (job (mark_deleting others id db).0 id ≡ some (deleting_row j))
        × (can_transition j.status deleting ≡ false)
        × (is_active (deleting_row j).status ≡ false)
  unfolding mark_deleting is_active can_transition JobStatus-discrete
  mark_deleting-race waiting active = (
    rw
        (
          found,
          mark_deleting,
          ap is_active waiting,
          ap (λ (s : JobStatus). s is deleted || s is deleting) waiting,
        )
        (job-update (others db) _ (has_id id) deleting_row id refl (λ _. refl)
          ∙ ap (taken (has_id id) deleting_row) between
          ∙ ground (arith, job-named (others db) id between)),
    active_not_deleting j.status active,
    refl,
  )
