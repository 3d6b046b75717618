-- ===== src/Store/Inserts.antt =====
-- What an INSERT that succeeds has added.
use job_dock.Base.{◌≡◌, inl, inr, ◌∷◌, [], ◌++◌, false, some, arith, Bool-cases, any, ◌==◌}
use job_dock.Domain.Types.{Job}
use job_dock.Store.Tables.{
  Attempt, Assignment, JobEvent, NodeRow, Db, insert_attempt, insert_assignment, insert_event,
  clashes,
}

pub insert_attempt-some :
    (a : Attempt) (db db' : Db)
    → insert_attempt a db ≡ some db'
    → (db' ≡ record db { attempts = db.attempts ++ a ∷ [] }) × (any (clashes a) db.attempts ≡ false)
unfolding insert_attempt
insert_attempt-some a db db' e = elim (Bool-cases (any (clashes a) db.attempts)) [
  | inl clash ↦ cc (rw (clash, insert_attempt) at e)
  | inr free ↦ elim (Bool-cases (any (λ (j : Job). j.id == a.job_id) db.jobs)) [
    | inr no_job ↦ cc (rw (free, insert_attempt, no_job) at e)
    | inl has_job ↦ elim (Bool-cases (any (λ (n : NodeRow). n.id == a.node_id) db.nodes)) [
      | inr no_node ↦ cc (rw (free, insert_attempt, has_job, no_node) at e)
      | inl has_node ↦ (cc (rw (free, insert_attempt, has_job, has_node) at e), free)
    ]
  ]
]

pub insert_assignment-some :
    (a : Assignment) (db db' : Db)
    → insert_assignment a db ≡ some db'
    → db' ≡ record db { assignments = db.assignments ++ a ∷ [] }
unfolding insert_assignment
insert_assignment-some a db db' e = ground (arith, e)

pub insert_event-some :
    (a : JobEvent) (db db' : Db)
    → insert_event a db ≡ some db'
    → db' ≡ record db { events = db.events ++ a ∷ [] }
unfolding insert_event
insert_event-some a db db' e = ground (arith, e)
