-- ===== src/Store/Stale/Losing.antt =====
-- internal/store/store.go: the statements of MarkStaleNodes on a job that has ended meanwhile.
use job_dock.Base.{
  sym, subst, ◌∙◌, inr, codes, inl, eqb, ◌<◌, ◌++◌, ◌≡◌, refl, ap, Bool, true, false, not, ◌&&◌,
  Option, some, List, [], ◌∷◌, Text, ◌==◌, ℕ, any, find_if, arith, Bool-cases,
}
use job_dock.Domain.Status.{lost}
use job_dock.Domain.Types.{Job}
use job_dock.Store.Tables.{Attempt, Db, JobEvent, Outcome, done, update, insert_event, max_of}
use job_dock.Store.Jobs.{job, ◌is◌, next_sequence}
use job_dock.Store.Stale.{
  append_server_event, server_event, inserted, lose_one, lose_job, lose_attempt, attempt_of,
  may_be_lost, lost_row,
}

update_none :
    {A : Type 0} (test : A → Bool) (set : A → A) (rows : List A)
    → any test rows ≡ false
    → update test set rows ≡ rows
update_none {A} test set [] no_hit = refl
update_none {A} test set (x ∷ rows) no_hit =
    let miss : test x ≡ false = ground (arith, no_hit) in
    rw miss (ap (λ (xs : List A). x ∷ xs) (update_none test set rows (ground (arith, no_hit))))

-- The next sequence number of a job is new.
sequence-new :
    (id : Text) (n : ℕ) (events : List JobEvent)
    → max_of (λ (e : JobEvent). e.job_id == id) (λ e. e.sequence) events < n
    → any (λ (f : JobEvent). f.job_id == id && eqb f.sequence n) events ≡ false
sequence-new id n [] above = refl
sequence-new id n (e ∷ events) above = ground (arith, sequence-new id n events)

job-there :
    (id : Text) (jobs : List Job) (j : Job)
    → find_if (λ (i : Job). i.id == id) jobs ≡ some j
    → any (λ (i : Job). i.id == id) jobs ≡ true
unfolding find_if
job-there id [] j e = ground (arith, e)
job-there id (x ∷ jobs) j e = ground (arith, e, job-there id jobs j)

insert_event-fits :
    (e : JobEvent) (db : Db)
    → any (λ (f : JobEvent). f.job_id == e.job_id && eqb f.sequence e.sequence) db.events ≡ false
    → any (λ (j : Job). j.id == e.job_id) db.jobs ≡ true
    → insert_event e db ≡ some (record db { events = db.events ++ e ∷ [] })
unfolding insert_event
insert_event-fits e db new there = rw (new, there) refl

job-there_db :
    (id : Text) (db : Db) (j : Job)
    → job db id ≡ some j
    → any (λ (i : Job). i.id == id) db.jobs ≡ true
unfolding job
job-there_db id db j e = job-there id db.jobs j e

append_server_event-done :
    (id kind payload now : Text) (db : Db) (j : Job)
    → job db id ≡ some j
    → append_server_event id kind payload now db
      ≡ (record db { events = db.events ++ server_event id kind payload now db ∷ [] }, done)
unfolding append_server_event
append_server_event-done id kind payload now db j e =
    let new = sequence-new id (next_sequence id db) db.events (omega arith) in
    let fits =
      insert_event-fits (server_event id kind payload now db) db new (job-there_db id db j e) in
    ap (inserted db) fits

attempts-lost :
    (id : Text) (rows : List Attempt)
    → any
        (λ (a : Attempt). a.id == id && not (a.status is lost))
        (update (λ (a : Attempt). a.id == id) (λ a. record a { status = lost }) rows)
      ≡ false
attempts-lost id [] = refl
attempts-lost id (a ∷ rows) = elim (Bool-cases (a.id == id)) [
  | inl hit ↦ rw hit (ground (arith, attempts-lost id rows))
  | inr miss ↦ rw miss (ground (arith, miss, attempts-lost id rows))
]

-- Nothing is committed between the statements.
abbrev pub alone : ℕ → Db → Db
alone n db = db

lose_job_late :
    (id : Text) (db : Db)
    → any (λ (i : Job). i.id == id && may_be_lost i.status) db.jobs ≡ false
    → lose_job id db ≡ db
lose_job_late id db over =
    ap (λ (js : List Job). record db { jobs = js })
      (update_none (λ (i : Job). i.id == id && may_be_lost i.status) lost_row db.jobs over)

job-lose_attempt : (id : Text) (db : Db) → job (lose_attempt id db) id ≡ job db id
unfolding job
job-lose_attempt id db = refl

pub lose_one-done :
    (id now : Text) (n : ℕ) (db : Db) (j : Job)
    → job (lose_job id db) id ≡ some j
    → lose_one alone now n id db ≡ (
      record (lose_attempt id (lose_job id db)) {
        events =
            db.events
            ++ server_event id (codes "lost") (codes "{}") now (lose_attempt id (lose_job id db))
              ∷ [];
      },
      done,
    )
unfolding lose_one
lose_one-done id now n db j e =
    append_server_event-done id (codes "lost") (codes "{}") now (lose_attempt id (lose_job id db)) j
      (job-lose_attempt id (lose_job id db) ∙ e)

lost_attempts :
    (id : Text) (db : Db) (j : Job)
    → job db id ≡ some j
    → any
        (λ (a : Attempt). a.id == j.attempt_id && not (a.status is lost))
        (lose_attempt id db).attempts
      ≡ false
lost_attempts id db j e =
    subst
      (λ (o : Option Job).
        any (λ (a : Attempt). a.id == j.attempt_id && not (a.status is lost))
          (update (λ (a : Attempt). a.id == attempt_of o) (λ a. record a { status = lost })
            db.attempts)
        ≡ false)
      (sym e) (attempts-lost j.attempt_id db.attempts)

-- A job that MarkStaleNodes has found, and that has ended before it is marked, keeps its row; but its attempt
-- is set LOST.
pub lose_one_late :
    (id now : Text) (n : ℕ) (db : Db) (j : Job)
    → job db id ≡ some j
    → any (λ (i : Job). i.id == id && may_be_lost i.status) db.jobs ≡ false
    → ((lose_one alone now n id db).1 ≡ done)
      × ((lose_one alone now n id db).0.jobs ≡ db.jobs)
      × (any
            (λ (a : Attempt). a.id == j.attempt_id && not (a.status is lost))
            (lose_one alone now n id db).0.attempts
          ≡ false)
lose_one_late id now n db j e over =
    let same = lose_job_late id db over in
    let e' = ap (λ (d : Db). job d id) same ∙ e in
    let all = lose_one-done id now n db j e' in
    (
      ap (λ (p : Db × Outcome). p.1) all,
      ap (λ (p : Db × Outcome). p.0.jobs) all ∙ ap (λ (d : Db). d.jobs) same,
      subst
          (λ (p : Db × Outcome).
            any (λ (a : Attempt). a.id == j.attempt_id && not (a.status is lost)) p.0.attempts
            ≡ false)
          (sym all) (lost_attempts id (lose_job id db) j e'),
    )
