-- ===== src/Store/Builds/Steps.antt =====
-- Each operation moves builds along the table of permitted changes.
use job_dock.Base.{
  codes, keep, ◌≡◌, refl, ap, subst, inl, inr, true, false, not, List, [], ◌∷◌, ◌++◌, Text, any,
  arith, Bool-cases, Option-cases, find_if, Option,
}
use job_dock.Domain.Builds.{
  BuildWork, BuildPlan, build_allowed, Build, BuildStatus, BuildStatus-discrete,
  can_build_transition, ◌is_build◌, build_building, build_cancelled,
}
use job_dock.Store.Tables.{update}
use job_dock.Store.Builds.{
  has_assignment_id, conflict, build_assignment, not_terminal, assigns, BuildDb, ok, has_build_id,
  build, insert_build_event,
}
use job_dock.Store.Builds.Answers.{
  Answer-cases, read_back-ok, require-ok, >>=-ok, transaction-keeps,
}
use job_dock.Store.Builds.Lifecycle.{
  create_build, new_build, update_build_status, change_build_status, delete_build, has_status,
  moved,
}
use job_dock.Store.Builds.Queue.{queue_row, queue_build, queue_new, queue_mode, building_row}
use job_dock.Store.Builds.Completion.{
  closed, request_build_cancellation, cancel_build, cancelled_build, end_build, ended_as,
  completed_row, Completion, complete_build_assignment, check_artifact, heeded, may_complete,
  is_terminal,
}
use job_dock.Store.Builds.Machine.{cancel}
use job_dock.Store.Builds.Moves.{Moves, Moves-refl, Moves-update, Moves-snoc, Moves-keep}

rows-Moves :
    (db db' : BuildDb) (rows : List Build)
    → Moves db.builds rows
    → rows ≡ db'.builds
    → Moves db.builds db'.builds
rows-Moves db db' rows h e = subst (λ (bs : List Build). Moves db.builds bs) e h

pub same-Moves : (db db' : BuildDb) → db.builds ≡ db'.builds → Moves db.builds db'.builds
same-Moves db db' e = rows-Moves db db' db.builds (Moves-refl db.builds) e

pub create_build-Moves : (b : Build) (db : BuildDb) → Moves db.builds (create_build b db).0.builds
unfolding create_build insert_build_event
create_build-Moves b db =
    transaction-keeps (λ d. Moves db.builds d.builds) db _ (Moves-refl db.builds)
      (λ db' after e.
        let new : any (has_build_id b.id) db.builds ≡ false = ground (arith, e) in
        rows-Moves db db' (db.builds ++ new_build b ∷ []) (Moves-snoc (new_build b) db.builds new)
          (ground (arith, e)))

has_status_eq : (id : Text) (s : BuildStatus) (b : Build) → has_status id s b ≡ true → b.status ≡ s
has_status_eq id s b h = ground (arith, h)

change_build_status-Moves :
    (now id : Text) (status : BuildStatus) (digest message : Text) (db : BuildDb) (current : Build)
    (db' : BuildDb) (after : Build)
    → change_build_status now id status digest message db current ≡ ok (db', after)
    → Moves db.builds db'.builds
unfolding change_build_status insert_build_event
change_build_status-Moves now id status digest message db current db' after e =
    let permitted : can_build_transition current.status status ≡ true = ground (arith, e) in
    rows-Moves db db'
      (update (has_status id current.status) (moved now status digest message) db.builds)
      (Moves-update (has_status id current.status) (moved now status digest message) db.builds
        (λ b h. (refl, rw (has_status_eq id current.status b h) permitted)))
      (ground (arith, e))

pub update_build_status-Moves :
    (now id : Text) (status : BuildStatus) (digest message : Text) (db : BuildDb)
    → Moves db.builds (update_build_status now id status digest message db).0.builds
unfolding update_build_status
update_build_status-Moves now id status digest message db =
    transaction-keeps (λ d. Moves db.builds d.builds) db _ (Moves-refl db.builds)
      (λ db' after e.
        let (current, _, rest) = >>=-ok (build id db) _ e in
        elim (Bool-cases (current.status is_build status)) [
          | inl same ↦ same-Moves db db' (ground (arith, rest, same))
          | inr other ↦
              change_build_status-Moves now id status digest message db current db' after
                (rw other at rest)
        ])

pub delete_build-Moves : (id : Text) (db : BuildDb) → Moves db.builds (delete_build id db).0.builds
unfolding delete_build
delete_build-Moves id db =
    transaction-keeps (λ d. Moves db.builds d.builds) db _ (Moves-refl db.builds)
      (λ db' after e.
        rows-Moves db db' (keep (λ row. not (has_build_id id row)) db.builds)
          (Moves-keep (λ row. not (has_build_id id row)) db.builds) (ground (arith, e)))

queue_mode-permits :
    (now : Text) (row : Build) (db : BuildDb) (r : Option BuildPlan × List BuildPlan)
    → queue_mode now row db ≡ ok r
    → can_build_transition row.status build_building ≡ true
unfolding queue_mode can_build_transition build_allowed
queue_mode-permits now row db r e = ground (arith, e)

queue_new-Moves :
    (now id assignment : Text) (db : BuildDb) (row : Build) (db' : BuildDb) (work : BuildWork)
    → queue_new now id assignment db row ≡ ok (db', work)
    → Moves db.builds db'.builds
unfolding queue_new insert_build_event
queue_new-Moves now id assignment db row db' work e =
    let ((plan, rows), moded, rest) = >>=-ok (queue_mode now row db) _ e in
    let permitted = queue_mode-permits now row db (plan, rows) moded in
    rows-Moves db db' (update (has_status id row.status) (building_row now) db.builds)
      (Moves-update (has_status id row.status) (building_row now) db.builds
        (λ b h. (refl, rw (has_status_eq id row.status b h) permitted)))
      (ground (arith, rest))

queue_row-Moves :
    (now id assignment : Text) (db : BuildDb) (row : Build) (db' : BuildDb) (work : BuildWork)
    → queue_row now id assignment db row ≡ ok (db', work)
    → Moves db.builds db'.builds
unfolding queue_row
queue_row-Moves now id assignment db row db' work e =
    elim (Option-cases (find_if (assigns id) db.build_assignments)) [
      | inr (existing, there) ↦ same-Moves db db' (ground (arith, e, there))
      | inl none_yet ↦
          queue_new-Moves now id assignment db row db' work (rw (queue_row, none_yet) at e)
    ]

pub queue_build-Moves :
    (now id assignment : Text) (db : BuildDb)
    → Moves db.builds (queue_build now id assignment db).0.builds
unfolding queue_build
queue_build-Moves now id assignment db =
    transaction-keeps (λ d. Moves db.builds d.builds) db _ (Moves-refl db.builds)
      (λ db' work e.
        let (row, _, rest) = >>=-ok (build id db) _ e in
        queue_row-Moves now id assignment db row db' work rest)

building-cancelled : can_build_transition build_building build_cancelled ≡ true
unfolding can_build_transition build_allowed BuildStatus-discrete
building-cancelled = refl

cancel_build-Moves :
    (now id : Text) (db : BuildDb) (row : Build) (db' : BuildDb) (after : Build)
    → cancel_build now id db row ≡ ok (db', after)
    → Moves db.builds db'.builds
unfolding cancel_build insert_build_event
cancel_build-Moves now id db row db' after e =
    rows-Moves db db' (update (has_status id build_building) (cancelled_build now) db.builds)
      (Moves-update (has_status id build_building) (cancelled_build now) db.builds
        (λ b h. (refl, rw (has_status_eq id build_building b h) building-cancelled)))
      (ground (arith, e))

pub request_build_cancellation-Moves :
    (now id : Text) (db : BuildDb) → Moves db.builds (request_build_cancellation now id db).0.builds
unfolding request_build_cancellation
request_build_cancellation-Moves now id db =
    transaction-keeps (λ d. Moves db.builds d.builds) db _ (Moves-refl db.builds)
      (λ db' after e.
        let (row, _, rest) = >>=-ok (build id db) _ e in
        elim (Bool-cases (row.status is_build build_cancelled)) [
          | inl same ↦ same-Moves db db' (ground (arith, rest, same))
          | inr other ↦ cancel_build-Moves now id db row db' after (rw other at rest)
        ])

pub cancel-Moves : (now id : Text) (db : BuildDb) → Moves db.builds (cancel now id db).builds
unfolding cancel
cancel-Moves now id db = elim (Answer-cases (build id db)) [
  | inr (x, gone) ↦ rw (gone, cancel) (Moves-refl db.builds)
  | inl (row, there) ↦ elim (Bool-cases (row.status is_build build_building)) [
    | inl under_way ↦ rw (there, cancel, under_way) (request_build_cancellation-Moves now id db)
    | inr other ↦
        rw (there, cancel, other)
          (update_build_status-Moves now id build_cancelled [] (codes "Cancelled by user") db)
  ]
]

-- What a build ends as is permitted from BUILDING.
ends : (c : Completion) → can_build_transition build_building (ended_as c.status) ≡ true
unfolding can_build_transition build_allowed
ends c = ground arith

end_build-Moves :
    (now : Text) (c : Completion) (row : Build) (db db' : BuildDb)
    → end_build now c row db ≡ ok db'
    → Moves db.builds db'.builds
unfolding end_build insert_build_event
end_build-Moves now c row db db' e = elim (Bool-cases (row.status is_build build_building)) [
  | inr ended ↦ same-Moves db db' (ground (arith, e, ended))
  | inl under_way ↦
      rows-Moves db db' (update (has_status row.id build_building) (completed_row now c) db.builds)
        (Moves-update (has_status row.id build_building) (completed_row now c) db.builds
          (λ b h. (refl, rw (has_status_eq row.id build_building b h) (ends c))))
        (ground (arith, e, under_way))
]

pub complete_build_assignment-Moves :
    (now id builder : Text) (c : Completion) (db : BuildDb)
    → Moves db.builds (complete_build_assignment now id builder c db).0.builds
unfolding complete_build_assignment
complete_build_assignment-Moves now id builder reported db =
    transaction-keeps (λ d. Moves db.builds d.builds) db _ (Moves-refl db.builds)
      (λ db' after e.
        let (_, e1) = require-ok (is_terminal reported.status) not_terminal _ e in
        let (assignment, _, e2) = >>=-ok (build_assignment id db) _ e1 in
        let (_, e3) = require-ok (may_complete builder reported.status assignment) conflict _ e2 in
        let (row, _, e4) = >>=-ok (build assignment.build_id db) _ e3 in
        let c = heeded assignment row reported in
        let (_, _, e5) = >>=-ok (check_artifact row.id c db) _ e4 in
        let (ended, close, e6) = >>=-ok (end_build now c row db) _ e5 in
        let d : BuildDb = record ended {
          build_assignments =
              update (has_assignment_id id) (closed now c.status) ended.build_assignments;
        } in
        rows-Moves db db' ended.builds (end_build-Moves now c row db ended close)
          (ap (λ (x : BuildDb). x.builds) (read_back-ok d (build row.id d) db' after e6)))
