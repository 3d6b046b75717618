-- ===== src/Store/Builds/Agreement/Updates.antt =====
-- internal/store/builds.go: creation, changes of the status and deletion.
use job_dock.Base.{
  ◌≡◌, refl, ◌∙◌, subst, true, false, not, List, [], ◌∷◌, ◌++◌, Text, keep, any, arith,
  IsKeyedBy-snoc, Bool-cases, inl, inr,
}
use job_dock.Domain.Builds.{
  Build, BuildAssignment, BuildStatus, ◌is_build◌, build_building, build_created,
  can_build_transition,
}
use job_dock.Store.Tables.{update}
use job_dock.Store.Builds.{BuildDb, ok, build, has_build_id, assigns, insert_build_event}
use job_dock.Store.Builds.Answers.{transaction-keeps, >>=-ok}
use job_dock.Store.Builds.Lifecycle.{
  create_build, new_build, update_build_status, change_build_status, delete_build, has_status,
  moved,
}
use job_dock.Store.Builds.Marks.{marks-snoc, marks-kept, marks-keep, keep-IsKeyedBy}
use job_dock.Store.Builds.Agreement.{
  builds-stay, Agrees, BuildsShift, AssignmentsShift, shift-Agrees, stays, turns_off,
  assignments-stay, update-IsKeyedBy, everywhere, id_of, build_id_of, assignment_id_of,
  is_under_way, is_live,
}

snoc-Shift :
    (b : Build) (rows : List Build)
    → any (has_build_id b.id) rows ≡ false
    → is_under_way b ≡ false
    → BuildsShift stays rows (rows ++ b ∷ [])
snoc-Shift b rows new idle = record {
  keyed = λ k. IsKeyedBy-snoc id_of rows b new k;
  marked = λ i. marks-snoc id_of is_under_way i rows b ∙ ground (arith, idle);
}

pub create_build-Agrees :
    (b : Build) (db : BuildDb) → b.status ≡ build_created → Agrees db → Agrees (create_build b db).0
unfolding create_build insert_build_event
create_build-Agrees b db fresh a = transaction-keeps Agrees db _ a (λ db' answer e.
    let new : any (has_build_id b.id) db.builds ≡ false = ground (arith, e) in
    let rows : db.builds ++ new_build b ∷ [] ≡ db'.builds = ground (arith, e) in
    let same : db.build_assignments ≡ db'.build_assignments = ground (arith, e) in
    shift-Agrees stays db db' a
      (subst (λ (bs : List Build). BuildsShift stays db.builds bs) rows
        (snoc-Shift (new_build b) db.builds new (ground (arith, fresh))))
      (assignments-stay db.build_assignments db'.build_assignments same))

-- A change between two statuses that are not BUILDING.
moved-Shift :
    (now id : Text) (from status : BuildStatus) (digest message : Text) (rows : List Build)
    → (from is_build build_building) ≡ false
    → (status is_build build_building) ≡ false
    → BuildsShift stays rows (update (has_status id from) (moved now status digest message) rows)
moved-Shift now id from status digest message rows idle still = record {
  keyed =
      update-IsKeyedBy id_of (has_status id from) (moved now status digest message) rows
        (λ _. refl);
  marked = λ i.
      marks-kept id_of is_under_way (has_status id from) (moved now status digest message) i rows (
        everywhere
          (λ b.
            has_status id from b ≡ true
            → (id_of (moved now status digest message b) ≡ id_of b)
              × (is_under_way (moved now status digest message b) ≡ is_under_way b))
          rows (λ b hit. (refl, ground (arith, hit, idle, still))));
}

change_build_status-Agrees :
    (now id : Text) (status : BuildStatus) (digest message : Text) (db : BuildDb) (current : Build)
    (db' : BuildDb) (after : Build)
    → (current.status is_build build_building) ≡ false
    → (status is_build build_building) ≡ false
    → Agrees db
    → change_build_status now id status digest message db current ≡ ok (db', after)
    → Agrees db'
unfolding change_build_status insert_build_event
change_build_status-Agrees now id status digest message db current db' after idle still a e =
    let rows : update (has_status id current.status) (moved now status digest message) db.builds
        ≡ db'.builds =
      ground (arith, e) in
    let same : db.build_assignments ≡ db'.build_assignments = ground (arith, e) in
    shift-Agrees stays db db' a
      (subst (λ (bs : List Build). BuildsShift stays db.builds bs) rows
        (moved-Shift now id current.status status digest message db.builds idle still))
      (assignments-stay db.build_assignments db'.build_assignments same)

change_build_status-permitted :
    (now id : Text) (status : BuildStatus) (digest message : Text) (db : BuildDb) (current : Build)
    (db' : BuildDb) (after : Build)
    → change_build_status now id status digest message db current ≡ ok (db', after)
    → can_build_transition current.status status ≡ true
unfolding change_build_status
change_build_status-permitted now id status digest message db current db' after e =
    ground (arith, e)

pub update_build_status-Agrees :
    (now id : Text) (status : BuildStatus) (digest message : Text) (db : BuildDb)
    → (status is_build build_building) ≡ false
    → ((current : Build)
        → build id db ≡ ok current
        → can_build_transition current.status status ≡ true
        → (current.status is_build build_building) ≡ false)
    → Agrees db
    → Agrees (update_build_status now id status digest message db).0
unfolding update_build_status
update_build_status-Agrees now id status digest message db still idle a =
    transaction-keeps Agrees db _ a (λ db' after e.
      let (current, there, rest) = >>=-ok (build id db) _ e in
      elim (Bool-cases (current.status is_build status)) [
        | inl same ↦
            let builds : db.builds ≡ db'.builds = ground (arith, rest, same) in
            let assignments : db.build_assignments ≡ db'.build_assignments =
              ground (arith, rest, same) in
            shift-Agrees stays db db' a (builds-stay db.builds db'.builds builds)
              (assignments-stay db.build_assignments db'.build_assignments assignments)
        | inr other ↦
            let change : change_build_status now id status digest message db current
                ≡ ok (db', after) =
              rw other at rest in
            change_build_status-Agrees now id status digest message db current db' after
              (idle current there (
                change_build_status-permitted now id status digest message db current db' after
                  change))
              still a change
      ])

pub delete_build-Agrees : (id : Text) (db : BuildDb) → Agrees db → Agrees (delete_build id db).0
unfolding delete_build
delete_build-Agrees id db a = transaction-keeps Agrees db _ a (λ db' answer e.
    let rows : keep (λ row. not (has_build_id id row)) db.builds ≡ db'.builds = ground (arith, e) in
    let left : keep (λ row. not (assigns id row)) db.build_assignments ≡ db'.build_assignments =
      ground (arith, e) in
    shift-Agrees (turns_off id) db db' a
      (subst (λ (bs : List Build). BuildsShift (turns_off id) db.builds bs) rows
        (record {
          keyed = keep-IsKeyedBy id_of (λ row. not (has_build_id id row)) db.builds;
          marked = λ i. marks-keep id_of is_under_way i id db.builds;
        }))
      (subst
        (λ (ts : List BuildAssignment). AssignmentsShift (turns_off id) db.build_assignments ts)
        left
        (record {
          named =
              keep-IsKeyedBy assignment_id_of (λ row. not (assigns id row)) db.build_assignments;
          one = keep-IsKeyedBy build_id_of (λ row. not (assigns id row)) db.build_assignments;
          marked = λ i. marks-keep build_id_of is_live i id db.build_assignments;
        })))
