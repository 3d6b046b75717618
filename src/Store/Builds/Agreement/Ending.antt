-- ===== src/Store/Builds/Agreement/Ending.antt =====
-- internal/store/build_assignments.go: cancellations and completions.
use job_dock.Store.Builds.Endings.{complete_build_assignment-Completed, Completed}
use job_dock.Base.{
  any-found, All-here, ap, ◌&&◌, sym, All-map, ◌==◌, find_if, Option-cases, any-Memᴰ, unique_by_key,
  IsKeyedBy, find_if_found, Memᴰ, ◌≡◌, refl, ◌∙◌, subst, true, false, List, Text, arith, Bool-cases,
  inl, inr,
}
use job_dock.Domain.Builds.{
  BuildStatus, BuildAssignmentStatus, Build, BuildAssignment, BuildStatus-discrete, ◌is_build◌,
  build_building, build_cancelled,
}
use job_dock.Store.Tables.{update}
use job_dock.Store.Builds.{
  BuildError, err, Answer, has_build_id, not_found, has_assignment_id, scan_build, build_assignment,
  build_row, BuildDb, ok, build, insert_build_event,
}
use job_dock.Store.Builds.Answers.{transaction-err, found-ok, transaction-keeps, >>=-ok}
use job_dock.Store.Builds.Lifecycle.{has_status}
use job_dock.Store.Builds.Completion.{
  completed_row, heeded, ended_as, complete_build_assignment, closed, is_terminal, Completion,
  request_build_cancellation, cancel_build, cancelled_build, may_be_cancelled, asked_to_cancel,
}
use job_dock.Store.Builds.Marks.{marks-kept, marks, marks-off}
use job_dock.Store.Builds.Agreement.{
  marks-kept, marks, Agrees, BuildsShift, AssignmentsShift, shift-Agrees, stays, turns_off,
  builds-stay, assignments-stay, update-IsKeyedBy, everywhere, id_of, build_id_of, assignment_id_of,
  is_under_way, is_live,
}

-- The UPDATE of a build that is BUILDING to a status that is not.
pub ended-Shift :
    (id : Text) (set : Build → Build) (rows : List Build)
    → ((b : Build) → (set b).id ≡ b.id)
    → ((b : Build) → is_under_way (set b) ≡ false)
    → BuildsShift (turns_off id) rows (update (has_status id build_building) set rows)
ended-Shift id set rows ids off = record {
  keyed = update-IsKeyedBy id_of (has_status id build_building) set rows ids;
  marked = λ i. marks-off id_of is_under_way (has_status id build_building) set id i rows (
      everywhere
        (λ b.
          (has_status id build_building b ≡ true
            → (id_of b ≡ id) × (id_of (set b) ≡ id) × (is_under_way (set b) ≡ false))
          × (has_status id build_building b ≡ false → id_of b ≡ id → is_under_way b ≡ false))
        rows
        (λ b. (
          (λ hit. let same : b.id ≡ id = ground (arith, hit) in (same, ids b ∙ same, off b)),
          (λ miss same. ground (arith, miss, same)),
        )));
}

cancelled-Shift :
    (now id : Text) (rows : List BuildAssignment)
    → AssignmentsShift (turns_off id) rows (update (may_be_cancelled id) (asked_to_cancel now) rows)
cancelled-Shift now id rows = record {
  named =
      update-IsKeyedBy assignment_id_of (may_be_cancelled id) (asked_to_cancel now) rows
        (λ _. refl);
  one = update-IsKeyedBy build_id_of (may_be_cancelled id) (asked_to_cancel now) rows (λ _. refl);
  marked = λ i.
      marks-off build_id_of is_live (may_be_cancelled id) (asked_to_cancel now) id i rows (
        everywhere
          (λ r.
            (may_be_cancelled id r ≡ true
              → (build_id_of r ≡ id)
                × (build_id_of (asked_to_cancel now r) ≡ id)
                × (is_live (asked_to_cancel now r) ≡ false))
            × (may_be_cancelled id r ≡ false → build_id_of r ≡ id → is_live r ≡ false))
          rows
          (λ r. (
            (λ hit. (ground (arith, hit), ground (arith, hit), ground arith)),
            (λ miss same. ground (arith, miss, same)),
          )));
}

cancel_build-Agrees :
    (now id : Text) (db : BuildDb) (row : Build) (db' : BuildDb) (after : Build)
    → Agrees db
    → cancel_build now id db row ≡ ok (db', after)
    → Agrees db'
unfolding cancel_build insert_build_event BuildStatus-discrete
cancel_build-Agrees now id db row db' after a e =
    let builds : update (has_status id build_building) (cancelled_build now) db.builds
        ≡ db'.builds =
      ground (arith, e) in
    let assignments : update (may_be_cancelled id) (asked_to_cancel now) db.build_assignments
        ≡ db'.build_assignments =
      ground (arith, e) in
    shift-Agrees (turns_off id) db db' a
      (subst (λ (bs : List Build). BuildsShift (turns_off id) db.builds bs) builds
        (ended-Shift id (cancelled_build now) db.builds (λ _. refl) (λ _. refl)))
      (subst
        (λ (ts : List BuildAssignment). AssignmentsShift (turns_off id) db.build_assignments ts)
        assignments (cancelled-Shift now id db.build_assignments))

pub request_build_cancellation-Agrees :
    (now id : Text) (db : BuildDb) → Agrees db → Agrees (request_build_cancellation now id db).0
unfolding request_build_cancellation
request_build_cancellation-Agrees now id db a = transaction-keeps Agrees db _ a (λ db' after e.
    let (row, _, rest) = >>=-ok (build id db) _ e in
    elim (Bool-cases (row.status is_build build_cancelled)) [
      | inl same ↦
          let builds : db.builds ≡ db'.builds = ground (arith, rest, same) in
          let assignments : db.build_assignments ≡ db'.build_assignments =
            ground (arith, rest, same) in
          shift-Agrees stays db db' a (builds-stay db.builds db'.builds builds)
            (assignments-stay db.build_assignments db'.build_assignments assignments)
      | inr other ↦ cancel_build-Agrees now id db row db' after a (rw other at rest)
    ])

-- The assignment that was read, and the build that was read for it, in the tables.
pub build-found :
    (id : Text) (db : BuildDb) (row : Build)
    → build id db ≡ ok row
    → (b : Build) × Memᴰ b db.builds × (b.id ≡ id) × (row.id ≡ b.id) × (row.status ≡ b.status)
unfolding build build_row scan_build
build-found id db row e = elim (Option-cases (find_if (has_build_id id) db.builds)) [
  | inl none_there ↦ ground (arith, e, none_there)
  | inr (b, there) ↦
      let (m, hit) = find_if_found (has_build_id id) db.builds there in
      (b, m, ground (arith, hit), ground (arith, e, there), ground (arith, e, there))
]

assignment-found :
    (id : Text) (db : BuildDb) (a : BuildAssignment)
    → build_assignment id db ≡ ok a
    → Memᴰ a db.build_assignments × (a.id ≡ id)
unfolding build_assignment
assignment-found id db a e =
    let (m, hit) =
      find_if_found (has_assignment_id id) db.build_assignments (found-ok _ not_found e) in
    (m, ground (arith, hit))

closed-idle :
    (now : Text) (s : BuildAssignmentStatus) (r : BuildAssignment)
    → is_terminal s ≡ true
    → is_live (closed now s r) ≡ false
closed-idle now s r h = ground (arith, h)

-- Closing the assignment `a`, the only one of its build.
module _ (now id : Text) (s : BuildAssignmentStatus) (db : BuildDb) (agrees : Agrees db)
    (a : BuildAssignment) (m : Memᴰ a db.build_assignments) (is : a.id ≡ id)
    (ends : is_terminal s ≡ true) where
  by_name :
      (r : BuildAssignment) → Memᴰ r db.build_assignments → has_assignment_id id r ≡ true → r ≡ a
  by_name r k hit =
      unique_by_key assignment_id_of db.build_assignments r a agrees.named k m
        (ground (arith, hit, is))

  by_build : (r : BuildAssignment) → Memᴰ r db.build_assignments → r.build_id ≡ a.build_id → r ≡ a
  by_build r k same = unique_by_key build_id_of db.build_assignments r a agrees.one k m same

  names_kept :
      IsKeyedBy assignment_id_of (update (has_assignment_id id) (closed now s) db.build_assignments)
      × IsKeyedBy build_id_of (update (has_assignment_id id) (closed now s) db.build_assignments)
  names_kept = (
    update-IsKeyedBy assignment_id_of (has_assignment_id id) (closed now s) db.build_assignments
        (λ _. refl) agrees.named,
    update-IsKeyedBy build_id_of (has_assignment_id id) (closed now s) db.build_assignments
        (λ _. refl) agrees.one,
  )

  closed-off :
      AssignmentsShift
        (turns_off a.build_id)
        db.build_assignments
        (update (has_assignment_id id) (closed now s) db.build_assignments)
  closed-off = record {
    named = λ _. names_kept.0;
    one = λ _. names_kept.1;
    marked = λ i.
        marks-off build_id_of is_live (has_assignment_id id) (closed now s) a.build_id i
          db.build_assignments
          (All-map (λ r. Memᴰ r db.build_assignments)
            (λ r.
              (has_assignment_id id r ≡ true
                → (build_id_of r ≡ a.build_id)
                  × (build_id_of (closed now s r) ≡ a.build_id)
                  × (is_live (closed now s r) ≡ false))
              × (has_assignment_id id r ≡ false → build_id_of r ≡ a.build_id → is_live r ≡ false))
            db.build_assignments
            (λ r k. (
              (λ hit.
                  let same = ap build_id_of (by_name r k hit) in
                  (same, same, closed-idle now s r ends)),
              (λ miss same.
                  let named = ap assignment_id_of (by_build r k same) ∙ is in
                  ground (arith, miss, named)),
            ))
            (All-here db.build_assignments));
  }

  closed-stays :
      is_live a ≡ false
      → AssignmentsShift stays db.build_assignments
          (update (has_assignment_id id) (closed now s) db.build_assignments)
  closed-stays idle = record {
    named = λ _. names_kept.0;
    one = λ _. names_kept.1;
    marked = λ i.
        marks-kept build_id_of is_live (has_assignment_id id) (closed now s) i db.build_assignments
          (All-map (λ r. Memᴰ r db.build_assignments)
            (λ r.
              has_assignment_id id r ≡ true
              → (build_id_of (closed now s r) ≡ build_id_of r)
                × (is_live (closed now s r) ≡ is_live r))
            db.build_assignments
            (λ r k hit.
              (refl, closed-idle now s r ends ∙ sym (ap is_live (by_name r k hit) ∙ idle)))
            (All-here db.build_assignments));
  }

-- A build that is not under way has no live assignment.
idle_assignment :
    (db : BuildDb) (b : Build) (a : BuildAssignment)
    → Agrees db
    → Memᴰ b db.builds
    → Memᴰ a db.build_assignments
    → b.id ≡ a.build_id
    → is_under_way b ≡ false
    → is_live a ≡ false
idle_assignment db b a agrees mb ma same idle = elim (Bool-cases (is_live a)) [
  | inr off ↦ off
  | inl live ↦
      let marked : marks build_id_of is_live a.build_id db.build_assignments ≡ true =
        any-Memᴰ (λ r. build_id_of r == a.build_id && is_live r) db.build_assignments ma
          (ground (arith, live)) in
      let (c, mc, hit) =
        any-found (λ r. id_of r == a.build_id && is_under_way r) db.builds
          (agrees.agree a.build_id ∙ marked) in
      let same_row : c ≡ b =
        unique_by_key id_of db.builds c b agrees.built mc mb (ground (arith, hit, same)) in
      let busy : is_under_way b ≡ true =
        subst (λ (x : Build). is_under_way x ≡ true) same_row (ground (arith, hit)) in
      absurd (cc (busy, idle))
]

ended_as-idle : (s : BuildAssignmentStatus) → (ended_as s is_build build_building) ≡ false
ended_as-idle s = ground arith

module _ (now id builder : Text) (reported : Completion) (db db' : BuildDb) (agrees : Agrees db)
    (e : Completed now id builder reported db db') where
  heard : Completion
  heard = heeded e.assignment e.row reported

  -- The build ends with its assignment.
  ends_build-Agrees :
      Memᴰ e.assignment db.build_assignments × (e.assignment.id ≡ id)
      → e.row.id ≡ e.assignment.build_id
      → (e.row.status is_build build_building) ≡ true
      → Agrees db'
  unfolding heard
  ends_build-Agrees (m, is) same under_way =
      let rows : update (has_status e.row.id build_building) (completed_row now heard) db.builds
          ≡ db'.builds =
        sym (e.builds ∙ rw under_way refl) in
      shift-Agrees (turns_off e.assignment.build_id) db db' agrees
        (subst (λ (bs : List Build). BuildsShift (turns_off e.assignment.build_id) db.builds bs)
          rows
          (subst
            (λ (t : Text).
              BuildsShift (turns_off t) db.builds
                (update (has_status e.row.id build_building) (completed_row now heard) db.builds))
            same
            (ended-Shift e.row.id (completed_row now heard) db.builds (λ _. refl)
              (λ _. ended_as-idle heard.status))))
        (subst
          (λ (ts : List BuildAssignment).
            AssignmentsShift (turns_off e.assignment.build_id) db.build_assignments ts)
          (sym e.assignments) (closed-off now id heard.status db agrees e.assignment m is e.ended))

  -- The build has ended before.
  ends_late-Agrees :
      Memᴰ e.assignment db.build_assignments × (e.assignment.id ≡ id)
      → is_live e.assignment ≡ false
      → (e.row.status is_build build_building) ≡ false
      → Agrees db'
  unfolding heard
  ends_late-Agrees (m, is) idle ended =
      shift-Agrees stays db db' agrees
        (builds-stay db.builds db'.builds (sym (e.builds ∙ rw ended refl)))
        (subst (λ (ts : List BuildAssignment). AssignmentsShift stays db.build_assignments ts)
          (sym e.assignments)
          (closed-stays now id heard.status db agrees e.assignment m is e.ended idle))

  ends-Agrees : Agrees db'
  ends-Agrees =
      let (b, mb, named, row_id, row_status) =
        build-found e.assignment.build_id db e.row e.of_build in
      let there = assignment-found id db e.assignment e.found in
      elim (Bool-cases (e.row.status is_build build_building)) [
        | inl under_way ↦ ends_build-Agrees there (row_id ∙ named) under_way
        | inr ended ↦
            ends_late-Agrees there
              (idle_assignment db b e.assignment agrees mb there.0 named
                (ap (λ (s : BuildStatus). s is_build build_building) (sym row_status) ∙ ended))
              ended
      ]

complete_build_assignment-failed :
    (now id builder : Text) (reported : Completion) (db db' : BuildDb) (x : BuildError)
    → complete_build_assignment now id builder reported db ≡ (db', err x)
    → db' ≡ db
unfolding complete_build_assignment
complete_build_assignment-failed now id builder reported db db' x e = transaction-err db db' _ x e

pub complete_build_assignment-Agrees :
    (now id builder : Text) (reported : Completion) (db : BuildDb)
    → Agrees db
    → Agrees (complete_build_assignment now id builder reported db).0
complete_build_assignment-Agrees now id builder reported db a =
    kept (complete_build_assignment now id builder reported db) refl
  where
    kept :
        (r : BuildDb × Answer Build)
        → complete_build_assignment now id builder reported db ≡ r
        → Agrees (complete_build_assignment now id builder reported db).0
    kept (db', ok after) e =
        subst (λ (r : BuildDb × Answer Build). Agrees r.0) (sym e)
          (ends-Agrees now id builder reported db db' a
            (complete_build_assignment-Completed now id builder reported db db' after e))
    kept (db', err x) e =
        subst (λ (r : BuildDb × Answer Build). Agrees r.0) (sym e)
          (subst Agrees (sym (complete_build_assignment-failed now id builder reported db db' x e))
            a)
