-- ===== src/Store/Builds/Agreement/Queueing.antt =====
-- internal/store/build_assignments.go: queueing a build, and leases.
use job_dock.Base.{
  ◌≡◌, refl, ◌∙◌, subst, Bool, true, false, List, [], ◌∷◌, ◌++◌, Text, any, arith, ◌==◌,
  IsKeyedBy-snoc, Bool-cases, inl, inr, Option-cases, find_if, count_if, eqb,
}
use job_dock.Domain.Builds.{
  Build, BuildAssignment, BuildWork, BuildStatus, BuildStatus-discrete,
  BuildAssignmentStatus-discrete,
}
use job_dock.Store.Tables.{update}
use job_dock.Store.Builds.{BuildDb, ok, build, assigns, insert_build_event, found, not_found}
use job_dock.Store.Builds.Answers.{transaction-keeps, >>=-ok}
use job_dock.Store.Builds.Lifecycle.{has_status}
use job_dock.Store.Builds.Queue.{
  queue_build, queue_row, queue_new, queue_mode, building_row, new_build_assignment, clashes_with,
  next_build_work, next_taken, is_still, leased, leased_db, renew_build_assignment, renewed,
  holds_lease,
}
use job_dock.Store.Builds.Permitted.{take_work-ok}
use job_dock.Store.Builds.Marks.{marks-snoc, marks-kept, marks-on}
use job_dock.Store.Builds.Agreement.{
  Agrees, BuildsShift, AssignmentsShift, shift-Agrees, stays, turns_on, builds-stay,
  assignments-stay, update-IsKeyedBy, everywhere, id_of, build_id_of, assignment_id_of,
  is_under_way, is_live,
}

-- A count of one is a count of some.
any_of_count :
    {A : Type 0} (test : A → Bool) (rows : List A)
    → eqb (count_if test rows) 1 ≡ true
    → any test rows ≡ true
any_of_count test [] h = ground (arith, h)
any_of_count test (x ∷ rows) h = elim (Bool-cases (test x)) [
  | inl hit ↦ ground (arith, hit)
  | inr miss ↦ ground (arith, any_of_count test rows (rw miss at h))
]

building_row-under_way : (now : Text) (b : Build) → is_under_way (building_row now b) ≡ true
unfolding BuildStatus-discrete
building_row-under_way now b = refl

new_build_assignment-live :
    (id build_id now : Text) → is_live (new_build_assignment id build_id now) ≡ true
unfolding BuildAssignmentStatus-discrete
new_build_assignment-live id build_id now = refl

-- A test that only clashing rows pass is passed by none.
no_clash :
    (id assignment : Text) (test : BuildAssignment → Bool) (rows : List BuildAssignment)
    → ((r : BuildAssignment) → clashes_with assignment id r ≡ false → test r ≡ false)
    → any (clashes_with assignment id) rows ≡ false
    → any test rows ≡ false
no_clash id assignment test [] h new = refl
no_clash id assignment test (r ∷ rows) h new =
    let here = h r (ground (arith, new)) in
    let rest = no_clash id assignment test rows h (ground (arith, new)) in
    ground (arith, here, rest)

queued-Shift :
    (now id : Text) (from : BuildStatus) (rows : List Build)
    → any (has_status id from) rows ≡ true
    → BuildsShift (turns_on id) rows (update (has_status id from) (building_row now) rows)
queued-Shift now id from rows some_row = record {
  keyed = update-IsKeyedBy id_of (has_status id from) (building_row now) rows (λ _. refl);
  marked = λ i.
      marks-on id_of is_under_way (has_status id from) (building_row now) id i rows
        (λ b hit. (ground (arith, hit), ground (arith, hit), building_row-under_way now b))
      ∙ ground (arith, some_row);
}

new-Shift :
    (now id assignment : Text) (rows : List BuildAssignment)
    → any (clashes_with assignment id) rows ≡ false
    → AssignmentsShift (turns_on id) rows (rows ++ new_build_assignment assignment id now ∷ [])
new-Shift now id assignment rows new = record {
  named = λ k.
      IsKeyedBy-snoc assignment_id_of rows (new_build_assignment assignment id now)
        (no_clash id assignment (λ r. r.id == assignment) rows (λ r h. ground (arith, h)) new) k;
  one = λ k.
      IsKeyedBy-snoc build_id_of rows (new_build_assignment assignment id now)
        (no_clash id assignment (λ r. r.build_id == id) rows (λ r h. ground (arith, h)) new) k;
  marked = λ i.
      marks-snoc build_id_of is_live i rows (new_build_assignment assignment id now)
      ∙ ground (arith, new_build_assignment-live assignment id now);
}

queue_new-Agrees :
    (now id assignment : Text) (db : BuildDb) (row : Build) (db' : BuildDb) (work : BuildWork)
    → Agrees db
    → queue_new now id assignment db row ≡ ok (db', work)
    → Agrees db'
unfolding queue_new insert_build_event
queue_new-Agrees now id assignment db row db' work a e =
    let ((plan, rows), _, rest) = >>=-ok (queue_mode now row db) _ e in
    let counted : eqb (count_if (has_status id row.status) db.builds) 1 ≡ true =
      ground (arith, rest) in
    let new : any (clashes_with assignment id) db.build_assignments ≡ false =
      ground (arith, rest) in
    let builds : update (has_status id row.status) (building_row now) db.builds ≡ db'.builds =
      ground (arith, rest) in
    let assignments : db.build_assignments ++ new_build_assignment assignment id now ∷ []
        ≡ db'.build_assignments =
      ground (arith, rest) in
    shift-Agrees (turns_on id) db db' a
      (subst (λ (bs : List Build). BuildsShift (turns_on id) db.builds bs) builds
        (queued-Shift now id row.status db.builds
          (any_of_count (has_status id row.status) db.builds counted)))
      (subst (λ (ts : List BuildAssignment). AssignmentsShift (turns_on id) db.build_assignments ts)
        assignments (new-Shift now id assignment db.build_assignments new))

queue_row-Agrees :
    (now id assignment : Text) (db : BuildDb) (row : Build) (db' : BuildDb) (work : BuildWork)
    → Agrees db
    → queue_row now id assignment db row ≡ ok (db', work)
    → Agrees db'
unfolding queue_row
queue_row-Agrees now id assignment db row db' work a e =
    elim (Option-cases (find_if (assigns id) db.build_assignments)) [
      | inr (existing, there) ↦
          let builds : db.builds ≡ db'.builds = ground (arith, e, there) in
          let assignments : db.build_assignments ≡ db'.build_assignments =
            ground (arith, e, there) in
          shift-Agrees stays db db' a (builds-stay db.builds db'.builds builds)
            (assignments-stay db.build_assignments db'.build_assignments assignments)
      | inl none_yet ↦
          queue_new-Agrees now id assignment db row db' work a (rw (queue_row, none_yet) at e)
    ]

pub queue_build-Agrees :
    (now id assignment : Text) (db : BuildDb)
    → Agrees db
    → Agrees (queue_build now id assignment db).0
unfolding queue_build
queue_build-Agrees now id assignment db a = transaction-keeps Agrees db _ a (λ db' work e.
    let (row, _, rest) = >>=-ok (build id db) _ e in
    queue_row-Agrees now id assignment db row db' work a rest)

-- An UPDATE of assignments that leaves their names and marks alone.
same-Shift :
    (test : BuildAssignment → Bool) (set : BuildAssignment → BuildAssignment)
    (rows : List BuildAssignment)
    → ((r : BuildAssignment) → (set r).id ≡ r.id)
    → ((r : BuildAssignment) → (set r).build_id ≡ r.build_id)
    → ((r : BuildAssignment) → test r ≡ true → is_live (set r) ≡ is_live r)
    → AssignmentsShift stays rows (update test set rows)
same-Shift test set rows ids builds live = record {
  named = update-IsKeyedBy assignment_id_of test set rows ids;
  one = update-IsKeyedBy build_id_of test set rows builds;
  marked = λ i. marks-kept build_id_of is_live test set i rows (
      everywhere
        (λ r. test r ≡ true → (build_id_of (set r) ≡ build_id_of r) × (is_live (set r) ≡ is_live r))
        rows (λ r hit. (builds r, live r hit)));
}

leased-live :
    (now expiry builder : Text) (taken r : BuildAssignment)
    → is_still now builder taken r ≡ true
    → is_live (leased now expiry builder r) ≡ is_live r
unfolding BuildAssignmentStatus-discrete
leased-live now expiry builder taken r h = ground (arith, h)

take_work-Agrees :
    (now expiry builder : Text) (taken : BuildAssignment) (db : BuildDb)
    → Agrees db
    → Agrees (leased_db now expiry builder taken db)
take_work-Agrees now expiry builder taken db a =
    shift-Agrees stays db (leased_db now expiry builder taken db) a
      (builds-stay db.builds db.builds refl)
      (same-Shift (is_still now builder taken) (leased now expiry builder) db.build_assignments
        (λ _. refl) (λ _. refl) (leased-live now expiry builder taken))

pub next_build_work-Agrees :
    (now expiry builder : Text) (db : BuildDb)
    → Agrees db
    → Agrees (next_build_work now expiry builder db).0
unfolding next_build_work
next_build_work-Agrees now expiry builder db a = transaction-keeps Agrees db _ a (λ db' work e.
    let (taken, _, rest) =
      >>=-ok (found (next_taken now builder db.build_assignments) not_found) _ e in
    subst Agrees (take_work-ok now expiry builder db taken db' work rest).0
      (take_work-Agrees now expiry builder taken db a))

pub renew_build_assignment-Agrees :
    (now expiry id builder : Text) (db : BuildDb)
    → Agrees db
    → Agrees (renew_build_assignment now expiry id builder db).0
unfolding renew_build_assignment
renew_build_assignment-Agrees now expiry id builder db a =
    shift-Agrees stays db (renew_build_assignment now expiry id builder db).0 a
      (builds-stay db.builds db.builds refl)
      (same-Shift (holds_lease id builder) (renewed now expiry) db.build_assignments (λ _. refl)
        (λ _. refl) (λ _ _. refl))
