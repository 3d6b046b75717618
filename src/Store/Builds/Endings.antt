-- ===== src/Store/Builds/Endings.antt =====
-- internal/store/build_assignments.go, `CompleteBuildAssignment`: when it succeeds, and what it leaves.
use job_dock.Store.Pairs.{update-Rows, Rows}
use job_dock.Base.{
  ◌==◌, ◌≢◌, [], subst, none, List, ◌+◌, Option-cases, ◌≡◌, refl, sym, ap, ◌∙◌, ◌⊎◌, inl, inr, true,
  false, ◌||◌, Text, arith, Bool-cases, some, find_if, if◌then◌else◌,
}
use job_dock.Domain.Builds.{
  other_assignment, build_failed, build_succeeded, pending_assignment, failed_assignment,
  build_failed, build_succeeded, cancelled_assignment, BuildAssignmentStatus-discrete,
  build_cancelled, Build, BuildAssignment, BuildAssignmentStatus, ◌is_build◌, ManagedArtifact,
  running_assignment, succeeded_assignment, build_building,
}
use job_dock.Domain.Validation.Proper.{IsProper, validate_build-IsProper}
use job_dock.Store.Tables.{update}
use job_dock.Store.Builds.{
  BuildDb, ok, conflict, not_terminal, build, build_assignment, is_of_build, has_assignment_id,
  insert_build_event,
}
use job_dock.Store.Builds.Answers.{transaction-ok, >>=-ok, require-ok, read_back-ok}
use job_dock.Store.Builds.Lifecycle.{has_status}
use job_dock.Store.Builds.Completion.{
  complete_build_assignment, Completion, heeded, check_artifact, end_build, completed,
  completed_row, closed, is_terminal, may_complete,
}

-- The builds after the end of one, and its check.
end_build-ok :
    (now : Text) (c : Completion) (row : Build) (db db' : BuildDb)
    → end_build now c row db ≡ ok db'
    → (db'.builds ≡ (
        if row.status is_build build_building
        then update (has_status row.id build_building) (completed_row now c) db.builds
        else db.builds))
      × (db'.build_assignments ≡ db.build_assignments)
      × (row.status ≡ build_building → IsProper (completed c row))
unfolding end_build insert_build_event
end_build-ok now c row db db' e = elim (Bool-cases (row.status is_build build_building)) [
  | inr ended ↦
      (ground (arith, e, ended), ground (arith, e, ended), (λ same. ground (arith, ended, same)))
  | inl under_way ↦ (
    ground (arith, e, under_way),
    ground (arith, e, under_way),
    (λ same. validate_build-IsProper (completed c row) (ground (arith, e, under_way))),
  )
]

check_artifact-ok :
    (build_id : Text) (c : Completion) (db : BuildDb)
    → check_artifact build_id c db ≡ ok tt
    → c.status ≡ succeeded_assignment
    → (a : ManagedArtifact) × (find_if (is_of_build build_id) db.artifacts ≡ some a)
      × (a.digest ≡ c.digest)
unfolding check_artifact
check_artifact-ok build_id c db e success =
    elim (Option-cases (find_if (is_of_build build_id) db.artifacts)) [
      | inl missing ↦ ground (arith, e, success, missing)
      | inr (a, there) ↦ (a, there, ground (arith, e, success, there))
    ]

-- What a completion that is accepted was about, and the statements that it ran.
pub record Completed (now id builder : Text) (reported : Completion) (db db' : BuildDb)
    : Type 0 where
  pub assignment : BuildAssignment
  pub row : Build
  pub found : build_assignment id db ≡ ok assignment
  pub of_build : build assignment.build_id db ≡ ok row
  pub own : assignment.builder_id ≡ builder
  pub was : (assignment.status ≡ running_assignment) ⊎ (assignment.status ≡ reported.status)
  pub reported_end : is_terminal reported.status ≡ true
  pub ended : is_terminal (heeded assignment row reported).status ≡ true
  pub imaged :
      (heeded assignment row reported).status ≡ succeeded_assignment
      → (assignment.cancel_requested ≡ false)
        × ((a : ManagedArtifact) × (find_if (is_of_build row.id) db.artifacts ≡ some a)
            × (a.digest ≡ reported.digest))
  pub proper :
      row.status ≡ build_building → IsProper (completed (heeded assignment row reported) row)
  pub builds : db'.builds ≡ (
      if row.status is_build build_building
      then update
          (has_status row.id build_building)
          (completed_row now (heeded assignment row reported))
          db.builds
      else db.builds)
  pub assignments :
      db'.build_assignments
      ≡ update
          (has_assignment_id id)
          (closed now (heeded assignment row reported).status)
          db.build_assignments

-- What a status of the assignment makes of its build, with what was reported besides.
abbrev pub EndsWith : BuildAssignmentStatus → Text → Text → Build → Type 0
EndsWith succeeded_assignment digest message b =
    (b.status ≡ build_succeeded) × (b.oci_digest ≡ digest) × (b.failure_reason ≡ [])
EndsWith failed_assignment digest message b =
    (b.status ≡ build_failed) × (b.oci_digest ≡ []) × (b.failure_reason ≡ message)
EndsWith cancelled_assignment digest message b =
    (b.status ≡ build_cancelled) × (b.oci_digest ≡ []) × (b.failure_reason ≡ [])
EndsWith _ digest message b = ⊥

-- A cancellation that was asked for, or that the build shows, takes the place of the report.
abbrev pub Decides :
    BuildAssignment → Build → BuildAssignmentStatus → BuildAssignmentStatus → Type 0
Decides assignment row reported final =
    ((assignment.cancel_requested ≡ true) ⊎ (row.status ≡ build_cancelled))
      × (final ≡ cancelled_assignment)
    ⊎ (assignment.cancel_requested ≡ false) × (row.status ≢ build_cancelled) × (final ≡ reported)

-- The build with the name, if it was BUILDING, is ended now; any other is as it was.
pub data EndedRow (now id : Text) (final : BuildAssignmentStatus) (digest message : Text)
    (before after : Build) : Type 0 where
  is_ended :
      before.id ≡ id
      → before.status ≡ build_building
      → (after.id ≡ before.id) × (after.owner_id ≡ before.owner_id)
      → (after.finished_at ≡ some now) × (after.version ≡ before.version + 1)
      → EndsWith final digest message after
      → EndedRow now id final digest message before after
  is_kept :
      (before.id ≢ id) ⊎ (before.status ≢ build_building)
      → after ≡ before
      → EndedRow now id final digest message before after

-- The assignment with the name has the status and no lease; any other is as it was.
pub data ClosedRow (now id : Text) (final : BuildAssignmentStatus) (before after : BuildAssignment)
    : Type 0 where
  is_closed :
      before.id ≡ id
      → (after.id ≡ id)
        × (after.build_id ≡ before.build_id)
        × (after.builder_id ≡ before.builder_id)
      → after.status ≡ final
      → (after.lease_expires_at ≡ none) × (after.updated_at ≡ now)
      → ClosedRow now id final before after
  is_other : before.id ≢ id → after ≡ before → ClosedRow now id final before after

-- What a completion that is accepted was about, and what it left.
pub record Ends (now id builder : Text) (reported : Completion) (db db' : BuildDb) : Type 0 where
  pub assignment : BuildAssignment
  pub row : Build
  pub found : build_assignment id db ≡ ok assignment
  pub of_build : build assignment.build_id db ≡ ok row
  pub own : assignment.builder_id ≡ builder
  pub was : (assignment.status ≡ running_assignment) ⊎ (assignment.status ≡ reported.status)
  pub final : BuildAssignmentStatus
  pub decided : Decides assignment row reported.status final
  pub imaged :
      final ≡ succeeded_assignment
      → (a : ManagedArtifact) × (find_if (is_of_build row.id) db.artifacts ≡ some a)
        × (a.digest ≡ reported.digest)
  pub proper :
      row.status ≡ build_building → IsProper (completed (heeded assignment row reported) row)
  pub builds :
      (row.status ≡ build_building)
        × Rows (EndedRow now row.id final reported.digest reported.message) db.builds db'.builds
      ⊎ (row.status ≢ build_building) × (db'.builds ≡ db.builds)
  pub assignments : Rows (ClosedRow now id final) db.build_assignments db'.build_assignments

heeded-Decides :
    (assignment : BuildAssignment) (row : Build) (reported : Completion)
    → Decides assignment row reported.status (heeded assignment row reported).status
heeded-Decides assignment row reported =
    elim (Bool-cases (assignment.cancel_requested || (row.status is_build build_cancelled))) [
      | inl cancelled ↦ inl (ground (arith, cancelled), ground (arith, cancelled))
      | inr heard ↦
          inr (ground (arith, heard), (λ e. ground (arith, heard, e)), ground (arith, heard))
    ]

completed-EndsWith :
    (now : Text) (assignment : BuildAssignment) (row b : Build) (reported : Completion)
    → is_terminal reported.status ≡ true
    → EndsWith
        (heeded assignment row reported).status
        reported.digest
        reported.message
        (completed_row now (heeded assignment row reported) b)
unfolding BuildAssignmentStatus-discrete
completed-EndsWith now assignment row b reported terminal =
    elim (Bool-cases (assignment.cancel_requested || (row.status is_build build_cancelled))) [
      | inl cancelled ↦ rw cancelled (refl, refl, refl)
      | inr heard ↦
          rw heard (reported_ends reported.status reported.digest reported.message terminal)
    ]
  where
    reported_ends :
        (s : BuildAssignmentStatus) (d m : Text)
        → is_terminal s ≡ true
        → EndsWith s d m (completed_row now (record { status = s; digest = d; message = m }) b)
    reported_ends succeeded_assignment d m h = (refl, refl, refl)
    reported_ends failed_assignment d m h = (refl, refl, refl)
    reported_ends cancelled_assignment d m h = (refl, refl, refl)
    reported_ends pending_assignment d m h = cc h
    reported_ends running_assignment d m h = cc h
    reported_ends other_assignment d m h = cc h

heeded-succeeded :
    (assignment : BuildAssignment) (row : Build) (reported : Completion)
    → (heeded assignment row reported).status ≡ succeeded_assignment
    → (assignment.cancel_requested ≡ false) × (heeded assignment row reported ≡ reported)
heeded-succeeded assignment row reported h =
    elim (Bool-cases (assignment.cancel_requested || (row.status is_build build_cancelled))) [
      | inl cancelled ↦ ground (arith, h, cancelled)
      | inr heard ↦ (ground (arith, heard), rw heard refl)
    ]

closed-Rows :
    (now id : Text) (final : BuildAssignmentStatus) (rows : List BuildAssignment)
    → Rows (ClosedRow now id final) rows (update (has_assignment_id id) (closed now final) rows)
closed-Rows now id final rows =
    update-Rows (ClosedRow now id final) (has_assignment_id id) (closed now final) rows
      (λ a hit. is_closed (ground (arith, hit)) (ground (arith, hit), refl, refl) refl (refl, refl))
      (λ a miss. is_other (λ e. ground (arith, miss, e)) refl)

ended-Rows :
    (now : Text) (assignment : BuildAssignment) (row : Build) (reported : Completion)
    → is_terminal reported.status ≡ true
    → (rows : List Build)
    → Rows
        (EndedRow now row.id
          (heeded assignment row reported).status
          reported.digest
          reported.message)
        rows
        (update
          (has_status row.id build_building)
          (completed_row now (heeded assignment row reported))
          rows)
ended-Rows now assignment row reported terminal rows =
    update-Rows
      (EndedRow now row.id (heeded assignment row reported).status reported.digest reported.message)
      (has_status row.id build_building) (completed_row now (heeded assignment row reported)) rows
      (λ a hit.
        is_ended (ground (arith, hit)) (ground (arith, hit)) (refl, refl) (refl, refl)
          (completed-EndsWith now assignment row a reported terminal))
      (λ a miss. is_kept (kept a miss) refl)
  where
    kept :
        (a : Build)
        → has_status row.id build_building a ≡ false
        → (a.id ≢ row.id) ⊎ (a.status ≢ build_building)
    kept a miss = elim (Bool-cases (a.id == row.id)) [
      | inr other ↦ inl (λ e. ground (arith, other, e))
      | inl named ↦ inr (λ e. ground (arith, miss, named, e))
    ]

-- The builds that are left.
built :
    (now : Text) (assignment : BuildAssignment) (row : Build) (reported : Completion)
    (rows rows' : List Build)
    → is_terminal reported.status ≡ true
    → rows' ≡ (
        if row.status is_build build_building
        then update
            (has_status row.id build_building)
            (completed_row now (heeded assignment row reported))
            rows
        else rows)
    → (row.status ≡ build_building)
        × Rows
            (EndedRow now row.id
              (heeded assignment row reported).status
              reported.digest
              reported.message)
            rows
            rows'
      ⊎ (row.status ≢ build_building) × (rows' ≡ rows)
built now assignment row reported rows rows' terminal e =
    elim (Bool-cases (row.status is_build build_building)) [
      | inl under_way ↦ inl (
        ground (arith, under_way),
        subst
            (Rows
              (EndedRow now row.id (heeded assignment row reported).status reported.digest
                reported.message)
              rows)
            (sym (rw under_way at e)) (ended-Rows now assignment row reported terminal rows),
      )
      | inr ended ↦ inr ((λ same. ground (arith, ended, same)), rw ended at e)
    ]

heeded-terminal :
    (assignment : BuildAssignment) (row : Build) (reported : Completion)
    → is_terminal reported.status ≡ true
    → is_terminal (heeded assignment row reported).status ≡ true
heeded-terminal assignment row reported h = ground (arith, h)

own-builder :
    (builder : Text) (s : BuildAssignmentStatus) (assignment : BuildAssignment)
    → may_complete builder s assignment ≡ true
    → (assignment.builder_id ≡ builder)
      × ((assignment.status ≡ running_assignment) ⊎ (assignment.status ≡ s))
own-builder builder s assignment h = ground (arith, h)

pub complete_build_assignment-Completed :
    (now id builder : Text) (reported : Completion) (db db' : BuildDb) (after : Build)
    → complete_build_assignment now id builder reported db ≡ (db', ok after)
    → Completed now id builder reported db db'
unfolding complete_build_assignment
complete_build_assignment-Completed now id builder reported db db' after e =
    let (terminal, e1) =
      require-ok (is_terminal reported.status) not_terminal _ (transaction-ok db db' _ after e) in
    let (assignment, there, e2) = >>=-ok (build_assignment id db) _ e1 in
    let (may, e3) = require-ok (may_complete builder reported.status assignment) conflict _ e2 in
    let (row, of_build, e4) = >>=-ok (build assignment.build_id db) _ e3 in
    let c = heeded assignment row reported in
    let (_, imaged, e5) = >>=-ok (check_artifact row.id c db) _ e4 in
    let (ended, close, e6) = >>=-ok (end_build now c row db) _ e5 in
    let d : BuildDb = record ended {
      build_assignments =
          update (has_assignment_id id) (closed now c.status) ended.build_assignments;
    } in
    let left = read_back-ok d (build row.id d) db' after e6 in
    let (builds, assignments, proper) = end_build-ok now c row db ended close in
    let (own, was) = own-builder builder reported.status assignment may in
    record {
      assignment = assignment;
      row = row;
      found = there;
      of_build = of_build;
      own = own;
      was = was;
      reported_end = terminal;
      ended = heeded-terminal assignment row reported terminal;
      imaged = λ success.
          let (uncancelled, same) = heeded-succeeded assignment row reported success in
          let (a, found_it, digest) = check_artifact-ok row.id c db imaged success in
          (uncancelled, (a, found_it, digest ∙ ap (λ (x : Completion). x.digest) same));
      proper = proper;
      builds = ap (λ (x : BuildDb). x.builds) (sym left) ∙ builds;
      assignments =
          ap (λ (x : BuildDb). x.build_assignments) (sym left)
          ∙ ap (update (has_assignment_id id) (closed now c.status)) assignments;
    }

-- A completion is accepted only from the builder of the assignment, while that is running or already
-- has the reported status. The status it ends with is CANCELLED if a cancellation was asked for or the
-- build is cancelled, and else the reported one, which is SUCCEEDED only if the build has an artifact
-- with the reported digest. A build that was BUILDING ends now: SUCCEEDED with the reported digest,
-- FAILED with the reported message, or CANCELLED with neither, and passes as proper; no other build
-- changes. The assignment gets the status and has no lease, and no other assignment changes.
pub complete_build_assignment-Ends :
    (now id builder : Text) (reported : Completion) (db db' : BuildDb) (after : Build)
    → complete_build_assignment now id builder reported db ≡ (db', ok after)
    → Ends now id builder reported db db'
complete_build_assignment-Ends now id builder reported db db' after e =
    let c = complete_build_assignment-Completed now id builder reported db db' after e in
    let final = (heeded c.assignment c.row reported).status in
    record {
      assignment = c.assignment;
      row = c.row;
      found = c.found;
      of_build = c.of_build;
      own = c.own;
      was = c.was;
      final = final;
      decided = heeded-Decides c.assignment c.row reported;
      imaged = λ success. (c.imaged success).1;
      proper = c.proper;
      builds = built now c.assignment c.row reported db.builds db'.builds c.reported_end c.builds;
      assignments =
          subst (Rows (ClosedRow now id final) db.build_assignments) (sym c.assignments)
            (closed-Rows now id final db.build_assignments);
    }
