-- ===== src/Store/Builds/Agreement/Stale.antt =====
-- internal/httpapi/builds.go: the cancelling handler with a build that was read before it was queued.
use job_dock.Base.{
  ◌≡◌, refl, sym, ap, ◌∙◌, true, false, Text, List, arith, [], any-Memᴰ, ◌==◌, ◌&&◌,
}
use job_dock.Domain.Builds.{
  Build, BuildStatus-discrete, ◌is_build◌, build_building, build_cancelled,
}
use job_dock.Store.Tables.{update}
use job_dock.Store.Builds.{BuildDb, ok, build, insert_build_event}
use job_dock.Store.Builds.Answers.{transaction-ok}
use job_dock.Store.Builds.Lifecycle.{update_build_status, change_build_status, has_status, moved}
use job_dock.Store.Builds.Marks.{marks}
use job_dock.Store.Builds.Agreement.{Agrees, id_of, build_id_of, is_under_way, is_live}
use job_dock.Store.Builds.Agreement.Ending.{ended-Shift, build-found}

change_build_status-tables :
    (now id : Text) (digest message : Text) (db : BuildDb) (current : Build) (db' : BuildDb)
    (after : Build)
    → (current.status ≡ build_building)
    → change_build_status now id build_cancelled digest message db current ≡ ok (db', after)
    → (update (has_status id build_building) (moved now build_cancelled digest message) db.builds
        ≡ db'.builds)
      × (db.build_assignments ≡ db'.build_assignments)
unfolding change_build_status insert_build_event
change_build_status-tables now id digest message db current db' after same e =
    (ground (arith, e, same), ground (arith, e))

cancelled_now :
    (now id : Text) (digest message : Text) (db : BuildDb) (current : Build) (db' : BuildDb)
    (after : Build)
    → build id db ≡ ok current
    → current.status ≡ build_building
    → update_build_status now id build_cancelled digest message db ≡ (db', ok after)
    → change_build_status now id build_cancelled digest message db current ≡ ok (db', after)
unfolding update_build_status BuildStatus-discrete
cancelled_now now id digest message db current db' after read same e =
    let m = transaction-ok db db' _ after e in
    let other : (current.status is_build build_cancelled) ≡ false = rw same refl in
    rw (read, other) at m

-- Where a build is BUILDING and agrees with its assignment, setting it CANCELLED by UpdateBuildStatus,
-- as the handler does that read it before it was queued, leaves the build not BUILDING and its
-- assignment still open and not asked to be cancelled.
pub update_build_status-stale :
    (now id message : Text) (db : BuildDb) (current : Build) (db' : BuildDb) (after : Build)
    → Agrees db
    → build id db ≡ ok current
    → current.status ≡ build_building
    → update_build_status now id build_cancelled [] message db ≡ (db', ok after)
    → (marks id_of is_under_way id db'.builds ≡ false)
      × (marks build_id_of is_live id db'.build_assignments ≡ true)
unfolding BuildStatus-discrete
update_build_status-stale now id message db current db' after a read busy e =
    let (builds, assignments) =
      change_build_status-tables now id [] message db current db' after busy
        (cancelled_now now id [] message db current db' after read busy e) in
    let (b, m, named, _, status) = build-found id db current read in
    let off =
      (ended-Shift id (moved now build_cancelled [] message) db.builds (λ _. refl)
          (λ _. refl)).marked
        id in
    let on : marks id_of is_under_way id db.builds ≡ true =
      any-Memᴰ (λ r. id_of r == id && is_under_way r) db.builds m
        (ground (arith, named, status, busy)) in
    (
      ap (λ (bs : List Build). marks id_of is_under_way id bs) (sym builds) ∙ off ∙ ground arith,
      ap (λ ts. marks build_id_of is_live id ts) (sym assignments) ∙ sym (a.agree id) ∙ on,
    )
