-- ===== src/Store/Builds/Leases.antt =====
-- internal/store/build_assignments.go: who gets an assignment, and when.
use job_dock.Base.{
  sym, keep-All, ◌≡◌, refl, subst, ◌⊎◌, inl, inr, true, false, List, Text, All-here, All-keep,
  All-sort, All-Memᴰ, Memᴰ, keep, arith, find_if_found, some, sort,
}
use job_dock.Domain.Builds.{BuildAssignment, pending_assignment, running_assignment, BuildWork}
use job_dock.Store.Pairs.{Rows, update-Rows, update-Memᴰ}
use job_dock.Store.Tables.{update}
use job_dock.Store.Builds.{build, BuildDb, ok, not_found, found}
use job_dock.Store.Builds.Answers.{transaction-ok, >>=-ok, found-ok}
use job_dock.Store.Builds.Queue.{
  next_build_work, next_taken, is_takeable, is_still, leased, comes_first, has_expired,
}
use job_dock.Store.Builds.Permitted.{take_work-ok}

-- Another builder may take the assignment: it is pending, or its lease is over.
abbrev pub IsFree : Text → Text → BuildAssignment → Type 0
IsFree now builder a =
    (a.cancel_requested ≡ false)
    × ((a.status ≡ pending_assignment)
        ⊎ (a.status ≡ running_assignment)
          × ((a.builder_id ≡ builder) ⊎ (has_expired now a.lease_expires_at ≡ true)))

is_takeable-IsFree :
    (now builder : Text) (a : BuildAssignment)
    → is_takeable now builder a ≡ true
    → IsFree now builder a
is_takeable-IsFree now builder a h = ground (arith, h)

-- The row is leased to the builder, and otherwise as it was.
pub record IsLeased (now expiry builder : Text) (before after : BuildAssignment) : Type 0 where
  pub named : after.id ≡ before.id
  pub of_build : after.build_id ≡ before.build_id
  pub running : after.status ≡ running_assignment
  pub holder : after.builder_id ≡ builder
  pub until : after.lease_expires_at ≡ some expiry
  pub touched : after.updated_at ≡ now
  pub unasked : after.cancel_requested ≡ before.cancel_requested
  pub old : after.created_at ≡ before.created_at

leased-IsLeased :
    (now expiry builder : Text) (a : BuildAssignment)
    → IsLeased now expiry builder a (leased now expiry builder a)
leased-IsLeased now expiry builder a = record {
  named = refl;
  of_build = refl;
  running = refl;
  holder = refl;
  until = refl;
  touched = refl;
  unasked = refl;
  old = refl;
}

-- A row is as it was, or it has the name, was free and is leased to the builder.
abbrev pub Kept : Text → Text → Text → Text → BuildAssignment → BuildAssignment → Type 0
Kept id now expiry builder before after =
    (after ≡ before)
    ⊎ (before.id ≡ id) × IsFree now builder before × IsLeased now expiry builder before after

leased-Rows :
    (now expiry builder : Text) (taken : BuildAssignment) (rows : List BuildAssignment)
    → Rows
        (Kept taken.id now expiry builder)
        rows
        (update (is_still now builder taken) (leased now expiry builder) rows)
leased-Rows now expiry builder taken rows =
    update-Rows (Kept taken.id now expiry builder) (is_still now builder taken)
      (leased now expiry builder) rows
      (λ a hit. inr (
        ground (arith, hit),
        is_takeable-IsFree now builder a (ground (arith, hit)),
        leased-IsLeased now expiry builder a,
      ))
      (λ a miss. inl refl)

next_taken-found :
    (now builder : Text) (rows : List BuildAssignment) (a : BuildAssignment)
    → next_taken now builder rows ≡ some a
    → Memᴰ a rows × (is_takeable now builder a ≡ true)
next_taken-found now builder rows a e =
    let takeable = keep (is_takeable now builder) rows in
    let (m, _) = find_if_found (λ _. true) (sort (comes_first builder) takeable) e in
    let here =
      All-sort (comes_first builder) (λ x. Memᴰ x rows) takeable
        (All-keep (λ x. Memᴰ x rows) (is_takeable now builder) rows (All-here rows)) in
    let free =
      All-sort (comes_first builder) (λ x. is_takeable now builder x ≡ true) takeable
        (keep-All (is_takeable now builder) rows) in
    (
      All-Memᴰ (λ x. Memᴰ x rows) (sort (comes_first builder) takeable) here m,
      All-Memᴰ (λ x. is_takeable now builder x ≡ true) (sort (comes_first builder) takeable) free m,
    )

-- Where a builder gets work, it is an assignment of the table that no cancellation was asked for and
-- that was pending, or running for the builder itself or with a lease that is over. In the table that
-- is left it is running, leased to the builder until the new expiry, and so it is returned, with its
-- build; every row is as it was, or has its name, so qualified and is so leased.
pub next_build_work-Leases :
    (now expiry builder : Text) (db db' : BuildDb) (work : BuildWork)
    → next_build_work now expiry builder db ≡ (db', ok work)
    → (taken : BuildAssignment) × Memᴰ taken db.build_assignments
      × IsFree now builder taken
      × IsLeased now expiry builder taken work.assignment
      × Memᴰ work.assignment db'.build_assignments
      × (build work.assignment.build_id db' ≡ ok work.build)
      × Rows (Kept work.assignment.id now expiry builder) db.build_assignments db'.build_assignments
unfolding next_build_work
next_build_work-Leases now expiry builder db db' work e =
    let (taken, read, rest) =
      >>=-ok (found (next_taken now builder db.build_assignments) not_found) _
        (transaction-ok db db' _ work e) in
    let (m, free) =
      next_taken-found now builder db.build_assignments taken (found-ok _ not_found read) in
    let (left, given, built) = take_work-ok now expiry builder db taken db' work rest in
    (
      taken,
      m,
      is_takeable-IsFree now builder taken free,
      subst (IsLeased now expiry builder taken) (sym given)
          (leased-IsLeased now expiry builder taken),
      subst (λ (a : BuildAssignment). Memᴰ a db'.build_assignments) (sym given)
          (subst (λ (d : BuildDb). Memᴰ (leased now expiry builder taken) d.build_assignments) left
            (update-Memᴰ (is_still now builder taken) (leased now expiry builder)
              db.build_assignments m (ground (arith, free)))),
      subst (λ (a : BuildAssignment). build a.build_id db' ≡ ok work.build) (sym given) built,
      subst
          (λ (a : BuildAssignment).
            Rows (Kept a.id now expiry builder) db.build_assignments db'.build_assignments)
          (sym given)
          (subst
            (λ (d : BuildDb).
              Rows (Kept taken.id now expiry builder) db.build_assignments d.build_assignments)
            left (leased-Rows now expiry builder taken db.build_assignments)),
    )
