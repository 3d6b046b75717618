-- ===== src/Store/Stale/Swept.antt =====
-- internal/store/store.go: MarkStaleNodes with no other request between its statements.
use job_dock.Base.{
  All-here, All-keep, any-Memᴰ, Memᴰ-kept, any-found, Memᴰ, subst, inr, inl, ◌≡◌, refl, ap, sym,
  ◌∙◌, Bool, true, false, not, ◌&&◌, ◌||◌, some, List, [], ◌∷◌, Text, ◌==◌, ℕ, ◌+◌, any, find_if,
  arith, Bool-cases, map, All, keep,
}
use job_dock.Domain.Status.{offline}
use job_dock.Domain.Types.{Job}
use job_dock.Store.Tables.{Db, NodeRow, Outcome, done, update}
use job_dock.Store.Jobs.{job}
use job_dock.Store.Requests.{has_id}
use job_dock.Store.Stale.{
  set_offline, is_up, is_silent, lose_jobs, lose_job, may_be_lost, lost_row, is_on_silent,
  mark_stale_nodes, and_then,
}
use job_dock.Store.Stale.Losing.{lose_one-done, alone}

there-job :
    (id : Text) (jobs : List Job)
    → any (has_id id) jobs ≡ true
    → (j : Job) × (find_if (λ (i : Job). i.id == id) jobs ≡ some j)
unfolding find_if
there-job id [] there = absurd (ground (arith, there))
there-job id (x ∷ jobs) there = elim (Bool-cases (x.id == id)) [
  | inl hit ↦ (x, rw hit refl)
  | inr miss ↦ let (j, e) = there-job id jobs (ground (arith, there, miss)) in (j, rw miss e)
]

there_job_db :
    (id : Text) (db : Db) → any (has_id id) db.jobs ≡ true → (j : Job) × (job db id ≡ some j)
unfolding job
there_job_db id db there = there-job id db.jobs there

has_id-lost :
    (other id : Text) (jobs : List Job)
    → any (has_id other) (update (λ (j : Job). j.id == id && may_be_lost j.status) lost_row jobs)
      ≡ any (has_id other) jobs
has_id-lost other id [] = refl
has_id-lost other id (j ∷ jobs) = elim (Bool-cases (j.id == id && may_be_lost j.status)) [
  | inl hit ↦ rw hit (ap (λ b. j.id == other || b) (has_id-lost other id jobs))
  | inr miss ↦ rw miss (ap (λ b. j.id == other || b) (has_id-lost other id jobs))
]

-- A job that must be lost and is not in the list.
abbrev is_left : Text → List NodeRow → List Text → Job → Bool
is_left before nodes ids j = is_on_silent before nodes j && not (any (λ id. j.id == id) ids)

left-none :
    (before : Text) (nodes : List NodeRow) (jobs : List Job)
    → any (is_left before nodes []) jobs ≡ false
    → any (is_on_silent before nodes) jobs ≡ false
left-none before nodes [] h = refl
left-none before nodes (j ∷ jobs) h = ground (arith, h, left-none before nodes jobs)

left-lost :
    (before : Text) (nodes : List NodeRow) (id : Text) (ids : List Text) (jobs : List Job)
    → any (is_left before nodes (id ∷ ids)) jobs ≡ false
    → any
        (is_left before nodes ids)
        (update (λ (j : Job). j.id == id && may_be_lost j.status) lost_row jobs)
      ≡ false
left-lost before nodes id ids [] h = refl
left-lost before nodes id ids (j ∷ jobs) h =
    elim (Bool-cases (j.id == id && may_be_lost j.status)) [
      | inl hit ↦ rw hit (left-lost before nodes id ids jobs (ground (arith, h)))
      | inr miss ↦ rw miss (ground (arith, miss, h, left-lost before nodes id ids jobs))
    ]

-- Every one of the names is of a job.
abbrev AreThere : List Text → List Job → Type 0
AreThere ids jobs = All (λ id. any (has_id id) jobs ≡ true) ids

still-AreThere :
    (id : Text) (ids : List Text) (jobs : List Job)
    → AreThere ids jobs
    → AreThere ids (update (λ (j : Job). j.id == id && may_be_lost j.status) lost_row jobs)
still-AreThere id [] jobs h = tt
still-AreThere id (other ∷ ids) jobs h =
    (has_id-lost other id jobs ∙ h.0, still-AreThere id ids jobs h.1)

-- The loop over the rest of the names.
lose_jobs_swept :
    (before now : Text) (nodes : List NodeRow) (n : ℕ) (ids : List Text) (db : Db)
    → AreThere ids db.jobs
    → any (is_left before nodes ids) db.jobs ≡ false
    → (db.nodes ≡ nodes)
    → ((lose_jobs alone now n ids db).1 ≡ done)
      × (any (is_on_silent before nodes) (lose_jobs alone now n ids db).0.jobs ≡ false)
      × ((lose_jobs alone now n ids db).0.nodes ≡ nodes)
unfolding lose_jobs
lose_jobs_swept before now nodes n [] db there left same =
    (refl, left-none before nodes db.jobs left, same)
lose_jobs_swept before now nodes n (id ∷ ids) db there left same =
    let (j, e) = there_job_db id (lose_job id db) (has_id-lost id id db.jobs ∙ there.0) in
    subst
      (λ (r : Db × Outcome).
        ((and_then (λ d. lose_jobs alone now (n + 3) ids d) r).1 ≡ done)
        × (any (is_on_silent before nodes)
              (and_then (λ d. lose_jobs alone now (n + 3) ids d) r).0.jobs
            ≡ false)
        × ((and_then (λ d. lose_jobs alone now (n + 3) ids d) r).0.nodes ≡ nodes))
      (sym (lose_one-done id now n db j e))
      (lose_jobs_swept before now nodes (n + 3) ids _ (still-AreThere id ids db.jobs there.1)
        (left-lost before nodes id ids db.jobs left) same)

all-AreThere :
    (found jobs : List Job)
    → All (λ (j : Job). Memᴰ j jobs) found
    → AreThere (map (λ (j : Job). j.id) found) jobs
all-AreThere [] jobs h = tt
all-AreThere (j ∷ found) jobs h =
    (any-Memᴰ (has_id j.id) jobs h.0 (ground arith), all-AreThere found jobs h.1)

named :
    (j : Job) (found : List Job)
    → Memᴰ j found
    → any (λ id. j.id == id) (map (λ (i : Job). i.id) found) ≡ true
named j [] m = elim m [ ]
named j (x ∷ found) (Memᴰ.head e) = let here = ap (λ (i : Job). i.id) e in ground (arith, here)
named j (x ∷ found) (Memᴰ.tail m) = ground (arith, named j found m)

none_left :
    (before : Text) (nodes : List NodeRow) (jobs : List Job)
    → any
        (is_left before nodes (map (λ (j : Job). j.id) (keep (is_on_silent before nodes) jobs)))
        jobs
      ≡ false
none_left before nodes jobs =
    elim (Bool-cases (
      any (is_left before nodes (map (λ (j : Job). j.id) (keep (is_on_silent before nodes) jobs)))
        jobs)) [
          | inl hit ↦
              let (j, m, e) =
                any-found
                  (is_left before nodes
                    (map (λ (j : Job). j.id) (keep (is_on_silent before nodes) jobs)))
                  jobs hit in
              let due : is_on_silent before nodes j ≡ true = ground (arith, e) in
              let there =
                named j (keep (is_on_silent before nodes) jobs)
                  (Memᴰ-kept (is_on_silent before nodes) jobs m due) in
              absurd (ground (arith, e, there))
          | inr miss ↦ miss
        ]

set_offline_down :
    (before : Text) (nodes : List NodeRow)
    → any
        (λ n. is_silent before n && is_up n.status)
        (update
          (λ (n : NodeRow). is_silent before n && is_up n.status)
          (λ n. record n { status = offline })
          nodes)
      ≡ false
set_offline_down before [] = refl
set_offline_down before (n ∷ nodes) = elim (Bool-cases (is_silent before n && is_up n.status)) [
  | inl hit ↦ rw hit (ground (arith, set_offline_down before nodes))
  | inr miss ↦ rw miss (ground (arith, miss, set_offline_down before nodes))
]

-- If no other request commits between its statements, MarkStaleNodes succeeds; afterwards no node that is
-- not deleted and silent since before the first bound is ONLINE or DEGRADED, and no job that is ASSIGNED,
-- PULLING_IMAGE, STARTING, RUNNING or STOPPING is on a node that is not deleted and silent since before
-- the second.
pub mark_stale_nodes_swept :
    (offline_before lost_before now : Text) (db : Db)
    → ((mark_stale_nodes alone offline_before lost_before now db).1 ≡ done)
      × (any
            (λ n. is_silent offline_before n && is_up n.status)
            (mark_stale_nodes alone offline_before lost_before now db).0.nodes
          ≡ false)
      × (any
            (is_on_silent lost_before
              (mark_stale_nodes alone offline_before lost_before now db).0.nodes)
            (mark_stale_nodes alone offline_before lost_before now db).0.jobs
          ≡ false)
unfolding mark_stale_nodes
mark_stale_nodes_swept offline_before lost_before now db =
    let read = set_offline offline_before db in
    let found = keep (is_on_silent lost_before read.nodes) read.jobs in
    let (ends, swept, same) =
      lose_jobs_swept lost_before now read.nodes 1 (map (λ (j : Job). j.id) found) read
        (all-AreThere found read.jobs (
          All-keep (λ (j : Job). Memᴰ j read.jobs) (is_on_silent lost_before read.nodes) read.jobs
            (All-here read.jobs)))
        (none_left lost_before read.nodes read.jobs) refl in
    (
      ends,
      subst
          (λ (ns : List NodeRow).
            any (λ n. is_silent offline_before n && is_up n.status) ns ≡ false)
          (sym same) (set_offline_down offline_before db.nodes),
      subst
          (λ (ns : List NodeRow).
            any (is_on_silent lost_before ns)
              (lose_jobs alone now 1 (map (λ (j : Job). j.id) found) read).0.jobs
            ≡ false)
          (sym same) swept,
    )
