-- ===== src/Scheduler/Pass/Steady.antt =====
-- The state between two jobs of a pass: what the pass relies on, and the parts that a reservation
-- keeps.
use job_dock.Base.{
  refl, All-Memᴰ, inl, inr, subst, arith, sym, All-here, ◌≢◌, ap, All-map, some, Text-discrete, All,
  ◌∙◌, List, Text, ◌≡◌, Memᴰ,
}
use job_dock.Domain.Types.{Job, Node}
use job_dock.Domain.Status.{assigned, queued}
use job_dock.Store.Tables.{Db, Assignment}
use job_dock.Store.Jobs.{new_assignment, assigned_job, Reservation, job}
use job_dock.Store.Reserving.{Reserved}
use job_dock.Store.Lookup.{IsKeyed}
use job_dock.Capacity.{snapshot}
use job_dock.Capacity.Nodes.{IsKeyedNodes}
use job_dock.Scheduler.Placement.{IsSizedSpec}
use job_dock.Scheduler.Pass.{List, Text}
use job_dock.Scheduler.Pass.Room.{Fits}
use job_dock.Scheduler.Pass.Exclusive.{Memᴰ-snoc, IsExclusive}

-- A job that waits has no assignment: it was not run before.
abbrev pub FirstRuns : Db → Type 0
FirstRuns db =
    (a : Assignment)
    → Memᴰ a db.assignments
    → (j : Job) → job db a.job_id ≡ some j
    → j.status ≢ queued

-- The state between two jobs of a pass. `kept` is the snapshot in memory.
pub record Steady (nodes : List Node) (db : Db) (kept : List Node) : Type 0 where
  pub keyed_nodes : IsKeyedNodes nodes
  pub keyed : IsKeyed db.jobs
  pub fresh : kept ≡ snapshot nodes db
  pub fits : All Fits kept
  pub first_runs : FirstRuns db
  pub exclusive : IsExclusive db

-- The job is in the database as it was read, or with another status.
abbrev pub Known : Db → Job → Type 0
Known db j = IsSizedSpec j.spec × ((k : Job) → job db j.id ≡ some k → k.spec ≡ j.spec)

-- Jobs keep what they ask for.
abbrev pub KeepsSpecs : Db → Db → Type 0
KeepsSpecs db db' =
    (id : Text) (k : Job)
    → job db' id ≡ some k
    → (k' : Job) × (job db id ≡ some k') × (k.spec ≡ k'.spec)

Known-after : (db db' : Db) (j : Job) → KeepsSpecs db db' → Known db j → Known db' j
Known-after db db' j keeps (sized, known) =
    (sized, (λ k e. let (k', e', s) = keeps j.id k e in s ∙ known k' e'))

pub Known-All :
    (db db' : Db) (js : List Job) → KeepsSpecs db db' → All (Known db) js → All (Known db') js
Known-All db db' js keeps h = All-map (Known db) (Known db') js (λ j. Known-after db db' j keeps) h

given_is :
    (r : Reservation) (now : Text) (db db' : Db) (id : Text) (k : Job) (res : Reserved r now db db')
    → id ≡ r.job_id
    → job db' id ≡ some k
    → k ≡ assigned_job r res.waiting
given_is r now db db' id k res same e =
    let both : some k ≡ some (assigned_job r res.waiting) = sym e ∙ ap (job db') same ∙ res.given in
    ground (arith, both)

pub Reserved-KeepsSpecs :
    (r : Reservation) (now : Text) (db db' : Db) → Reserved r now db db' → KeepsSpecs db db'
Reserved-KeepsSpecs r now db db' res id k e = elim (Text-discrete id r.job_id) [
  | yes same ↦ (
    res.waiting,
    ap (job db) same ∙ res.found,
    ap (λ (x : Job). x.spec) (given_is r now db db' id k res same e),
  )
  | no other ↦ (k, sym (res.others id other) ∙ e, refl)
]

pub FirstRuns-none :
    (r : Reservation) (db : Db) (j : Job)
    → FirstRuns db
    → job db r.job_id ≡ some j
    → j.status ≡ queued
    → All (λ (a : Assignment). a.job_id ≢ r.job_id) db.assignments
FirstRuns-none r db j first found is_queued =
    All-map (λ (a : Assignment). Memᴰ a db.assignments) (λ (a : Assignment). a.job_id ≢ r.job_id)
      db.assignments (λ a m same. first a m j (ap (job db) same ∙ found) is_queued)
      (All-here db.assignments)

pub Reserved-FirstRuns :
    (r : Reservation) (now : Text) (db db' : Db)
    → Reserved r now db db'
    → FirstRuns db
    → FirstRuns db'
Reserved-FirstRuns r now db db' res first a m j e is_queued =
    elim (Memᴰ-snoc db.assignments (new_assignment r now) (subst (Memᴰ a) res.assignment m)) [
      | inr new ↦
          let is : j ≡ assigned_job r res.waiting =
            given_is r now db db' a.job_id j res (ap (λ (x : Assignment). x.job_id) new) e in
          let bad : assigned ≡ queued = ap (λ (x : Job). x.status) (sym is) ∙ is_queued in cc bad
      | inl old ↦
          let other =
            All-Memᴰ (λ (x : Assignment). x.job_id ≢ r.job_id) db.assignments
              (FirstRuns-none r db res.waiting first res.found res.was_queued) old in
          first a old j (sym (res.others a.job_id other) ∙ e) is_queued
    ]
