-- ===== src/Store/Machine/Rows.antt =====
-- What holds of every job of a database: an active job has its attempt, on the node that it is
-- assigned to, and a queued job has none.
use job_dock.Base.{
  ◌∙◌, subst, ap, ◌≢◌, is_empty, inr, inl, Bool-cases, refl, [], ◌++◌, All, arith, Text, ◌∷◌, ◌&&◌,
  true, false, Memᴰ, ◌≡◌, ◌==◌, Option, any, List, Bool,
}
use job_dock.Domain.Status.{JobStatus-discrete, JobStatus, is_active, queued, can_transition}
use job_dock.Domain.Status.Lifecycle.{can_transition_resources}
use job_dock.Domain.Types.{Job}
use job_dock.Store.Tables.{Attempt, update}
use job_dock.Store.Jobs.{Report, unchanged, reported_job}

abbrev pub owns : Job → Attempt → Bool
owns j a = a.id == j.attempt_id && a.job_id == j.id && a.node_id == j.assigned_node_id

pub record Owned (attempts : List Attempt) (j : Job) : Type 0 where
  pub active : is_active j.status ≡ true → any (owns j) attempts ≡ true
  pub waiting : j.status ≡ queued → j.attempt_id ≡ []

-- An UPDATE of attempts that keeps names, jobs and nodes.
pub owns-update :
    (test : Attempt → Bool) (set : Attempt → Attempt) (xs : List Attempt) (j : Job)
    → ((a : Attempt)
        → ((set a).id ≡ a.id) × ((set a).job_id ≡ a.job_id) × ((set a).node_id ≡ a.node_id))
    → any (owns j) (update test set xs) ≡ any (owns j) xs
owns-update test set [] j keeps = refl
owns-update test set (x ∷ xs) j keeps =
    let (i, o, n) = keeps x in ground (arith, i, o, n, owns-update test set xs j keeps)

pub owns-append :
    (xs ys : List Attempt) (j : Job) → any (owns j) xs ≡ true → any (owns j) (xs ++ ys) ≡ true
owns-append [] ys j h = cc h
owns-append (x ∷ xs) ys j h = ground (arith, h, owns-append xs ys j)

pub owns-last :
    (xs : List Attempt) (a : Attempt) (j : Job)
    → owns j a ≡ true
    → any (owns j) (xs ++ a ∷ []) ≡ true
owns-last [] a j h = ground (arith, h)
owns-last (x ∷ xs) a j h = ground (arith, owns-last xs a j h)

pub Owned-attempts :
    (xs ys : List Attempt) (j : Job)
    → (any (owns j) xs ≡ true → any (owns j) ys ≡ true)
    → Owned xs j
    → Owned ys j
Owned-attempts xs ys j more o = record { active = λ a. more (o.active a); waiting = o.waiting }

-- An UPDATE of rows, by what is known of each.
pub All-update :
    {A : Type 0} (P Q : A → Type 0) (test : A → Bool) (set : A → A) (xs : List A)
    → ((x : A) → Memᴰ x xs → test x ≡ true → P x → Q (set x))
    → ((x : A) → P x → Q x)
    → All P xs
    → All Q (update test set xs)
All-update P Q test set [] hit miss h = tt
All-update P Q test set (x ∷ xs) hit miss h = (
  elim (Bool-cases (test x)) [
    | inl yes_it_is ↦ rw yes_it_is (hit x (Memᴰ.head refl) yes_it_is h.0)
    | inr not_it ↦ rw not_it (miss x h.0)
  ],
  All-update P Q test set xs (λ y m. hit y (Memᴰ.tail m)) miss h.1,
)

-- A row that is set to a status in which it has no attempt to own.
pub Owned-idle :
    (xs : List Attempt) (j : Job)
    → is_active j.status ≡ false
    → (j.status ≡ queued → j.attempt_id ≡ [])
    → Owned xs j
Owned-idle xs j idle w = record { active = λ a. cc (idle, a); waiting = w }

to_queued : (s t : JobStatus) → can_transition s t ≡ true → t ≡ queued → s ≡ queued
unfolding can_transition JobStatus-discrete
to_queued s t legal e = ground arith

-- A report moves a row that owns its attempt to one that owns it.
pub Owned-reported :
    (xs : List Attempt) (r : Report) (started finished : Option Text) (read j : Job)
    → can_transition read.status r.status ≡ true
    → unchanged read j ≡ true
    → Owned xs j
    → Owned xs (reported_job r started finished j)
Owned-reported xs r started finished read j legal hit o =
    let same : j.status ≡ read.status = ground (arith, hit) in
    let not_empty : is_empty j.attempt_id ≡ false = ground (arith, hit) in
    let not_queued : j.status ≢ queued = λ e. cc (not_empty, ap is_empty (o.waiting e)) in
    record {
      active = λ a. elim (Bool-cases (is_active j.status)) [
        | inl act ↦ o.active act
        | inr idle ↦
            let (from_queued, _) =
              (can_transition_resources read.status r.status legal).0
                (subst (λ s. is_active s ≡ false) same idle) a in
            absurd (not_queued (same ∙ from_queued))
      ];
      waiting = λ e. absurd (not_queued (same ∙ to_queued read.status r.status legal e));
    }
