-- ===== src/Domain/Status/Lifecycle.antt =====
-- What `CanTransition` lets a job do over any number of changes.
use job_dock.Base.{ℕ, ◌<◌, ◌≡◌, refl, ◌⊎◌, inl, true, false, arith}
use job_dock.Domain.Status.{
  JobStatus, queued, assigned, cancelled, succeeded, failed, deleting, deleted, JobStatus-discrete,
  is_active, can_transition,
}

-- A run of changes, oldest first.
infix 40 ◌⟶*◌
pub data ◌⟶*◌ : JobStatus → JobStatus → Type 0 where
  stay : {s : JobStatus} → s ⟶* s
  move : {s t u : JobStatus} → can_transition s t ≡ true → t ⟶* u → s ⟶* u

-- A job holds a node's resources exactly while its status is active. Among permitted changes
-- these are taken in one place, by the assignment of a queued job, and are released in one kind
-- of place, when an active job is cancelled, succeeds or fails.
pub can_transition_resources :
    (from to : JobStatus)
    → can_transition from to ≡ true
    → (is_active from ≡ false → is_active to ≡ true → (from ≡ queued) × (to ≡ assigned))
      × (is_active from ≡ true
          → is_active to ≡ false
          → (to ≡ cancelled) ⊎ (to ≡ succeeded) ⊎ (to ≡ failed))
unfolding can_transition is_active JobStatus-discrete
can_transition_resources from to h = ground arith

-- The shortest ways to the end: through a stop, a failure or a cancellation, and a deletion.
⟶*-deleted_of_deleting : deleting ⟶* deleted
unfolding can_transition JobStatus-discrete
⟶*-deleted_of_deleting = move {t = deleted} refl stay

⟶*-deleted_of_failed : failed ⟶* deleted
unfolding can_transition JobStatus-discrete
⟶*-deleted_of_failed = move {t = deleting} refl ⟶*-deleted_of_deleting

-- Whatever its status, a job can be brought to DELETED by permitted changes.
pub ⟶*-deleted : (s : JobStatus) → s ⟶* deleted
unfolding can_transition JobStatus-discrete
⟶*-deleted deleted = stay
⟶*-deleted deleting = ⟶*-deleted_of_deleting
⟶*-deleted failed = ⟶*-deleted_of_failed
⟶*-deleted queued = move {t = deleting} refl ⟶*-deleted_of_deleting
⟶*-deleted cancelled = move {t = deleting} refl ⟶*-deleted_of_deleting
⟶*-deleted succeeded = move {t = deleting} refl ⟶*-deleted_of_deleting
⟶*-deleted _ = move {t = failed} refl ⟶*-deleted_of_failed

-- How far a job has come. LOST stands with the active statuses, since it may be recovered.
abbrev pub phase : JobStatus → ℕ
phase queued = 0
phase cancelled = 2
phase succeeded = 2
phase failed = 2
phase deleting = 3
phase deleted = 4
phase _ = 1

phase-can_transition :
    (s t : JobStatus)
    → can_transition s t ≡ true
    → (s ≡ t) ⊎ (phase s < phase t) ⊎ ((phase s ≡ 1) × (phase t ≡ 1))
unfolding can_transition JobStatus-discrete
phase-can_transition s t h = ground arith

-- No run of permitted changes leads back: neither to the queue, nor from an end to activity, nor
-- from one end (cancelled, succeeded, failed) to another.
pub ⟶*-phase :
    {s t : JobStatus} → s ⟶* t → (s ≡ t) ⊎ (phase s < phase t) ⊎ ((phase s ≡ 1) × (phase t ≡ 1))
⟶*-phase stay = inl refl
⟶*-phase (move {s} {t} {u} h r) = ground (arith, phase-can_transition s t h, ⟶*-phase r)
