-- ===== src/Domain/Status.antt =====
-- internal/domain/types.go: the statuses of jobs and nodes, and which changes of a job's status
-- `CanTransition` lets through. A missing key of a Go map of Booleans reads as false.
pub mod Lifecycle
use job_dock.Base.{Bool, true, false, holds, if◌then◌else◌}

pub data JobStatus : Type 0 where
  queued assigned pulling_image starting running stopping : JobStatus
  cancelled succeeded failed lost deleting deleted : JobStatus

unfoldable pub JobStatus-discrete : Discrete JobStatus
JobStatus-discrete = hlevel

pub data NodeStatus : Type 0 where
  online draining offline degraded : NodeStatus

unfoldable pub NodeStatus-discrete : Discrete NodeStatus
NodeStatus-discrete = hlevel

unfoldable pub is_active : JobStatus → Bool
is_active assigned = true
is_active pulling_image = true
is_active starting = true
is_active running = true
is_active stopping = true
is_active lost = true
is_active _ = false

-- The table `allowed`: a row for each status that has an entry.
allowed : JobStatus → JobStatus → Bool
allowed queued assigned = true
allowed queued cancelled = true
allowed queued deleting = true
allowed assigned pulling_image = true
allowed assigned starting = true
allowed assigned running = true
allowed assigned stopping = true
allowed assigned failed = true
allowed assigned lost = true
allowed pulling_image starting = true
allowed pulling_image stopping = true
allowed pulling_image failed = true
allowed pulling_image lost = true
allowed starting running = true
allowed starting stopping = true
allowed starting failed = true
allowed starting lost = true
allowed running stopping = true
allowed running succeeded = true
allowed running failed = true
allowed running lost = true
allowed stopping cancelled = true
allowed stopping failed = true
allowed stopping lost = true
allowed lost running = true
allowed lost stopping = true
allowed lost succeeded = true
allowed lost failed = true
allowed lost cancelled = true
allowed cancelled deleting = true
allowed succeeded deleting = true
allowed failed deleting = true
allowed deleting deleted = true
allowed _ _ = false

unfoldable pub can_transition : JobStatus → JobStatus → Bool
unfolding allowed
can_transition from to = if holds (JobStatus-discrete from to) then true else allowed from to
