-- ===== src/Lib.antt =====
-- JobDock: a control plane that queues container jobs, places them on Docker hosts, and keeps the
-- state of jobs, attempts, nodes and source builds in SQLite.
--
-- The parts and how they interact. A user's job is a row of the table of jobs, queued. Once a
-- second the scheduler (internal/scheduler/scheduler.go) reads the queued jobs and a snapshot of
-- the nodes (internal/capacity/capacity.go), chooses a node, a processor package and GPUs for each
-- job, and reserves them in the store (internal/store/store.go), which adds an attempt and an
-- assignment. Agents report how their containers fare, and users stop, rerun and delete jobs, by
-- other methods of the store, which move the status of a job along the table of permitted changes
-- (internal/domain/types.go). What users send is checked by internal/domain/validate.go. A source
-- build is a row too: it is analysed, queued as an assignment, leased to a builder, and ends with an
-- image that jobs of its owner may run, and that is kept while they do. The agent masks secrets in the
-- output of containers and samples the GPUs (internal/agent).
--
-- The files and the code.
--   Base: shared lists, texts, sorting, keys, decimal numbers, and Go's int64.
--   Domain/Status: JobStatus, NodeStatus, IsActive and CanTransition of internal/domain/types.go;
--     Domain/Status/Lifecycle has runs of permitted changes.
--   Domain/Types: the records Job, JobSpec, Node, GPU, CPUPackage of internal/domain/types.go.
--   Domain/ManagedArtifact: internal/domain/managed_artifact.go; Reading is about it.
--   Go: strings.TrimSpace, path.Clean and path.Base on bytes, as the checks use them.
--   Domain/Builds: the records of builds and CanBuildTransition of internal/domain/types.go.
--   Domain/Validation, with Specs: internal/domain/validate.go, one constructor for each message of
--     an error. Paths, Filenames, Accepted and Proper are about it, and Scheduler/Admission joins it
--     to the scheduler.
--   Scheduler/Match, Gpus, Select, Waiting: selectNode and its helpers. The loop's flags are the
--     record `Seen`, one guard of the loop is one test of `examine`, and the `switch` on the
--     reason to wait is `reason`. Placement, Examine, Offers, Order, Found,
--     Flags, Devices, Shortages and Reasons are about it, and Admission joins it to the validation.
--   Scheduler/Pass: Schedule and reserveInSnapshot. Its children Snapshot, Room, Exclusive, Delays,
--     Steady, Steps and Safety are about a whole pass.
--   Capacity: Snapshot and Account of internal/capacity/capacity.go, with ListJobs and
--     AllocatedGPUUUIDs of internal/store/store.go.
--   Store/Tables: the rows that the lifecycle touches (internal/store/migrations/001_initial.sql
--     and the later columns) and the SQL statements as operations on lists.
--   Store/Pairs: a table's rows before and after an UPDATE, one by one.
--   Store/Jobs, Reports, Requests: CreateJob, ReserveJobWithAffinity, UpdateJobStatus,
--     AcceptAssignment, SetQueueReason, RerunJob, RequestStop, MarkDeleting and MarkDeleted of
--     internal/store/store.go. Lookup, Inserts, Evolution, Agreement, Races and Reserving are about them,
--     and Store/Machine is the step relation of the operations, with its invariant.
--   Store/Builds: the tables of builds, their plans, assignments and artifacts. Its children Lifecycle
--     (internal/store/builds.go), Queue and Completion (build_assignments.go) and Artifacts
--     (managed_artifacts.go) have the methods, and Machine is their step relation with the cancelling
--     handler of internal/httpapi/builds.go. Answers, Moves, Steps, Permitted, Leases, Retention,
--     Endings, Marks and Agreement are about them.
--   Store/Nodes, with Revoked: credentials, statuses and deletion of nodes, of internal/store/store.go.
--   Store/Stale, with Losing and Swept: AppendServerEvent and MarkStaleNodes of internal/store/store.go.
--   Store/Idempotency: the idempotency keys of internal/store/store.go, and beginIdempotency, abort and
--     write of internal/httpapi/api.go. Replays is about them.
--   Agent/Redactor, with Stream and Masked: internal/agent/redactor.go.
--   Agent/GpuWindow, with Recent: internal/agent/gpu_window.go.
--   Tests: runs on small inputs.
--
-- How things are written. A Go string is the list of its bytes. An int or int64 is its bit pattern,
-- a number below 2 ^ 64, and sums wrap; SQLite's version and sequence columns do not wrap here,
-- since no run comes near 2 ^ 63. A time is the text that the store keeps. UPDATE and INSERT act
-- on lists of rows and check the primary and unique keys and the references that matter here. A
-- method that runs in one transaction is a function from the database to the database and an
-- outcome, and changes nothing when it fails; those of builds are do blocks of steps that may fail.
-- ConfirmBuildPlan, RenewBuildAssignment and ManagedArtifactForAssignment run in no transaction and
-- keep what they have written; no other request is put between their statements.
-- A method that reads and writes in several transactions has a parameter `others`: `others n` is what other
-- requests commit before its n-th
-- write. UpdateJobStatus tries three times, as the code does, and ends after three lost swaps with a
-- conflict. sort.Slice is an insertion sort; the orders that it is used with tell elements
-- apart, except for rows created at one instant.
--
-- Parameters: json.Valid; identifiers, tokens, their hash and the encryption of a token; the clock; the rows
-- that ListNodes returns.
--
-- Not modelled: errors of the database driver, the JSON and time codecs (a row comes back as it was
-- written), the fields that only describe a host, the ticker around Schedule; and so far
-- telemetry, the rest of the HTTP API, most of the agent, the builder and the command line.
mod Base
mod Go
pub mod Domain
pub mod Scheduler
pub mod Store
pub mod Capacity
pub mod Agent
mod Tests
