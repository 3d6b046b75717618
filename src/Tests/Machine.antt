-- ===== src/Tests/Machine.antt =====
-- A job is created, reserved, accepted, reported to run, and stopped.
use job_dock.Domain.Status.{stopping, can_transition, JobStatus-discrete, running}
use job_dock.Store.Reports.{write_report, update_job_status}
use job_dock.Store.Requests.{stop_attempt, request_stop, create_job}
use job_dock.Store.Jobs.{job, reserve, Report}
use job_dock.Domain.Status.{JobStatus}
use job_dock.Domain.Types.{Job}
use job_dock.Base.{some, ◌≡◌, Option, Option, Text-discrete, find_if, refl, none, [], ◌∷◌, codes}
use job_dock.Store.Requests.{accept_assignment}
use job_dock.Store.Machine.{no_jobs}
use job_dock.Store.Tables.{insert_event, insert_assignment, insert_attempt, Db}
use job_dock.Tests.Samples.{waiting_job, node_row, noon}
use job_dock.Tests.Lifecycles.{reservation, alone}

abbrev started : Report
started = record { status = running; exit_code = none; image_digest = []; reason = [] }

abbrev created_db : Db
created_db = (create_job waiting_job (no_jobs (node_row ∷ []))).0

abbrev reserved_db : Db
reserved_db = (reserve reservation noon created_db).0

abbrev accepted_db : Db
accepted_db = (accept_assignment (codes "a") (codes "s2") (codes "c") noon reserved_db).0

abbrev running_db : Db
running_db = (update_job_status alone (codes "j") started noon accepted_db).0

abbrev stopped_db : Db
stopped_db = (request_stop alone (codes "j") noon running_db).0

abbrev status_of : Option Job → Option JobStatus
status_of none = none
status_of (some j) = some j.status

-- The job of the run really is stopping.
stops_there : status_of (job stopped_db (codes "j")) ≡ some stopping
unfolding request_stop accept_assignment stop_attempt update_job_status write_report reserve
    create_job job find_if Text-discrete JobStatus-discrete can_transition insert_attempt
    insert_assignment insert_event
stops_there = refl
