-- ===== src/Store/Machine/Invariant.antt =====
-- internal/store/store.go: the invariant of the databases that the operations reach.
use job_dock.Base.{Text}
use job_dock.Store.Requests.{request_stop}
use job_dock.Store.Reports.{update_job_status}
use job_dock.Store.Jobs.{Report}
use job_dock.Store.Tables.{NodeRow}
use job_dock.Store.Machine.{update_job_status, NodeRow, Text, Report, request_stop}
