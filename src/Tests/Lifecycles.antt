-- ===== src/Tests/Lifecycles.antt =====
-- Reports, stop requests and deletions of jobs.
use job_dock.Domain.Status.Lifecycle.{can_transition_resources, ⟶*-phase, ⟶*-deleted, ◌⟶*◌, phase}
use job_dock.Store.Races.{mark_deleting-race, request_stop-race, request_stop-Evolves}
use job_dock.Domain.Types.{Job}
use job_dock.Store.Requests.{deleting_row, mark_deleting, stopping_row, request_stop}
use job_dock.Store.Agreement.{update_job_status-Shows, Shows}
use job_dock.Base.{
  true, ◌<◌, false, ◌⊎◌, ◌∷◌, zero, ℕ, ◌≡◌, refl, some, [], codes, Text-discrete, find_if,
}
use job_dock.Domain.Status.{
  JobStatus, cancelled, deleting, assigned, queued, deleted, running, is_active, succeeded,
  JobStatus-discrete, can_transition,
}
use job_dock.Store.Tables.{insert_event, insert_assignment, insert_attempt, Db, done}
use job_dock.Store.Jobs.{assigned_job, reserve, Reservation, job, Report}
use job_dock.Store.Reports.{update_job_status, write_report}
use job_dock.Store.Evolution.{Evolves, Evolves-refl, update_job_status-Evolves}
use job_dock.Tests.Samples.{waiting_job, running_job, waiting_db, busy_db, noon}

abbrev pub alone : ℕ → Db → Db
alone _ db = db

abbrev success : Report
success = record { status = succeeded; exit_code = some 0; image_digest = []; reason = [] }

update_job_status-Evolves_example :
    Evolves busy_db (update_job_status alone (codes "j") success noon busy_db).0
update_job_status-Evolves_example =
    update_job_status-Evolves alone (λ _ db. Evolves-refl db) (codes "j") success noon busy_db

reports : (update_job_status alone (codes "j") success noon busy_db).1 ≡ done
unfolding update_job_status job find_if write_report Text-discrete JobStatus-discrete can_transition
reports = refl

update_job_status-Shows_example :
    Shows succeeded (codes "j") (update_job_status alone (codes "j") success noon busy_db).0
update_job_status-Shows_example =
    update_job_status-Shows alone (λ _ db k. k) (codes "j") success noon busy_db (tt, tt) reports

request_stop-Evolves_example : Evolves busy_db (request_stop (λ _ d. d) (codes "j") noon busy_db).0
request_stop-Evolves_example = request_stop-Evolves (codes "j") noon busy_db

-- The agent reports the end of the job between the read and the write of a stop request.
abbrev ends_first : ℕ → Db → Db
ends_first zero db = (update_job_status alone (codes "j") success noon db).0
ends_first _ db = db

abbrev ended_job : Job
ended_job = record running_job {
  status = succeeded;
  observed_status = succeeded;
  exit_code = some 0;
  finished_at = some noon;
  version = 2;
}

finds_running : job busy_db (codes "j") ≡ some running_job
unfolding job find_if Text-discrete
finds_running = refl

finds_ended : job (ends_first 0 busy_db) (codes "j") ≡ some ended_job
unfolding update_job_status job find_if write_report Text-discrete JobStatus-discrete can_transition
finds_ended = refl

request_stop-race_example :
    (job (request_stop ends_first (codes "j") noon busy_db).0 (codes "j")
      ≡ some (stopping_row ended_job))
    × ¬ Evolves (ends_first 0 busy_db) (request_stop ends_first (codes "j") noon busy_db).0
unfolding JobStatus-discrete
request_stop-race_example =
    request_stop-race ends_first (codes "j") noon busy_db running_job ended_job finds_running
      finds_ended (λ _. refl) refl refl

-- The scheduler assigns the job between the read and the write of its deletion.
abbrev pub reservation : Reservation
reservation = record {
  job_id = codes "j";
  node_id = codes "a";
  attempt_id = codes "t2";
  assignment_id = codes "s2";
  job_token_hash = codes "h2";
  job_token_ciphertext = codes "x";
  gpu_uuids = codes "g2" ∷ [];
  cpu_package_id = [];
  cpu_set = [];
}

abbrev assigns_first : Db → Db
assigns_first db = (reserve reservation noon db).0

pub finds_waiting : job waiting_db (codes "j") ≡ some waiting_job
unfolding job find_if Text-discrete
finds_waiting = refl

finds_assigned :
    job (assigns_first waiting_db) (codes "j") ≡ some (assigned_job reservation waiting_job)
unfolding reserve job find_if Text-discrete JobStatus-discrete insert_attempt insert_assignment
    insert_event
finds_assigned = refl

mark_deleting-race_example :
    let held = assigned_job reservation waiting_job in
    (job (mark_deleting assigns_first (codes "j") waiting_db).0 (codes "j")
      ≡ some (deleting_row held))
    × (can_transition held.status deleting ≡ false)
    × (is_active (deleting_row held).status ≡ false)
unfolding is_active
mark_deleting-race_example =
    mark_deleting-race assigns_first (codes "j") waiting_db waiting_job
      (assigned_job reservation waiting_job) finds_waiting finds_assigned refl refl

can_transition_resources_example :
    (is_active queued ≡ false
      → is_active assigned ≡ true
      → (queued ≡ queued) × (assigned ≡ assigned))
    × (is_active queued ≡ true
        → is_active assigned ≡ false
        → (assigned ≡ cancelled) ⊎ (assigned ≡ succeeded) ⊎ (assigned ≡ JobStatus.failed))
can_transition_resources_example =
    can_transition_resources queued assigned (unfold can_transition JobStatus-discrete in refl)

⟶*-deleted_example : running ⟶* deleted
⟶*-deleted_example = ⟶*-deleted running

⟶*-phase_example :
    (running ≡ deleted)
    ⊎ (phase running < phase deleted)
    ⊎ ((phase running ≡ 1) × (phase deleted ≡ 1))
⟶*-phase_example = ⟶*-phase (⟶*-deleted running)
