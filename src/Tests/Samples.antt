-- ===== src/Tests/Samples.antt =====
-- Two nodes, a job for a GPU, and a database with that job running on the first node.
use job_dock.Base.{true, false, [], ◌∷◌, none, codes, Text}
use job_dock.Domain.Status.{online, queued, running}
use job_dock.Domain.Types.{Job, JobSpec, Node, Gpu}
use job_dock.Store.Tables.{Db, Attempt, NodeRow}

abbrev pub training : JobSpec
training = record {
  name = codes "train";
  image = codes "python";
  command = [];
  working_directory = [];
  environment = [];
  secret_refs = [];
  registry_secret = [];
  resources = record {
    cpu_millis = 1000;
    cpu_package_id = [];
    memory_bytes = 1024;
    gpu = record { count = 1; min_vram_bytes = 10; uuids = [] };
  };
  labels = [];
  node_selector = (codes "zone", codes "lab") ∷ [];
  target_node_id = [];
  inputs = [];
}

abbrev pub gpu : Text → Gpu
gpu name = record { uuid = name; vram_bytes = 16; allocated = false }

abbrev pub busy_gpu : Text → Gpu
busy_gpu name = record (gpu name) { allocated = true }

abbrev pub node_a : Node
node_a = record {
  id = codes "a";
  status = online;
  cpu_total_millis = 4000;
  cpu_allocated_millis = 1000;
  memory_total_bytes = 8192;
  memory_allocated_bytes = 1024;
  labels = (codes "zone", codes "lab") ∷ [];
  capabilities = [];
  cpu_packages = [];
  gpus = busy_gpu (codes "g1") ∷ gpu (codes "g2") ∷ [];
}

-- Full: no CPU is free.
abbrev pub node_b : Node
node_b = record node_a { id = codes "b"; cpu_allocated_millis = 4000 }

abbrev pub waiting_job : Job
waiting_job = record {
  id = codes "j";
  owner_id = codes "u";
  spec = training;
  status = queued;
  desired_status = running;
  observed_status = queued;
  assigned_node_id = [];
  attempt_id = [];
  image_digest = [];
  exit_code = none;
  queue_reason_code = [];
  queue_reason = [];
  failure_reason = [];
  created_at = codes "2026-01-01T00:00:00Z";
  started_at = none;
  finished_at = none;
  deleted_at = none;
  version = 1;
}

abbrev pub running_job : Job
running_job = record waiting_job {
  status = running;
  observed_status = running;
  assigned_node_id = codes "a";
  attempt_id = codes "t";
}

abbrev pub attempt : Attempt
attempt = record {
  id = codes "t";
  job_id = codes "j";
  attempt_number = 1;
  node_id = codes "a";
  assignment_id = codes "s";
  container_id = codes "c";
  cpu_package_id = [];
  gpu_uuids = codes "g2" ∷ [];
  status = running;
  job_token_hash = codes "h";
  image_digest = [];
  exit_code = none;
  failure_reason = [];
  outputs = [];
  created_at = codes "2026-01-01T00:00:01Z";
  started_at = none;
  finished_at = none;
}

abbrev pub node_row : NodeRow
node_row = record {
  id = codes "a";
  status = online;
  credential_hash = codes "k";
  previous_credential_hash = none;
  previous_credential_expires_at = none;
  credential_created_at = codes "2026-01-01T00:00:00Z";
  last_heartbeat = codes "2026-01-01T00:00:02Z";
  deleted_at = none;
}

abbrev pub busy_db : Db
busy_db = record {
  jobs = running_job ∷ [];
  attempts = attempt ∷ [];
  assignments = [];
  events = [];
  nodes = node_row ∷ [];
}

abbrev pub waiting_db : Db
waiting_db = record busy_db { jobs = waiting_job ∷ []; attempts = [] }

abbrev pub noon : Text
noon = codes "2026-01-01T12:00:00Z"
