-- ===== src/Capacity.antt =====
-- internal/capacity/capacity.go: what the active jobs take of each node. `Snapshot` reads the nodes,
-- the jobs and the GPUs that assignments hold, and accounts for them; the nodes come as
-- `ListNodes` returns them, with nothing allocated.
pub mod Nodes
pub mod Listing
pub mod Held
pub mod Reruns
use job_dock.Base.{
  ◌==◌, ◌&&◌, ◌||◌, not, any, Bool, true, false, List, [], ◌∷◌, map, if◌then◌else◌, Text, add64,
  sort, keep, text_ltb,
}
use job_dock.Domain.Status.{
  JobStatus, is_active, deleted, assigned, pulling_image, starting, running, stopping, lost,
}
use job_dock.Domain.Types.{Job, Node, Gpu, CpuPackage, Resources}
use job_dock.Store.Tables.{Db, Assignment, update}
use job_dock.Store.Jobs.{◌is◌}
use job_dock.Scheduler.Match.{contains}

-- map[string]map[string]bool, by node and GPU.
abbrev pub Held : Type 0
Held = Text → Text → Bool

-- The statuses in the query of `AllocatedGPUUUIDs`.
abbrev pub holds_gpus : JobStatus → Bool
holds_gpus s =
    s is assigned
    || s is pulling_image
    || s is starting
    || s is running
    || s is stopping
    || s is lost

abbrev pub joins : List Job → Assignment → Bool
joins jobs a = any (λ (j : Job). j.id == a.job_id && holds_gpus j.status) jobs

unfoldable pub allocated_gpus : Db → Held
allocated_gpus db node uuid =
    any (λ (a : Assignment). joins db.jobs a && a.node_id == node && contains a.gpu_uuids uuid)
      db.assignments

-- `byID[id]`: the last node of that name is changed.
unfoldable pub update_by_id : Text → (Node → Node) → List Node → List Node
update_by_id id f [] = []
update_by_id id f (n ∷ nodes) =
    let rest = update_by_id id f nodes in
    if any (λ (m : Node). m.id == id) nodes
    then n ∷ rest
    else if n.id == id
    then f n ∷ nodes
    else n ∷ rest

abbrev pub charge_package : Resources → CpuPackage → CpuPackage
charge_package r p = record p { allocated_millis = add64 p.allocated_millis r.cpu_millis }

unfoldable pub charge_packages : Resources → List CpuPackage → List CpuPackage
charge_packages r packages =
    if r.cpu_package_id == []
    then packages
    else update (λ (p : CpuPackage). p.id == r.cpu_package_id) (charge_package r) packages

abbrev pub charge : Resources → Node → Node
charge r n = record n {
  cpu_allocated_millis = add64 n.cpu_allocated_millis r.cpu_millis;
  cpu_packages = charge_packages r n.cpu_packages;
  memory_allocated_bytes = add64 n.memory_allocated_bytes r.memory_bytes;
}

-- The test of the loop over the jobs: it goes on to the next job if this fails.
abbrev pub takes : Job → Bool
takes j = is_active j.status && not (j.assigned_node_id == [])

unfoldable pub charge_job : Job → List Node → List Node
charge_job j nodes =
    if not (takes j) then nodes else update_by_id j.assigned_node_id (charge j.spec.resources) nodes

unfoldable pub charge_jobs : List Job → List Node → List Node
charge_jobs [] nodes = nodes
charge_jobs (j ∷ jobs) nodes = charge_jobs jobs (charge_job j nodes)

abbrev pub mark : Held → Node → Node
mark held n = record n {
  gpus = map (λ (g : Gpu). record g { allocated = held n.id g.uuid }) n.gpus;
}

unfoldable pub account : List Node → List Job → Held → List Node
account nodes jobs held = charge_jobs jobs (map (mark held) nodes)

-- `ListJobs` without the deleted jobs, the newest first.
unfoldable pub list_jobs : Db → List Job
list_jobs db =
    sort (λ (a b : Job). text_ltb b.created_at a.created_at)
      (keep (λ (j : Job). not (j.status is deleted)) db.jobs)

unfoldable pub snapshot : List Node → Db → List Node
snapshot nodes db = account nodes (list_jobs db) (allocated_gpus db)
