-- ===== src/Scheduler/Admission.antt =====
-- The checks of internal/domain/validate.go, as the scheduler relies on them.
use job_dock.Scheduler.Gpus.Distinct.{best_gpus-IsKeyedBy}
use job_dock.Base.{
  sym, subst, inr, All-Memᴰ, Text, inl, length, ◌⊎◌, IsKeyedBy, [], ◌≡◌, All, Memᴰ, none, List,
}
use job_dock.Domain.Types.{Gpu, GpuRequest, JobSpec, Node}
use job_dock.Domain.Validation.Specs.{validate_job_spec}
use job_dock.Domain.Validation.Accepted.{
  AreDistinct, validate_job_spec-IsAccepted, IsRepresented, IsAccepted,
}
use job_dock.Scheduler.Placement.{GpusFit, IsSizedSpec, IsSized, Places}
use job_dock.Scheduler.Select.{Candidate, scan, nothing_seen}
use job_dock.Scheduler.Waiting.{select_node, selected}
use job_dock.Scheduler.Found.{Best, select_node-selected}

accepted-IsSizedSpec : (spec : JobSpec) → IsRepresented spec → IsAccepted spec → IsSizedSpec spec
accepted-IsSizedSpec spec z a = record {
  cpu = a.resources.cpu;
  memory = a.resources.memory;
  count = a.resources.count;
  names = z.names;
}

-- The GPUs of a node have different names.
abbrev pub HasDistinctGpus : Node → Type 0
HasDistinctGpus n = IsKeyedBy (λ (g : Gpu). g.uuid) n.gpus

chosen-AreDistinct :
    (r : GpuRequest) (gpus : List Gpu) (chosen : List Text)
    → (r.uuids ≡ []) ⊎ AreDistinct r.uuids
    → IsKeyedBy (λ (g : Gpu). g.uuid) gpus
    → GpusFit r gpus chosen
    → AreDistinct chosen
chosen-AreDistinct r gpus chosen (inl none_named) k (inl (named, same, _)) =
    absurd (named none_named)
chosen-AreDistinct r gpus chosen (inr apart) k (inl (named, same, _)) =
    subst AreDistinct (sym same) apart
chosen-AreDistinct r gpus chosen asked k (inr (_, _, best)) =
    subst AreDistinct (sym best) (best_gpus-IsKeyedBy r gpus k)

accepted-apart :
    (spec : JobSpec)
    → IsAccepted spec
    → (spec.resources.gpu.uuids ≡ []) ⊎ AreDistinct spec.resources.gpu.uuids
accepted-apart spec a = elim a.resources.gpus [
  | inl unnamed ↦ inl unnamed
  | inr (_, _, _, apart) ↦ inr apart
]

-- A job whose numbers are bit patterns of 64 bits and that the validation accepts is, where a
-- candidate is selected among nodes whose amounts are not negative and whose GPUs have different names
-- on each, placed on a registered node that offers all that it asks for, and no candidate found is
-- better; the GPUs chosen have different names, and are as many as the job counts.
pub select_node-accepted :
    (spec : JobSpec) (nodes : List Node) (c : Candidate)
    → IsRepresented spec
    → validate_job_spec spec ≡ none
    → All IsSized nodes
    → All HasDistinctGpus nodes
    → select_node spec nodes ≡ selected c
    → Memᴰ c.node nodes
      × Places spec c
      × Best (scan spec nodes nothing_seen).candidates c
      × AreDistinct c.gpu_uuids
      × (length c.gpu_uuids ≡ spec.resources.gpu.count)
select_node-accepted spec nodes c z valid n apart e =
    let a = validate_job_spec-IsAccepted spec z valid in
    let (m, placed, best) = select_node-selected spec nodes c (accepted-IsSizedSpec spec z a) n e in
    (
      m,
      placed,
      best,
      chosen-AreDistinct spec.resources.gpu c.node.gpus c.gpu_uuids (accepted-apart spec a)
          (All-Memᴰ HasDistinctGpus nodes apart m) placed.gpus,
      placed.counted,
    )
