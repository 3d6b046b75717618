-- ===== src/Scheduler/Gpus/Supply.antt =====
-- When a node's GPUs meet a request, the loops of `selectNode` find GPUs that do.
use job_dock.Base.{
  ap, ◌≡◌, ◌≢◌, ◌⊎◌, inl, inr, true, false, none, some, List, [], ◌∷◌, ◌++◌, Memᴰ, arith,
  Option-cases, length, All, All-here, All-of_sort, All-sort, Text, ◌∙◌, append_assoc, append-nil,
  ◌≤◌, count_if, sort, All-Memᴰ,
}
use job_dock.Domain.Types.{Gpu, GpuRequest}
use job_dock.Scheduler.Gpus.{gpu_less, by_id, requested}
use job_dock.Scheduler.Gpus.Choice.{IsFree, IsFree-mono, by_id_found, is_pickable}

-- There is a GPU of this name, and none of that name is held by a job.
pub record IsSurelyFree (gpus : List Gpu) (id : Text) : Type 0 where
  pub present : IsFree gpus id
  pub unheld : All (λ (g : Gpu). g.uuid ≡ id → g.allocated ≡ false) gpus

-- What a node must have for a request: the named GPUs, as many as are counted, or enough others.
abbrev pub GpusAvailable : GpuRequest → List Gpu → Type 0
GpusAvailable r gpus =
    (r.uuids ≢ []) × (length r.uuids ≡ r.count) × All (IsSurelyFree gpus) r.uuids
    ⊎ (r.uuids ≡ []) × (r.count ≤ count_if (is_pickable r) gpus)

pub by_id-none : (gpus : List Gpu) (id : Text) → by_id gpus id ≡ none → All (λ g. g.uuid ≢ id) gpus
unfolding by_id
by_id-none [] id e = tt
by_id-none (x ∷ gpus) id e = elim (Option-cases (by_id gpus id)) [
  | inl absent ↦ ((λ same. ground arith), by_id-none gpus id absent)
  | inr (g, found) ↦ ground arith
]

by_id_free :
    (gpus : List Gpu) (id : Text)
    → IsSurelyFree gpus id
    → (g : Gpu) × (by_id gpus id ≡ some g) × (g.allocated ≡ false)
by_id_free gpus id f = elim (Option-cases (by_id gpus id)) [
  | inl absent ↦ absurd (
      All-Memᴰ (λ g. g.uuid ≢ id) gpus (by_id-none gpus id absent) f.present.present
        f.present.named)
  | inr (g, found) ↦
      let (m, named) = by_id_found gpus id found in
      (g, found, All-Memᴰ (λ (g : Gpu). g.uuid ≡ id → g.allocated ≡ false) gpus f.unheld m named)
]

pub requested_of_each :
    (gpus : List Gpu) (ids chosen : List Text)
    → All (IsSurelyFree gpus) ids
    → requested gpus ids true chosen ≡ some (true, chosen ++ ids)
unfolding requested
requested_of_each gpus [] chosen h = rw append-nil
requested_of_each gpus (id ∷ ids) chosen h =
    let (g, found, free) = by_id_free gpus id h.0 in
    rw (found, requested, free)
      (requested_of_each gpus ids (chosen ++ id ∷ []) h.1
        ∙ ap (λ out. some (true, out)) (append_assoc chosen (id ∷ []) ids))

-- The order in which the GPUs are tried does not matter.
pub IsSurelyFree-sort :
    (gpus : List Gpu) {id : Text} → IsSurelyFree gpus id → IsSurelyFree (sort gpu_less gpus) id
IsSurelyFree-sort gpus {id} f = record {
  present =
      IsFree-mono {small = gpus}
        (All-of_sort gpu_less (λ g. Memᴰ g (sort gpu_less gpus)) gpus
          (All-here (sort gpu_less gpus)))
        f.present;
  unheld = All-sort gpu_less (λ g. g.uuid ≡ id → g.allocated ≡ false) gpus f.unheld;
}
