-- ===== src/Scheduler/Gpus/Missing.antt =====
-- What it means that the loops of `selectNode` do not find the GPUs asked for.
use job_dock.Base.{
  refl, ◌≡◌, ◌≢◌, ◌⊎◌, inl, inr, Bool, true, false, none, some, Option, List, [], ◌∷◌, ◌++◌, Memᴰ,
  arith, Option-cases, Bool-cases, All, All-here, All-of_sort, All-sort, All-Memᴰ, Text, sort,
  if◌then◌else◌,
}
use job_dock.Domain.Types.{Gpu, GpuRequest}
use job_dock.Scheduler.Gpus.{gpu_less, by_id, requested, suits, Pick, pick, pick_one}
use job_dock.Scheduler.Gpus.Choice.{by_id_found}
use job_dock.Scheduler.Gpus.Supply.{by_id-none}

abbrev pub is_present {ℓ} : {A : Type ℓ} → Option A → Bool
is_present none = false
is_present (some _) = true

abbrev pub are_free : Option (Bool × List Text) → Bool
are_free none = false
are_free (some (free, _)) = free

-- A name for which there is no GPU.
pub record IsMissing (gpus : List Gpu) (ids : List Text) : Type 0 where
  pub id : Text
  pub asked : Memᴰ id ids
  pub absent : All (λ (g : Gpu). g.uuid ≢ id) gpus

-- A GPU with one of the names that a job holds.
pub record IsHeld (gpus : List Gpu) (ids : List Text) : Type 0 where
  pub gpu : Gpu
  pub present : Memᴰ gpu gpus
  pub asked : Memᴰ gpu.uuid ids
  pub held : gpu.allocated ≡ true

requested-IsMissing :
    (gpus : List Gpu) (ids : List Text) (free : Bool) (chosen : List Text)
    → is_present (requested gpus ids free chosen) ≡ false
    → IsMissing gpus ids
unfolding requested
requested-IsMissing gpus [] free chosen e = cc e
requested-IsMissing gpus (id ∷ ids) free chosen e = elim (Option-cases (by_id gpus id)) [
  | inl absent ↦ record { id = id; asked = Memᴰ.head refl; absent = by_id-none gpus id absent }
  | inr (g, found) ↦
      let m = requested-IsMissing gpus ids _ _ (rw (found, requested) at e) in
      record { id = m.id; asked = Memᴰ.tail m.asked; absent = m.absent }
]

requested-IsHeld :
    (gpus : List Gpu) (ids : List Text) (free : Bool) (chosen : List Text)
    → is_present (requested gpus ids free chosen) ≡ true
    → are_free (requested gpus ids free chosen) ≡ false
    → (free ≡ false) ⊎ IsHeld gpus ids
unfolding requested
requested-IsHeld gpus [] free chosen e f = inl f
requested-IsHeld gpus (id ∷ ids) free chosen e f = elim (Option-cases (by_id gpus id)) [
  | inl absent ↦ absurd (ground (arith, e, absent))
  | inr (g, found) ↦
      let (m, named) = by_id_found gpus id found in
      let rest =
        requested-IsHeld gpus ids (if g.allocated then false else free) (chosen ++ id ∷ [])
          (rw (found, requested) at e) (rw (found, requested) at f) in
      elim rest [
        | inr h ↦
            inr (record {
              gpu = h.gpu;
              present = h.present;
              asked = Memᴰ.tail h.asked;
              held = h.held;
            })
        | inl lost ↦ elim (Bool-cases g.allocated) [
          | inl held ↦ inr (record { gpu = g; present = m; asked = Memᴰ.head named; held = held })
          | inr idle ↦ inl (ground (arith, lost, idle))
        ]
      ]
]

pick-model :
    (r : GpuRequest) (gpus : List Gpu) (p : Pick)
    → (pick r gpus p).model ≡ false
    → (p.model ≡ false) × All (λ (g : Gpu). suits r g ≡ false) gpus
unfolding pick pick_one
pick-model r [] p e = (e, tt)
pick-model r (g ∷ gpus) p e =
    let (before, rest) = pick-model r gpus (pick_one r g p) e in
    (ground (arith, before), (ground (arith, before), rest))

-- The same of the GPUs in the order in which they are tried.
pub sorted-IsMissing :
    (gpus : List Gpu) (ids : List Text)
    → is_present (requested (sort gpu_less gpus) ids true []) ≡ false
    → IsMissing gpus ids
sorted-IsMissing gpus ids e =
    let m = requested-IsMissing (sort gpu_less gpus) ids true [] e in
    record {
      id = m.id;
      asked = m.asked;
      absent = All-of_sort gpu_less (λ (g : Gpu). g.uuid ≢ m.id) gpus m.absent;
    }

pub sorted-IsHeld :
    (gpus : List Gpu) (ids : List Text)
    → is_present (requested (sort gpu_less gpus) ids true []) ≡ true
    → are_free (requested (sort gpu_less gpus) ids true []) ≡ false
    → IsHeld gpus ids
sorted-IsHeld gpus ids e f = elim (requested-IsHeld (sort gpu_less gpus) ids true [] e f) [
  | inl never ↦ cc never
  | inr h ↦ record {
    gpu = h.gpu;
    present =
        All-Memᴰ (λ (g : Gpu). Memᴰ g gpus) (sort gpu_less gpus)
          (All-sort gpu_less (λ (g : Gpu). Memᴰ g gpus) gpus (All-here gpus)) h.present;
    asked = h.asked;
    held = h.held;
  }
]

pub sorted-unsuited :
    (r : GpuRequest) (gpus : List Gpu)
    → (pick r (sort gpu_less gpus) (record { model = false; chosen = []; waste = 0 })).model ≡ false
    → All (λ (g : Gpu). suits r g ≡ false) gpus
sorted-unsuited r gpus e =
    All-of_sort gpu_less (λ (g : Gpu). suits r g ≡ false) gpus
      (pick-model r (sort gpu_less gpus) (record { model = false; chosen = []; waste = 0 }) e).1
