-- ===== src/Scheduler/Gpus.antt =====
-- internal/scheduler/scheduler.go, `selectNode`: the choice of a node's GPUs.
pub mod Choice
pub mod Supply
pub mod Missing
pub mod Distinct
use job_dock.Base.{
  Bool, true, false, not, ◌&&◌, Option, none, some, List, [], ◌∷◌, ◌++◌, if◌then◌else◌, length,
  Text, ◌==◌, text_ltb, Int64, add64, sub64, slt, eq64,
}
use job_dock.Domain.Types.{Gpu, GpuRequest}

-- The order of the GPUs of a node: by memory, then by name.
unfoldable pub gpu_less : Gpu → Gpu → Bool
gpu_less a b =
    if eq64 a.vram_bytes b.vram_bytes then text_ltb a.uuid b.uuid else slt a.vram_bytes b.vram_bytes

-- The map `byID`, in which a later GPU of the same name takes the place of an earlier one.
unfoldable pub by_id : List Gpu → Text → Option Gpu
by_id [] id = none
by_id (g ∷ gpus) id = elim (by_id gpus id) [
  | some later ↦ some later
  | none ↦ if g.uuid == id then some g else none
]

-- The loop over the requested names: whether all are free, and the names. `none` is `!allExist`.
unfoldable pub requested : List Gpu → List Text → Bool → List Text → Option (Bool × List Text)
unfolding by_id
requested gpus [] all_free chosen = some (all_free, chosen)
requested gpus (id ∷ ids) all_free chosen = elim (by_id gpus id) [
  | none ↦ none
  | some gpu ↦ requested gpus ids (if gpu.allocated then false else all_free) (chosen ++ id ∷ [])
]

-- The variables of the loop that picks GPUs by number and memory.
pub record Pick : Type 0 where
  pub model : Bool
  pub chosen : List Text
  pub waste : Int64

-- Enough memory on the GPU.
abbrev pub suits : GpuRequest → Gpu → Bool
suits r gpu = not (slt gpu.vram_bytes r.min_vram_bytes)

unfoldable pub pick_one : GpuRequest → Gpu → Pick → Pick
pick_one r gpu p =
    let p' = if suits r gpu then record p { model = true } else p in
    if not gpu.allocated && suits r gpu && slt (length p.chosen) r.count
    then record p' {
      chosen = p.chosen ++ gpu.uuid ∷ [];
      waste = add64 p.waste (sub64 gpu.vram_bytes r.min_vram_bytes);
    }
    else p'

unfoldable pub pick : GpuRequest → List Gpu → Pick → Pick
unfolding pick_one
pick r [] p = p
pick r (gpu ∷ gpus) p = pick r gpus (pick_one r gpu p)
