-- ===== src/Scheduler/Match.antt =====
-- internal/scheduler/scheduler.go: how a node is compared with what a job asks for.
use job_dock.Base.{
  find_if, Bool, true, false, not, Option, List, [], ◌∷◌, map, if◌then◌else◌, Text, ◌==◌, codes,
  itoa, join, Int64,
}
use job_dock.Domain.Types.{CpuPackage}

unfoldable pub contains : List Text → Text → Bool
contains [] wanted = false
contains (value ∷ values) wanted = if value == wanted then true else contains values wanted

-- A missing key of a Go map of strings reads as the empty string.
unfoldable pub label : List (Text × Text) → Text → Text
label [] key = []
label ((k, v) ∷ labels) key = if k == key then v else label labels key

unfoldable pub labels_match : List (Text × Text) → List (Text × Text) → Bool
unfolding label
labels_match labels [] = true
labels_match labels ((key, value) ∷ selector) =
    if not (label labels key == value) then false else labels_match labels selector

unfoldable pub logical_cpu_set : List Int64 → Text
unfolding itoa join
logical_cpu_set values = join (codes ",") (map itoa values)

unfoldable pub find_package : Text → List CpuPackage → Option CpuPackage
unfolding find_if
find_package id = find_if (λ p. p.id == id)
