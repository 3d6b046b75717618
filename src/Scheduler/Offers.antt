-- ===== src/Scheduler/Offers.antt =====
-- A node that offers all that a job asks for becomes a candidate.
use job_dock.Base.{
  All-map, is_empty_of_ne, ap, count_if-sort, ◌∙◌, eq64_refl, ◌+◌, ◌≤◌, ◌≡◌, refl, ◌⊎◌, inl, inr,
  true, false, List, [], ◌∷◌, ◌++◌, arith, length, some, sort, Text, Int64, codes, slt-sub64,
  is_empty, IsAmount,
}
use job_dock.Domain.Types.{GpuRequest, JobSpec, Gpu, CpuPackage, Node}
use job_dock.Scheduler.Match.{contains, find_package}
use job_dock.Scheduler.Gpus.{gpu_less, Pick}
use job_dock.Scheduler.Gpus.Choice.{pick-length, is_pickable}
use job_dock.Scheduler.Gpus.Supply.{
  IsSurelyFree, GpusAvailable, requested_of_each, IsSurelyFree-sort,
}
use job_dock.Scheduler.Select.{
  Candidate, Seen, Stage, next_node, go_on, ◌>>=◌, candidate, package_fits, affinity,
  found_requested, picked, choose_gpus, add_candidate, place, examine,
}
use job_dock.Scheduler.Placement.{IsSizedSpec, IsSized}
use job_dock.Scheduler.Examine.{Passes, past_capacity, examine-place}

-- The package asked for is the first of its name; it has room, and the node can pin to it.
pub record PackageAvailable (spec : JobSpec) (node : Node) : Type 0 where
  pub capable : contains node.capabilities (codes "cpu_package_affinity") ≡ true
  pub place : CpuPackage
  pub first : find_package spec.resources.cpu_package_id node.cpu_packages ≡ some place
  pub total : IsAmount place.total_millis
  pub allocated : IsAmount place.allocated_millis
  pub room : place.allocated_millis + spec.resources.cpu_millis ≤ place.total_millis

pub record Offers (spec : JobSpec) (node : Node) : Type 0 where
  pub passes : Passes spec node
  pub cpu_package : (spec.resources.cpu_package_id ≡ []) ⊎ PackageAvailable spec node
  pub gpus : GpusAvailable spec.resources.gpu node.gpus

-- A stage passes something on, with the candidates as they were.
abbrev Proceeds : {A : Type 0} → List Candidate → (A → Type 0) → Stage A → Type 0
Proceeds cs Q (next_node s) = ⊥
Proceeds cs Q (go_on s a) = (s.candidates ≡ cs) × Q a

>>=-Proceeds :
    {A : Type 0} (cs : List Candidate) (Q : A → Type 0) (R : Seen → Type 0) (m : Stage A)
    (f : Seen → A → Seen)
    → Proceeds cs Q m
    → ((s : Seen) (a : A) → s.candidates ≡ cs → Q a → R (f s a))
    → R (m >>= f)
>>=-Proceeds cs Q R (next_node s) f e k = absurd e
>>=-Proceeds cs Q R (go_on s a) f e k = k s a e.0 e.1

affinity-Proceeds :
    (spec : JobSpec) (node : Node) (s : Seen)
    → IsSizedSpec spec
    → (spec.resources.cpu_package_id ≡ []) ⊎ PackageAvailable spec node
    → Proceeds s.candidates (λ _. Unit {0}) (affinity spec node s)
unfolding affinity package_fits
affinity-Proceeds spec node s z (inl unpinned) = ground arith
affinity-Proceeds spec node s z (inr p) =
    ground
      (arith, slt-sub64 p.place.total_millis p.place.allocated_millis spec.resources.cpu_millis)

choose_gpus-Proceeds :
    (r : GpuRequest) (gpus : List Gpu) (s : Seen)
    → IsAmount r.count
    → GpusAvailable r gpus
    → Proceeds s.candidates (λ (c : List Text × Int64). length c.0 ≡ r.count) (choose_gpus r gpus s)
unfolding choose_gpus found_requested picked
choose_gpus-Proceeds r gpus s sized (inl (named, counted, free)) =
    let sorted = sort gpu_less gpus in
    let free_there =
      All-map (IsSurelyFree gpus) (IsSurelyFree sorted) r.uuids (λ _ f. IsSurelyFree-sort gpus f)
        free in
    rw
      (
        is_empty_of_ne r.uuids named,
        choose_gpus,
        requested_of_each sorted r.uuids [] free_there,
        found_requested,
      )
      (refl, counted)
choose_gpus-Proceeds r gpus s sized (inr (unnamed, enough)) =
    let start : Pick = record { model = false; chosen = []; waste = 0 } in
    rw (ap is_empty unnamed, choose_gpus)
      (
        refl,
        omega (
          arith,
          pick-length r (sort gpu_less gpus) start sized (omega arith),
          count_if-sort gpu_less (is_pickable r) gpus,
        ),
      )

pub examine-Offers :
    (spec : JobSpec) (node : Node) (s : Seen)
    → IsSizedSpec spec
    → IsSized node
    → Offers spec node
    → (c : Candidate) × ((examine spec node s).candidates ≡ s.candidates ++ c ∷ [])
unfolding place add_candidate
examine-Offers spec node s z n o =
    let r = spec.resources.gpu in
    rw (examine-place spec node z n s o.passes) (
      >>=-Proceeds s.candidates (λ _. Unit {0}) Added (affinity spec node (past_capacity s)) _
        (affinity-Proceeds spec node (past_capacity s) z o.cpu_package)
        λ s' pinned e _.
          >>=-Proceeds s'.candidates (λ (c : List Text × Int64). length c.0 ≡ r.count) Added
            (choose_gpus r node.gpus s') _ (choose_gpus-Proceeds r node.gpus s' z.count o.gpus)
            λ s'' gpus e' counted.
              (candidate spec node pinned gpus, added s'' pinned gpus (e' ∙ e) counted))
  where
    Added : Seen → Type 0
    Added t = (c : Candidate) × (t.candidates ≡ s.candidates ++ c ∷ [])

    added :
        (t : Seen) (pinned : Text × Text) (gpus : List Text × Int64)
        → t.candidates ≡ s.candidates
        → length gpus.0 ≡ spec.resources.gpu.count
        → (add_candidate spec node pinned t gpus).candidates
          ≡ s.candidates ++ candidate spec node pinned gpus ∷ []
    added t pinned gpus e counted = ground (arith, eq64_refl spec.resources.gpu.count)
