-- ===== src/Scheduler/Shortages.antt =====
-- internal/scheduler/scheduler.go: what the reasons of `selectNode` that tell of packages and GPUs say of the
-- nodes.
use job_dock.Base.{
  ◌≡◌, ◌≢◌, ◌⊎◌, inl, inr, Bool, true, false, List, [], ◌∷◌, arith, Option-cases, Bool-cases, All,
  any, ◌&&◌, not, slt, find_if, find_if-none, All-map, ◌==◌,
}
use job_dock.Domain.Types.{JobSpec, Node, Gpu, CpuPackage}
use job_dock.Scheduler.Match.{find_package}
use job_dock.Scheduler.Gpus.{suits}
use job_dock.Scheduler.Gpus.Missing.{
  is_present, IsMissing, IsHeld, sorted-IsMissing, sorted-IsHeld, sorted-unsuited,
}
use job_dock.Scheduler.Flags.{has_memory_for}
use job_dock.Scheduler.Devices.{
  can_pin, is_capable, has_package, has_package_room, is_past_package, has_named_gpus,
  has_free_gpus, has_gpu_model, the_package,
}
use job_dock.Scheduler.Waiting.{wants_package, names_gpus}

-- Some node passes one test, and what is said of those that pass it.
abbrev pub Among : (Node → Bool) → (Node → Type 0) → List Node → Type 0
Among before P nodes = (any before nodes ≡ true) × All (λ (n : Node). before n ≡ true → P n) nodes

abbrev pub CannotPin : JobSpec → List Node → Type 0
CannotPin spec nodes =
    (wants_package spec ≡ true) × Among (has_memory_for spec) (λ n. can_pin n ≡ false) nodes

abbrev pub LacksPackage : JobSpec → List Node → Type 0
LacksPackage spec nodes =
    (wants_package spec ≡ true)
    × Among (is_capable spec)
        (λ n. All (λ (p : CpuPackage). p.id ≢ spec.resources.cpu_package_id) n.cpu_packages) nodes

abbrev pub LacksRoom : JobSpec → List Node → Type 0
LacksRoom spec nodes =
    (wants_package spec ≡ true)
    × Among (has_package spec) (λ n. has_package_room spec n ≡ false) nodes

abbrev pub LacksNamedGpu : JobSpec → List Node → Type 0
LacksNamedGpu spec nodes =
    (names_gpus spec ≡ true)
    × Among (is_past_package spec) (λ n. IsMissing n.gpus spec.resources.gpu.uuids) nodes

abbrev pub HoldsNamedGpu : JobSpec → List Node → Type 0
HoldsNamedGpu spec nodes =
    (names_gpus spec ≡ true)
    × Among (has_named_gpus spec) (λ n. IsHeld n.gpus spec.resources.gpu.uuids) nodes

abbrev pub LacksModel : JobSpec → List Node → Type 0
LacksModel spec nodes =
    (names_gpus spec ≡ false)
    × (slt 0 spec.resources.gpu.count ≡ true)
    × Among (is_past_package spec)
        (λ n. All (λ (g : Gpu). suits spec.resources.gpu g ≡ false) n.gpus) nodes

-- All that is known where no other reason is given.
abbrev pub HasSome : JobSpec → List Node → Type 0
HasSome spec nodes =
    (any (is_past_package spec) nodes ≡ true)
    × ((names_gpus spec ≡ false) ⊎ (any (has_free_gpus spec) nodes ≡ true))
    × ((slt 0 spec.resources.gpu.count ≡ false) ⊎ (any (has_gpu_model spec) nodes ≡ true))

among :
    (before after : Node → Bool) (P : Node → Type 0) (nodes : List Node)
    → ((n : Node) → before n ≡ true → after n ≡ false → P n)
    → any before nodes ≡ true
    → any after nodes ≡ false
    → Among before P nodes
among before after P nodes say h e = (h, each nodes e)
  where
    each : (ns : List Node) → any after ns ≡ false → All (λ (n : Node). before n ≡ true → P n) ns
    each [] no_more = tt
    each (n ∷ ns) no_more =
        ((λ b. say n b (ground (arith, no_more))), each ns (ground (arith, no_more)))

any-imp :
    (p q : Node → Bool) (nodes : List Node)
    → ((n : Node) → p n ≡ true → q n ≡ true)
    → any p nodes ≡ true
    → any q nodes ≡ true
any-imp p q [] imp h = cc h
any-imp p q (n ∷ nodes) imp h = elim (Bool-cases (p n)) [
  | inl hit ↦ ground (arith, imp n hit)
  | inr miss ↦ ground (arith, any-imp p q nodes imp (ground (arith, h, miss)))
]

no_package :
    (spec : JobSpec) (n : Node)
    → is_present (the_package spec n) ≡ false
    → All (λ (p : CpuPackage). p.id ≢ spec.resources.cpu_package_id) n.cpu_packages
unfolding find_package
no_package spec n e =
    elim (Option-cases
      (find_if (λ (p : CpuPackage). p.id == spec.resources.cpu_package_id) n.cpu_packages)) [
        | inl absent ↦
            All-map (λ (p : CpuPackage). (p.id == spec.resources.cpu_package_id) ≡ false)
              (λ (p : CpuPackage). p.id ≢ spec.resources.cpu_package_id) n.cpu_packages
              (λ p other same. ground (arith, other, same))
              (find_if-none (λ (p : CpuPackage). p.id == spec.resources.cpu_package_id)
                n.cpu_packages absent)
        | inr (p, there) ↦ absurd (ground (arith, e, there))
      ]

module _ (spec : JobSpec) (nodes : List Node) where
  pub explain-CannotPin :
      wants_package spec ≡ true
      → any (has_memory_for spec) nodes ≡ true
      → any (is_capable spec) nodes ≡ false
      → CannotPin spec nodes
  explain-CannotPin w h e = (
    w,
    among (has_memory_for spec) (is_capable spec) (λ n. can_pin n ≡ false) nodes
        (λ n b a. ground (arith, w, b, a)) h e,
  )

  pub explain-LacksPackage :
      wants_package spec ≡ true
      → any (is_capable spec) nodes ≡ true
      → any (has_package spec) nodes ≡ false
      → LacksPackage spec nodes
  explain-LacksPackage w h e = (
    w,
    among (is_capable spec) (has_package spec) _ nodes
        (λ n b a. no_package spec n (ground (arith, w, b, a))) h e,
  )

  pub explain-LacksRoom :
      wants_package spec ≡ true
      → any (has_package spec) nodes ≡ true
      → any (has_package_room spec) nodes ≡ false
      → LacksRoom spec nodes
  explain-LacksRoom w h e = (
    w,
    among (has_package spec) (has_package_room spec) (λ n. has_package_room spec n ≡ false) nodes
        (λ n b a. a) h e,
  )

  pub past_package :
      any (has_memory_for spec) nodes ≡ true
      → (wants_package spec && not (any (has_package_room spec) nodes)) ≡ false
      → any (is_past_package spec) nodes ≡ true
  past_package h e = elim (Bool-cases (wants_package spec)) [
    | inl wanted ↦
        any-imp (has_package_room spec) (is_past_package spec) nodes
          (λ n room. ground (arith, wanted, room)) (ground (arith, wanted, e))
    | inr free ↦
        any-imp (has_memory_for spec) (is_past_package spec) nodes
          (λ n here. ground (arith, free, here)) h
  ]

  pub explain-LacksNamedGpu :
      names_gpus spec ≡ true
      → any (is_past_package spec) nodes ≡ true
      → any (has_named_gpus spec) nodes ≡ false
      → LacksNamedGpu spec nodes
  explain-LacksNamedGpu w h e = (
    w,
    among (is_past_package spec) (has_named_gpus spec) _ nodes
        (λ n b a. sorted-IsMissing n.gpus spec.resources.gpu.uuids (ground (arith, w, b, a))) h e,
  )

  pub explain-HoldsNamedGpu :
      names_gpus spec ≡ true
      → any (has_named_gpus spec) nodes ≡ true
      → any (has_free_gpus spec) nodes ≡ false
      → HoldsNamedGpu spec nodes
  explain-HoldsNamedGpu w h e = (
    w,
    among (has_named_gpus spec) (has_free_gpus spec) _ nodes
        (λ n b a.
          sorted-IsHeld n.gpus spec.resources.gpu.uuids (ground (arith, b)) (ground (arith, b, a)))
        h e,
  )

  pub explain-LacksModel :
      slt 0 spec.resources.gpu.count ≡ true
      → any (is_past_package spec) nodes ≡ true
      → (names_gpus spec && not (any (has_free_gpus spec) nodes)) ≡ false
      → any (has_gpu_model spec) nodes ≡ false
      → LacksModel spec nodes
  explain-LacksModel w h free e = elim (Bool-cases (names_gpus spec)) [
    | inl named ↦
        let some_free : any (has_gpu_model spec) nodes ≡ true =
          any-imp (has_free_gpus spec) (has_gpu_model spec) nodes (λ n b. ground (arith, named, b))
            (ground (arith, named, free)) in
        absurd (ground (arith, e, some_free))
    | inr unnamed ↦ (
      unnamed,
      w,
      among (is_past_package spec) (has_gpu_model spec) _ nodes
          (λ n b a. sorted-unsuited spec.resources.gpu n.gpus (ground (arith, unnamed, b, a))) h e,
    )
  ]
