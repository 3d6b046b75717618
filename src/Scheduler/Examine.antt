-- ===== src/Scheduler/Examine.antt =====
-- What the examination of one node adds to the candidates, and the examination of all nodes.
use job_dock.Base.{
  eq64-amount, ap, eq64, slt-sub64, Bool-cases, subst, Int64, Text, ◌+◌, ◌≤◌, ◌≡◌, refl, ◌⊎◌, inl,
  inr, true, List, [], ◌∷◌, ◌++◌, arith, length,
}
use job_dock.Domain.Status.{online}
use job_dock.Domain.Types.{JobSpec, Node}
use job_dock.Scheduler.Select.{
  ◌>>=◌, candidate, Candidate, Seen, Stage, next_node, go_on, affinity, choose_gpus, add_candidate,
  place, examine,
}
use job_dock.Scheduler.Match.{labels_match}
use job_dock.Scheduler.Placement.{
  IsSizedSpec, IsSized, PackageFits, Places, Chosen, Ensures, affinity-Ensures, choose_gpus-Ensures,
}

-- What the tests before the choice of a processor package establish.
pub record Passes (spec : JobSpec) (node : Node) : Type 0 where
  pub aimed : (spec.target_node_id ≡ []) ⊎ (node.id ≡ spec.target_node_id)
  pub ready : node.status ≡ online
  pub labelled : labels_match node.labels spec.node_selector ≡ true
  pub cpu : node.cpu_allocated_millis + spec.resources.cpu_millis ≤ node.cpu_total_millis
  pub memory : node.memory_allocated_bytes + spec.resources.memory_bytes ≤ node.memory_total_bytes

-- The flags of a node that has passed those tests.
abbrev pub past_capacity : Seen → Seen
past_capacity s = record s {
  has_target = true;
  has_online = true;
  has_labels = true;
  has_cpu = true;
  has_memory = true;
}

-- At most one candidate is added, on this node, and its node offers what the job asks for.
abbrev pub Grows : JobSpec → Node → List Candidate → Seen → Type 0
Grows spec node cs s =
    (s.candidates ≡ cs)
    ⊎ ((c : Candidate) × (s.candidates ≡ cs ++ c ∷ []) × (c.node ≡ node) × Places spec c)

>>=-Grows :
    {A : Type 0} (spec : JobSpec) (node : Node) (cs : List Candidate) (P : A → Type 0) (m : Stage A)
    (f : Seen → A → Seen)
    → Ensures cs P m
    → ((s : Seen) (a : A) → s.candidates ≡ cs → P a → Grows spec node cs (f s a))
    → Grows spec node cs (m >>= f)
>>=-Grows spec node cs P (next_node s) f e k = inl e
>>=-Grows spec node cs P (go_on s a) f e k = k s a e.0 e.1

module _ (spec : JobSpec) (node : Node) (z : IsSizedSpec spec) (n : IsSized node) where
  add_candidate-Grows :
      (s : Seen) (pinned : Text × Text) (gpus : List Text × Int64) {cs : List Candidate}
      → s.candidates ≡ cs
      → Passes spec node
      → PackageFits spec node pinned
      → Chosen spec.resources.gpu node.gpus gpus
      → Grows spec node cs (add_candidate spec node pinned s gpus)
  unfolding add_candidate
  add_candidate-Grows s pinned gpus e p k g =
      elim (Bool-cases (eq64 (length gpus.0) spec.resources.gpu.count)) [
        | inl hit ↦
            rw (hit, add_candidate)
              (inr (
                candidate spec node pinned gpus,
                ap (λ cs. cs ++ candidate spec node pinned gpus ∷ []) e,
                refl,
                record {
                  aimed = p.aimed;
                  ready = p.ready;
                  labelled = p.labelled;
                  cpu = p.cpu;
                  memory = p.memory;
                  pinned = k;
                  counted = ground (arith, eq64-amount (length gpus.0) spec.resources.gpu.count);
                  gpus = g.0;
                },
              ))
        | inr miss ↦ rw (miss, add_candidate) (inl e)
      ]

  place-Grows : (s : Seen) → Passes spec node → Grows spec node s.candidates (place spec node s)
  unfolding place
  place-Grows s p =
      >>=-Grows spec node s.candidates (PackageFits spec node) (affinity spec node s) _
        (affinity-Ensures spec node s z n)
        λ s' pinned e k.
          >>=-Grows spec node s.candidates (Chosen spec.resources.gpu node.gpus)
            (choose_gpus spec.resources.gpu node.gpus s') _
            (subst
              (λ cs.
                Ensures cs (Chosen spec.resources.gpu node.gpus)
                  (choose_gpus spec.resources.gpu node.gpus s'))
              e (choose_gpus-Ensures spec.resources.gpu node.gpus s' z.count z.names))
            λ s'' gpus e' g. add_candidate-Grows s'' pinned gpus e' p k g

  -- Either a test of the node itself fails, or all of them hold and the placement goes on.
  examine-cases :
      (s : Seen)
      → ((examine spec node s).candidates ≡ s.candidates)
        ⊎ (Passes spec node × (examine spec node s ≡ place spec node (past_capacity s)))
  unfolding examine
  examine-cases s = ground (
    arith,
    slt-sub64 node.cpu_total_millis node.cpu_allocated_millis spec.resources.cpu_millis,
    slt-sub64 node.memory_total_bytes node.memory_allocated_bytes spec.resources.memory_bytes,
  )

  pub examine-place :
      (s : Seen) → Passes spec node → examine spec node s ≡ place spec node (past_capacity s)
  unfolding examine
  examine-place s p = ground (
    arith,
    slt-sub64 node.cpu_total_millis node.cpu_allocated_millis spec.resources.cpu_millis,
    slt-sub64 node.memory_total_bytes node.memory_allocated_bytes spec.resources.memory_bytes,
  )

  pub examine-Grows : (s : Seen) → Grows spec node s.candidates (examine spec node s)
  examine-Grows s = elim (examine-cases s) [
    | inl same ↦ inl same
    | inr (p, e) ↦ rw e (place-Grows (past_capacity s) p)
  ]
