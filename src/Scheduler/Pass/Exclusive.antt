-- ===== src/Scheduler/Pass/Exclusive.antt =====
-- For which jobs assignments keep a GPU.
use job_dock.Capacity.Held.{joins-other}
use job_dock.Store.Reserving.{reserved}
use job_dock.Capacity.Nodes.{IsKeyedNodes}
use job_dock.Scheduler.Pass.Snapshot.{charge_all-id, charge_all-gpus}
use job_dock.Store.Jobs.{new_assignment, Reservation}
use job_dock.Scheduler.Match.{contains}
use job_dock.Base.{
  inr, ◌∙◌, All-map, refl, ◌⊎◌, ◌==◌, arith, inl, ap, subst, [], Bool-cases, All-Memᴰ, sym, ◌&&◌,
  false, ◌∷◌, true, ◌≢◌, ◌++◌, any, map, ◌≡◌, List, Bool, Text, All, Memᴰ,
}
use job_dock.Domain.Types.{Node, Gpu, GpuRequest}
use job_dock.Scheduler.Gpus.Choice.{IsFree, IsPickable}
use job_dock.Scheduler.Placement.{GpusFit}
use job_dock.Store.Tables.{Db, Assignment}
use job_dock.Capacity.{allocated_gpus, joins, mark, snapshot}
use job_dock.Capacity.Listing.{accounted, snapshot-each}

-- The assignment keeps the GPU from other jobs.
abbrev pub Keeps : Db → Text → Text → Assignment → Type 0
Keeps db node uuid a =
    (joins db.jobs a ≡ true) × (a.node_id ≡ node) × (contains a.gpu_uuids uuid ≡ true)

-- No GPU of a node is kept for two jobs.
abbrev pub IsExclusive : Db → Type 0
IsExclusive db =
    (node uuid : Text) (a b : Assignment)
    → Memᴰ a db.assignments
    → Memᴰ b db.assignments
    → Keeps db node uuid a
    → Keeps db node uuid b
    → a.job_id ≡ b.job_id

contains-All :
    (P : Text → Type 0) (uuids : List Text) (u : Text) → contains uuids u ≡ true → All P uuids → P u
unfolding contains
contains-All P [] u h k = cc h
contains-All P (v ∷ uuids) u h k = elim (Bool-cases (v == u)) [
  | inl here ↦ subst P (ground (arith, here)) k.0
  | inr other ↦ contains-All P uuids u (rw other at h) k.1
]

not-any :
    {A : Type 0} (p : A → Bool) (xs : List A) {a : A} → any p xs ≡ false → Memᴰ a xs → p a ≡ false
not-any p [] e m = elim m [ ]
not-any p (x ∷ xs) e (Memᴰ.head same) = subst (λ y. p y ≡ false) (sym same) (ground (arith, e))
not-any p (x ∷ xs) e (Memᴰ.tail m) = not-any p xs (ground (arith, e)) m

pub Memᴰ-snoc :
    {A : Type 0} (xs : List A) (y : A) {a : A} → Memᴰ a (xs ++ y ∷ []) → Memᴰ a xs ⊎ (a ≡ y)
Memᴰ-snoc [] y (Memᴰ.head e) = inr e
Memᴰ-snoc [] y (Memᴰ.tail m) = elim m [ ]
Memᴰ-snoc (x ∷ xs) y (Memᴰ.head e) = inl (Memᴰ.head e)
Memᴰ-snoc (x ∷ xs) y (Memᴰ.tail m) = elim (Memᴰ-snoc xs y m) [
  | inl old ↦ inl (Memᴰ.tail old)
  | inr new ↦ inr new
]

-- A GPU that is not marked is kept for no job.
unmarked :
    (db : Db) (node uuid : Text) (a : Assignment)
    → allocated_gpus db node uuid ≡ false
    → Memᴰ a db.assignments
    → ¬ Keeps db node uuid a
unfolding allocated_gpus
unmarked db node uuid a free m (live, at_node, has) =
    let no =
      not-any
        (λ (b : Assignment). joins db.jobs b && b.node_id == node && contains b.gpu_uuids uuid)
        db.assignments free m in
    ground (arith, no, live, at_node, has)

-- An assignment of another job keeps what it kept.
Keeps-before :
    (r : Reservation) (now : Text) (db : Db) (node uuid : Text) (a : Assignment)
    → a.job_id ≢ r.job_id
    → Keeps (reserved r now db) node uuid a
    → Keeps db node uuid a
Keeps-before r now db node uuid a other (live, at_node, has) =
    (sym (joins-other r db.jobs a other) ∙ live, at_node, has)

-- The new assignment's GPUs are kept for no other job.
clash :
    (r : Reservation) (now : Text) (db : Db) (node uuid : Text) (a b : Assignment)
    → All (λ u. allocated_gpus db r.node_id u ≡ false) r.gpu_uuids
    → b ≡ new_assignment r now
    → Keeps db node uuid a
    → Keeps (reserved r now db) node uuid b
    → ¬ Memᴰ a db.assignments
clash r now db node uuid a b free new ka kb m =
    let at_node : r.node_id ≡ node = ap (λ (x : Assignment). x.node_id) (sym new) ∙ kb.1 in
    let has : contains r.gpu_uuids uuid ≡ true =
      subst (λ (x : Assignment). contains x.gpu_uuids uuid ≡ true) new kb.2 in
    let unkept : allocated_gpus db r.node_id uuid ≡ false =
      contains-All (λ u. allocated_gpus db r.node_id u ≡ false) r.gpu_uuids uuid has free in
    unmarked db node uuid a (subst (λ i. allocated_gpus db i uuid ≡ false) at_node unkept) m ka

pub reserved-IsExclusive :
    (r : Reservation) (now : Text) (db : Db)
    → All (λ (a : Assignment). a.job_id ≢ r.job_id) db.assignments
    → All (λ u. allocated_gpus db r.node_id u ≡ false) r.gpu_uuids
    → IsExclusive db
    → IsExclusive (reserved r now db)
reserved-IsExclusive r now db first free ex node uuid a b ma mb ka kb =
    let apart = λ (x : Assignment) (m : Memᴰ x db.assignments).
      All-Memᴰ (λ (y : Assignment). y.job_id ≢ r.job_id) db.assignments first m in
    let before =
      λ (x : Assignment) (m : Memᴰ x db.assignments) (k : Keeps (reserved r now db) node uuid x).
        Keeps-before r now db node uuid x (apart x m) k in
    elim (Memᴰ-snoc db.assignments (new_assignment r now) ma) [
      | inl old ↦ elim (Memᴰ-snoc db.assignments (new_assignment r now) mb) [
        | inl old' ↦ ex node uuid a b old old' (before a old ka) (before b old' kb)
        | inr new ↦ absurd (clash r now db node uuid a b free new (before a old ka) kb old)
      ]
      | inr new ↦ elim (Memᴰ-snoc db.assignments (new_assignment r now) mb) [
        | inl old ↦ absurd (clash r now db node uuid b a free new (before b old kb) ka old)
        | inr new' ↦ ap (λ (x : Assignment). x.job_id) (new ∙ sym new')
      ]
    ]

-- The marks of a snapshot are those of its nodes' GPUs.
abbrev Marked : Db → Node → Type 0
Marked db n = All (λ (g : Gpu). g.allocated ≡ allocated_gpus db n.id g.uuid) n.gpus

mark-Marked :
    (held : Text → Bool) (gpus : List Gpu)
    → All
        (λ (g : Gpu). g.allocated ≡ held g.uuid)
        (map (λ (g : Gpu). record g { allocated = held g.uuid }) gpus)
mark-Marked held [] = tt
mark-Marked held (g ∷ gpus) = (refl, mark-Marked held gpus)

accounted-Marked : (db : Db) (n : Node) → Marked db (accounted db n)
accounted-Marked db n =
    rw
      (
        charge_all-gpus db.jobs (mark (allocated_gpus db) n),
        charge_all-id db.jobs (mark (allocated_gpus db) n),
      )
      (mark-Marked (allocated_gpus db n.id) n.gpus)

accounted-All : (db : Db) (nodes : List Node) → All (Marked db) (map (accounted db) nodes)
accounted-All db [] = tt
accounted-All db (n ∷ nodes) = (accounted-Marked db n, accounted-All db nodes)

-- The GPUs chosen on a node of a snapshot are kept for no job.
pub GpusFit-unmarked :
    (nodes : List Node) (db : Db) (n : Node) (r : GpuRequest) (chosen : List Text)
    → IsKeyedNodes nodes
    → Memᴰ n (snapshot nodes db)
    → GpusFit r n.gpus chosen
    → All (λ u. allocated_gpus db n.id u ≡ false) chosen
GpusFit-unmarked nodes db n r chosen k m fit =
    let marks : Marked db n =
      All-Memᴰ (Marked db) (snapshot nodes db)
        (rw (snapshot-each nodes db k) (accounted-All db nodes)) m in
    let is_unkept : (u : Text) → IsFree n.gpus u → allocated_gpus db n.id u ≡ false = λ u f.
      subst (λ i. allocated_gpus db n.id i ≡ false) f.named
        (sym (
            All-Memᴰ (λ (g : Gpu). g.allocated ≡ allocated_gpus db n.id g.uuid) n.gpus marks
              f.present)
          ∙ f.unallocated) in
    elim fit [
      | inl (_, _, free) ↦
          All-map (IsFree n.gpus) (λ u. allocated_gpus db n.id u ≡ false) chosen is_unkept free
      | inr (_, free, _) ↦
          All-map (IsPickable r n.gpus) (λ u. allocated_gpus db n.id u ≡ false) chosen
            (λ u p. is_unkept u p.free) free
    ]
