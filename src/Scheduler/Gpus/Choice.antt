-- ===== src/Scheduler/Gpus/Choice.antt =====
-- Which GPUs the two loops of `selectNode` choose.
use job_dock.Base.{
  All-Memᴰ, All-snoc, Bool-cases, append_assoc, ◌∙◌, ◌&&◌, length-append, slt-amount, count_if, not,
  IsAmount, sym, subst, append-nil, ◌+◌, ◌≤◌, ◌≡◌, refl, inl, inr, Bool, true, false, none, some,
  List, [], ◌∷◌, ◌++◌, Memᴰ, arith, if◌then◌else◌, Option-cases, length, All, Text, ◌==◌,
}
use Prim.Native.Nat.{min}
use job_dock.Domain.Types.{Gpu, GpuRequest}
use job_dock.Scheduler.Gpus.{by_id, requested, Pick, suits, pick_one, pick}

-- A GPU of the node with this name, which no job holds.
pub record IsFree (gpus : List Gpu) (id : Text) : Type 0 where
  pub gpu : Gpu
  pub present : Memᴰ gpu gpus
  pub named : gpu.uuid ≡ id
  pub unallocated : gpu.allocated ≡ false

pub IsFree-mono :
    {small large : List Gpu} {id : Text}
    → All (λ g. Memᴰ g large) small
    → IsFree small id
    → IsFree large id
IsFree-mono {small} {large} within f = record {
  gpu = f.gpu;
  present = All-Memᴰ (λ g. Memᴰ g large) small within f.present;
  named = f.named;
  unallocated = f.unallocated;
}

pub by_id_found :
    (gpus : List Gpu) (id : Text) {g : Gpu} → by_id gpus id ≡ some g → Memᴰ g gpus × (g.uuid ≡ id)
unfolding by_id
by_id_found [] id e = ground arith
by_id_found (x ∷ gpus) id {g} e = elim (Option-cases (by_id gpus id)) [
  | inl absent ↦ here (rw (absent, by_id) at e)
  | inr (later, found) ↦
      let (m, n) = by_id_found gpus id found in
      let same : later ≡ g = ground arith in
      (Memᴰ.tail (subst (λ y. Memᴰ y gpus) same m), subst (λ (y : Gpu). y.uuid ≡ id) same n)
]
  where
    taken : (if x.uuid == id then some x else none) ≡ some g → x ≡ g
    taken h = ground arith

    here : (if x.uuid == id then some x else none) ≡ some g → Memᴰ g (x ∷ gpus) × (g.uuid ≡ id)
    here h = (Memᴰ.head (sym (taken h)), ground arith)

pub requested-IsFree :
    (gpus : List Gpu) (ids : List Text) (free : Bool) (chosen : List Text) {out : List Text}
    → requested gpus ids free chosen ≡ some (true, out)
    → (free ≡ true) × (out ≡ chosen ++ ids) × All (IsFree gpus) ids
unfolding requested
requested-IsFree gpus [] free chosen e = ground (arith, append-nil chosen)
requested-IsFree gpus (id ∷ ids) free chosen e = elim (Option-cases (by_id gpus id)) [
  | inl absent ↦ ground arith
  | inr (g, found) ↦
      let next = rw (found, requested) at e in
      let (f, o, rest) = requested-IsFree gpus ids _ _ next in
      let (m, n) = by_id_found gpus id found in
      (
        ground arith,
        o ∙ append_assoc chosen (id ∷ []) ids,
        (record { gpu = g; present = m; named = n; unallocated = ground arith }, rest),
      )
]

-- With enough memory for the request, besides.
pub record IsPickable (r : GpuRequest) (gpus : List Gpu) (id : Text) : Type 0 where
  pub free : IsFree gpus id
  pub enough : suits r free.gpu ≡ true

pick_one-IsPickable :
    (r : GpuRequest) (all : List Gpu) (g : Gpu) (p : Pick)
    → Memᴰ g all
    → All (IsPickable r all) p.chosen
    → All (IsPickable r all) (pick_one r g p).chosen
unfolding pick_one
pick_one-IsPickable r all g p m h = elim (Bool-cases (not g.allocated && suits r g)) [
  | inl good ↦ ground (arith, All-snoc (IsPickable r all) p.chosen g.uuid h (pickable good))
  | inr bad ↦ ground arith
]
  where
    pickable : (not g.allocated && suits r g) ≡ true → IsPickable r all g.uuid
    pickable good = record {
      free = record { gpu = g; present = m; named = refl; unallocated = ground arith };
      enough = ground arith;
    }

pub pick-IsPickable :
    (r : GpuRequest) (all gpus : List Gpu) (p : Pick)
    → All (λ g. Memᴰ g all) gpus
    → All (IsPickable r all) p.chosen
    → All (IsPickable r all) (pick r gpus p).chosen
unfolding pick
pick-IsPickable r all [] p ms h = h
pick-IsPickable r all (g ∷ gpus) p ms h =
    pick-IsPickable r all gpus (pick_one r g p) ms.1 (pick_one-IsPickable r all g p ms.0 h)

-- A GPU that the second loop may take.
abbrev pub is_pickable : GpuRequest → Gpu → Bool
is_pickable r g = not g.allocated && suits r g

pick_one-length :
    (r : GpuRequest) (g : Gpu) (p : Pick)
    → IsAmount r.count
    → length p.chosen ≤ r.count
    → length (pick_one r g p).chosen
      ≡ min r.count (length p.chosen + count_if (is_pickable r) (g ∷ []))
unfolding pick_one
pick_one-length r g p h le =
    ground (arith, slt-amount (length p.chosen) r.count, length-append p.chosen (g.uuid ∷ []))

-- It takes as many as are asked for, or all that there are.
pub pick-length :
    (r : GpuRequest) (gpus : List Gpu) (p : Pick)
    → IsAmount r.count
    → length p.chosen ≤ r.count
    → length (pick r gpus p).chosen ≡ min r.count (length p.chosen + count_if (is_pickable r) gpus)
unfolding pick
pick-length r [] p h le = omega arith
pick-length r (g ∷ gpus) p h le =
    let e = pick_one-length r g p h le in
    let ih = pick-length r gpus (pick_one r g p) h (omega arith) in ground arith
