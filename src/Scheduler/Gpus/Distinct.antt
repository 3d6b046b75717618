-- ===== src/Scheduler/Gpus/Distinct.antt =====
-- The GPUs that the second loop of `selectNode` picks are different ones.
use job_dock.Base.{
  All-sort, ap, sym, ◌≡◌, ◌≢◌, ◌∙◌, inl, inr, Bool, true, false, List, [], ◌∷◌, ◌++◌, arith, ℕ, ◌+◌,
  Bool-cases, All, sort, keep, map, Text, length, IsAmount, IsKeyedBy, insert, All-insert, All-keep,
  slt-amount, length-append, append_assoc, append-nil, suc, zero,
}
use job_dock.Domain.Types.{Gpu, GpuRequest}
use job_dock.Scheduler.Gpus.{gpu_less, Pick, pick, pick_one}
use job_dock.Scheduler.Gpus.Choice.{is_pickable}

abbrev pub first_of {ℓ} : {A : Type ℓ} → ℕ → List A → List A
first_of zero xs = []
first_of (suc n) [] = []
first_of (suc n) (x ∷ xs) = x ∷ first_of n xs

-- The first GPUs, in the order of their memory, that no job holds and that have the memory.
abbrev pub best_gpus : GpuRequest → List Gpu → List Text
best_gpus r gpus =
    map (λ (g : Gpu). g.uuid) (first_of r.count (keep (is_pickable r) (sort gpu_less gpus)))

abbrev names : List Gpu → List Text
names gpus = map (λ (g : Gpu). g.uuid) gpus

pick_one_skips :
    (r : GpuRequest) (g : Gpu) (p : Pick)
    → is_pickable r g ≡ false
    → (pick_one r g p).chosen ≡ p.chosen
unfolding pick_one
pick_one_skips r g p miss = ground (arith, miss)

pick_one_full :
    (r : GpuRequest) (g : Gpu) (p : Pick)
    → IsAmount r.count
    → length p.chosen + 0 ≡ r.count
    → (pick_one r g p).chosen ≡ p.chosen
unfolding pick_one
pick_one_full r g p h full = ground (arith, slt-amount (length p.chosen) r.count, full)

pick_one_takes :
    (r : GpuRequest) (g : Gpu) (p : Pick) (m : ℕ)
    → IsAmount r.count
    → length p.chosen + suc m ≡ r.count
    → is_pickable r g ≡ true
    → (pick_one r g p).chosen ≡ p.chosen ++ g.uuid ∷ []
unfolding pick_one
pick_one_takes r g p m h room hit = ground (arith, slt-amount (length p.chosen) r.count, room, hit)

-- It takes the first ones that it may, as long as there is room.
pick-chosen :
    (r : GpuRequest) (gpus : List Gpu) (p : Pick) (m : ℕ)
    → IsAmount r.count
    → length p.chosen + m ≡ r.count
    → (pick r gpus p).chosen ≡ p.chosen ++ names (first_of m (keep (is_pickable r) gpus))
unfolding pick
pick-chosen r [] p zero h room = sym (append-nil p.chosen)
pick-chosen r [] p (suc m) h room = sym (append-nil p.chosen)
pick-chosen r (g ∷ gpus) p m h room = elim (Bool-cases (is_pickable r g)) [
  | inr miss ↦
      let same = pick_one_skips r g p miss in
      rw miss (
        pick-chosen r gpus (pick_one r g p) m h (ap (λ (c : List Text). length c + m) same ∙ room)
        ∙ ap (λ (c : List Text). c ++ names (first_of m (keep (is_pickable r) gpus))) same)
  | inl hit ↦ rw hit (taken (λ q k e. pick-chosen r gpus q k h e) m room hit)
]
  where
    taken :
        ((q : Pick) (k : ℕ)
          → length q.chosen + k ≡ r.count
          → (pick r gpus q).chosen ≡ q.chosen ++ names (first_of k (keep (is_pickable r) gpus)))
        → (k : ℕ) → length p.chosen + k ≡ r.count
        → is_pickable r g ≡ true
        → (pick r gpus (pick_one r g p)).chosen
          ≡ p.chosen ++ names (first_of k (g ∷ keep (is_pickable r) gpus))
    taken rest zero full hit =
        let same = pick_one_full r g p h full in
        rest (pick_one r g p) zero (ap (λ (c : List Text). length c + 0) same ∙ full)
        ∙ ap (λ (c : List Text). c ++ []) same
    taken rest (suc k) left hit =
        let more = pick_one_takes r g p k h left hit in
        rest (pick_one r g p) k (
          ap (λ (c : List Text). length c + k) more
          ∙ omega (arith, length-append p.chosen (g.uuid ∷ []), left))
        ∙ ap (λ (c : List Text). c ++ names (first_of k (keep (is_pickable r) gpus))) more
        ∙ append_assoc p.chosen (g.uuid ∷ []) (names (first_of k (keep (is_pickable r) gpus)))

pub pick-best_gpus :
    (r : GpuRequest) (gpus : List Gpu)
    → IsAmount r.count
    → (pick r (sort gpu_less gpus) (record { model = false; chosen = []; waste = 0 })).chosen
      ≡ best_gpus r gpus
pick-best_gpus r gpus h =
    pick-chosen r (sort gpu_less gpus) (record { model = false; chosen = []; waste = 0 }) r.count h
      (omega arith)

-- Keys that are different stay so.
module _ {A : Type 0} (key : A → Text) where
  insert-IsKeyedBy :
      (less : A → A → Bool) (x : A) (xs : List A)
      → All (λ (y : A). key y ≢ key x) xs
      → IsKeyedBy key xs
      → IsKeyedBy key (insert less x xs)
  unfolding insert
  insert-IsKeyedBy less x [] other k = (tt, tt)
  insert-IsKeyedBy less x (y ∷ ys) other k = elim (Bool-cases (less y x)) [
    | inl hit ↦ rw hit (
      All-insert less (λ (z : A). key z ≢ key y) x ys (λ e. other.0 (sym e)) k.0,
      insert-IsKeyedBy less x ys other.1 k.1,
    )
    | inr miss ↦ rw miss (other, k)
  ]

  pub sort-IsKeyedBy :
      (less : A → A → Bool) (xs : List A) → IsKeyedBy key xs → IsKeyedBy key (sort less xs)
  unfolding sort
  sort-IsKeyedBy less [] k = tt
  sort-IsKeyedBy less (x ∷ xs) k =
      insert-IsKeyedBy less x (sort less xs) (All-sort less (λ (y : A). key y ≢ key x) xs k.0)
        (sort-IsKeyedBy less xs k.1)

  keep-IsKeyedBy : (test : A → Bool) (xs : List A) → IsKeyedBy key xs → IsKeyedBy key (keep test xs)
  keep-IsKeyedBy test [] k = tt
  keep-IsKeyedBy test (x ∷ xs) k = elim (Bool-cases (test x)) [
    | inl hit ↦ rw hit (All-keep (λ (y : A). key y ≢ key x) test xs k.0, keep-IsKeyedBy test xs k.1)
    | inr miss ↦ rw miss (keep-IsKeyedBy test xs k.1)
  ]

  All-first_of : (P : A → Type 0) (n : ℕ) (xs : List A) → All P xs → All P (first_of n xs)
  All-first_of P zero xs h = tt
  All-first_of P (suc n) [] h = tt
  All-first_of P (suc n) (x ∷ xs) h = (h.0, All-first_of P n xs h.1)

  first_of-IsKeyedBy : (n : ℕ) (xs : List A) → IsKeyedBy key xs → IsKeyedBy key (first_of n xs)
  first_of-IsKeyedBy zero xs k = tt
  first_of-IsKeyedBy (suc n) [] k = tt
  first_of-IsKeyedBy (suc n) (x ∷ xs) k =
      (All-first_of (λ (y : A). key y ≢ key x) n xs k.0, first_of-IsKeyedBy n xs k.1)

  names-apart :
      (id : Text) (xs : List A)
      → All (λ (y : A). key y ≢ id) xs
      → All (λ (name : Text). name ≢ id) (map key xs)
  names-apart id [] h = tt
  names-apart id (x ∷ xs) h = (h.0, names-apart id xs h.1)

  names-IsKeyedBy :
      (xs : List A) → IsKeyedBy key xs → IsKeyedBy (λ (name : Text). name) (map key xs)
  names-IsKeyedBy [] k = tt
  names-IsKeyedBy (x ∷ xs) k = (names-apart (key x) xs k.0, names-IsKeyedBy xs k.1)

pub best_gpus-IsKeyedBy :
    (r : GpuRequest) (gpus : List Gpu)
    → IsKeyedBy (λ (g : Gpu). g.uuid) gpus
    → IsKeyedBy (λ (name : Text). name) (best_gpus r gpus)
best_gpus-IsKeyedBy r gpus k =
    let tried = keep (is_pickable r) (sort gpu_less gpus) in
    names-IsKeyedBy (λ (g : Gpu). g.uuid) (first_of r.count tried)
      (first_of-IsKeyedBy (λ (g : Gpu). g.uuid) r.count tried
        (keep-IsKeyedBy (λ (g : Gpu). g.uuid) (is_pickable r) (sort gpu_less gpus)
          (sort-IsKeyedBy (λ (g : Gpu). g.uuid) gpu_less gpus k)))
