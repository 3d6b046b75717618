-- ===== src/Scheduler/Found.antt =====
-- What `selectNode` answers: a best placement that a registered node can give, or none is possible.
use job_dock.Base.{
  count_if, sym, count_if-sort, IsSorted, ap, ◌<◌, ◌≡◌, refl, inl, inr, true, false, List, [], ◌∷◌,
  Memᴰ, arith, All, All-here, All-snoc, All-sort, All-of_sort, sort, sort-IsSorted, subst, length,
  ◌≤◌, length-append,
}
use job_dock.Domain.Types.{JobSpec, Node}
use job_dock.Scheduler.Select.{Candidate, Seen, nothing_seen, examine, scan}
use job_dock.Scheduler.Waiting.{selected, waiting, Reason, candidate_less, first, select_node}
use job_dock.Scheduler.Placement.{IsSizedSpec, IsSized, Places}
use job_dock.Scheduler.Examine.{examine-Grows}
use job_dock.Scheduler.Offers.{Offers, examine-Offers}
use job_dock.Scheduler.Order.{candidate_less-IsOrder}

-- The candidate is on a node of the list and its node can take the job.
abbrev pub IsSound : JobSpec → List Node → Candidate → Type 0
IsSound spec all c = Memᴰ c.node all × Places spec c

module _ (spec : JobSpec) (z : IsSizedSpec spec) where
  examine-IsSound :
      (all : List Node) (node : Node) (s : Seen)
      → IsSized node
      → Memᴰ node all
      → All (IsSound spec all) s.candidates
      → All (IsSound spec all) (examine spec node s).candidates
  examine-IsSound all node s n m h = elim (examine-Grows spec node z n s) [
    | inl same ↦ subst (All (IsSound spec all)) (sym same) h
    | inr (c, e, on, places) ↦
        subst (All (IsSound spec all)) (sym e) (
          All-snoc (IsSound spec all) s.candidates c h (subst (λ x. Memᴰ x all) (sym on) m, places))
  ]

  scan-IsSound :
      (all nodes : List Node) (s : Seen)
      → All IsSized nodes
      → All (λ n. Memᴰ n all) nodes
      → All (IsSound spec all) s.candidates
      → All (IsSound spec all) (scan spec nodes s).candidates
  unfolding scan
  scan-IsSound all [] s n m h = h
  scan-IsSound all (node ∷ nodes) s n m h =
      scan-IsSound all nodes (examine spec node s) n.1 m.1 (examine-IsSound all node s n.0 m.0 h)

  length-examine-le :
      (node : Node) (s : Seen)
      → IsSized node
      → length s.candidates ≤ length (examine spec node s).candidates
  length-examine-le node s n = elim (examine-Grows spec node z n s) [
    | inl same ↦ omega (arith, ap length same)
    | inr (c, e, _, _) ↦ omega (arith, ap length e, length-append s.candidates (c ∷ []))
  ]

  length-scan-le :
      (nodes : List Node) (s : Seen)
      → All IsSized nodes
      → length s.candidates ≤ length (scan spec nodes s).candidates
  unfolding scan
  length-scan-le [] s n = omega arith
  length-scan-le (node ∷ nodes) s n =
      omega (arith, length-examine-le node s n.0, length-scan-le nodes (examine spec node s) n.1)

  scan-Offers :
      (nodes : List Node) (s : Seen) {node : Node}
      → All IsSized nodes
      → Memᴰ node nodes
      → Offers spec node
      → 0 < length (scan spec nodes s).candidates
  unfolding scan
  scan-Offers [] s n m o = elim m [ ]
  scan-Offers (x ∷ nodes) s n (Memᴰ.head e) o =
      let (c, added) = examine-Offers spec x s z n.0 (subst (Offers spec) e o) in
      omega (
        arith,
        ap length added,
        length-append s.candidates (c ∷ []),
        length-scan-le nodes (examine spec x s) n.1,
      )
  scan-Offers (x ∷ nodes) s n (Memᴰ.tail m) o = scan-Offers nodes (examine spec x s) n.1 m o

abbrev pub Best : List Candidate → Candidate → Type 0
Best cs c = All (λ (d : Candidate). candidate_less d c ≡ false) cs

first-selected :
    (spec : JobSpec) (s : Seen) (cs : List Candidate) (c : Candidate)
    → first spec s cs ≡ selected c
    → (rest : List Candidate) × (cs ≡ c ∷ rest)
unfolding first
first-selected spec s [] c e = cc
first-selected spec s (x ∷ rest) c e = (rest, ground arith)

first-waiting :
    (spec : JobSpec) (s : Seen) (cs : List Candidate) (r : Reason)
    → first spec s cs ≡ waiting r
    → cs ≡ []
unfolding first
first-waiting spec s [] r e = refl
first-waiting spec s (x ∷ rest) r e = cc

-- A selected candidate is on a registered node that offers all that the job asks for, with the
-- requested number of GPUs that no job holds, and no candidate found on any node is better, if
-- amounts are not negative as int64.
pub select_node-selected :
    (spec : JobSpec) (nodes : List Node) (c : Candidate)
    → IsSizedSpec spec
    → All IsSized nodes
    → select_node spec nodes ≡ selected c
    → Memᴰ c.node nodes × Places spec c × Best (scan spec nodes nothing_seen).candidates c
unfolding select_node
select_node-selected spec nodes c z n e =
    let found = (scan spec nodes nothing_seen).candidates in
    let (rest, split) = first-selected spec _ (sort candidate_less found) c e in
    let sound =
      All-sort candidate_less (IsSound spec nodes) found
        (scan-IsSound spec z nodes nodes nothing_seen n (All-here nodes) tt) in
    let (place, _) = subst (All (IsSound spec nodes)) split sound in
    let sorted =
      subst (IsSorted candidate_less candidate_less-IsOrder) split
        (sort-IsSorted candidate_less candidate_less-IsOrder found) in
    let best : Best (c ∷ rest) c = (irrefl, sorted.0) in
    (
      place.0,
      place.1,
      All-of_sort candidate_less (λ d. candidate_less d c ≡ false) found
          (subst (λ cs. Best cs c) (sym split) best),
    )
  where
    irrefl : candidate_less c c ≡ false
    irrefl = ground (arith, candidate_less-IsOrder.asym c c)

-- A job waits only when no registered node offers all that it asks for, if amounts are not
-- negative as int64.
pub select_node-waiting :
    (spec : JobSpec) (nodes : List Node) (r : Reason) (node : Node)
    → IsSizedSpec spec
    → All IsSized nodes
    → select_node spec nodes ≡ waiting r
    → Memᴰ node nodes
    → ¬ Offers spec node
unfolding select_node
select_node-waiting spec nodes r node z n e m o =
    let found = (scan spec nodes nothing_seen).candidates in
    absurd (
      omega (
        arith,
        scan-Offers spec z nodes nothing_seen n m o,
        count_if-sort candidate_less (λ _. true) found,
        ap (count_if (λ _. true)) (first-waiting spec _ (sort candidate_less found) r e),
      ))
