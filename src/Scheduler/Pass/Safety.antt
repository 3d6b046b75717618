-- ===== src/Scheduler/Pass/Safety.antt =====
-- internal/scheduler/scheduler.go: capacity and GPUs over a whole pass.
use job_dock.Domain.Status.{queued}
use job_dock.Store.Lookup.{IsKeyed}
use job_dock.Base.{
  All-here, unique_by_key, ◌==◌, find_if_found, All-keep, keep, All-sort, Option-cases, refl, ◌+◌,
  ◌⊎◌, ◌∷◌, Option, ℕ, [], All-Memᴰ, inl, inr, subst, arith, sym, ap, All-map, All, ◌∙◌, List, Text,
  ◌≡◌, Memᴰ,
}
use job_dock.Domain.Types.{Job, Node}
use job_dock.Store.Tables.{
  raw_telemetry, constraint, not_found, conflict, StoreError, Outcome, Db, done,
}
use job_dock.Store.Jobs.{◌is◌, job, reserve}
use job_dock.Store.Reserving.{reserve-cases}
use job_dock.Capacity.{snapshot}
use job_dock.Capacity.Nodes.{IsKeyedNodes}
use job_dock.Scheduler.Select.{Candidate}
use job_dock.Scheduler.Waiting.{message, Reason, Selection, code, select_node, selected, waiting}
use job_dock.Scheduler.Placement.{IsSizedSpec}
use job_dock.Scheduler.Pass.{
  queued, schedule, queued_jobs, conflict, StoreError, reservation_of, sealed, message, code,
  Outcome, List, Text, reserve_in_snapshot, schedule_jobs, Drawn,
}
use job_dock.Scheduler.Pass.Room.{Fits}
use job_dock.Scheduler.Pass.Exclusive.{IsExclusive}
use job_dock.Scheduler.Pass.Steps.{Steady-reserved, Steady-delayed}
use job_dock.Scheduler.Pass.Steady.{FirstRuns, Known-All, Known, Steady}

Selection-cases :
    (s : Selection) → ((r : Reason) × (s ≡ waiting r)) ⊎ ((c : Candidate) × (s ≡ selected c))
Selection-cases (waiting r) = inl (r, refl)
Selection-cases (selected c) = inr (c, refl)

List-cases : (xs : List Job) → (xs ≡ []) ⊎ ((x : Job) × (rest : List Job) × (xs ≡ x ∷ rest))
List-cases [] = inl refl
List-cases (x ∷ rest) = inr (x, rest, refl)

StoreError-cases :
    (e : StoreError) → (e ≡ conflict) ⊎ (e ≡ not_found) ⊎ (e ≡ constraint) ⊎ (e ≡ raw_telemetry)
StoreError-cases conflict = inl refl
StoreError-cases not_found = inr (inl refl)
StoreError-cases constraint = inr (inr (inl refl))
StoreError-cases raw_telemetry = inr (inr (inr refl))

module _ (draw : ℕ → Drawn) (hash : Text → Text) (encrypt : Text → Text → Option Text)
    (clock : ℕ → Text) where
  schedule_jobs-Steady :
      (nodes kept : List Node) (n : ℕ) (js : List Job) (db : Db)
      → Steady nodes db kept
      → All (Known db) js
      → (kept' : List Node) × Steady nodes
          (schedule_jobs draw hash encrypt clock (λ _ d. d) n js kept db).0
          kept'
  unfolding schedule_jobs
  schedule_jobs-Steady nodes kept n [] db st known = (kept, st)
  schedule_jobs-Steady nodes kept n (j ∷ js) db st known =
      elim (Selection-cases (select_node j.spec kept)) [
        | inl (r, waits_for) ↦
            let (st', specs) = Steady-delayed nodes kept j.id (code r) (message j.spec r) db st in
            rw (waits_for, schedule_jobs)
              (schedule_jobs-Steady nodes kept (n + 1) js _ st' (Known-All db _ js specs known.1))
        | inr (c, sel) ↦ elim (Option-cases (sealed draw hash encrypt clock (λ _ d. d) n)) [
          | inl unsealed ↦ rw (sel, schedule_jobs, unsealed) (kept, st)
          | inr (ciphertext, ok) ↦
              let r = reservation_of draw hash encrypt clock (λ _ d. d) n j c ciphertext in
              elim (reserve-cases r (clock n) db) [
                | inl (same, (e, bad)) ↦
                    let st' : Steady nodes (reserve r (clock n) db).0 kept =
                      subst (λ d. Steady nodes d kept) (sym same) st in
                    let known' : All (Known (reserve r (clock n) db).0) js =
                      subst (λ d. All (Known d) js) (sym same) known.1 in
                    elim (StoreError-cases e) [
                      | inl which ↦
                          let conflicts = bad ∙ ap Outcome.failed which in
                          rw (sel, schedule_jobs, ok, conflicts)
                            (schedule_jobs-Steady nodes kept (n + 1) js _ st' known')
                      | inr (inl which) ↦
                          let stops = bad ∙ ap Outcome.failed which in
                          rw (sel, schedule_jobs, ok, stops) (kept, st')
                      | inr (inr (inl which)) ↦
                          let stops = bad ∙ ap Outcome.failed which in
                          rw (sel, schedule_jobs, ok, stops) (kept, st')
                      | inr (inr (inr which)) ↦
                          let stops = bad ∙ ap Outcome.failed which in
                          rw (sel, schedule_jobs, ok, stops) (kept, st')
                    ]
                | inr (all, _, _) ↦
                    let good : (reserve r (clock n) db).1 ≡ done =
                      ap (λ (p : Db × Outcome). p.1) all in
                    let (st', specs) =
                      Steady-reserved nodes kept r (clock n) db j c st known.0 sel refl refl refl
                        good in
                    rw (sel, schedule_jobs, ok, good)
                      (schedule_jobs-Steady nodes
                        (reserve_in_snapshot kept c.node.id j.spec.resources c.gpu_uuids) (n + 1) js
                        _ st' (Known-All db _ js specs known.1))
              ]
        ]
      ]

  -- The jobs read at the start are known.
  queued-Known :
      (db : Db)
      → IsKeyed db.jobs
      → All (λ (j : Job). IsSizedSpec j.spec) db.jobs
      → All (Known db) (queued_jobs db)
  unfolding queued_jobs job
  queued-Known db k sized = All-sort _ (Known db) (keep (λ (j : Job). j.status is queued) db.jobs) (
      All-keep (Known db) (λ (j : Job). j.status is queued) db.jobs
        (All-map (λ (j : Job). Memᴰ j db.jobs) (Known db) db.jobs
          (λ j m. (
            All-Memᴰ (λ (i : Job). IsSizedSpec i.spec) db.jobs sized m,
            λ i found.
                let (there, named) = find_if_found (λ (x : Job). x.id == j.id) db.jobs found in
                ap (λ (x : Job). x.spec)
                  (unique_by_key (λ (x : Job). x.id) db.jobs i j k there m (ground (arith, named))),
          ))
          (All-here db.jobs)))

  -- An undisturbed pass over queued jobs that never ran leaves no node with more CPU, memory or
  -- package capacity allocated than it has, and no GPU of a node kept for two jobs, if it was so
  -- before, amounts are not negative as int64, and no two rows have one key.
  pub schedule-Safe :
      (nodes : List Node) (db : Db)
      → IsKeyedNodes nodes
      → IsKeyed db.jobs
      → All (λ (j : Job). IsSizedSpec j.spec) db.jobs
      → FirstRuns db
      → All Fits (snapshot nodes db)
      → IsExclusive db
      → let after = (schedule draw hash encrypt clock (λ _ d. d) nodes db).0 in
        All Fits (snapshot nodes after) × IsExclusive after
  unfolding schedule
  schedule-Safe nodes db kn kj sized first fits ex = elim (List-cases (queued_jobs db)) [
    | inl none_waits ↦ rw (none_waits, schedule) (fits, ex)
    | inr (j, js, some_wait) ↦
        let st : Steady nodes db (snapshot nodes db) = record {
          keyed_nodes = kn;
          keyed = kj;
          fresh = refl;
          fits = fits;
          first_runs = first;
          exclusive = ex;
        } in
        let (kept, st') =
          schedule_jobs-Steady nodes (snapshot nodes db) 1 (j ∷ js) db st
            (subst (All (Known db)) some_wait (queued-Known db kj sized)) in
        rw (some_wait, schedule) (subst (All Fits) st'.fresh st'.fits, st'.exclusive)
  ]
