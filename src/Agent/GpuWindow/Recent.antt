-- ===== src/Agent/GpuWindow/Recent.antt =====
-- internal/agent/gpu_window.go: the window and its summary after a new sample.
use native.Mathlib.Nat.{div-le_of_le-mul}
use job_dock.Base.{
  ◌==◌, some, Text, sign_bit, ◌/◌, ◌<◌, lt→ltb, length-append, add64-amount, slt-amount, slt-amount,
  add64-amount, ◌≡◌, refl, sym, ap, ◌∙◌, subst, ◌≤◌, ℕ, ◌+◌, ◌*◌, Bool, true, false, List, [], ◌∷◌,
  ◌++◌, length, All, All-map, arith, Bool-cases, inl, inr, if◌then◌else◌, ltb, Int64, IsAmount,
  add64, slt,
}
use job_dock.Agent.GpuWindow.{
  some, sample_of, or_empty, GpuTelemetryBuffer, GpuDeviceUsage, Text, slide, sign_bit, entry_of,
  quotient, summarize, add_one, GpuWindowSummary, GpuWindowSample, gpu_telemetry_window, is_old,
  drop_old, totals,
}

-- In the order of their times.
abbrev pub IsOrdered : List GpuWindowSample → Type 0
IsOrdered [] = Unit {0}
IsOrdered (s ∷ window) =
    All (λ (t : GpuWindowSample). s.captured_at ≤ t.captured_at) window × IsOrdered window

-- At most ten seconds older.
abbrev pub IsRecent : ℕ → List GpuWindowSample → Type 0
IsRecent captured_at window =
    All (λ (s : GpuWindowSample). captured_at ≤ s.captured_at + gpu_telemetry_window) window

abbrev pub EndsWith : GpuWindowSample → List GpuWindowSample → Type 0
EndsWith entry window = (older : List GpuWindowSample) × (window ≡ older ++ entry ∷ [])

drop_old-window :
    (entry : GpuWindowSample) (window : List GpuWindowSample)
    → IsOrdered (window ++ entry ∷ [])
    → EndsWith entry (drop_old entry.captured_at (window ++ entry ∷ []))
      × IsOrdered (drop_old entry.captured_at (window ++ entry ∷ []))
      × IsRecent entry.captured_at (drop_old entry.captured_at (window ++ entry ∷ []))
unfolding drop_old
drop_old-window entry [] h =
    let fresh : is_old entry.captured_at entry ≡ false = ground arith in
    rw fresh (([], refl), h, (omega arith, tt))
drop_old-window entry (s ∷ window) h = elim (Bool-cases (is_old entry.captured_at s)) [
  | inl old ↦ rw old (drop_old-window entry window h.1)
  | inr young ↦ rw young (
    (s ∷ window, refl),
    h,
    (
      ground (arith, young),
      All-map (λ (t : GpuWindowSample). s.captured_at ≤ t.captured_at)
          (λ (t : GpuWindowSample). entry.captured_at ≤ t.captured_at + gpu_telemetry_window)
          (window ++ entry ∷ []) (λ t later. ground (arith, young, later)) h.0,
    ),
  )
]

-- The utilizations of a window, with no wrap.
abbrev pub sum_of : List GpuWindowSample → ℕ
sum_of [] = 0
sum_of (s ∷ window) = s.utilization + sum_of window

abbrev pub IsBoundedBy : Int64 → List GpuWindowSample → Type 0
IsBoundedBy peak window = All (λ (s : GpuWindowSample). s.utilization ≤ peak) window

totals-step :
    (total peak next : ℕ) (b : Bool) (s : GpuWindowSample) (window : List GpuWindowSample)
    → add64 total s.utilization ≡ next
    → slt peak s.utilization ≡ b
    → totals total peak (s ∷ window) ≡ totals next (if b then s.utilization else peak) window
unfolding totals
totals-step total peak next b s window sum less =
    ap (λ (t : ℕ). totals t (if slt peak s.utilization then s.utilization else peak) window) sum
    ∙ ap (λ (c : Bool). totals next (if c then s.utilization else peak) window) less

-- The total, and a peak that bounds the start and all samples.
abbrev Bounds : ℕ → ℕ → List GpuWindowSample → Int64 × Int64 → Type 0
Bounds total peak window (sum, top) =
    (sum ≡ total + sum_of window) × (peak ≤ top) × IsBoundedBy top window

totals-Bounds :
    (total peak bound : ℕ) (window : List GpuWindowSample)
    → IsAmount bound
    → total + sum_of window ≤ bound
    → peak ≤ bound
    → Bounds total peak window (totals total peak window)
unfolding totals
totals-Bounds total peak bound [] b h p = (omega arith, omega arith, tt)
totals-Bounds total peak bound (s ∷ window) b h p =
    let sum = add64-amount total s.utilization bound b (omega (arith, h)) in
    let less = slt-amount peak s.utilization (omega (arith, b, p)) (omega (arith, b, h)) in
    elim (Bool-cases (ltb peak s.utilization)) [
      | inl more ↦
          let (total', top, all) =
            totals-Bounds (total + s.utilization) s.utilization bound window b (omega (arith, h))
              (omega (arith, h)) in
          subst (Bounds total peak (s ∷ window))
            (sym (totals-step total peak (total + s.utilization) true s window sum (less ∙ more)))
            (omega (arith, total'), ground (arith, more, top), (top, all))
      | inr most ↦
          let (total', top, all) =
            totals-Bounds (total + s.utilization) peak bound window b (omega (arith, h)) p in
          subst (Bounds total peak (s ∷ window))
            (sym (totals-step total peak (total + s.utilization) false s window sum (less ∙ most)))
            (omega (arith, total'), top, (ground (arith, most, top), all))
    ]

sum_of-bounded :
    (peak : ℕ) (window : List GpuWindowSample)
    → IsBoundedBy peak window
    → sum_of window ≤ length window * peak
sum_of-bounded peak [] h = omega arith
sum_of-bounded peak (s ∷ window) h = omega (arith, h.0, sum_of-bounded peak window h.1)

-- The summary of a window that is not empty.
pub record Summarizes (window : List GpuWindowSample) (entry : GpuWindowSample)
    (summary : GpuWindowSummary) : Type 0 where
  pub counts : summary.count ≡ length window
  pub some_sample : 0 < summary.count
  pub bounded : IsBoundedBy summary.peak window
  pub average_below : summary.average ≤ summary.peak
  pub newest : summary.latest ≡ entry

quotient-amount : (total count : ℕ) → IsAmount total → quotient total count ≡ total / count
unfolding quotient
quotient-amount total count h = rw (lt→ltb total sign_bit h) refl

EndsWith-length :
    (entry : GpuWindowSample) (window : List GpuWindowSample)
    → EndsWith entry window
    → 0 < length window
EndsWith-length entry window (older, e) =
    omega (arith, ap length e, length-append older (entry ∷ []))

summarize-Summarizes :
    (entry : GpuWindowSample) (window : List GpuWindowSample)
    → EndsWith entry window
    → IsAmount (sum_of window)
    → Summarizes window entry (summarize entry window)
unfolding summarize
summarize-Summarizes entry window ends small =
    let (sum, _, all) =
      totals-Bounds 0 0 (sum_of window) window small (omega arith) (omega arith) in
    let peak = (totals 0 0 window).1 in
    let total : (totals 0 0 window).0 ≡ sum_of window = omega (arith, sum) in
    let average : quotient (totals 0 0 window).0 (length window) ≡ sum_of window / length window =
      ap (λ (t : ℕ). quotient t (length window)) total
      ∙ quotient-amount (sum_of window) (length window) small in
    record {
      counts = refl;
      some_sample = EndsWith-length entry window ends;
      bounded = all;
      average_below =
          subst (λ (a : ℕ). a ≤ peak) (sym average)
            (div-le_of_le-mul (length window) (sum_of-bounded peak window all));
      newest = refl;
    }

-- After a sample of a GPU that is not older than the samples kept of it, which are in the order of
-- their times, and if the utilizations of the new window do not add up to 2 ^ 63: the window ends with
-- the sample, is in order, and has no sample more than ten seconds older; and its summary counts its
-- samples, at least one, has a peak that none exceeds, an average that does not exceed the peak, and
-- the sample as the latest.
pub add_one-Summarizes :
    (uuid : Text) (value : GpuDeviceUsage) (b : GpuTelemetryBuffer)
    → IsOrdered (or_empty (entry_of uuid b.samples) ++ sample_of value ∷ [])
    → IsAmount (sum_of (slide (sample_of value) (or_empty (entry_of uuid b.samples))))
    → (window : List GpuWindowSample) × (summary : GpuWindowSummary) × (entry_of uuid
          (add_one uuid value b).samples
        ≡ some window)
      × (entry_of uuid (add_one uuid value b).summaries ≡ some summary)
      × EndsWith (sample_of value) window
      × IsOrdered window
      × IsRecent value.sampled_at window
      × Summarizes window (sample_of value) summary
unfolding add_one entry_of slide
add_one-Summarizes uuid value b ordered small =
    let old = or_empty (entry_of uuid b.samples) in
    let entry = sample_of value in
    let here : (uuid == uuid) ≡ true = ground arith in
    let (ends, in_order, recent) = drop_old-window entry old ordered in
    (
      slide entry old,
      summarize entry (slide entry old),
      rw here refl,
      rw here refl,
      ends,
      in_order,
      recent,
      summarize-Summarizes entry (slide entry old) ends small,
    )
