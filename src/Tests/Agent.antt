-- ===== src/Tests/Agent.antt =====
-- Output that comes in pieces, with a secret cut in two; and samples of a GPU.
use job_dock.Base.{
  ◌*◌, IsAmount, none, some, Text-discrete, List, ℕ, ◌≡◌, refl, codes, Text, [], ◌∷◌, ◌++◌, arith,
  Memᴰ, false,
}
use job_dock.Go.Bytes.{has_prefix}
use job_dock.Agent.GpuWindow.{
  GpuDeviceUsage, GpuTelemetryBuffer, GpuWindowSample, GpuWindowSummary, sample_of, add_one,
  entry_of, slide, drop_old, or_empty,
}
use job_dock.Agent.GpuWindow.Recent.{
  IsOrdered, IsRecent, EndsWith, Summarizes, add_one-Summarizes, sum_of,
}
use job_dock.Agent.Redactor.{StreamRedactor, new_redactor, push, flush, mask, mask_secret, longest}
use job_dock.Agent.Redactor.Stream.{push_all, push_all-mask}
use job_dock.Agent.Redactor.Masked.{occurs, mask-occurs}

abbrev token : Text
token = codes "hunter2"

abbrev redactor : StreamRedactor
redactor = record { secrets = token ∷ []; pending = []; max = 7 }

makes_it : new_redactor ([] ∷ token ∷ []) ≡ redactor
unfolding new_redactor longest
makes_it = refl

passes_on : (push_all (codes "key=hun" ∷ codes "ter2;" ∷ []) redactor).1 ≡ codes "key=**"
unfolding push_all push mask mask_secret has_prefix
passes_on = refl

push_all-mask_example :
    (push_all (codes "key=hun" ∷ codes "ter2;" ∷ []) redactor).1
      ++ (flush (push_all (codes "key=hun" ∷ codes "ter2;" ∷ []) redactor).0).1
    ≡ mask (token ∷ []) (codes "key=hunter2;")
push_all-mask_example =
    push_all-mask token (λ e. ground (arith, e)) refl (codes "key=hun" ∷ codes "ter2;" ∷ [])
      redactor (record { only = refl; long = refl })

mask-occurs_example :
    occurs token (mask (codes "abc" ∷ token ∷ []) (codes "abc hunter2 hunter22")) ≡ false
mask-occurs_example =
    mask-occurs token (λ e. ground (arith, e)) refl (codes "abc" ∷ token ∷ [])
      (codes "abc hunter2 hunter22") (Memᴰ.tail (Memᴰ.head refl))

abbrev usage : ℕ → ℕ → GpuDeviceUsage
usage utilization at_second = record {
  utilization_basis_points = utilization;
  memory_bytes = 7;
  temperature_celsius = none;
  sampled_at = at_second * 1_000_000_000;
}

abbrev buffer : GpuTelemetryBuffer
buffer = record {
  devices = codes "g1" ∷ [];
  samples = (codes "g1", sample_of (usage 100 1) ∷ sample_of (usage 300 5) ∷ []) ∷ [];
  summaries = [];
}

times-IsOrdered :
    IsOrdered (sample_of (usage 100 1) ∷ sample_of (usage 300 5) ∷ sample_of (usage 500 12) ∷ [])
times-IsOrdered = ((omega arith, (omega arith, tt)), ((omega arith, tt), (tt, tt)))

kept-IsOrdered :
    IsOrdered (or_empty (entry_of (codes "g1") buffer.samples) ++ sample_of (usage 500 12) ∷ [])
unfolding entry_of Text-discrete
kept-IsOrdered = times-IsOrdered

small :
    IsAmount
      (sum_of (slide (sample_of (usage 500 12)) (or_empty (entry_of (codes "g1") buffer.samples))))
unfolding slide drop_old entry_of Text-discrete
small = omega arith

two_left :
    slide (sample_of (usage 500 12)) (or_empty (entry_of (codes "g1") buffer.samples))
    ≡ sample_of (usage 300 5) ∷ sample_of (usage 500 12) ∷ []
unfolding slide drop_old entry_of Text-discrete
two_left = refl

add_one-Summarizes_example :
    (window : List GpuWindowSample) × (summary : GpuWindowSummary) × (entry_of
        (codes "g1")
        (add_one (codes "g1") (usage 500 12) buffer).samples
      ≡ some window)
    × (entry_of (codes "g1") (add_one (codes "g1") (usage 500 12) buffer).summaries ≡ some summary)
    × EndsWith (sample_of (usage 500 12)) window
    × IsOrdered window
    × IsRecent 12_000_000_000 window
    × Summarizes window (sample_of (usage 500 12)) summary
add_one-Summarizes_example =
    add_one-Summarizes (codes "g1") (usage 500 12) buffer kept-IsOrdered small
