-- ===== src/Tests/Scheduling.antt =====
-- The choice of a node for a job.
use job_dock.Base.{
  length, none, Memᴰ, ◌≡◌, refl, ◌∷◌, [], arith, codes, Text-discrete, slt, eq64, rank, add64,
  sub64, sort, text_ltb, All,
}
use job_dock.Domain.Status.{NodeStatus-discrete}
use job_dock.Scheduler.Match.{labels_match}
use job_dock.Scheduler.Gpus.{gpu_less, pick}
use job_dock.Scheduler.Select.{
  Candidate, candidate, nothing_seen, choose_gpus, picked, affinity, place, add_candidate, examine,
  scan,
}
use job_dock.Scheduler.Waiting.{
  selected, waiting, insufficient_cpu, select_node, first, reason, candidate_less,
}
use job_dock.Scheduler.Placement.{IsSizedSpec, IsSized, Places}
use job_dock.Scheduler.Found.{Best, select_node-selected, select_node-waiting}
use job_dock.Scheduler.Offers.{Offers}
use job_dock.Scheduler.Admission.{HasDistinctGpus, select_node-accepted}
use job_dock.Domain.Validation.Specs.{
  validate_job_spec, validate_request, validate_resources, validate_package, validate_environment,
  validate_secrets, validate_files, validate_inputs,
}
use job_dock.Domain.Validation.Accepted.{AreDistinct, IsRepresented}
use job_dock.Go.Trim.{trim_space, trim_left, trim_from, space_width}
use job_dock.Tests.Samples.{training, node_a, node_b}

abbrev placed : Candidate
placed = candidate training node_a ([], []) (codes "g2" ∷ [], 6)

selects_a : select_node training (node_b ∷ node_a ∷ []) ≡ selected placed
unfolding select_node scan examine labels_match Text-discrete NodeStatus-discrete slt eq64 rank
    sub64 add64 place affinity choose_gpus picked pick sort gpu_less text_ltb add_candidate first
    candidate_less
selects_a = refl

training-IsSizedSpec : IsSizedSpec training
training-IsSizedSpec = omega arith

both-IsSized : All IsSized (node_b ∷ node_a ∷ [])
both-IsSized = (omega arith, (omega arith, tt))

select_node-selected_example :
    Memᴰ placed.node (node_b ∷ node_a ∷ [])
    × Places training placed
    × Best (scan training (node_b ∷ node_a ∷ []) nothing_seen).candidates placed
select_node-selected_example =
    select_node-selected training (node_b ∷ node_a ∷ []) placed training-IsSizedSpec both-IsSized
      selects_a

waits_for_cpu : select_node training (node_b ∷ []) ≡ waiting insufficient_cpu
unfolding select_node scan examine labels_match Text-discrete NodeStatus-discrete slt rank sub64
    sort first reason
waits_for_cpu = refl

select_node-waiting_example : ¬ Offers training node_b
select_node-waiting_example =
    select_node-waiting training (node_b ∷ []) insufficient_cpu node_b training-IsSizedSpec
      (omega arith, tt) waits_for_cpu (Memᴰ.head refl)

training-IsRepresented : IsRepresented training
training-IsRepresented = omega arith

accepts_training : validate_job_spec training ≡ none
unfolding validate_job_spec validate_request validate_resources validate_package
    validate_environment validate_secrets validate_files validate_inputs trim_space trim_left
    trim_from space_width slt rank
accepts_training = refl

gpus-HasDistinctGpus : HasDistinctGpus node_a
gpus-HasDistinctGpus = (((λ e. ground (arith, e)), tt), (tt, tt))

both-HasDistinctGpus : All HasDistinctGpus (node_b ∷ node_a ∷ [])
both-HasDistinctGpus = (gpus-HasDistinctGpus, (gpus-HasDistinctGpus, tt))

select_node-accepted_example :
    Memᴰ placed.node (node_b ∷ node_a ∷ [])
    × Places training placed
    × Best (scan training (node_b ∷ node_a ∷ []) nothing_seen).candidates placed
    × AreDistinct placed.gpu_uuids
    × (length placed.gpu_uuids ≡ training.resources.gpu.count)
select_node-accepted_example =
    select_node-accepted training (node_b ∷ node_a ∷ []) placed training-IsRepresented
      accepts_training both-IsSized both-HasDistinctGpus selects_a
