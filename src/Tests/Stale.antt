-- ===== src/Tests/Stale.antt =====
-- A node that is silent since the morning, and a job on it that ends before it is marked.
use job_dock.Base.{
  text_ltb, true, ◌≡◌, refl, codes, any, find_if, false, not, ◌&&◌, ◌∷◌, [], some, Text-discrete,
  ◌==◌,
}
use job_dock.Domain.Status.{lost, succeeded}
use job_dock.Store.Tables.{Attempt, Db, done}
use job_dock.Store.Jobs.{job, ◌is◌}
use job_dock.Store.Stale.{mark_stale_nodes, lose_one, is_silent, is_up, is_on_silent}
use job_dock.Store.Stale.Losing.{alone, lose_one_late}
use job_dock.Store.Stale.Swept.{mark_stale_nodes_swept}
use job_dock.Tests.Samples.{busy_db, running_job, noon}

abbrev late_db : Db
late_db = record busy_db { jobs = record running_job { status = succeeded } ∷ [] }

finds_late : job late_db (codes "j") ≡ some (record running_job { status = succeeded })
unfolding job find_if Text-discrete
finds_late = refl

finds_silent : any (is_on_silent noon busy_db.nodes) busy_db.jobs ≡ true
unfolding Text-discrete text_ltb
finds_silent = refl

mark_stale_nodes_swept_example :
    ((mark_stale_nodes alone noon noon noon busy_db).1 ≡ done)
    × (any
          (λ n. is_silent noon n && is_up n.status)
          (mark_stale_nodes alone noon noon noon busy_db).0.nodes
        ≡ false)
    × (any
          (is_on_silent noon (mark_stale_nodes alone noon noon noon busy_db).0.nodes)
          (mark_stale_nodes alone noon noon noon busy_db).0.jobs
        ≡ false)
mark_stale_nodes_swept_example = mark_stale_nodes_swept noon noon noon busy_db

lose_one_late_example :
    ((lose_one alone noon 1 (codes "j") late_db).1 ≡ done)
    × ((lose_one alone noon 1 (codes "j") late_db).0.jobs ≡ late_db.jobs)
    × (any
          (λ (a : Attempt). a.id == codes "t" && not (a.status is lost))
          (lose_one alone noon 1 (codes "j") late_db).0.attempts
        ≡ false)
unfolding Text-discrete
lose_one_late_example =
    lose_one_late (codes "j") noon 1 late_db (record running_job { status = succeeded }) finds_late
      refl
