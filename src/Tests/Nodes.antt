-- ===== src/Tests/Nodes.antt =====
-- A node without active jobs is deleted.
use job_dock.Base.{true, ◌≡◌, refl, codes, any, find_if, false, Text-discrete}
use job_dock.Domain.Status.{online}
use job_dock.Store.Tables.{Outcome, done, not_found}
use job_dock.Store.Nodes.{
  node_by_credential, rotate_node_credential, set_node_status, delete_node, is_active_on,
}
use job_dock.Store.Nodes.Revoked.{delete_node-Revoked, is_row_of}
use job_dock.Tests.Samples.{waiting_db, noon}

opened : is_row_of (codes "a") (node_by_credential noon (codes "k") waiting_db) ≡ true
unfolding node_by_credential find_if Text-discrete
opened = refl

deletes : (delete_node noon (codes "a") waiting_db).1 ≡ done
unfolding delete_node find_if Text-discrete
deletes = refl

delete_node-Revoked_example :
    (any (is_active_on (codes "a")) (delete_node noon (codes "a") waiting_db).0.jobs ≡ false)
    × (is_row_of
          (codes "a")
          (node_by_credential noon (codes "k") (delete_node noon (codes "a") waiting_db).0)
        ≡ false)
    × (rotate_node_credential noon
          (codes "u")
          (codes "a")
          (codes "k2")
          (delete_node noon (codes "a") waiting_db).0
        ≡ ((delete_node noon (codes "a") waiting_db).0, Outcome.failed not_found))
    × (set_node_status (codes "a") online (delete_node noon (codes "a") waiting_db).0
        ≡ ((delete_node noon (codes "a") waiting_db).0, Outcome.failed not_found))
    × (delete_node noon (codes "a") (delete_node noon (codes "a") waiting_db).0
        ≡ ((delete_node noon (codes "a") waiting_db).0, Outcome.failed not_found))
delete_node-Revoked_example =
    delete_node-Revoked noon noon (codes "u") (codes "a") (codes "k") (codes "k2") online waiting_db
      deletes
