-- ===== src/Store/Nodes.antt =====
-- internal/store/store.go: the credentials and the statuses of nodes, and the end of a node. The GPUs of
-- a node, which DeleteNode deletes too, are no table of this database.
pub mod Revoked
use job_dock.Base.{
  Bool, true, false, not, ◌&&◌, ◌||◌, Option, none, some, List, [], ◌∷◌, ◌++◌, Text, ◌==◌, codes,
  if◌then◌else◌, any, find_if, count_if, eqb, is_empty, text_ltb,
}
use job_dock.Domain.Status.{NodeStatus, offline, is_active}
use job_dock.Domain.Types.{Job}
use job_dock.Store.Tables.{Db, NodeRow, Outcome, done, not_found, conflict, constraint, update}

abbrev pub is_unset : Option Text → Bool
is_unset none = true
is_unset (some _) = false

-- id=? AND deleted_at IS NULL
abbrev pub is_live : Text → NodeRow → Bool
is_live id n = n.id == id && is_unset n.deleted_at

-- previous_credential_hash=? AND previous_credential_expires_at>?, which NULL does not pass.
abbrev pub opens_for_now : Text → Text → NodeRow → Bool
opens_for_now now hash n = elim n.previous_credential_hash [
  | none ↦ false
  | some h ↦
      h == hash
      && elim n.previous_credential_expires_at [ none ↦ false | some until ↦ text_ltb now until ]
]

abbrev pub opens : Text → Text → NodeRow → Bool
opens now hash n = is_unset n.deleted_at && (n.credential_hash == hash || opens_for_now now hash n)

unfoldable pub node_by_credential : Text → Text → Db → Option NodeRow
node_by_credential now hash db = find_if (opens now hash) db.nodes

-- The credential is unique; `until` is ten minutes after `now`.
abbrev pub is_others : Text → Text → NodeRow → Bool
is_others id hash n = not (n.id == id) && (n.credential_hash == hash)

abbrev pub rotated : Text → Text → Text → NodeRow → NodeRow
rotated now until hash n = record n {
  previous_credential_hash = some n.credential_hash;
  previous_credential_expires_at = some until;
  credential_hash = hash;
  credential_created_at = now;
}

unfoldable pub rotate_node_credential : Text → Text → Text → Text → Db → Db × Outcome
rotate_node_credential now until id hash db =
    if not (any (is_live id) db.nodes)
    then (db, Outcome.failed not_found)
    else if any (is_others id hash) db.nodes
    then (db, Outcome.failed constraint)
    else (record db { nodes = update (is_live id) (rotated now until hash) db.nodes }, done)

unfoldable pub set_node_status : Text → NodeStatus → Db → Db × Outcome
set_node_status id status db =
    if not (any (is_live id) db.nodes) then (db, Outcome.failed not_found) else (
      record db { nodes = update (is_live id) (λ n. record n { status = status }) db.nodes },
      done,
    )

abbrev pub is_active_on : Text → Job → Bool
is_active_on id j = j.assigned_node_id == id && is_active j.status

abbrev pub revoked_hash : Text → Text
revoked_hash id = codes "revoked:" ++ id

abbrev pub revoked : Text → Text → NodeRow → NodeRow
revoked now id n = record n {
  status = offline;
  deleted_at = some now;
  credential_hash = revoked_hash id;
  previous_credential_hash = none;
  previous_credential_expires_at = none;
}

-- The node is there and not deleted.
abbrev pub is_there : Option NodeRow → Bool
is_there none = false
is_there (some n) = is_unset n.deleted_at

unfoldable pub delete_node : Text → Text → Db → Db × Outcome
delete_node now id db =
    if not (is_there (find_if (λ n. n.id == id) db.nodes))
    then (db, Outcome.failed not_found)
    else if any (is_active_on id) db.jobs
    then (db, Outcome.failed conflict)
    else if any (is_others id (revoked_hash id)) db.nodes
    then (db, Outcome.failed constraint)
    else if not (eqb (count_if (is_live id) db.nodes) 1)
    then (db, Outcome.failed not_found)
    else (record db { nodes = update (is_live id) (revoked now id) db.nodes }, done)
