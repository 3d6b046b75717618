-- ===== src/Store/Nodes/Revoked.antt =====
-- internal/store/store.go: nothing is left to a deleted node.
use job_dock.Base.{
  inr, inl, ◌≡◌, refl, Bool, false, Option, none, some, List, [], ◌∷◌, Text, ◌==◌, any, find_if,
  arith, Bool-cases,
}
use job_dock.Domain.Status.{NodeStatus}
use job_dock.Store.Tables.{Db, NodeRow, Outcome, done, not_found, update}
use job_dock.Store.Nodes.{
  is_live, opens, node_by_credential, rotate_node_credential, set_node_status, delete_node, revoked,
  is_there, is_active_on,
}

-- The row that a query found is of the node.
abbrev pub is_row_of : Text → Option NodeRow → Bool
is_row_of id none = false
is_row_of id (some n) = n.id == id

revoked-live :
    (now id : Text) (rows : List NodeRow)
    → any (is_live id) (update (is_live id) (revoked now id) rows) ≡ false
revoked-live now id [] = refl
revoked-live now id (n ∷ rows) = elim (Bool-cases (is_live id n)) [
  | inl hit ↦ rw hit (ground (arith, revoked-live now id rows))
  | inr miss ↦ rw miss (ground (arith, miss, revoked-live now id rows))
]

find_if-live :
    (now hash id : Text) (rows : List NodeRow)
    → any (is_live id) rows ≡ false
    → is_row_of id (find_if (opens now hash) rows) ≡ false
unfolding find_if
find_if-live now hash id [] gone = refl
find_if-live now hash id (n ∷ rows) gone = elim (Bool-cases (opens now hash n)) [
  | inl hit ↦ rw hit (ground (arith, gone, hit))
  | inr miss ↦ rw miss (find_if-live now hash id rows (ground (arith, gone)))
]

find_if-there :
    (id : Text) (rows : List NodeRow)
    → any (is_live id) rows ≡ false
    → is_there (find_if (λ n. n.id == id) rows) ≡ false
unfolding find_if
find_if-there id [] gone = refl
find_if-there id (n ∷ rows) gone = elim (Bool-cases (n.id == id)) [
  | inl hit ↦ rw hit (ground (arith, gone, hit))
  | inr miss ↦ rw miss (find_if-there id rows (ground (arith, gone)))
]

-- No row of the node that is not deleted.
module _ (id : Text) (db : Db) (gone : any (is_live id) db.nodes ≡ false) where
  rotate_gone :
      (now until hash : Text)
      → rotate_node_credential now until id hash db ≡ (db, Outcome.failed not_found)
  unfolding rotate_node_credential
  rotate_gone now until hash = rw gone refl

  set_gone : (status : NodeStatus) → set_node_status id status db ≡ (db, Outcome.failed not_found)
  unfolding set_node_status
  set_gone status = rw gone refl

  delete_gone : (now : Text) → delete_node now id db ≡ (db, Outcome.failed not_found)
  unfolding delete_node
  delete_gone now = rw (find_if-there id db.nodes gone) refl

  credential_gone : (now hash : Text) → is_row_of id (node_by_credential now hash db) ≡ false
  unfolding node_by_credential
  credential_gone now hash = find_if-live now hash id db.nodes gone

delete_node-live :
    (now id : Text) (db : Db)
    → (delete_node now id db).1 ≡ done
    → (any (is_active_on id) (delete_node now id db).0.jobs ≡ false)
      × (any (is_live id) (delete_node now id db).0.nodes ≡ false)
unfolding delete_node
delete_node-live now id db ok = ground (arith, ok, revoked-live now id db.nodes)

-- Where DeleteNode succeeds for a node, no job on it is active; and in the database that it leaves, no
-- credential, old or new, is one of the node at any time, and a rotation of its credential, a change of
-- its status and another deletion find no such node and change nothing.
pub delete_node-Revoked :
    (now later until id hash new_hash : Text) (status : NodeStatus) (db : Db)
    → (delete_node now id db).1 ≡ done
    → (any (is_active_on id) (delete_node now id db).0.jobs ≡ false)
      × (is_row_of id (node_by_credential later hash (delete_node now id db).0) ≡ false)
      × (rotate_node_credential later until id new_hash (delete_node now id db).0
          ≡ ((delete_node now id db).0, Outcome.failed not_found))
      × (set_node_status id status (delete_node now id db).0
          ≡ ((delete_node now id db).0, Outcome.failed not_found))
      × (delete_node later id (delete_node now id db).0
          ≡ ((delete_node now id db).0, Outcome.failed not_found))
delete_node-Revoked now later until id hash new_hash status db ok =
    let (idle, gone) = delete_node-live now id db ok in
    let left = (delete_node now id db).0 in
    (
      idle,
      credential_gone id left gone later hash,
      rotate_gone id left gone later until new_hash,
      set_gone id left gone status,
      delete_gone id left gone later,
    )
