-- ===== src/Store/Idempotency.antt =====
-- internal/store/store.go: ClaimIdempotency, CompleteIdempotency and ReleaseIdempotency, and what
-- internal/httpapi/api.go does with them before and after a request.
pub mod Replays
use job_dock.Base.{
  Bool, true, false, not, ◌&&◌, ◌||◌, Option, none, some, List, [], ◌∷◌, ◌++◌, Text, ◌==◌, length,
  is_empty, if◌then◌else◌, any, find_if, keep, ltb, Int64,
}
use job_dock.Store.Tables.{update}

-- idempotency_keys: the status and the bytes of the response are set together.
pub record IdempotencyKey : Type 0 where
  pub user_id : Text
  pub key : Text
  pub method : Text
  pub path : Text
  pub response : Option (Int64 × Text)
  pub created_at : Text

pub data Claim : Type 0 where
  claimed claim_conflict no_such_row : Claim
  replayed : Int64 → Text → Claim

abbrev pub is_key : Text → Text → IdempotencyKey → Bool
is_key user_id key row = row.user_id == user_id && (row.key == key)

-- The answer from the row that was there already.
unfoldable pub answer_of : Text → Text → Option IdempotencyKey → Claim
answer_of method path none = no_such_row
answer_of method path (some row) =
    if not (row.method == method) || not (row.path == path)
    then claim_conflict
    else elim row.response [ none ↦ claim_conflict | some (status, bytes) ↦ replayed status bytes ]

abbrev pub new_key : Text → Text → Text → Text → Text → IdempotencyKey
new_key now user_id key method path = record {
  user_id = user_id;
  key = key;
  method = method;
  path = path;
  response = none;
  created_at = now;
}

-- INSERT … ON CONFLICT DO NOTHING, and then the row that is in the way.
unfoldable pub claim_idempotency :
    Text → Text → Text → Text → Text → List IdempotencyKey → List IdempotencyKey × Claim
unfolding answer_of
claim_idempotency now user_id key method path rows =
    if any (is_key user_id key) rows
    then (rows, answer_of method path (find_if (is_key user_id key) rows))
    else (rows ++ new_key now user_id key method path ∷ [], claimed)

abbrev pub answered : Int64 → Text → IdempotencyKey → IdempotencyKey
answered status bytes row = record row { response = some (status, bytes) }

unfoldable pub complete_idempotency :
    Text → Text → Int64 → Text → List IdempotencyKey → List IdempotencyKey
complete_idempotency user_id key status bytes rows =
    update (is_key user_id key) (answered status bytes) rows

abbrev pub is_unanswered : IdempotencyKey → Bool
is_unanswered row = elim row.response [ none ↦ true | some _ ↦ false ]

unfoldable pub release_idempotency : Text → Text → List IdempotencyKey → List IdempotencyKey
release_idempotency user_id key rows =
    keep (λ row. not (is_key user_id key row && is_unanswered row)) rows

-- What becomes of a request: it is handled, with or without a key, refused, or answered from the table.
pub data Begun : Type 0 where
  handle invalid_key busy store_failed : Begun
  replay : Int64 → Text → Begun

abbrev pub begun_by : Claim → Begun
begun_by claimed = handle
begun_by claim_conflict = busy
begun_by no_such_row = store_failed
begun_by (replayed status bytes) = replay status bytes

unfoldable pub begin_idempotency :
    Text → Text → Text → Text → Text → List IdempotencyKey → List IdempotencyKey × Begun
unfolding claim_idempotency
begin_idempotency now user_id key method path rows =
    if is_empty key
    then (rows, handle)
    else if ltb (length key) 16 || ltb 128 (length key)
    then (rows, invalid_key)
    else let (rows', claim) = claim_idempotency now user_id key method path rows in
      (rows', begun_by claim)

unfoldable pub abort : Text → Text → List IdempotencyKey → List IdempotencyKey
unfolding release_idempotency
abort user_id key rows = if is_empty key then rows else release_idempotency user_id key rows

unfoldable pub write_response :
    Text → Text → Int64 → Text → List IdempotencyKey → List IdempotencyKey
unfolding complete_idempotency
write_response user_id key status bytes rows =
    if is_empty key then rows else complete_idempotency user_id key status bytes rows
