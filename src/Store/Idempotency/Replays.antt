-- ===== src/Store/Idempotency/Replays.antt =====
-- internal/httpapi/api.go: requests that come again with one Idempotency-Key.
use job_dock.Base.{
  append-nil, ◌==◌, Int64, ◌≡◌, refl, ap, ◌∙◌, Bool, true, false, not, ◌&&◌, ◌||◌, some, List, [],
  ◌∷◌, ◌++◌, Text, length, is_empty, if◌then◌else◌, any, find_if, keep, ltb, ◌≤◌, arith,
}
use job_dock.Store.Tables.{update}
use job_dock.Store.Idempotency.{
  replay, is_unanswered, answered, release_idempotency, complete_idempotency, Begun, abort,
  write_response, busy, IdempotencyKey, new_key, is_key, begin_idempotency, claim_idempotency,
  answer_of, begun_by, handle,
}

-- A row that passes a test, after rows that do not.
module _ {A : Type 0} (test : A → Bool) where
  any-last : (rows : List A) (r : A) → test r ≡ true → any test (rows ++ r ∷ []) ≡ true
  any-last [] r hit = ground (arith, hit)
  any-last (x ∷ rows) r hit = ground (arith, any-last rows r hit)

  find_if-last :
      (rows : List A) (r : A)
      → any test rows ≡ false
      → test r ≡ true
      → find_if test (rows ++ r ∷ []) ≡ some r
  unfolding find_if
  find_if-last [] r new hit = rw hit refl
  find_if-last (x ∷ rows) r new hit =
      let miss : test x ≡ false = ground (arith, new) in
      rw miss (find_if-last rows r (ground (arith, new)) hit)

  update-last :
      (set : A → A) (rows : List A) (r : A)
      → any test rows ≡ false
      → test r ≡ true
      → update test set (rows ++ r ∷ []) ≡ rows ++ set r ∷ []
  update-last set [] r new hit = rw hit refl
  update-last set (x ∷ rows) r new hit =
      let miss : test x ≡ false = ground (arith, new) in
      rw miss (ap (λ (xs : List A). x ∷ xs) (update-last set rows r (ground (arith, new)) hit))

  keep-last :
      (q : A → Bool) (rows : List A) (r : A)
      → any test rows ≡ false
      → test r ≡ true
      → keep (λ x. not (test x && q x)) (rows ++ r ∷ []) ≡ rows ++ (if q r then [] else r ∷ [])
  keep-last q [] r new hit = rw hit (ground arith)
  keep-last q (x ∷ rows) r new hit =
      let miss : test x ≡ false = ground (arith, new) in
      rw miss (ap (λ (xs : List A). x ∷ xs) (keep-last q rows r (ground (arith, new)) hit))

-- A key of 16 to 128 bytes.
abbrev pub IsLongEnough : Text → Type 0
IsLongEnough key = (16 ≤ length key) × (length key ≤ 128)

module _ (user_id key : Text) (long : IsLongEnough key) where
  is_named : is_empty key ≡ false
  is_named = named key long.0
    where
      named : (t : Text) → 16 ≤ length t → is_empty t ≡ false
      named [] h = absurd (omega (arith, h))
      named (c ∷ t) h = refl

  begin-claim :
      (now method' path' : Text) (rows : List IdempotencyKey)
      → begin_idempotency now user_id key method' path' rows ≡ (
        (claim_idempotency now user_id key method' path' rows).0,
        begun_by (claim_idempotency now user_id key method' path' rows).1,
      )
  unfolding begin_idempotency
  begin-claim now method' path' rows =
      let fits : (ltb (length key) 16 || ltb 128 (length key)) ≡ false =
        ground (arith, long.0, long.1) in
      rw (is_named, fits) refl

  -- The row of the key is the last one.
  begin-last :
      (now method' path' : Text) (rows : List IdempotencyKey) (r : IdempotencyKey)
      → any (is_key user_id key) rows ≡ false
      → is_key user_id key r ≡ true
      → begin_idempotency now user_id key method' path' (rows ++ r ∷ [])
        ≡ (rows ++ r ∷ [], begun_by (answer_of method' path' (some r)))
  unfolding claim_idempotency
  begin-last now method' path' rows r new hit =
      let there = any-last (is_key user_id key) rows r hit in
      let it = find_if-last (is_key user_id key) rows r new hit in
      begin-claim now method' path' (rows ++ r ∷ []) ∙ rw (there, it) refl

  begin-new :
      (now method' path' : Text) (rows : List IdempotencyKey)
      → any (is_key user_id key) rows ≡ false
      → begin_idempotency now user_id key method' path' rows
        ≡ (rows ++ new_key now user_id key method' path' ∷ [], handle)
  unfolding claim_idempotency
  begin-new now method' path' rows new = begin-claim now method' path' rows ∙ rw new refl

  module _ (now later method path method' path' : Text) (status : Int64) (body : Text)
      (rows : List IdempotencyKey) (new : any (is_key user_id key) rows ≡ false) where
    -- After the first request.
    abbrev first : List IdempotencyKey
    first = (begin_idempotency now user_id key method path rows).0

    first-is : first ≡ rows ++ new_key now user_id key method path ∷ []
    first-is = ap (λ (p : List IdempotencyKey × Begun). p.0) (begin-new now method path rows new)

    its_key : is_key user_id key (new_key now user_id key method path) ≡ true
    its_key = ground arith

    begin-busy : begin_idempotency later user_id key method' path' first ≡ (first, busy)
    unfolding answer_of
    begin-busy = rw first-is (
        begin-last later method' path' rows (new_key now user_id key method path) new its_key
        ∙ ground arith)

    write-last :
        write_response user_id key status body first
        ≡ rows ++ answered status body (new_key now user_id key method path) ∷ []
    unfolding write_response complete_idempotency
    write-last =
        rw (first-is, is_named)
          (update-last (is_key user_id key) (answered status body) rows
            (new_key now user_id key method path) new its_key)

    begin-answered :
        begin_idempotency later user_id key method' path'
          (write_response user_id key status body first)
        ≡ (
          write_response user_id key status body first,
          if method == method' && (path == path') then replay status body else busy,
        )
    unfolding answer_of
    begin-answered = rw write-last (
        begin-last later method' path' rows
          (answered status body (new_key now user_id key method path)) new its_key
        ∙ ground arith)

    abort-first : abort user_id key first ≡ rows
    unfolding abort release_idempotency
    abort-first =
        rw (first-is, is_named)
          (keep-last (is_key user_id key) is_unanswered rows (new_key now user_id key method path)
              new its_key
            ∙ append-nil rows)

    abort-answered :
        abort user_id key (write_response user_id key status body first)
        ≡ write_response user_id key status body first
    unfolding abort release_idempotency
    abort-answered =
        rw (write-last, is_named)
          (keep-last (is_key user_id key) is_unanswered rows
            (answered status body (new_key now user_id key method path)) new its_key)

-- For a key of 16 to 128 bytes under which the user has sent nothing yet: the first request is handled;
-- until it is answered, another one with the key is a conflict; once it is answered, one with its method
-- and path gets that answer, and any other one is a conflict, with no row changed by either. Giving up
-- before the answer leaves the table as it was, and after it changes nothing.
pub begin_idempotency-write_response :
    (now later user_id key method path method' path' : Text) (status : Int64) (body : Text)
    (rows : List IdempotencyKey)
    → IsLongEnough key
    → any (is_key user_id key) rows ≡ false
    → ((begin_idempotency now user_id key method path rows).1 ≡ handle)
      × (begin_idempotency later user_id key method' path'
            (begin_idempotency now user_id key method path rows).0
          ≡ ((begin_idempotency now user_id key method path rows).0, busy))
      × (begin_idempotency later user_id key method' path' (
            write_response user_id key status body
              (begin_idempotency now user_id key method path rows).0)
          ≡ (
            write_response user_id key status body
                (begin_idempotency now user_id key method path rows).0,
            if method == method' && (path == path') then replay status body else busy,
          ))
      × (abort user_id key (begin_idempotency now user_id key method path rows).0 ≡ rows)
      × (abort user_id key (
            write_response user_id key status body
              (begin_idempotency now user_id key method path rows).0)
          ≡ write_response user_id key status body
              (begin_idempotency now user_id key method path rows).0)
begin_idempotency-write_response now later user_id key method path method' path' status body rows
      long new =
    (
      ap (λ (p : List IdempotencyKey × Begun). p.1)
          (begin-new user_id key long now method path rows new),
      begin-busy user_id key long now later method path method' path' status body rows new,
      begin-answered user_id key long now later method path method' path' status body rows new,
      abort-first user_id key long now later method path method' path' status body rows new,
      abort-answered user_id key long now later method path method' path' status body rows new,
    )
