-- ===== src/Tests/Idempotency.antt =====
-- A creation of a job that is sent again with its Idempotency-Key.
use job_dock.Base.{Text-discrete, ◌∷◌, ◌≡◌, refl, codes, Text, [], arith, List}
use job_dock.Store.Idempotency.{
  replay, busy, handle, IdempotencyKey, new_key, begin_idempotency, write_response, abort,
}
use job_dock.Store.Idempotency.Replays.{begin_idempotency-write_response}

abbrev again : Text
again = codes "0123456789abcdef"

abbrev others : List IdempotencyKey
others = new_key (codes "t0") (codes "ann") again (codes "POST") (codes "/jobs") ∷ []

begin_idempotency-write_response_example :
    ((begin_idempotency (codes "t1") (codes "bob") again (codes "POST") (codes "/jobs") others).1
      ≡ handle)
    × (begin_idempotency
          (codes "t2")
          (codes "bob")
          again
          (codes "POST")
          (codes "/jobs")
          (begin_idempotency
            (codes "t1")
            (codes "bob")
            again
            (codes "POST")
            (codes "/jobs")
            others).0
        ≡ (
          (begin_idempotency
              (codes "t1")
              (codes "bob")
              again
              (codes "POST")
              (codes "/jobs")
              others).0,
          busy,
        ))
    × (begin_idempotency (codes "t2") (codes "bob") again (codes "POST") (codes "/jobs") (
          write_response
            (codes "bob")
            again
            201
            (codes "{}")
            (begin_idempotency
              (codes "t1")
              (codes "bob")
              again
              (codes "POST")
              (codes "/jobs")
              others).0)
        ≡ (
          write_response
              (codes "bob")
              again
              201
              (codes "{}")
              (begin_idempotency
                (codes "t1")
                (codes "bob")
                again
                (codes "POST")
                (codes "/jobs")
                others).0,
          replay 201 (codes "{}"),
        ))
    × (abort
          (codes "bob")
          again
          (begin_idempotency
            (codes "t1")
            (codes "bob")
            again
            (codes "POST")
            (codes "/jobs")
            others).0
        ≡ others)
    × (abort (codes "bob") again (
          write_response
            (codes "bob")
            again
            201
            (codes "{}")
            (begin_idempotency
              (codes "t1")
              (codes "bob")
              again
              (codes "POST")
              (codes "/jobs")
              others).0)
        ≡ write_response
            (codes "bob")
            again
            201
            (codes "{}")
            (begin_idempotency
              (codes "t1")
              (codes "bob")
              again
              (codes "POST")
              (codes "/jobs")
              others).0)
unfolding Text-discrete
begin_idempotency-write_response_example =
    begin_idempotency-write_response (codes "t1") (codes "t2") (codes "bob") again (codes "POST")
      (codes "/jobs") (codes "POST") (codes "/jobs") 201 (codes "{}") others
      (omega arith, omega arith) refl
