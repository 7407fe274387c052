-- ===== src/Storage/Quota.antt =====
-- `add_request`: its limits, and what a repeated call does.
use hermes_local_hands.Base.{
  Option, none, some, false, [], ◌∷◌, ◌++◌, ◌≡◌, refl, ap, ◌<◌, arith, find, Bool-cases, inl, inr,
  text_eq, text_eq_iff, is_empty,
}
use hermes_local_hands.Errors.{Error, ok, err, Result}
use hermes_local_hands.Exec.{restore-eq-ok, ◌>>=◌, transaction}
use hermes_local_hands.Runtime.{Runtime}
use hermes_local_hands.Models.{PendingRequest}
use hermes_local_hands.Storage.{RequestRow, Db, request_fingerprint}
use hermes_local_hands.Storage.Requests.{
  has_key, Limits, has_zero_limit, new_row, insert_conflicts, insert_request, replay_request,
  store_request, add_request, total_request_count, count_pending_requests,
}

failed :
    {e : Error} {db after : Db} {saved : PendingRequest}
    → ◌≡◌ {A = Result PendingRequest × Db} (err e, db) (ok saved, after)
    → ⊥
failed h = cc (ap (λ (p : Result PendingRequest × Db). p.0) h)

module _ (py : Runtime) (l : Limits) where
  -- What a call that stored or found a request has passed.
  pub data Added (r : PendingRequest) (db : Db) (saved : PendingRequest) (after : Db) : Type 0 where
    replayed :
        (row : RequestRow)
        → find (has_key r.client_id r.idempotency_key) db.requests ≡ some row
        → row.request_fingerprint ≡ request_fingerprint py r
        → saved ≡ row.request
        → after ≡ db
        → Added r db saved after
    inserted :
        find (has_key r.client_id r.idempotency_key) db.requests ≡ none
        → saved ≡ r
        → after ≡ record db { requests = db.requests ++ new_row py r ∷ [] }
        → insert_conflicts r db ≡ false
        → total_request_count none db < l.max_total_requests
        → total_request_count (some r.client_id) db < l.max_total_per_client
        → count_pending_requests (some r.client_id) none db < l.max_pending_per_client
        → count_pending_requests none none db < l.max_pending_global
        → Added r db saved after

  replay-Added :
      (r saved : PendingRequest) (row : RequestRow) (db after : Db)
      → find (has_key r.client_id r.idempotency_key) db.requests ≡ some row
      → replay_request py r row db ≡ (ok saved, after)
      → Added r db saved after
  unfolding replay_request ◌>>=◌
  replay-Added r saved row db after found h =
      elim (Bool-cases (text_eq row.request_fingerprint (request_fingerprint py r))) [
        | inl same ↦ replayed row found ((text_eq_iff _ _).0 same) (ground arith) (ground arith)
        | inr other ↦ absurd (ground arith)
      ]

  insert-Added :
      (r saved : PendingRequest) (db after : Db)
      → find (has_key r.client_id r.idempotency_key) db.requests ≡ none
      → insert_request py l r db ≡ (ok saved, after)
      → Added r db saved after
  unfolding insert_request ◌>>=◌
  insert-Added r saved db after absent h =
      inserted absent (ground arith) (ground arith) (ground arith) (ground arith) (ground arith)
        (ground arith) (ground arith)

  -- The guards of `add_request`, and its transaction.
  stored_by_add :
      (r saved : PendingRequest) (db after : Db)
      → add_request py l r db ≡ (ok saved, after)
      → store_request py l r (find (has_key r.client_id r.idempotency_key) db.requests) db
        ≡ (ok saved, after)
  unfolding add_request ◌>>=◌ transaction
  stored_by_add r saved db after h = elim (Bool-cases (is_empty r.idempotency_key)) [
    | inl a ↦ absurd (failed (rw a at h))
    | inr a ↦ elim (Bool-cases (is_empty r.expires_at)) [
      | inl b ↦ absurd (failed (rw (a, b) at h))
      | inr b ↦ elim (Bool-cases (has_zero_limit l)) [
        | inl c ↦ absurd (failed (rw (a, b, c) at h))
        | inr c ↦ restore-eq-ok db _ (rw (a, b, c) at h)
      ]
    ]
  ]

  -- `add_request` succeeds only by finding the row of an equal request under the client's key, or by
  -- adding a row behind, below every limit.
  pub add_request-Added :
      (r saved : PendingRequest) (db after : Db)
      → add_request py l r db ≡ (ok saved, after)
      → Added r db saved after
  add_request-Added r saved db after h =
      stored (find (has_key r.client_id r.idempotency_key) db.requests) refl
        (stored_by_add r saved db after h)
    where
      stored :
          (o : Option RequestRow)
          → find (has_key r.client_id r.idempotency_key) db.requests ≡ o
          → store_request py l r o db ≡ (ok saved, after)
          → Added r db saved after
      stored none e k = insert-Added r saved db after e (unfold store_request in k)
      stored (some row) e k = replay-Added r saved row db after e (unfold store_request in k)
