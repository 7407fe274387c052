-- ===== src/Storage/Retry.antt =====
-- A repeated `add_request`: the same request again, or another under the same key.
use hermes_local_hands.Base.{
  none, some, Bool, true, false, List, [], ◌∷◌, ◌++◌, ◌≡◌, refl, sym, ◌∙◌, arith, find, Bool-cases,
  inl, inr, text_eq, text_eq_refl, is_empty, if◌then◌else◌,
}
use hermes_local_hands.Errors.{ok, err, conflict_error}
use hermes_local_hands.Exec.{◌>>=◌, transaction}
use hermes_local_hands.Runtime.{Runtime}
use hermes_local_hands.Models.{PendingRequest}
use hermes_local_hands.Storage.{RequestRow, Db, request_fingerprint}
use hermes_local_hands.Storage.Requests.{
  has_key, of_client, Limits, has_zero_limit, new_row, replay_request, store_request, add_request,
}
use hermes_local_hands.Storage.Quota.{Added, replayed, inserted, add_request-Added}

find-append_none {ℓ} :
    {A : Type ℓ} (p : A → Bool) (xs : List A) (x : A)
    → find p xs ≡ none
    → p x ≡ true
    → find p (xs ++ x ∷ []) ≡ some x
find-append_none p [] x h k = rw k refl
find-append_none p (y ∷ ys) x h k = ground (arith, find-append_none p ys x)

module _ (py : Runtime) (l : Limits) where
  has_key-new_row :
      (r : PendingRequest) → has_key r.client_id r.idempotency_key (new_row py r) ≡ true
  unfolding has_key of_client new_row
  has_key-new_row r = rw (text_eq_refl r.client_id, text_eq_refl r.idempotency_key) refl

  -- What a call under a key that has a row does.
  add_request-found :
      (r : PendingRequest) (db : Db) (row : RequestRow)
      → is_empty r.idempotency_key ≡ false
      → is_empty r.expires_at ≡ false
      → has_zero_limit l ≡ false
      → find (has_key r.client_id r.idempotency_key) db.requests ≡ some row
      → add_request py l r db ≡ (
          if text_eq row.request_fingerprint (request_fingerprint py r)
          then (ok row.request, db)
          else (err (conflict_error "idempotency key was already used with another request"), db))
  unfolding add_request store_request replay_request ◌>>=◌ transaction
  add_request-found r db row a b c found =
      rw (a, b, c, found)
        (elim (Bool-cases (text_eq row.request_fingerprint (request_fingerprint py r))) [
          | inl same ↦ rw same refl
          | inr other ↦ rw other refl
        ])

  -- The row that stands under the key after a call that succeeded.
  kept_row :
      (r saved : PendingRequest) (db after : Db)
      → add_request py l r db ≡ (ok saved, after)
      → (row : RequestRow) × (find (has_key r.client_id r.idempotency_key) after.requests
          ≡ some row)
        × (row.request_fingerprint ≡ request_fingerprint py r)
        × (row.request ≡ saved)
  kept_row r saved db after h = of_added (add_request-Added py l r saved db after h)
    where
      of_added :
          Added py l r db saved after
          → (row : RequestRow) × (find (has_key r.client_id r.idempotency_key) after.requests
              ≡ some row)
            × (row.request_fingerprint ≡ request_fingerprint py r)
            × (row.request ≡ saved)
      of_added (replayed row found same is_saved unchanged) =
          (row, rw unchanged found, same, sym is_saved)
      of_added (inserted absent is_saved is_after free t ct cp p) = (
        new_row py r,
        rw is_after (find-append_none _ db.requests (new_row py r) absent (has_key-new_row r)),
        unfold new_row in refl,
        unfold new_row in sym is_saved,
      )

  -- After a request has been stored, the same client's call with the same key and the same content,
  -- whatever its own request id and times, returns the stored request and changes nothing; with
  -- another content (another fingerprint) it is refused and changes nothing.
  pub add_request_twice :
      (r again saved : PendingRequest) (db after : Db)
      → add_request py l r db ≡ (ok saved, after)
      → again.client_id ≡ r.client_id
      → again.idempotency_key ≡ r.idempotency_key
      → is_empty again.idempotency_key ≡ false
      → is_empty again.expires_at ≡ false
      → has_zero_limit l ≡ false
      → add_request py l again after ≡ (
          if text_eq (request_fingerprint py r) (request_fingerprint py again)
          then (ok saved, after)
          else (
            err (conflict_error "idempotency key was already used with another request"),
            after,
          ))
  add_request_twice r again saved db after h client key a b c =
      let (row, found, same, is_saved) = kept_row r saved db after h in
      add_request-found again after row a b c (rw (client, key) found) ∙ rw (same, is_saved) refl
