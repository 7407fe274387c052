-- ===== src/Storage/Sound/Kept.antt =====
-- Insertions and the batch updates keep the database sound, and so does every history.
use hermes_local_hands.Base.{
  Text, Fields, Option, none, some, true, false, List, [], ◌∷◌, ◌++◌, ◌≡◌, any, Bool-cases, inl,
  inr, or_false, text_eq,
}
use hermes_local_hands.Errors.{conflict_error}
use hermes_local_hands.Exec.{pure, gets, modify, raise_if, ◌>>=◌, ◌>>◌}
use hermes_local_hands.Exec.Moves.{Moves, Keeping, Moves-raise_if, Moves-bind, Moves-transaction}
use hermes_local_hands.Runtime.{Runtime}
use hermes_local_hands.Models.{RequestState, PendingRequest}
use hermes_local_hands.Storage.{RequestRow, ReceiptRow, Db, genesis_hash}
use hermes_local_hands.Storage.Requests.{
  Limits, add_request, store_request, insert_request, replay_request, new_row, insert_conflicts,
  expire_pending, mark_executing_uncertain, move_one, move_all,
}
use hermes_local_hands.Storage.Receipts.{
  append_receipt, receipt_signing_key_fingerprint, pin_receipt_signing_key, pin_or_compare,
  chain_head, last_receipt_hash, clashes,
}
use hermes_local_hands.Storage.History.{
  Operation, op_add_client, op_revoke_client, op_save_workspace, op_grant, op_replace_grants,
  op_revoke_grant, op_add_request, op_set_state, op_claim, op_expire, op_interrupt,
  op_append_receipt, op_pin_key, perform, history,
}
use hermes_local_hands.Storage.Sound.{
  IsSound, append-IsSoundRows, chain_head-eq-last_link, is_linked-append,
}
use hermes_local_hands.Storage.Sound.Updates.{
  update-IsSound, IsSound-preorder, keep_rules, add_client-IsSound, revoke_client-IsSound,
  save_workspace-IsSound, grant_workspace-IsSound, replace_grants-IsSound, revoke_grant-IsSound,
  set_state-IsSound, claim-IsSound,
}

module _ (py : Runtime) where
  -- the insertion itself, once the constraints have been tested
  insert_row-IsSound :
      (r : PendingRequest) (db : Db)
      → insert_conflicts r db ≡ false
      → IsSound py db
      → IsSound py (record db { requests = db.requests ++ new_row py r ∷ [] })
  unfolding insert_conflicts
  insert_row-IsSound r db e h =
      let (free, known) = or_false _ _ e in
      let (no_id, no_key) = or_false _ _ free in
      record { rows = append-IsSoundRows py r db.requests h.rows no_id no_key; linked = h.linked }

  guarded_insert-IsSound :
      (r : PendingRequest)
      → Moves (Keeping (IsSound py)) (do
        clash ← gets (insert_conflicts r)
        raise_if clash (conflict_error "request identity conflict")
        modify (λ db. record db { requests = db.requests ++ new_row py r ∷ [] })
        pure r)
  unfolding ◌>>=◌
  guarded_insert-IsSound r = record {
    at = λ db h. elim (Bool-cases (insert_conflicts r db)) [
      | inl clash ↦ rw clash h
      | inr free ↦ rw free (insert_row-IsSound r db free h)
    ];
  }

  insert_request-IsSound :
      (l : Limits) (r : PendingRequest) → Moves (Keeping (IsSound py)) (insert_request py l r)
  unfolding insert_request
  insert_request-IsSound l r = search (keep_rules, guarded_insert-IsSound) depth 16

  replay_request-IsSound :
      (r : PendingRequest) (row : RequestRow)
      → Moves (Keeping (IsSound py)) (replay_request py r row)
  unfolding replay_request
  replay_request-IsSound r row = search keep_rules

  store_request-IsSound :
      (l : Limits) (r : PendingRequest) (o : Option RequestRow)
      → Moves (Keeping (IsSound py)) (store_request py l r o)
  unfolding store_request
  store_request-IsSound l r none = insert_request-IsSound l r
  store_request-IsSound l r (some row) = replay_request-IsSound r row

  add_request-IsSound :
      (l : Limits) (r : PendingRequest) → Moves (Keeping (IsSound py)) (add_request py l r)
  unfolding add_request
  add_request-IsSound l r = search (keep_rules, store_request-IsSound) depth 10

  move_all-IsSound :
      (a b : RequestState) (r : Fields) (ids : List Text) (db : Db)
      → IsSound py db
      → IsSound py (move_all a b r ids db)
  unfolding move_all
  move_all-IsSound a b r [] db h = h
  move_all-IsSound a b r (id ∷ ids) db h =
      move_all-IsSound a b r ids (move_one a b r db id)
        (unfold move_one in update-IsSound py _ b (some r) db h)

  expire_pending-IsSound : (now : Text) → Moves (Keeping (IsSound py)) (expire_pending now)
  unfolding expire_pending
  expire_pending-IsSound now = search (keep_rules, move_all-IsSound) depth 8

  mark_uncertain-IsSound : Moves (Keeping (IsSound py)) mark_executing_uncertain
  unfolding mark_executing_uncertain
  mark_uncertain-IsSound = search (keep_rules, move_all-IsSound) depth 8

  -- the INSERT of a receipt whose `previous_hash` is the head
  append_row-IsSound :
      (row : ReceiptRow) (db : Db)
      → text_eq (chain_head db.receipts) row.previous_hash ≡ true
      → IsSound py db
      → IsSound py (record db { receipts = db.receipts ++ row ∷ [] })
  append_row-IsSound row db e h = record {
    rows = h.rows;
    linked =
        is_linked-append genesis_hash db.receipts row h.linked
          (rw (← chain_head-eq-last_link db.receipts) e);
  }

  append_receipt-IsSound : (row : ReceiptRow) → Moves (Keeping (IsSound py)) (append_receipt row)
  unfolding append_receipt
  append_receipt-IsSound row = Moves-transaction (IsSound-preorder py) _ (record {
    at = λ db h. elim (Bool-cases (text_eq (chain_head db.receipts) row.previous_hash)) [
      | inr moved ↦ unfold ◌>>=◌ last_receipt_hash in rw moved h
      | inl linked ↦ elim (Bool-cases (any (clashes row) db.receipts)) [
        | inl clash ↦ unfold ◌>>=◌ last_receipt_hash in rw (linked, clash) h
        | inr free ↦
            unfold ◌>>=◌ last_receipt_hash in rw (linked, free) (append_row-IsSound row db linked h)
      ]
    ];
  })

  pin_or_compare-IsSound :
      (f : Text) (o : Option Text) → Moves (Keeping (IsSound py)) (pin_or_compare f o)
  unfolding pin_or_compare
  pin_or_compare-IsSound f none = search keep_rules
  pin_or_compare-IsSound f (some k) = search keep_rules

  pinned_key-IsSound : Moves (Keeping (IsSound py)) receipt_signing_key_fingerprint
  unfolding receipt_signing_key_fingerprint
  pinned_key-IsSound = search keep_rules

  pin_key-IsSound : (f : Text) → Moves (Keeping (IsSound py)) (pin_receipt_signing_key f)
  unfolding pin_receipt_signing_key
  pin_key-IsSound f =
      Moves-bind (IsSound-preorder py) _ _ (Moves-raise_if (IsSound-preorder py) _ _) (λ _.
        Moves-transaction (IsSound-preorder py) _
          (Moves-bind (IsSound-preorder py) _ _ pinned_key-IsSound (pin_or_compare-IsSound f)))

  pub perform-IsSound : (op : Operation) (db : Db) → IsSound py db → IsSound py (perform py op db)
  unfolding perform
  perform-IsSound (op_add_client id token now) = (add_client-IsSound py id token now).at
  perform-IsSound (op_revoke_client id) = (revoke_client-IsSound py id).at
  perform-IsSound (op_save_workspace p h g t) = (save_workspace-IsSound py p h g t).at
  perform-IsSound (op_grant c w t) = (grant_workspace-IsSound py c w t).at
  perform-IsSound (op_replace_grants w cs t) = (replace_grants-IsSound py w cs t).at
  perform-IsSound (op_revoke_grant c w) = (revoke_grant-IsSound py c w).at
  perform-IsSound (op_add_request l r) = (add_request-IsSound l r).at
  perform-IsSound (op_set_state id a b result) = (set_state-IsSound py id a b result).at
  perform-IsSound (op_claim id now result) = (claim-IsSound py id now result).at
  perform-IsSound (op_expire now) = (expire_pending-IsSound now).at
  perform-IsSound op_interrupt = mark_uncertain-IsSound.at
  perform-IsSound (op_append_receipt row) = (append_receipt-IsSound row).at
  perform-IsSound (op_pin_key f) = (pin_key-IsSound f).at

  -- After any operations in any order, `set_request_state` for any two states among them, a sound
  -- database is sound: every stored fingerprint is that of
  -- its row, no two rows share a request id or a client's idempotency key, and the receipts are
  -- linked from the genesis hash on.
  pub history-IsSound :
      (ops : List Operation) (db : Db) → IsSound py db → IsSound py (history py ops db)
  unfolding history
  history-IsSound [] db h = h
  history-IsSound (op ∷ ops) db h = history-IsSound ops (perform py op db) (perform-IsSound op db h)
