-- ===== src/Storage/Evolves/Operations.antt =====
-- Every operation of the store leads along `Evolves`.
use hermes_local_hands.Base.{
  text_eq, not, ◌≡◌, refl, ◌∙◌, Bool, true, Text, Fields, Option, some, none, List, [], ◌∷◌, ◌++◌,
  arith, and_true,
}
use hermes_local_hands.Exec.{◌>>=◌}
use hermes_local_hands.Errors.{conflict_error}
use hermes_local_hands.Exec.Moves.{
  Moves-raise_if, Moves-bind, Moves-transaction, Moves, moves_rules,
}
use hermes_local_hands.Models.{RequestState, WorkspacePolicy, PendingRequest, pending, executing}
use hermes_local_hands.Models.States.{Next, state_eq_sound, expire, claim, doubt}
use hermes_local_hands.Runtime.{Runtime}
use hermes_local_hands.Storage.{RequestRow, ReceiptRow, Db}
use hermes_local_hands.Storage.Clients.{add_client, delete_client, revoke_client}
use hermes_local_hands.Storage.Workspaces.{
  save_workspace, grant_workspace, replace_workspace_grants, revoke_workspace_grant, insert_grant,
  insert_new_grant, require_client,
}
use hermes_local_hands.Storage.Requests.{
  in_state, is_request, Limits, add_request, set_request_state, claim_request_for_execution,
  expire_pending, mark_executing_uncertain, move_one, move_all, store_request, insert_request,
  replay_request, is_claimable,
}
use hermes_local_hands.Storage.Receipts.{
  append_receipt, receipt_signing_key_fingerprint, pin_receipt_signing_key, pin_or_compare,
}
use hermes_local_hands.Storage.Evolves.{
  Grows, Evolves, Evolves-refl, Evolves-trans, Evolves-IsPreorder, Grows-update, Grows-append,
}

-- A change of clients, workspaces and grants only.
untouched-Evolves :
    (a b : Db)
    → b.requests ≡ a.requests
    → b.receipts ≡ a.receipts
    → b.signing_key ≡ a.signing_key
    → Evolves a b
untouched-Evolves a b p q r =
    let e = Evolves-refl a in
    record {
      requests = rw p e.requests;
      receipts = (e.receipts.0, q ∙ e.receipts.1);
      signing_key = λ k h. r ∙ h;
    }

insert_grant-Evolves : (c w t : Text) (db : Db) → Evolves db (insert_grant c w t db)
insert_grant-Evolves c w t db =
    untouched-Evolves db (insert_grant c w t db) (unfold insert_grant in ground arith)
      (unfold insert_grant in ground arith) (unfold insert_grant in ground arith)

delete_client-Evolves : (c : Text) (db : Db) → Evolves db (delete_client c db)
unfolding delete_client
delete_client-Evolves c db = untouched-Evolves db (delete_client c db) refl refl refl

ruleset store_rules = (
  moves_rules, Evolves-IsPreorder, untouched-Evolves, insert_grant-Evolves, delete_client-Evolves,
  refl,
)

pub add_client-Evolves :
    (py : Runtime) (id token now : Text) → Moves Evolves (add_client py id token now)
unfolding add_client
add_client-Evolves py id token now = search store_rules

pub revoke_client-Evolves : (id : Text) → Moves Evolves (revoke_client id)
unfolding revoke_client
revoke_client-Evolves id = search store_rules depth 8

pub save_workspace-Evolves :
    (p : WorkspacePolicy) (h : Text) (g : Bool) (t : Option Text)
    → Moves Evolves (save_workspace p h g t)
unfolding save_workspace
save_workspace-Evolves p h g t = search store_rules depth 10

pub grant_workspace-Evolves : (c w t : Text) → Moves Evolves (grant_workspace c w t)
unfolding grant_workspace
grant_workspace-Evolves c w t = search store_rules depth 10

insert_new_grant-Evolves : (w t c : Text) → Moves Evolves (insert_new_grant w t c)
unfolding insert_new_grant
insert_new_grant-Evolves w t c = search store_rules depth 10

require_client-Evolves : (c : Text) → Moves Evolves (require_client c)
unfolding require_client
require_client-Evolves c = search store_rules depth 10

pub replace_workspace_grants-Evolves :
    (w : Text) (cs : List Text) (t : Text) → Moves Evolves (replace_workspace_grants w cs t)
unfolding replace_workspace_grants
replace_workspace_grants-Evolves w cs t =
    search (store_rules, insert_new_grant-Evolves, require_client-Evolves) depth 12

pub revoke_workspace_grant-Evolves : (c w : Text) → Moves Evolves (revoke_workspace_grant c w)
unfolding revoke_workspace_grant
revoke_workspace_grant-Evolves c w = search store_rules depth 8

-- Rows of `requests` alone.
requests-Evolves :
    (db : Db) (rows : List RequestRow)
    → Grows db.requests rows
    → Evolves db (record db { requests = rows })
requests-Evolves db rows h =
    let e = Evolves-refl db in
    record { requests = h; receipts = e.receipts; signing_key = λ k p. p }

module _ (py : Runtime) where
  insert_request-Evolves : (l : Limits) (r : PendingRequest) → Moves Evolves (insert_request py l r)
  unfolding insert_request
  insert_request-Evolves l r = search (store_rules, requests-Evolves, Grows-append) depth 16

  replay_request-Evolves :
      (r : PendingRequest) (row : RequestRow) → Moves Evolves (replay_request py r row)
  unfolding replay_request
  replay_request-Evolves r row = search store_rules

  store_request-Evolves :
      (l : Limits) (r : PendingRequest) (o : Option RequestRow)
      → Moves Evolves (store_request py l r o)
  unfolding store_request
  store_request-Evolves l r none = insert_request-Evolves l r
  store_request-Evolves l r (some row) = replay_request-Evolves r row

  pub add_request-Evolves : (l : Limits) (r : PendingRequest) → Moves Evolves (add_request py l r)
  unfolding add_request
  add_request-Evolves l r = search (store_rules, store_request-Evolves) depth 10

-- A row that is in the expected state may be moved on from it.
in_state-next :
    (a b : RequestState)
    → Next a b
    → (row : RequestRow) → in_state a row ≡ true
    → Next row.request.state b
unfolding in_state
in_state-next a b h row p =
    let e : row.request.state ≡ a = state_eq_sound row.request.state a p in rw e h

move_one-Evolves :
    (a b : RequestState) (result : Fields) (db : Db) (id : Text)
    → Next a b
    → Evolves db (move_one a b result db id)
unfolding move_one
move_one-Evolves a b result db id n = requests-Evolves db _ (
    Grows-update _ b (some result)
      (λ row h. in_state-next a b n row (and_true (is_request id row) (in_state a row) h).1)
      db.requests)

move_all-Evolves :
    (a b : RequestState) (result : Fields)
    → Next a b
    → (ids : List Text) (db : Db) → Evolves db (move_all a b result ids db)
unfolding move_all
move_all-Evolves a b result n [] db = Evolves-refl db
move_all-Evolves a b result n (id ∷ ids) db =
    let db' = move_one a b result db id in
    Evolves-trans db db' (move_all a b result ids db') (move_one-Evolves a b result db id n)
      (move_all-Evolves a b result n ids db')

pub expire_pending-Evolves : (now : Text) → Moves Evolves (expire_pending now)
unfolding expire_pending
expire_pending-Evolves now = search (store_rules, move_all-Evolves, expire) depth 8

pub mark_executing_uncertain-Evolves : Moves Evolves mark_executing_uncertain
unfolding mark_executing_uncertain
mark_executing_uncertain-Evolves = search (store_rules, move_all-Evolves, doubt) depth 8

pub set_request_state-Evolves :
    (id : Text) (a b : RequestState) (result : Option Fields)
    → Next a b
    → Moves Evolves (set_request_state id a b result)
unfolding set_request_state
set_request_state-Evolves id a b result n =
    search
      (
        store_rules,
        λ (db : Db). requests-Evolves db _ (
            Grows-update _ b result
              (λ row h. in_state-next a b n row (and_true (is_request id row) (in_state a row) h).1)
              db.requests),
      )
      depth 8

claimable-pending :
    (py : Runtime) (id now : Text) (db : Db) (row : RequestRow)
    → is_claimable py id now db row ≡ true
    → in_state pending row ≡ true
unfolding is_claimable
claimable-pending py id now db row h = ground arith

pub claim-Evolves :
    (py : Runtime) (id now : Text) (result : Fields)
    → Moves Evolves (claim_request_for_execution py id now result)
unfolding claim_request_for_execution
claim-Evolves py id now result =
    search
      (
        store_rules,
        λ (db : Db). requests-Evolves db _ (
            Grows-update _ executing (some result)
              (λ row h.
                in_state-next pending executing claim row (claimable-pending py id now db row h))
              db.requests),
      )
      depth 8

receipts-Evolves :
    (db : Db) (row : ReceiptRow) → Evolves db (record db { receipts = db.receipts ++ row ∷ [] })
receipts-Evolves db row = record {
  requests = (Evolves-refl db).requests;
  receipts = (row ∷ [], refl);
  signing_key = λ k p. p;
}

pub append_receipt-Evolves : (row : ReceiptRow) → Moves Evolves (append_receipt row)
unfolding append_receipt
append_receipt-Evolves row = search (store_rules, receipts-Evolves) depth 10

-- The key is written only where none is pinned.
pin_or_compare-Evolves :
    (f : Text) (db : Db) (o : Option Text)
    → db.signing_key ≡ o
    → Evolves db (pin_or_compare f o db).1
unfolding pin_or_compare ◌>>=◌
pin_or_compare-Evolves f db none e =
    let same = Evolves-refl db in
    record { requests = same.requests; receipts = same.receipts; signing_key = λ k h. cc (e, h) }
pin_or_compare-Evolves f db (some k) e =
    (Moves-raise_if Evolves-IsPreorder (not (text_eq k f))
        (conflict_error "receipt signing key does not match the pinned key")).at
      db

compare_pinned-Evolves :
    (f : Text) → Moves Evolves (receipt_signing_key_fingerprint >>= pin_or_compare f)
unfolding receipt_signing_key_fingerprint ◌>>=◌
compare_pinned-Evolves f = record { at = λ db. pin_or_compare-Evolves f db db.signing_key refl }

pub pin_receipt_signing_key-Evolves : (f : Text) → Moves Evolves (pin_receipt_signing_key f)
unfolding pin_receipt_signing_key
pin_receipt_signing_key-Evolves f =
    Moves-bind Evolves-IsPreorder _ _ (Moves-raise_if Evolves-IsPreorder _ _)
      (λ _. Moves-transaction Evolves-IsPreorder _ (compare_pinned-Evolves f))
