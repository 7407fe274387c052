-- ===== src/Storage/History.antt =====
-- The database under any interleaving of operations, from any number of threads and processes: SQLite
-- runs one operation after another, so a history is a sequence of steps.
use hermes_local_hands.Base.{Text, Fields, Option, Bool, All, List, [], ◌∷◌}
use hermes_local_hands.Runtime.{Runtime}
use hermes_local_hands.Models.{RequestState, WorkspacePolicy, PendingRequest}
use hermes_local_hands.Models.States.{Next}
use hermes_local_hands.Storage.{ReceiptRow, Db}
use hermes_local_hands.Storage.Clients.{add_client, revoke_client}
use hermes_local_hands.Storage.Workspaces.{
  save_workspace, grant_workspace, replace_workspace_grants, revoke_workspace_grant,
}
use hermes_local_hands.Storage.Requests.{
  Limits, add_request, set_request_state, claim_request_for_execution, expire_pending,
  mark_executing_uncertain,
}
use hermes_local_hands.Storage.Receipts.{append_receipt, pin_receipt_signing_key}
use hermes_local_hands.Storage.Evolves.{Evolves, Evolves-refl, Evolves-trans}
use hermes_local_hands.Storage.Evolves.Operations.{
  add_client-Evolves, revoke_client-Evolves, save_workspace-Evolves, grant_workspace-Evolves,
  replace_workspace_grants-Evolves, revoke_workspace_grant-Evolves, add_request-Evolves,
  set_request_state-Evolves, claim-Evolves, expire_pending-Evolves,
  mark_executing_uncertain-Evolves, append_receipt-Evolves, pin_receipt_signing_key-Evolves,
}

-- One operation of the store.
pub data Operation : Type 0 where
  op_add_client : Text → Text → Text → Operation
  op_revoke_client : Text → Operation
  op_save_workspace : WorkspacePolicy → Text → Bool → Option Text → Operation
  op_grant : Text → Text → Text → Operation
  op_replace_grants : Text → List Text → Text → Operation
  op_revoke_grant : Text → Text → Operation
  op_add_request : Limits → PendingRequest → Operation
  op_set_state : Text → RequestState → RequestState → Option Fields → Operation
  op_claim : Text → Text → Fields → Operation
  op_expire : Text → Operation
  op_interrupt : Operation
  op_append_receipt : ReceiptRow → Operation
  op_pin_key : Text → Operation

-- An operation as the service calls it: `set_request_state`, which takes any two states, only for a
-- transition of the life of a request.
abbrev pub KeepsLife : Operation → Type 0
KeepsLife (op_set_state id a b result) = Next a b
KeepsLife op = Unit

module _ (py : Runtime) where
  unfoldable pub perform : Operation → Db → Db
  perform (op_add_client id token now) db = (add_client py id token now db).1
  perform (op_revoke_client id) db = (revoke_client id db).1
  perform (op_save_workspace p h g t) db = (save_workspace p h g t db).1
  perform (op_grant c w t) db = (grant_workspace c w t db).1
  perform (op_replace_grants w cs t) db = (replace_workspace_grants w cs t db).1
  perform (op_revoke_grant c w) db = (revoke_workspace_grant c w db).1
  perform (op_add_request l r) db = (add_request py l r db).1
  perform (op_set_state id a b result) db = (set_request_state id a b result db).1
  perform (op_claim id now result) db = (claim_request_for_execution py id now result db).1
  perform (op_expire now) db = (expire_pending now db).1
  perform op_interrupt db = (mark_executing_uncertain db).1
  perform (op_append_receipt row) db = (append_receipt row db).1
  perform (op_pin_key f) db = (pin_receipt_signing_key f db).1

  -- A history of operations, the first one first.
  unfoldable pub history : List Operation → Db → Db
  history [] db = db
  history (op ∷ ops) db = history ops (perform op db)

  perform-Evolves : (op : Operation) → KeepsLife op → (db : Db) → Evolves db (perform op db)
  unfolding perform
  perform-Evolves (op_add_client id token now) n = (add_client-Evolves py id token now).at
  perform-Evolves (op_revoke_client id) n = (revoke_client-Evolves id).at
  perform-Evolves (op_save_workspace p h g t) n = (save_workspace-Evolves p h g t).at
  perform-Evolves (op_grant c w t) n = (grant_workspace-Evolves c w t).at
  perform-Evolves (op_replace_grants w cs t) n = (replace_workspace_grants-Evolves w cs t).at
  perform-Evolves (op_revoke_grant c w) n = (revoke_workspace_grant-Evolves c w).at
  perform-Evolves (op_add_request l r) n = (add_request-Evolves py l r).at
  perform-Evolves (op_set_state id a b result) n = (set_request_state-Evolves id a b result n).at
  perform-Evolves (op_claim id now result) n = (claim-Evolves py id now result).at
  perform-Evolves (op_expire now) n = (expire_pending-Evolves now).at
  perform-Evolves op_interrupt n = mark_executing_uncertain-Evolves.at
  perform-Evolves (op_append_receipt row) n = (append_receipt-Evolves row).at
  perform-Evolves (op_pin_key f) n = (pin_receipt_signing_key-Evolves f).at

  -- Whatever the operations of the store and their order, if `set_request_state` is called only for
  -- transitions of a request's life: every request row stays in its place and only makes transitions
  -- of that life, which write its state and result alone; the receipts are those of before with others
  -- behind; a pinned key stays pinned.
  pub history-Evolves :
      (ops : List Operation) → All KeepsLife ops → (db : Db) → Evolves db (history ops db)
  unfolding history
  history-Evolves [] n db = Evolves-refl db
  history-Evolves (op ∷ ops) n db =
      Evolves-trans db (perform op db) (history ops (perform op db)) (perform-Evolves op n.0 db)
        (history-Evolves ops n.1 (perform op db))
