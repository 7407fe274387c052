-- ===== src/Service/Keeps/Sound.antt =====
-- The store stays sound under the actions of the service.
use hermes_local_hands.Base.{Text, Fields, List}
use hermes_local_hands.Exec.Moves.{Moves, Keeping, Keeping-IsPreorder, moves_rules}
use hermes_local_hands.Runtime.{Runtime}
use hermes_local_hands.Storage.{ReceiptRow}
use hermes_local_hands.Storage.Receipts.{append_receipt, last_receipt_hash}
use hermes_local_hands.Storage.History.{
  perform, op_add_client, op_revoke_client, op_save_workspace, op_replace_grants, op_grant,
  op_revoke_grant, op_add_request, op_claim, op_expire, op_interrupt, op_append_receipt,
}
use hermes_local_hands.Storage.Sound.{IsSound}
use hermes_local_hands.Storage.Sound.Updates.{set_state-IsSound, IsSound-preorder}
use hermes_local_hands.Storage.Sound.Kept.{perform-IsSound}
use hermes_local_hands.Receipts.{Signer, append}
use hermes_local_hands.Service.{World, Host}
use hermes_local_hands.Service.Keeps.{StoreKeeps, Action, act_all}
use hermes_local_hands.Service.Keeps.Acted.{act_all-keeps}

module _ (py : Runtime) (signer : Signer) where
  append_row-Moves : (row : ReceiptRow) → Moves (Keeping (IsSound py)) (append_receipt row)
  unfolding perform
  append_row-Moves row = record { at = perform-IsSound py (op_append_receipt row) }

  last_hash-Moves : Moves (Keeping (IsSound py)) last_receipt_hash
  unfolding last_receipt_hash
  last_hash-Moves = search (moves_rules, IsSound-preorder) depth 20

  append-Moves :
      (id time event : Text) (d : Fields)
      → Moves (Keeping (IsSound py)) (append py signer id time event d)
  unfolding append
  append-Moves id time event d =
      search (moves_rules, IsSound-preorder, last_hash-Moves, append_row-Moves) depth 20

  store_keeps-IsSound : StoreKeeps py signer (Keeping (IsSound py))
  unfolding perform
  store_keeps-IsSound = record {
    preorder = Keeping-IsPreorder (IsSound py);
    add_client = λ id t now. record { at = perform-IsSound py (op_add_client id t now) };
    revoke_client = λ id. record { at = perform-IsSound py (op_revoke_client id) };
    save_workspace = λ p h g t. record { at = perform-IsSound py (op_save_workspace p h g t) };
    replace_workspace_grants =
        λ w cs t. record { at = perform-IsSound py (op_replace_grants w cs t) };
    grant_workspace = λ c w t. record { at = perform-IsSound py (op_grant c w t) };
    revoke_workspace_grant = λ c w. record { at = perform-IsSound py (op_revoke_grant c w) };
    add_request = λ l r. record { at = perform-IsSound py (op_add_request l r) };
    set_request_state = λ id a b d n. set_state-IsSound py id a b d;
    claim = λ id now d. record { at = perform-IsSound py (op_claim id now d) };
    expire_pending = λ now. record { at = perform-IsSound py (op_expire now) };
    mark_executing_uncertain = record { at = perform-IsSound py op_interrupt };
    append = append-Moves;
  }

  -- A sound database is sound after any actions of the operator and of remote clients, in any order
  -- and however each of them ends.
  pub database_stays-IsSound :
      (host : Host) (actions : List Action) (w : World)
      → IsSound py w.db
      → IsSound py (act_all py signer host actions w).db
  database_stays-IsSound host actions w h =
      act_all-keeps py signer host store_keeps-IsSound actions w h
