-- ===== src/Service/Keeps/Histories.antt =====
-- What the service's actions do to the database is a history of operations of the store, in which
-- `set_request_state` keeps to the life of a request.
use hermes_local_hands.Base.{Text, Fields, ◌≡◌, refl, sym, ap, ◌∙◌, All, List, [], ◌∷◌, ◌++◌}
use hermes_local_hands.Exec.Moves.{Moves, IsPreorder, moves_rules}
use hermes_local_hands.Runtime.{Runtime}
use hermes_local_hands.Storage.{ReceiptRow, Db}
use hermes_local_hands.Storage.Receipts.{append_receipt, last_receipt_hash}
use hermes_local_hands.Storage.History.{
  Operation, KeepsLife, perform, history, op_add_client, op_revoke_client, op_save_workspace,
  op_replace_grants, op_grant, op_revoke_grant, op_add_request, op_set_state, op_claim, op_expire,
  op_interrupt, op_append_receipt,
}
use hermes_local_hands.Receipts.{Signer, append}
use hermes_local_hands.Service.{World, Host}
use hermes_local_hands.Service.Keeps.{StoreKeeps, Action, act_all}
use hermes_local_hands.Service.Keeps.Acted.{act_all-keeps}

-- A history that leads from one database to another.
pub record HasHistory (py : Runtime) (a b : Db) : Type 0 where
  pub operations : List Operation
  pub keep_life : All KeepsLife operations
  pub reached : b ≡ history py operations a

All-append {ℓ κ} :
    {A : Type ℓ} (P : A → Type κ) (xs ys : List A) → All P xs → All P ys → All P (xs ++ ys)
All-append P [] ys h k = k
All-append P (x ∷ xs) ys h k = (h.0, All-append P xs ys h.1 k)

module _ (py : Runtime) where
  history-append :
      (xs ys : List Operation) (db : Db)
      → history py (xs ++ ys) db ≡ history py ys (history py xs db)
  unfolding history
  history-append [] ys db = refl
  history-append (x ∷ xs) ys db = history-append xs ys (perform py x db)

  HasHistory-IsPreorder : IsPreorder (HasHistory py)
  HasHistory-IsPreorder = record {
    stay = λ a. record { operations = []; keep_life = tt; reached = unfold history in refl };
    follow = λ a b c h k. record {
      operations = h.operations ++ k.operations;
      keep_life = All-append KeepsLife h.operations k.operations h.keep_life k.keep_life;
      reached =
          k.reached
          ∙ ap (history py k.operations) h.reached
          ∙ sym (history-append h.operations k.operations a);
    };
  }

  one-HasHistory : (op : Operation) → KeepsLife op → (a : Db) → HasHistory py a (perform py op a)
  unfolding history
  one-HasHistory op h a = record { operations = op ∷ []; keep_life = (h, tt); reached = refl }

  append_row-Moves : (row : ReceiptRow) → Moves (HasHistory py) (append_receipt row)
  unfolding perform
  append_row-Moves row = record { at = one-HasHistory (op_append_receipt row) tt }

  last_hash-Moves : Moves (HasHistory py) last_receipt_hash
  unfolding last_receipt_hash
  last_hash-Moves = search (moves_rules, HasHistory-IsPreorder) depth 20

  append-Moves :
      (signer : Signer) (id time event : Text) (d : Fields)
      → Moves (HasHistory py) (append py signer id time event d)
  unfolding append
  append-Moves signer id time event d =
      search (moves_rules, HasHistory-IsPreorder, last_hash-Moves, append_row-Moves) depth 20

  store_keeps-HasHistory : (signer : Signer) → StoreKeeps py signer (HasHistory py)
  unfolding perform
  store_keeps-HasHistory signer = record {
    preorder = HasHistory-IsPreorder;
    add_client = λ id t now. record { at = one-HasHistory (op_add_client id t now) tt };
    revoke_client = λ id. record { at = one-HasHistory (op_revoke_client id) tt };
    save_workspace = λ p h g t. record { at = one-HasHistory (op_save_workspace p h g t) tt };
    replace_workspace_grants =
        λ w cs t. record { at = one-HasHistory (op_replace_grants w cs t) tt };
    grant_workspace = λ c w t. record { at = one-HasHistory (op_grant c w t) tt };
    revoke_workspace_grant = λ c w. record { at = one-HasHistory (op_revoke_grant c w) tt };
    add_request = λ l r. record { at = one-HasHistory (op_add_request l r) tt };
    set_request_state = λ id a b d n. record { at = one-HasHistory (op_set_state id a b d) n };
    claim = λ id now d. record { at = one-HasHistory (op_claim id now d) tt };
    expire_pending = λ now. record { at = one-HasHistory (op_expire now) tt };
    mark_executing_uncertain = record { at = one-HasHistory op_interrupt tt };
    append = append-Moves signer;
  }

  -- Whatever actions the operator and remote clients take, in whatever order and however each of them
  -- ends, the database that they lead to is that of some sequence of the store's operations, in which
  -- `set_request_state` is called for transitions of a request's life alone.
  pub act_all-HasHistory :
      (signer : Signer) (host : Host) (actions : List Action) (w : World)
      → HasHistory py w.db (act_all py signer host actions w).db
  act_all-HasHistory signer host actions w =
      act_all-keeps py signer host (store_keeps-HasHistory signer) actions w
