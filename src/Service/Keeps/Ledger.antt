-- ===== src/Service/Keeps/Ledger.antt =====
-- The ledger under the actions of the service: only `append` writes it.
use hermes_local_hands.Base.{
  Text, Fields, ◌≡◌, refl, ◌∙◌, Bool, true, Option, none, some, List, [], ◌∷◌, arith,
}
use hermes_local_hands.Errors.{ok}
use hermes_local_hands.Exec.{Exec}
use hermes_local_hands.Exec.Moves.{Moves, IsPreorder, Keeping, Keeping-IsPreorder, moves_rules}
use hermes_local_hands.Runtime.{Runtime}
use hermes_local_hands.Models.{RequestState, PendingRequest, WorkspacePolicy}
use hermes_local_hands.Storage.{RequestRow, WorkspaceRow, GrantRow, Db}
use hermes_local_hands.Storage.Clients.{add_client, revoke_client, delete_client}
use hermes_local_hands.Storage.Workspaces.{
  save_workspace, insert_new_grant, require_client, replace_workspace_grants, insert_grant,
  grant_workspace, revoke_workspace_grant,
}
use hermes_local_hands.Storage.Requests.{
  Limits, insert_request, replay_request, store_request, add_request, set_request_state,
  claim_request_for_execution, move_one, move_all, expire_pending, mark_executing_uncertain,
}
use hermes_local_hands.Receipts.{Signer, verify}
use hermes_local_hands.Receipts.Chain.{verify_iff, verify-append}
use hermes_local_hands.Service.{World, Host}
use hermes_local_hands.Service.Keeps.{StoreKeeps, Action, act_all}
use hermes_local_hands.Service.Keeps.Acted.{act_all-keeps}

-- Nothing of the ledger has been written.
pub record SameLedger (a b : Db) : Type 0 where
  pub receipts : b.receipts ≡ a.receipts
  pub signing_key : b.signing_key ≡ a.signing_key

SameLedger-IsPreorder : IsPreorder SameLedger
SameLedger-IsPreorder = record {
  stay = λ a. record { receipts = refl; signing_key = refl };
  follow = λ a b c h k. record {
    receipts = k.receipts ∙ h.receipts;
    signing_key = k.signing_key ∙ h.signing_key;
  };
}

requests-SameLedger :
    (db : Db) (rows : List RequestRow) → SameLedger db (record db { requests = rows })
requests-SameLedger db rows = record { receipts = refl; signing_key = refl }

delete_client-SameLedger : (id : Text) (db : Db) → SameLedger db (delete_client id db)
unfolding delete_client
delete_client-SameLedger id db = record { receipts = refl; signing_key = refl }

same_fields :
    (db db' : Db)
    → db'.receipts ≡ db.receipts
    → db'.signing_key ≡ db.signing_key
    → SameLedger db db'
same_fields db db' h k = record { receipts = h; signing_key = k }

insert_grant-SameLedger : (c w t : Text) (db : Db) → SameLedger db (insert_grant c w t db)
unfolding insert_grant
insert_grant-SameLedger c w t db = record { receipts = ground arith; signing_key = ground arith }

move_all-SameLedger :
    (a b : RequestState) (d : Fields) (ids : List Text) (db : Db)
    → SameLedger db (move_all a b d ids db)
unfolding move_all move_one
move_all-SameLedger a b d [] db = SameLedger-IsPreorder.stay db
move_all-SameLedger a b d (id ∷ ids) db =
    let db' = move_one a b d db id in
    SameLedger-IsPreorder.follow db db' (move_all a b d ids db') (requests-SameLedger db _)
      (move_all-SameLedger a b d ids db')

ruleset same_rules = (
  SameLedger-IsPreorder, requests-SameLedger, delete_client-SameLedger, insert_grant-SameLedger,
  move_all-SameLedger, moves_rules,
)

module _ (py : Runtime) where
  add_client-Same : (id token now : Text) → Moves SameLedger (add_client py id token now)
  unfolding add_client
  add_client-Same id token now = search (same_rules, same_fields) depth 20

  insert_request-Same : (l : Limits) (r : PendingRequest) → Moves SameLedger (insert_request py l r)
  unfolding insert_request
  insert_request-Same l r = search same_rules depth 30

  store_request-Same :
      (l : Limits) (r : PendingRequest) (o : Option RequestRow)
      → Moves SameLedger (store_request py l r o)
  unfolding store_request replay_request
  store_request-Same l r none = insert_request-Same l r
  store_request-Same l r (some row) = search same_rules depth 20

  add_request-Same : (l : Limits) (r : PendingRequest) → Moves SameLedger (add_request py l r)
  unfolding add_request
  add_request-Same l r = search (same_rules, store_request-Same) depth 20

  claim-Same :
      (id now : Text) (d : Fields) → Moves SameLedger (claim_request_for_execution py id now d)
  unfolding claim_request_for_execution
  claim-Same id now d = search same_rules depth 20

revoke_client-Same : (id : Text) → Moves SameLedger (revoke_client id)
unfolding revoke_client
revoke_client-Same id = search same_rules depth 20

upsert-SameLedger :
    (db : Db) (rows : List WorkspaceRow) → SameLedger db (record db { workspaces = rows })
upsert-SameLedger db rows = record { receipts = refl; signing_key = refl }

grants-SameLedger : (db : Db) (rows : List GrantRow) → SameLedger db (record db { grants = rows })
grants-SameLedger db rows = record { receipts = refl; signing_key = refl }

save_workspace-Same :
    (p : WorkspacePolicy) (h : Text) (g : Bool) (t : Option Text)
    → Moves SameLedger (save_workspace p h g t)
unfolding save_workspace
save_workspace-Same p h g t = search (same_rules, upsert-SameLedger) depth 20

insert_new_grant-Same : (w t c : Text) → Moves SameLedger (insert_new_grant w t c)
unfolding insert_new_grant
insert_new_grant-Same w t c = search same_rules depth 20

require_client-Same : (c : Text) → Moves SameLedger (require_client c)
unfolding require_client
require_client-Same c = search same_rules depth 20

replace_grants-Same :
    (w : Text) (cs : List Text) (t : Text) → Moves SameLedger (replace_workspace_grants w cs t)
unfolding replace_workspace_grants
replace_grants-Same w cs t =
    search (same_rules, grants-SameLedger, insert_new_grant-Same, require_client-Same) depth 20

grant_workspace-Same : (c w t : Text) → Moves SameLedger (grant_workspace c w t)
unfolding grant_workspace
grant_workspace-Same c w t = search same_rules depth 20

revoke_grant-Same : (c w : Text) → Moves SameLedger (revoke_workspace_grant c w)
unfolding revoke_workspace_grant
revoke_grant-Same c w = search (same_rules, same_fields) depth 20

set_state-Same :
    (id : Text) (a b : RequestState) (d : Option Fields)
    → Moves SameLedger (set_request_state id a b d)
unfolding set_request_state
set_state-Same id a b d = search same_rules depth 20

expire_pending-Same : (now : Text) → Moves SameLedger (expire_pending now)
unfolding expire_pending
expire_pending-Same now = search same_rules depth 20

mark_uncertain-Same : Moves SameLedger mark_executing_uncertain
unfolding mark_executing_uncertain
mark_uncertain-Same = search same_rules depth 20

module _ (py : Runtime) (signer : Signer) where
  Verifies : Db → Type 0
  Verifies db = (verify py signer db).0 ≡ ok true

  verifies : {A : Type 0} {m : Exec Db A} → Moves SameLedger m → Moves (Keeping Verifies) m
  unfolding Verifies
  verifies {A} {m} k = record {
    at = λ db h.
        let same = k.at db in
        let (pinned, intact) = (verify_iff py signer db).0 h in
        (verify_iff py signer (m db).1).1 (rw (same.signing_key) pinned, rw (same.receipts) intact);
  }

  store_keeps_ledger :
      ((m : Text) → signer.verify m (signer.sign m) ≡ true)
      → StoreKeeps py signer (Keeping Verifies)
  unfolding Verifies
  store_keeps_ledger genuine = record {
    preorder = Keeping-IsPreorder Verifies;
    add_client = λ id token now. verifies (add_client-Same py id token now);
    revoke_client = λ id. verifies (revoke_client-Same id);
    save_workspace = λ p h g t. verifies (save_workspace-Same p h g t);
    replace_workspace_grants = λ w cs t. verifies (replace_grants-Same w cs t);
    grant_workspace = λ c w t. verifies (grant_workspace-Same c w t);
    revoke_workspace_grant = λ c w. verifies (revoke_grant-Same c w);
    add_request = λ l r. verifies (add_request-Same py l r);
    set_request_state = λ id a b d n. verifies (set_state-Same id a b d);
    claim = λ id now d. verifies (claim-Same py id now d);
    expire_pending = λ now. verifies (expire_pending-Same now);
    mark_executing_uncertain = verifies mark_uncertain-Same;
    append = λ id time event d. record {
      at = λ db h. verify-append py signer genuine id time event d db h;
    };
  }

  -- If signatures made by the signer verify, a ledger that verifies still verifies after any actions
  -- of the operator and of remote clients, in any order and however each of them ends.
  pub ledger_stays_intact :
      ((m : Text) → signer.verify m (signer.sign m) ≡ true)
      → (host : Host) (actions : List Action) (w : World) → (verify py signer w.db).0 ≡ ok true
      → (verify py signer (act_all py signer host actions w).db).0 ≡ ok true
  unfolding Verifies
  ledger_stays_intact genuine host actions w h =
      act_all-keeps py signer host (store_keeps_ledger genuine) actions w h
