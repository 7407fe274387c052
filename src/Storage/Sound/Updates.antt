-- ===== src/Storage/Sound/Updates.antt =====
-- The operations that update rows in place, or leave requests and receipts alone, keep the database
-- sound.
use hermes_local_hands.Base.{
  Text, Fields, Option, none, some, Bool, true, false, not, List, [], ◌∷◌, ◌++◌, ◌≡◌, refl, sym,
  ◌∙◌, arith, any, Bool-cases, inl, inr, or_false, text_eq,
}
use hermes_local_hands.Exec.Moves.{
  Moves, IsPreorder, Keeping, Keeping-IsPreorder, moves_rules, Moves-raise_if, Moves-bind,
  Moves-transaction,
}
use hermes_local_hands.Runtime.{Runtime}
use hermes_local_hands.Models.{RequestState, WorkspacePolicy}
use hermes_local_hands.Storage.{RequestRow, Db}
use hermes_local_hands.Storage.Clients.{add_client, delete_client, revoke_client}
use hermes_local_hands.Storage.Workspaces.{
  save_workspace, grant_workspace, replace_workspace_grants, revoke_workspace_grant, insert_grant,
  insert_new_grant, require_client,
}
use hermes_local_hands.Storage.Requests.{
  update_where, set_request_state, claim_request_for_execution,
}
use hermes_local_hands.Storage.Sound.{IsSound, update-IsSoundRows}

module _ (py : Runtime) where
  pub untouched-IsSound :
      (a b : Db) → b.requests ≡ a.requests → b.receipts ≡ a.receipts → IsSound py a → IsSound py b
  untouched-IsSound a b p q h = record { rows = rw p h.rows; linked = rw q h.linked }

  pub insert_grant-IsSound :
      (c w t : Text) (db : Db) → IsSound py db → IsSound py (insert_grant c w t db)
  insert_grant-IsSound c w t db =
      untouched-IsSound db (insert_grant c w t db) (unfold insert_grant in ground arith)
        (unfold insert_grant in ground arith)

  pub delete_client-IsSound : (c : Text) (db : Db) → IsSound py db → IsSound py (delete_client c db)
  unfolding delete_client
  delete_client-IsSound c db = untouched-IsSound db (delete_client c db) refl refl

  pub IsSound-preorder : IsPreorder (Keeping (IsSound py))
  IsSound-preorder = Keeping-IsPreorder (IsSound py)

  pub update-IsSound :
      (test : RequestRow → Bool) (s : RequestState) (r : Option Fields) (db : Db)
      → IsSound py db
      → IsSound py (record db { requests = update_where test s r db.requests })
  update-IsSound test s r db h = record {
    rows = update-IsSoundRows py test s r db.requests h.rows;
    linked = h.linked;
  }

pub ruleset keep_rules = (
  moves_rules, IsSound-preorder, untouched-IsSound, insert_grant-IsSound, delete_client-IsSound,
  update-IsSound, refl,
)

module _ (py : Runtime) where
  pub add_client-IsSound :
      (id token now : Text) → Moves (Keeping (IsSound py)) (add_client py id token now)
  unfolding add_client
  add_client-IsSound id token now = search keep_rules

  pub revoke_client-IsSound : (id : Text) → Moves (Keeping (IsSound py)) (revoke_client id)
  unfolding revoke_client
  revoke_client-IsSound id = search keep_rules depth 8

  pub save_workspace-IsSound :
      (p : WorkspacePolicy) (h : Text) (g : Bool) (t : Option Text)
      → Moves (Keeping (IsSound py)) (save_workspace p h g t)
  unfolding save_workspace
  save_workspace-IsSound p h g t = search keep_rules depth 10

  pub grant_workspace-IsSound :
      (c w t : Text) → Moves (Keeping (IsSound py)) (grant_workspace c w t)
  unfolding grant_workspace
  grant_workspace-IsSound c w t = search keep_rules depth 10

  pub insert_new_grant-IsSound :
      (w t c : Text) → Moves (Keeping (IsSound py)) (insert_new_grant w t c)
  unfolding insert_new_grant
  insert_new_grant-IsSound w t c = search keep_rules depth 10

  pub require_client-IsSound : (c : Text) → Moves (Keeping (IsSound py)) (require_client c)
  unfolding require_client
  require_client-IsSound c = search keep_rules depth 10

  pub replace_grants-IsSound :
      (w : Text) (cs : List Text) (t : Text)
      → Moves (Keeping (IsSound py)) (replace_workspace_grants w cs t)
  unfolding replace_workspace_grants
  replace_grants-IsSound w cs t =
      search (keep_rules, insert_new_grant-IsSound, require_client-IsSound) depth 12

  pub revoke_grant-IsSound :
      (c w : Text) → Moves (Keeping (IsSound py)) (revoke_workspace_grant c w)
  unfolding revoke_workspace_grant
  revoke_grant-IsSound c w = search keep_rules depth 8

  pub set_state-IsSound :
      (id : Text) (a b : RequestState) (r : Option Fields)
      → Moves (Keeping (IsSound py)) (set_request_state id a b r)
  unfolding set_request_state
  set_state-IsSound id a b r = search keep_rules depth 8

  pub claim-IsSound :
      (id now : Text) (r : Fields)
      → Moves (Keeping (IsSound py)) (claim_request_for_execution py id now r)
  unfolding claim_request_for_execution
  claim-IsSound id now r = search keep_rules depth 8
