-- ===== src/Service/Keeps.antt =====
-- A relation between databases that every operation of the store keeps, every action of the service
-- keeps: `StoreKeeps` is what the store has to show, and `Action` are the service's actions.
pub mod Lifted
pub mod Endings
pub mod Asked
pub mod Acted
pub mod Histories
pub mod Ledger
pub mod Sound
use hermes_local_hands.Base.{Text, Fields, ℕ, Bool, Option, List, [], ◌∷◌}
use hermes_local_hands.Exec.Moves.{Moves, IsPreorder}
use hermes_local_hands.Runtime.{Runtime}
use hermes_local_hands.Models.{RequestState, WorkspacePolicy, PendingRequest}
use hermes_local_hands.Models.States.{Next}
use hermes_local_hands.Storage.{Db}
use hermes_local_hands.Storage.Clients
use hermes_local_hands.Storage.Workspaces
use hermes_local_hands.Storage.Requests.{
  Limits, add_request, set_request_state, claim_request_for_execution, expire_pending,
  mark_executing_uncertain,
}
use hermes_local_hands.Receipts
use hermes_local_hands.Receipts.{Signer}
use hermes_local_hands.Service.{World, Host}
use hermes_local_hands.Service.Clients as Operator
use hermes_local_hands.Service
use hermes_local_hands.Service.Policies.{Places}
use hermes_local_hands.Service.Register
use hermes_local_hands.Service.Approval as Approval
use hermes_local_hands.Service.Execution as Execution
use hermes_local_hands.Service.Remote.{ToolCall, serve}

pub record StoreKeeps (py : Runtime) (signer : Signer) (R : Db → Db → Type 0) : Type 0 where
  pub preorder : IsPreorder R
  pub add_client : (id token now : Text) → Moves R (Clients.add_client py id token now)
  pub revoke_client : (id : Text) → Moves R (Clients.revoke_client id)
  pub save_workspace :
      (p : WorkspacePolicy) (h : Text) (g : Bool) (t : Option Text)
      → Moves R (Workspaces.save_workspace p h g t)
  pub replace_workspace_grants :
      (w : Text) (cs : List Text) (t : Text) → Moves R (Workspaces.replace_workspace_grants w cs t)
  pub grant_workspace : (c w t : Text) → Moves R (Workspaces.grant_workspace c w t)
  pub revoke_workspace_grant : (c w : Text) → Moves R (Workspaces.revoke_workspace_grant c w)
  pub add_request : (l : Limits) (r : PendingRequest) → Moves R (add_request py l r)
  pub set_request_state :
      (id : Text) (a b : RequestState) (d : Option Fields)
      → Next a b
      → Moves R (set_request_state id a b d)
  pub claim : (id now : Text) (d : Fields) → Moves R (claim_request_for_execution py id now d)
  pub expire_pending : (now : Text) → Moves R (expire_pending now)
  pub mark_executing_uncertain : Moves R mark_executing_uncertain
  pub append :
      (id time event : Text) (d : Fields) → Moves R (Receipts.append py signer id time event d)

-- What the operator does, and what remote clients call.
pub data Action : Type 0 where
  bootstrap_client : Text → Action
  revoke_client : Text → Action
  register_workspace : Places → WorkspacePolicy → List Text → Action
  grant_workspace : Text → Text → Action
  revoke_workspace : Text → Text → Action
  reject : Text → Text → Action
  approve : Text → Text → Action
  recover_interrupted : Action
  remote : Text × ToolCall → Action

module _ (py : Runtime) (signer : Signer) (host : Host) where
  -- The world after one action, however it ends.
  unfoldable pub act : Action → World → World
  act (bootstrap_client id) w = (Operator.bootstrap_client py signer host id w).1
  act (revoke_client id) w = (Operator.revoke_client py signer host id w).1
  act (register_workspace places policy clients) w =
      (Register.register_workspace py signer host places policy clients w).1
  act (grant_workspace c id) w = (Operator.grant_workspace py signer host c id w).1
  act (revoke_workspace c id) w = (Operator.revoke_workspace py signer host c id w).1
  act (reject id reason) w = (Approval.reject py signer host id reason w).1
  act (approve id confirmation) w = (Execution.approve py signer host id confirmation w).1
  act recover_interrupted w = (Service.recover_interrupted py signer host w).1
  act (remote call) w = serve py signer host call w

  -- Any actions in any order, the first one first.
  unfoldable pub act_all : List Action → World → World
  act_all [] w = w
  act_all (a ∷ rest) w = act_all rest (act a w)
