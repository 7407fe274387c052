-- ===== src/Service/Calls/Approved.antt =====
-- What `approve` asks for: before the request is confirmed and claimed, looks alone.
use hermes_local_hands.Base.{Text, Fields, ◌≡◌, true, false, Option, none, is_empty}
use hermes_local_hands.Errors.{Error, Result, ok, err}
use hermes_local_hands.Exec.{Exec}
use hermes_local_hands.Exec.Moves.{Moves}
use hermes_local_hands.Runtime.{Runtime}
use hermes_local_hands.Models.{pending, WorkspacePolicy, PendingRequest}
use hermes_local_hands.Models.States.{state_eq}
use hermes_local_hands.Storage.Requests
use hermes_local_hands.Patch.Validate.{PatchPlan}
use hermes_local_hands.Receipts.{Signer}
use hermes_local_hands.Checkout.{Status}
use hermes_local_hands.Service.{World, Host, on_db}
use hermes_local_hands.Service.Approval.{compare_digest, code_of}
use hermes_local_hands.Service.Execution.{claim, run_claimed}
use hermes_local_hands.Service.Calls.{Looks}

module _ (py : Runtime) (signer : Signer) (host : Host) where
  -- A call of `approve` that went past the claim.
  pub record Claimed (request_id confirmation : Text) (w : World) (r : Result Fields × World)
      : Type 0 where
    pub request : PendingRequest
    pub policy : WorkspacePolicy
    pub before : Status
    pub plan : Option PatchPlan
    pub linked : Option PendingRequest
    pub attempt_id : Text
    -- the worlds in which the request was read, in which it was claimed, and after the claim
    pub read : World
    pub unclaimed : World
    pub claimed : World
    pub is_read : (on_db (Requests.request request_id none) read).0 ≡ ok request
    pub is_pending : state_eq request.state pending ≡ true
    pub is_confirmed : is_empty confirmation ≡ false
    pub code_matches : compare_digest (py.upper confirmation) (code_of py request) ≡ ok true
    pub is_claimed : claim py signer host request attempt_id unclaimed ≡ (ok tt, claimed)
    pub looked : Looks w claimed
    pub runs : r ≡ run_claimed py signer host request policy before plan linked attempt_id claimed

  pub data Ends (request_id confirmation : Text) (w : World) (r : Result Fields × World)
      : Type 0 where
    refused : (e : Error) → r.0 ≡ err e → Looks w r.1 → Ends request_id confirmation w r
    executed : Claimed request_id confirmation w r → Ends request_id confirmation w r
