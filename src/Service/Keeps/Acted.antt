-- ===== src/Service/Keeps/Acted.antt =====
-- Every action of the service keeps what the store keeps.
use hermes_local_hands.Base.{Text, Fields, Value, null, Option, none, some, List, [], ◌∷◌}
use hermes_local_hands.Errors.{Error}
use hermes_local_hands.Exec.Moves.{Moves}
use hermes_local_hands.Exec.Yields.{Moves-bind_yielded}
use hermes_local_hands.Runtime.{Runtime}
use hermes_local_hands.Models.{
  RequestKind, patch, test, RequestState, executing, WorkspacePolicy, PendingRequest,
}
use hermes_local_hands.Models.States.{Next}
use hermes_local_hands.Storage.{Db}
use hermes_local_hands.Patch.Validate.{PatchPlan}
use hermes_local_hands.Receipts.{Signer}
use hermes_local_hands.Checkout.{Status}
use hermes_local_hands.Service.{World, Host}
use hermes_local_hands.Service.Approval.{
  approved_plan, confirm, approval_preflight, linked_request, linked_patch,
}
use hermes_local_hands.Service.Execution.{
  apply_text, run_patch, apply_linked, note_linked, observe, run_test, run_kind, execute, claim,
  settle, settle_failure, run_claimed, approve,
}
use hermes_local_hands.Service.Keeps
use hermes_local_hands.Service.Keeps.{StoreKeeps, Action, act, act_all}
use hermes_local_hands.Service.Keeps.Lifted.{
  OnDb, OnDb-IsPreorder, OnDb-attempt, on_db_rules, check_patch_applies-Moves, apply_patch-Moves,
  request-Moves, workspace_of-Moves, draw_token-Moves, now-Moves, record_event-Moves,
  expire_due-Moves, recover_interrupted-Moves,
}
use hermes_local_hands.Service.Keeps.Endings.{IsEnding, failure_state-Next, attempted-IsEnding}
use hermes_local_hands.Service.Keeps.Asked.{
  register_workspace-Moves, bootstrap_client-Moves, revoke_client-Moves, grant_workspace-Moves,
  revoke_workspace-Moves, reject-Moves, require_clean-Moves, serve-Moves,
}

module _ (py : Runtime) (signer : Signer) (host : Host) {R : Db → Db → Type 0}
    (k : StoreKeeps py signer R) where
  approved_plan-Moves :
      (r : PendingRequest) (p : WorkspacePolicy) (a : RequestKind)
      → Moves (OnDb R) (approved_plan py signer host r p a)
  unfolding approved_plan
  approved_plan-Moves r p patch = search (on_db_rules, k, check_patch_applies-Moves) depth 30
  approved_plan-Moves r p test = search (on_db_rules, k) depth 30

  confirm-Moves : (r : PendingRequest) (c : Text) → Moves (OnDb R) (confirm py signer host r c)
  unfolding confirm
  confirm-Moves r c = search (on_db_rules, k) depth 30

  preflight-Moves :
      (r : PendingRequest) (c : Text) → Moves (OnDb R) (approval_preflight py signer host r c)
  unfolding approval_preflight
  preflight-Moves r c =
      search
        (
          on_db_rules, k, confirm-Moves, workspace_of-Moves, require_clean-Moves,
          approved_plan-Moves,
        )
        depth 30

  linked_request-Moves :
      (r : PendingRequest) (p : WorkspacePolicy) (o : Option Value)
      → Moves (OnDb R) (linked_request py signer host r p o)
  unfolding linked_request
  linked_request-Moves r p none = search (on_db_rules, k) depth 30
  linked_request-Moves r p (some null) = search (on_db_rules, k) depth 30
  linked_request-Moves r p (some v) = search (on_db_rules, k, request-Moves) depth 30

  linked_patch-Moves :
      (r : PendingRequest) (p : WorkspacePolicy) (a : RequestKind)
      → Moves (OnDb R) (linked_patch py signer host r p a)
  unfolding linked_patch
  linked_patch-Moves r p patch = search (on_db_rules, k) depth 30
  linked_patch-Moves r p test = search (on_db_rules, linked_request-Moves) depth 30

  apply_text-Moves : (t : Text) (v : Value) → Moves (OnDb R) (apply_text py signer host t v)
  unfolding apply_text
  apply_text-Moves t v = search (apply_patch-Moves, k) depth 30

  run_patch-Moves :
      (r : PendingRequest) (t : Text) (o : Option PatchPlan)
      → Moves (OnDb R) (run_patch py signer host r t o)
  unfolding run_patch
  run_patch-Moves r t none = search (on_db_rules, k) depth 30
  run_patch-Moves r t (some plan) = search (on_db_rules, k, apply_text-Moves) depth 30

  apply_linked-Moves :
      (t : Text) (o : Option PendingRequest) → Moves (OnDb R) (apply_linked py signer host t o)
  unfolding apply_linked
  apply_linked-Moves t none = search (on_db_rules, k) depth 30
  apply_linked-Moves t (some l) = search (on_db_rules, k, apply_text-Moves) depth 30

  note_linked-Moves :
      (o : Option PendingRequest) (d : Fields) → Moves (OnDb R) (note_linked py signer host o d)
  unfolding note_linked
  note_linked-Moves none d = search (on_db_rules, k) depth 30
  note_linked-Moves (some l) d = search (on_db_rules, k) depth 30

  observe-Moves : (root : Text) (s : Status) → Moves (OnDb R) (observe py signer host root s)
  unfolding observe
  observe-Moves root s = search (on_db_rules, k) depth 30

  run_test-Moves :
      (r : PendingRequest) (p : WorkspacePolicy) (s : Status) (t : Text) (o : Option PendingRequest)
      → Moves (OnDb R) (run_test py signer host r p s t o)
  unfolding run_test
  run_test-Moves r p s t o =
      search (on_db_rules, k, apply_linked-Moves, note_linked-Moves, observe-Moves) depth 30

  run_kind-Moves :
      (a : RequestKind) (r : PendingRequest) (p : WorkspacePolicy) (s : Status)
      (o : Option PatchPlan) (l : Option PendingRequest) (t : Text)
      → Moves (OnDb R) (run_kind py signer host a r p s o l t)
  unfolding run_kind
  run_kind-Moves patch r p s o l t = run_patch-Moves r t o
  run_kind-Moves test r p s o l t = run_test-Moves r p s t l

  execute-Moves :
      (r : PendingRequest) (p : WorkspacePolicy) (s : Status) (o : Option PatchPlan)
      (l : Option PendingRequest)
      → Moves (OnDb R) (execute py signer host r p s o l)
  unfolding execute
  execute-Moves r p s o l = search (on_db_rules, k, run_kind-Moves) depth 30

  claim-Moves : (r : PendingRequest) (a : Text) → Moves (OnDb R) (claim py signer host r a)
  unfolding claim
  claim-Moves r a = search (on_db_rules, k, now-Moves, k.claim, record_event-Moves) depth 30

  settle-Moves :
      (r : PendingRequest) (s : RequestState) (d : Fields) (e : Text) (f : Fields)
      → Next executing s
      → Moves (OnDb R) (settle py signer host r s d e f)
  unfolding settle
  settle-Moves r s d e f n =
      search (on_db_rules, k, k.set_request_state, n, record_event-Moves) depth 30

  settle_failure-Moves :
      (r : PendingRequest) (a : Text) (e : Error)
      → Moves (OnDb R) (settle_failure py signer host r a e)
  unfolding settle_failure
  settle_failure-Moves r a e = search (on_db_rules, k, settle-Moves, failure_state-Next) depth 30

  run_claimed-Moves :
      (r : PendingRequest) (p : WorkspacePolicy) (s : Status) (o : Option PatchPlan)
      (l : Option PendingRequest) (a : Text)
      → Moves (OnDb R) (run_claimed py signer host r p s o l a)
  unfolding run_claimed
  run_claimed-Moves r p s o l a =
      Moves-bind_yielded (OnDb-IsPreorder k.preorder) IsEnding _ _
        (OnDb-attempt k.preorder _ _ (execute-Moves r p s o l) (settle_failure-Moves r a))
        (attempted-IsEnding py signer host r p s o l a)
        (λ outcome n. search (on_db_rules, k, settle-Moves, n) depth 30)

  approve-Moves : (id c : Text) → Moves (OnDb R) (approve py signer host id c)
  unfolding approve
  approve-Moves id c =
      search
        (
          on_db_rules, k, expire_due-Moves, request-Moves, preflight-Moves, linked_patch-Moves,
          draw_token-Moves, claim-Moves, run_claimed-Moves,
        )
        depth 30

  act-Moves : (a : Action) (w : World) → OnDb R w (act py signer host a w)
  unfolding act
  act-Moves (Keeps.bootstrap_client id) = (bootstrap_client-Moves py signer host k id).at
  act-Moves (Keeps.revoke_client id) = (revoke_client-Moves py signer host k id).at
  act-Moves (Keeps.register_workspace places policy clients) =
      (register_workspace-Moves py signer host k places policy clients).at
  act-Moves (Keeps.grant_workspace c id) = (grant_workspace-Moves py signer host k c id).at
  act-Moves (Keeps.revoke_workspace c id) = (revoke_workspace-Moves py signer host k c id).at
  act-Moves (Keeps.reject id reason) = (reject-Moves py signer host k id reason).at
  act-Moves (Keeps.approve id c) = (approve-Moves id c).at
  act-Moves Keeps.recover_interrupted = (recover_interrupted-Moves py signer host k).at
  act-Moves (Keeps.remote call) = serve-Moves py signer host k call

  -- What every operation of the store and the ledger's append keep, all actions keep, however they
  -- end and in whatever order they come.
  pub act_all-keeps :
      (actions : List Action) (w : World) → R w.db (act_all py signer host actions w).db
  unfolding act_all
  act_all-keeps [] w = k.preorder.stay w.db
  act_all-keeps (a ∷ rest) w =
      let v = act py signer host a w in
      k.preorder.follow w.db v.db (act_all py signer host rest v).db (act-Moves a w).on
        (act_all-keeps rest v)
