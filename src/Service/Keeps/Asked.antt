-- ===== src/Service/Keeps/Asked.antt =====
-- What the store keeps, the operator's actions but `approve` and the remote tools keep.
use hermes_local_hands.Base.{Text, Fields, ℕ, Bool, true, false, Option, none, some, List}
use hermes_local_hands.Exec.Moves.{Moves}
use hermes_local_hands.Runtime.{Runtime}
use hermes_local_hands.Models.{RequestKind, WorkspacePolicy, PendingRequest}
use hermes_local_hands.Models.States
use hermes_local_hands.Storage.{Db}
use hermes_local_hands.Receipts.{Signer}
use hermes_local_hands.Checkout.{Status}
use hermes_local_hands.Service.{World, Host}
use hermes_local_hands.Service.Clients as Operator
use hermes_local_hands.Service.Requests.{
  require_clean, record_new, save_pending, save_request, propose_patch, link_payload, request_test,
  repo_status,
}
use hermes_local_hands.Service.Policies.{Places}
use hermes_local_hands.Service.Register.{save_registered, register_workspace}
use hermes_local_hands.Service.Views.{public_request}
use hermes_local_hands.Service.Approval.{reject}
use hermes_local_hands.Service.Files
use hermes_local_hands.Service.Remote
use hermes_local_hands.Service.Remote.{
  ToolCall, require_client, call_propose_patch, call_request_check, call_request_status,
  call_workspace_status, call_read_file, serve,
}
use hermes_local_hands.Service.Keeps.{StoreKeeps}
use hermes_local_hands.Service.Keeps.Lifted.{
  OnDb, on_db_rules, check_patch_applies-Moves, request-Moves, workspace_of-Moves, now_micros-Moves,
  draw_token-Moves, now-Moves, record_event-Moves, expire_due-Moves, event_if-Moves,
}

module _ (py : Runtime) (signer : Signer) (host : Host) {R : Db → Db → Type 0}
    (k : StoreKeeps py signer R) where
  pub bootstrap_client-Moves :
      (id : Text) → Moves (OnDb R) (Operator.bootstrap_client py signer host id)
  unfolding Operator.bootstrap_client
  bootstrap_client-Moves id =
      search (on_db_rules, k, k.add_client, now-Moves, draw_token-Moves, record_event-Moves) depth
        30

  pub revoke_client-Moves : (id : Text) → Moves (OnDb R) (Operator.revoke_client py signer host id)
  unfolding Operator.revoke_client
  revoke_client-Moves id = search (on_db_rules, k, k.revoke_client, record_event-Moves) depth 30

  save_registered-Moves :
      (places : Places) (p : WorkspacePolicy) (clients : List Text) (t : Text)
      → Moves (OnDb R) (save_registered py signer host places p clients t)
  unfolding save_registered
  save_registered-Moves places p clients t =
      search (on_db_rules, k, k.save_workspace, k.replace_workspace_grants, record_event-Moves)
        depth 30

  pub register_workspace-Moves :
      (places : Places) (p : WorkspacePolicy) (clients : List Text)
      → Moves (OnDb R) (register_workspace py signer host places p clients)
  unfolding register_workspace
  register_workspace-Moves places p clients =
      search (on_db_rules, k, now-Moves, save_registered-Moves) depth 30

  pub grant_workspace-Moves :
      (c id : Text) → Moves (OnDb R) (Operator.grant_workspace py signer host c id)
  unfolding Operator.grant_workspace
  grant_workspace-Moves c id =
      search (on_db_rules, k, k.grant_workspace, now-Moves, event_if-Moves) depth 30

  pub revoke_workspace-Moves :
      (c id : Text) → Moves (OnDb R) (Operator.revoke_workspace py signer host c id)
  unfolding Operator.revoke_workspace
  revoke_workspace-Moves c id =
      search (on_db_rules, k, k.revoke_workspace_grant, event_if-Moves) depth 30

  pub reject-Moves : (id reason : Text) → Moves (OnDb R) (reject py signer host id reason)
  unfolding reject
  reject-Moves id reason =
      search
        (
          on_db_rules, k, k.set_request_state, States.reject, request-Moves, expire_due-Moves,
          record_event-Moves,
        )
        depth 30

  pub require_clean-Moves : (s : Status) → Moves (OnDb R) (require_clean s)
  unfolding require_clean
  require_clean-Moves s = search (on_db_rules, k) depth 30

  record_new-Moves :
      (b : Bool) (r : PendingRequest) → Moves (OnDb R) (record_new py signer host b r)
  unfolding record_new
  record_new-Moves false r = search (on_db_rules, k) depth 30
  record_new-Moves true r = search (on_db_rules, k, record_event-Moves) depth 30

  save_pending-Moves :
      (r : PendingRequest) (t : Text) → Moves (OnDb R) (save_pending py signer host r t)
  unfolding save_pending
  save_pending-Moves r t = search (on_db_rules, k, k.add_request, record_new-Moves) depth 30

  save_request-Moves :
      (a : RequestKind) (w : Text) (d : Fields) (key c h q : Text)
      → Moves (OnDb R) (save_request py signer host a w d key c h q)
  unfolding save_request
  save_request-Moves a w d key c h q =
      search (on_db_rules, k, now_micros-Moves, draw_token-Moves, save_pending-Moves) depth 30

  propose_patch-Moves :
      (id text key client : Text) → Moves (OnDb R) (propose_patch py signer host id text key client)
  unfolding propose_patch
  propose_patch-Moves id text key client =
      search
        (
          on_db_rules, k, expire_due-Moves, workspace_of-Moves, require_clean-Moves,
          save_request-Moves, check_patch_applies-Moves,
        )
        depth 30

  link_payload-Moves :
      (o : Option Text) (c w q h : Text) (d : Fields)
      → Moves (OnDb R) (link_payload py signer host o c w q h d)
  unfolding link_payload
  link_payload-Moves none c w q h d = search (on_db_rules, k) depth 30
  link_payload-Moves (some i) c w q h d = search (on_db_rules, k, request-Moves) depth 30

  request_test-Moves :
      (id name key : Text) (n : ℕ) (client : Text) (linked : Option Text)
      → Moves (OnDb R) (request_test py signer host id name key n client linked)
  unfolding request_test
  request_test-Moves id name key n client linked =
      search
        (
          on_db_rules, k, expire_due-Moves, workspace_of-Moves, require_clean-Moves,
          link_payload-Moves, save_request-Moves,
        )
        depth 30

  public_request-Moves : (id c : Text) → Moves (OnDb R) (public_request py signer host id c)
  unfolding public_request
  public_request-Moves id c = search (on_db_rules, k, expire_due-Moves, request-Moves) depth 30

  repo_status-Moves :
      (id : Text) (c : Option Text) → Moves (OnDb R) (repo_status py signer host id c)
  unfolding repo_status
  repo_status-Moves id c = search (on_db_rules, k, workspace_of-Moves) depth 30

  require_client-Moves : (c : Text) → Moves (OnDb R) (require_client py signer host c)
  unfolding require_client
  require_client-Moves c = search (on_db_rules, k) depth 30

  call_propose_patch-Moves :
      (c id text key : Text) → Moves (OnDb R) (call_propose_patch py signer host c id text key)
  unfolding call_propose_patch
  call_propose_patch-Moves c id text key =
      search (on_db_rules, k, require_client-Moves, propose_patch-Moves, public_request-Moves) depth
        30

  call_request_check-Moves :
      (c id name key : Text) (n : ℕ) (linked : Option Text)
      → Moves (OnDb R) (call_request_check py signer host c id name key n linked)
  unfolding call_request_check
  call_request_check-Moves c id name key n linked =
      search (on_db_rules, k, require_client-Moves, request_test-Moves, public_request-Moves) depth
        30

  call_request_status-Moves :
      (c id : Text) → Moves (OnDb R) (call_request_status py signer host c id)
  unfolding call_request_status
  call_request_status-Moves c id =
      search (on_db_rules, k, require_client-Moves, public_request-Moves) depth 30

  call_workspace_status-Moves :
      (c id : Text) → Moves (OnDb R) (call_workspace_status py signer host c id)
  unfolding call_workspace_status
  call_workspace_status-Moves c id =
      search (on_db_rules, k, require_client-Moves, repo_status-Moves) depth 30

  read_file-Moves :
      (id path : Text) (c : Option Text) → Moves (OnDb R) (Files.read_file py signer host id path c)
  unfolding Files.read_file
  read_file-Moves id path c = search (on_db_rules, k, workspace_of-Moves) depth 30

  call_read_file-Moves :
      (c id path : Text) → Moves (OnDb R) (call_read_file py signer host c id path)
  unfolding call_read_file
  call_read_file-Moves c id path =
      search (on_db_rules, k, require_client-Moves, read_file-Moves) depth 30

  pub serve-Moves : (c : Text × ToolCall) (w : World) → OnDb R w (serve py signer host c w)
  unfolding serve
  serve-Moves (c, Remote.workspace_status id) = (call_workspace_status-Moves c id).at
  serve-Moves (c, Remote.propose_patch id text key) = (call_propose_patch-Moves c id text key).at
  serve-Moves (c, Remote.request_check id name key n linked) =
      (call_request_check-Moves c id name key n linked).at
  serve-Moves (c, Remote.request_status id) = (call_request_status-Moves c id).at
  serve-Moves (c, Remote.read_file id path) = (call_read_file-Moves c id path).at
