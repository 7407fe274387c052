-- ===== src/Service/Calls/Served.antt =====
-- The tools of a remote client create, change and run nothing.
use hermes_local_hands.Base.{Text, ℕ, Option, List, [], ◌∷◌}
use hermes_local_hands.Exec.Moves.{Moves}
use hermes_local_hands.Runtime.{Runtime}
use hermes_local_hands.Receipts.{Signer}
use hermes_local_hands.Service.{World, Host}
use hermes_local_hands.Service.Requests.{repo_status}
use hermes_local_hands.Service.Views.{public_request}
use hermes_local_hands.Service.Files
use hermes_local_hands.Service.Remote.{
  ToolCall, workspace_status, read_file, call_read_file, propose_patch, request_check,
  request_status, require_client, call_propose_patch, call_request_check, call_request_status,
  call_workspace_status, serve, serve_all,
}
use hermes_local_hands.Service.Calls.{
  Looks, Looks-IsPreorder, is_look, looks_rules, Looks-ask, Looks-expire_due, Looks-workspace_of,
  propose_patch-Looks, request_test-Looks,
}

module _ (py : Runtime) (signer : Signer) (host : Host) where
  public_request-Looks : (id client : Text) → Moves Looks (public_request py signer host id client)
  unfolding public_request
  public_request-Looks id client = search (looks_rules, Looks-expire_due) depth 30

  repo_status-Looks :
      (id : Text) (client : Option Text) → Moves Looks (repo_status py signer host id client)
  unfolding repo_status is_look
  repo_status-Looks id client = search (looks_rules, Looks-ask, Looks-workspace_of) depth 30

  require_client-Looks : (client : Text) → Moves Looks (require_client py signer host client)
  unfolding require_client
  require_client-Looks client = search looks_rules depth 20

  call_propose_patch-Looks :
      (c id text key : Text) → Moves Looks (call_propose_patch py signer host c id text key)
  unfolding call_propose_patch
  call_propose_patch-Looks c id text key =
      search (looks_rules, require_client-Looks, propose_patch-Looks, public_request-Looks) depth 30

  call_request_check-Looks :
      (c id name key : Text) (n : ℕ) (linked : Option Text)
      → Moves Looks (call_request_check py signer host c id name key n linked)
  unfolding call_request_check
  call_request_check-Looks c id name key n linked =
      search (looks_rules, require_client-Looks, request_test-Looks, public_request-Looks) depth 30

  call_request_status-Looks : (c id : Text) → Moves Looks (call_request_status py signer host c id)
  unfolding call_request_status
  call_request_status-Looks c id =
      search (looks_rules, require_client-Looks, public_request-Looks) depth 30

  call_workspace_status-Looks :
      (c id : Text) → Moves Looks (call_workspace_status py signer host c id)
  unfolding call_workspace_status
  call_workspace_status-Looks c id =
      search (looks_rules, require_client-Looks, repo_status-Looks) depth 30

  read_file-Looks :
      (id path : Text) (client : Option Text)
      → Moves Looks (Files.read_file py signer host id path client)
  unfolding Files.read_file is_look
  read_file-Looks id path client = search (looks_rules, Looks-ask, Looks-workspace_of) depth 30

  call_read_file-Looks : (c id path : Text) → Moves Looks (call_read_file py signer host c id path)
  unfolding call_read_file
  call_read_file-Looks c id path =
      search (looks_rules, require_client-Looks, read_file-Looks) depth 30

  serve-Looks : (c : Text × ToolCall) (w : World) → Looks w (serve py signer host c w)
  unfolding serve
  serve-Looks (c, workspace_status id) = (call_workspace_status-Looks c id).at
  serve-Looks (c, propose_patch id text key) = (call_propose_patch-Looks c id text key).at
  serve-Looks (c, request_check id name key n linked) =
      (call_request_check-Looks c id name key n linked).at
  serve-Looks (c, request_status id) = (call_request_status-Looks c id).at
  serve-Looks (c, read_file id path) = (call_read_file-Looks c id path).at

  -- Whatever tools remote clients call, with whatever arguments and in whatever order, the service
  -- asks for nothing but the checkout's status, the reading of a file and the trial of a patch against the checkout: no snapshot is
  -- created, no patch is applied and no check is run.
  pub serve_all-Looks :
      (calls : List (Text × ToolCall)) (w : World) → Looks w (serve_all py signer host calls w)
  unfolding serve_all
  serve_all-Looks [] w = Looks-IsPreorder.stay w
  serve_all-Looks (c ∷ cs) w =
      let v = serve py signer host c w in
      Looks-IsPreorder.follow w v (serve_all py signer host cs v) (serve-Looks c w)
        (serve_all-Looks cs v)
