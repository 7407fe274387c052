-- ===== src/Service/Remote.antt =====
-- What a remote client can call: the tools of `MCPAdapter` in src/hermes_local_hands/mcp_server.py.
use hermes_local_hands.Base.{Text, Fields, ℕ, Option, some, is_empty, List, [], ◌∷◌}
use hermes_local_hands.Errors.{other_error}
use hermes_local_hands.Exec.{Exec, pure, raise_if, ◌>>=◌, ◌>>◌}
use hermes_local_hands.Runtime.{Runtime}
use hermes_local_hands.Receipts.{Signer}
use hermes_local_hands.Checkout.{Status}
use hermes_local_hands.Service.{World, Host}
use hermes_local_hands.Service.Files
use hermes_local_hands.Service.Files.{FileContent}
use hermes_local_hands.Service.Requests
use hermes_local_hands.Service.Requests.{repo_status, request_test}
use hermes_local_hands.Service.Views.{public_fields, public_request}

-- One call of a tool with its arguments.
pub data ToolCall : Type 0 where
  workspace_status : Text → ToolCall
  propose_patch : Text → Text → Text → ToolCall
  request_check : Text → Text → Text → ℕ → Option Text → ToolCall
  request_status : Text → ToolCall
  read_file : Text → Text → ToolCall

module _ (py : Runtime) (signer : Signer) (host : Host) where
  -- `_client`: the authenticated client of the connection, "" without one
  unfoldable pub require_client : Text → Exec World (Unit {0})
  unfolding is_empty
  require_client client_id =
      raise_if (is_empty client_id) (other_error "authenticated client context is required")

  unfoldable pub call_propose_patch : Text → Text → Text → Text → Exec World Fields
  call_propose_patch client_id workspace_id text key = do
    require_client client_id
    request ← Requests.propose_patch py signer host workspace_id text key client_id
    view ← public_request py signer host request.request_id client_id
    pure (public_fields py view)

  unfoldable pub call_request_check :
      Text → Text → Text → Text → ℕ → Option Text → Exec World Fields
  call_request_check client_id workspace_id name key timeout_seconds linked = do
    require_client client_id
    request ← request_test py signer host workspace_id name key timeout_seconds client_id linked
    view ← public_request py signer host request.request_id client_id
    pure (public_fields py view)

  unfoldable pub call_request_status : Text → Text → Exec World Fields
  call_request_status client_id request_id = do
    require_client client_id
    view ← public_request py signer host request_id client_id
    pure (public_fields py view)

  unfoldable pub call_workspace_status : Text → Text → Exec World Status
  call_workspace_status client_id workspace_id = do
    require_client client_id
    repo_status py signer host workspace_id (some client_id)

  unfoldable pub call_read_file : Text → Text → Text → Exec World FileContent
  call_read_file client_id workspace_id path = do
    require_client client_id
    Files.read_file py signer host workspace_id path (some client_id)

  -- The world after one call of a client.
  unfoldable pub serve : Text × ToolCall → World → World
  serve (client, workspace_status id) w = (call_workspace_status client id w).1
  serve (client, propose_patch id text key) w = (call_propose_patch client id text key w).1
  serve (client, request_check id name key n linked) w =
      (call_request_check client id name key n linked w).1
  serve (client, request_status id) w = (call_request_status client id w).1
  serve (client, read_file id path) w = (call_read_file client id path w).1

  -- The calls of any clients in any order, the first one first.
  unfoldable pub serve_all : List (Text × ToolCall) → World → World
  serve_all [] w = w
  serve_all (c ∷ cs) w = serve_all cs (serve c w)
