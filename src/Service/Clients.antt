-- ===== src/Service/Clients.antt =====
-- Clients and grants: service.py, `bootstrap_client` to `authenticate`, `grant_workspace`,
-- `workspace_grants`, `revoke_workspace` and `_workspace`.
use hermes_local_hands.Base.{
  Text, codes, is_empty, Fields, field, end, str, ltb, leb, ◌||◌, ◌&&◌, not, Bool, Option, none,
  some, List, all, length, if◌then◌else◌,
}
use hermes_local_hands.Errors.{Error, not_found_error, authentication_error}
use hermes_local_hands.Exec.{Exec, pure, raise, lift, raise_if, ◌>>=◌, ◌>>◌}
use hermes_local_hands.Runtime.{Runtime}
use hermes_local_hands.Storage.{WorkspaceRow}
use hermes_local_hands.Storage.Clients
use hermes_local_hands.Storage.Workspaces
use hermes_local_hands.Receipts.{Signer}
use hermes_local_hands.Service.{
  World, Host, on_db, transact, attempt, now, draw_token, record_event,
}
use hermes_local_hands.Service.Identifiers.{validated_identifier}

unfoldable pub client_event : Text → Fields
client_event client_id = field (codes "client_id") (str client_id) end

unfoldable pub grant_event : Text → Text → Fields
grant_event client_id workspace_id =
    field (codes "client_id") (str client_id) (field (codes "workspace_id") (str workspace_id) end)

-- `except NotFoundError: raise AuthenticationError(…)`; other exceptions pass.
unfoldable pub deny_unknown : Error → Exec World WorkspaceRow
deny_unknown (not_found_error m) =
    raise (authentication_error "workspace is unavailable to this client")
deny_unknown e = raise e

-- `_workspace(workspace_id, client_id)`
unfoldable pub workspace_of : Text → Option Text → Exec World WorkspaceRow
workspace_of workspace_id none = do
  id ← lift (validated_identifier workspace_id "workspace id")
  on_db (Workspaces.workspace id)
workspace_of workspace_id (some client_id) = do
  id ← lift (validated_identifier workspace_id "workspace id")
  client ← lift (validated_identifier client_id "client id")
  attempt (on_db (Workspaces.workspace_for_client client id)) deny_unknown

module _ (py : Runtime) (signer : Signer) (host : Host) where
  -- `if flag: self.ledger.append(event, payload)`
  unfoldable pub event_if : Bool → Text → Fields → Exec World (Unit {0})
  event_if flag event payload =
      if flag then (do record_event py signer host event payload; pure tt) else pure tt

  unfoldable pub bootstrap_client : Text → Exec World Text
  unfolding client_event
  bootstrap_client client_id = do
    id ← lift (validated_identifier client_id "client id")
    token ← draw_token py signer host
    transact (do
      created_at ← now py signer host
      on_db (Clients.add_client py id token created_at)
      record_event py signer host (codes "client.created") (client_event id))
    pure token

  unfoldable pub revoke_client : Text → Exec World Bool
  unfolding client_event
  revoke_client client_id = do
    id ← lift (validated_identifier client_id "client id")
    transact (do
      revoked ← on_db (Clients.revoke_client id)
      record_event py signer host (codes "client.revoked") (client_event id)
      pure revoked)

  -- what `authenticate` makes of the row that the store found
  unfoldable pub known_client : Option Text → Exec World Text
  known_client none = raise (authentication_error "invalid bearer credential")
  known_client (some client_id) =
      if is_empty client_id
      then raise (authentication_error "invalid bearer credential")
      else pure client_id

  unfoldable pub authenticate : Text → Exec World Text
  authenticate bearer_token = do
    raise_if
        (not (leb 32 (length bearer_token) && leb (length bearer_token) 128)
          || not (all (λ c. ltb c 128) bearer_token))
        (authentication_error "invalid bearer credential")
    found ← on_db (Clients.authenticate py bearer_token)
    known_client found

  unfoldable pub grant_workspace : Text → Text → Exec World Bool
  unfolding grant_event
  grant_workspace client_id workspace_id = do
    client ← lift (validated_identifier client_id "client id")
    id ← lift (validated_identifier workspace_id "workspace id")
    transact (do
      granted_at ← now py signer host
      created ← on_db (Workspaces.grant_workspace client id granted_at)
      event_if created (codes "workspace.granted") (grant_event client id)
      pure created)

  unfoldable pub workspace_grants : Text → Exec World (List Text)
  workspace_grants workspace_id = do
    id ← lift (validated_identifier workspace_id "workspace id")
    on_db (Workspaces.workspace id)
    on_db (Workspaces.client_ids_for_workspace id)

  unfoldable pub revoke_workspace : Text → Text → Exec World Bool
  unfolding grant_event
  revoke_workspace client_id workspace_id = do
    client ← lift (validated_identifier client_id "client id")
    id ← lift (validated_identifier workspace_id "workspace id")
    transact (do
      revoked ← on_db (Workspaces.revoke_workspace_grant client id)
      event_if revoked (codes "workspace.revoked") (grant_event client id)
      pure revoked)
