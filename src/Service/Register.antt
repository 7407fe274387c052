-- ===== src/Service/Register.antt =====
-- Registering a workspace: service.py, `register_workspace`.
use hermes_local_hands.Base.{
  Text, codes, Fields, field, end, str, int, strs, false, none, List, length,
}
use hermes_local_hands.Exec.{Exec, pure, lift, ◌>>=◌, ◌>>◌}
use hermes_local_hands.Runtime.{Runtime}
use hermes_local_hands.Models.{WorkspacePolicy}
use hermes_local_hands.Storage.{order_by}
use hermes_local_hands.Storage.Workspaces.{save_workspace, replace_workspace_grants}
use hermes_local_hands.Receipts.{Signer}
use hermes_local_hands.Service.{World, Host, on_db, transact, now, record_event}
use hermes_local_hands.Service.Identifiers.{validated_identifier}
use hermes_local_hands.Service.Policies.{
  Places, unique, each, profile_count, canonical_policy, policy_hash,
}

unfoldable pub registered_event : WorkspacePolicy → Text → List Text → Fields
registered_event policy hash clients = field (codes "workspace_id") (str policy.workspace_id) (
    field (codes "policy_hash") (str hash) (
      field (codes "read_scope_count") (int (length policy.read_allowlist)) (
        field (codes "write_scope_count") (int (length policy.write_allowlist)) (
          field (codes "check_profile_count") (int (profile_count policy.test_profiles)) (
            field (codes "granted_client_count") (int (length clients))
              (field (codes "granted_client_ids") (strs (order_by (λ t. t) clients)) end))))))

module _ (py : Runtime) (signer : Signer) (host : Host) (places : Places) where
  -- The transaction of `register_workspace`.
  unfoldable pub save_registered : WorkspacePolicy → List Text → Text → Exec World (Unit {0})
  save_registered policy clients granted_at = transact (do
    on_db (save_workspace policy (policy_hash py policy) false none)
    on_db (replace_workspace_grants policy.workspace_id clients granted_at)
    record_event py signer host (codes "workspace.registered")
        (registered_event policy (policy_hash py policy) clients)
    pure tt)

  unfoldable pub register_workspace : WorkspacePolicy → List Text → Exec World WorkspacePolicy
  register_workspace policy client_ids = do
    canonical ← lift (canonical_policy py places policy)
    clients ← lift (each (λ id. validated_identifier id "client id") client_ids)
    granted_at ← now py signer host
    save_registered canonical (unique clients) granted_at
    pure canonical
