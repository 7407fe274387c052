-- ===== src/Storage/Workspaces.antt =====
-- The tables `workspaces` and `client_workspace_grants`: src/hermes_local_hands/storage.py,
-- `save_workspace` to `client_ids_for_workspace`.
use hermes_local_hands.Base.{
  Text, text_eq, is_empty, ◌==◌, ◌&&◌, Bool, true, not, Option, none, some, List, [], ◌∷◌, ◌++◌,
  map, any, keep, find, length, if◌then◌else◌,
}
use hermes_local_hands.Errors.{value_error, conflict_error, not_found_error, other_error}
use hermes_local_hands.Exec.{
  Exec, pure, gets, modify, raise_if, some_or, transaction, for_each, ◌>>=◌, ◌>>◌,
}
use hermes_local_hands.Models.{WorkspacePolicy}
use hermes_local_hands.Storage.{ClientRow, WorkspaceRow, GrantRow, Db, order_by}
use hermes_local_hands.Storage.Clients.{client_exists}

-- `WHERE workspace_id=?`
unfoldable pub is_workspace : Text → WorkspaceRow → Bool
unfolding text_eq
is_workspace workspace_id row = text_eq row.policy.workspace_id workspace_id

unfoldable pub workspace_exists : Text → Db → Bool
unfolding is_workspace
workspace_exists workspace_id db = any (is_workspace workspace_id) db.workspaces

-- `WHERE client_id=? AND workspace_id=?`
unfoldable pub is_grant : Text → Text → GrantRow → Bool
unfolding text_eq
is_grant client_id workspace_id g =
    text_eq g.client_id client_id && text_eq g.workspace_id workspace_id

unfoldable pub has_grant : Text → Text → Db → Bool
unfolding is_grant
has_grant client_id workspace_id db = any (is_grant client_id workspace_id) db.grants

-- `ON CONFLICT(workspace_id) DO UPDATE`
unfoldable pub upsert_workspace : WorkspaceRow → List WorkspaceRow → List WorkspaceRow
unfolding is_workspace
upsert_workspace row [] = row ∷ []
upsert_workspace row (old ∷ rows) =
    let rest = upsert_workspace row rows in
    if is_workspace row.policy.workspace_id old then row ∷ rows else old ∷ rest

-- `INSERT OR IGNORE INTO client_workspace_grants`
unfoldable pub insert_grant : Text → Text → Text → Db → Db
unfolding has_grant
insert_grant client_id workspace_id granted_at db =
    if has_grant client_id workspace_id db then db else record db {
      grants =
          db.grants
          ++ record { client_id = client_id; workspace_id = workspace_id; granted_at = granted_at }
            ∷ [];
    }

-- `root` is UNIQUE: another workspace may not have it.
unfoldable pub root_is_taken : WorkspacePolicy → WorkspaceRow → Bool
root_is_taken policy row =
    text_eq row.policy.root policy.root && not (is_workspace policy.workspace_id row)

unfoldable pub lacks_time : Option Text → Bool
lacks_time none = true
lacks_time (some t) = is_empty t

unfoldable pub time_or_empty : Option Text → Text
time_or_empty none = []
time_or_empty (some t) = t

unfoldable pub save_workspace : WorkspacePolicy → Text → Bool → Option Text → Exec Db (Unit {0})
unfolding upsert_workspace insert_grant root_is_taken lacks_time time_or_empty is_empty ◌>>=◌
    transaction
save_workspace policy policy_hash grant_existing_clients granted_at = do
  raise_if (grant_existing_clients && lacks_time granted_at)
      (value_error "granted_at is required when granting existing clients")
  transaction (do
    taken ← gets (λ db. any (root_is_taken policy) db.workspaces)
    raise_if taken (conflict_error "workspace id or root is already registered")
    modify (λ db. record db {
      workspaces =
          upsert_workspace (record { policy = policy; policy_hash = policy_hash }) db.workspaces;
    })
    clients ← gets (λ db. if grant_existing_clients then db.clients else [])
    for_each
        (λ (c : ClientRow).
          modify (insert_grant c.client_id policy.workspace_id (time_or_empty granted_at)))
        clients)

unfoldable pub workspace : Text → Exec Db WorkspaceRow
unfolding is_workspace
workspace workspace_id = do
  row ← gets (λ db. find (is_workspace workspace_id) db.workspaces)
  some_or row (not_found_error "workspace not registered")

-- The join of `workspaces`, `client_workspace_grants` and `clients`.
unfoldable pub granted_workspace : Text → Text → Db → Option WorkspaceRow
unfolding has_grant client_exists is_workspace
granted_workspace client_id workspace_id db =
    if has_grant client_id workspace_id db && client_exists client_id db
    then find (is_workspace workspace_id) db.workspaces
    else none

unfoldable pub workspace_for_client : Text → Text → Exec Db WorkspaceRow
unfolding granted_workspace
workspace_for_client client_id workspace_id = do
  row ← gets (granted_workspace client_id workspace_id)
  some_or row (not_found_error "workspace grant not found")

unfoldable pub list_workspaces : Exec Db (List WorkspacePolicy)
list_workspaces = gets (λ db.
    map (λ (row : WorkspaceRow). row.policy)
      (order_by (λ (row : WorkspaceRow). row.policy.workspace_id) db.workspaces))

unfoldable pub grant_workspace : Text → Text → Text → Exec Db Bool
unfolding client_exists workspace_exists insert_grant
grant_workspace client_id workspace_id granted_at = transaction (do
  client_known ← gets (client_exists client_id)
  raise_if (not client_known) (not_found_error "client not found")
  workspace_known ← gets (workspace_exists workspace_id)
  raise_if (not workspace_known) (not_found_error "workspace not registered")
  present ← gets (has_grant client_id workspace_id)
  modify (insert_grant client_id workspace_id granted_at)
  pure (not present))

-- A plain INSERT: a grant that is there already breaks the PRIMARY KEY.
unfoldable pub insert_new_grant : Text → Text → Text → Exec Db (Unit {0})
insert_new_grant workspace_id granted_at client_id = do
  present ← gets (has_grant client_id workspace_id)
  raise_if present (other_error "IntegrityError")
  modify (insert_grant client_id workspace_id granted_at)

unfoldable pub require_client : Text → Exec Db (Unit {0})
require_client client_id = do
  known ← gets (client_exists client_id)
  raise_if (not known) (not_found_error "client not found")

unfoldable pub replace_workspace_grants : Text → List Text → Text → Exec Db (Unit {0})
unfolding workspace_exists
replace_workspace_grants workspace_id client_ids granted_at = transaction (do
  known ← gets (workspace_exists workspace_id)
  raise_if (not known) (not_found_error "workspace not registered")
  for_each require_client client_ids
  modify (λ db. record db {
    grants = keep (λ (g : GrantRow). not (text_eq g.workspace_id workspace_id)) db.grants;
  })
  for_each (insert_new_grant workspace_id granted_at) client_ids)

unfoldable pub revoke_workspace_grant : Text → Text → Exec Db Bool
unfolding is_grant
revoke_workspace_grant client_id workspace_id = do
  deleted ← gets (λ db. length (keep (is_grant client_id workspace_id) db.grants))
  modify
      (λ db. record db { grants = keep (λ g. not (is_grant client_id workspace_id g)) db.grants })
  pure (deleted == 1)

unfoldable pub client_has_workspace_access : Text → Text → Exec Db Bool
unfolding has_grant
client_has_workspace_access client_id workspace_id = gets (has_grant client_id workspace_id)

unfoldable pub workspace_ids_for_client : Text → Exec Db (List Text)
unfolding text_eq
workspace_ids_for_client client_id = gets (λ db.
    order_by (λ t. t)
      (map (λ (g : GrantRow). g.workspace_id)
        (keep (λ (g : GrantRow). text_eq g.client_id client_id) db.grants)))

unfoldable pub client_ids_for_workspace : Text → Exec Db (List Text)
unfolding text_eq
client_ids_for_workspace workspace_id = gets (λ db.
    order_by (λ t. t)
      (map (λ (g : GrantRow). g.client_id)
        (keep (λ (g : GrantRow). text_eq g.workspace_id workspace_id) db.grants)))
