-- ===== src/Storage/Clients.antt =====
-- The table `clients`: src/hermes_local_hands/storage.py, `add_client` to `revoke_client`.
use hermes_local_hands.Base.{
  Text, text_eq, is_empty, ◌==◌, ◌||◌, Bool, not, Option, none, some, List, [], ◌∷◌, ◌++◌, any,
  keep, find, length,
}
use hermes_local_hands.Errors.{value_error, conflict_error, not_found_error}
use hermes_local_hands.Exec.{Exec, pure, gets, modify, raise_if, ◌>>=◌, ◌>>◌}
use hermes_local_hands.Runtime.{Runtime}
use hermes_local_hands.Storage.{ClientRow, GrantRow, Db, order_by}

-- `WHERE client_id=?`
unfoldable pub is_client : Text → ClientRow → Bool
unfolding text_eq
is_client client_id row = text_eq row.client_id client_id

-- `WHERE token_hash=?`
unfoldable pub has_token_hash : Text → ClientRow → Bool
unfolding text_eq
has_token_hash hash row = text_eq row.token_hash hash

unfoldable pub client_exists : Text → Db → Bool
unfolding is_client
client_exists client_id db = any (is_client client_id) db.clients

-- `DELETE FROM clients WHERE client_id=?`; the grants go by ON DELETE CASCADE.
unfoldable pub delete_client : Text → Db → Db
unfolding is_client
delete_client client_id db = record db {
  clients = keep (λ row. not (is_client client_id row)) db.clients;
  grants = keep (λ (g : GrantRow). not (text_eq g.client_id client_id)) db.grants;
}

unfoldable pub row_client_id : Option ClientRow → Option Text
row_client_id none = none
row_client_id (some row) = some row.client_id

module _ (py : Runtime) where
  -- The INSERT fails on the PRIMARY KEY or on UNIQUE `token_hash`.
  unfoldable pub add_client : Text → Text → Text → Exec Db (Unit {0})
  unfolding is_empty is_client has_token_hash
  add_client client_id bearer_token created_at = do
    raise_if (is_empty client_id || is_empty bearer_token)
        (value_error "client id and bearer token are required")
    let hash = py.sha256 bearer_token
    taken ← gets (λ db. any (λ row. is_client client_id row || has_token_hash hash row) db.clients)
    raise_if taken (conflict_error "client id or credential already exists")
    modify (λ db. record db {
      clients =
          db.clients
          ++ record { client_id = client_id; token_hash = hash; created_at = created_at } ∷ [];
    })

  unfoldable pub authenticate : Text → Exec Db (Option Text)
  unfolding has_token_hash row_client_id
  authenticate bearer_token =
      gets (λ db. row_client_id (find (has_token_hash (py.sha256 bearer_token)) db.clients))

unfoldable pub list_clients : Exec Db (List ClientRow)
list_clients = gets (λ db. order_by (λ (row : ClientRow). row.client_id) db.clients)

unfoldable pub revoke_client : Text → Exec Db Bool
unfolding delete_client
revoke_client client_id = do
  deleted ← gets (λ db. length (keep (is_client client_id) db.clients))
  modify (delete_client client_id)
  raise_if (not (deleted == 1)) (not_found_error "client not found")
  pure Bool.true
