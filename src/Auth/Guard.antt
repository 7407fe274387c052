-- ===== src/Auth/Guard.antt =====
-- Whom the guard lets through, and what it sends to the others.
use hermes_local_hands.Base.{
  Text, String, ltb, ◌≤◌, ◌≡◌, ◌≢◌, true, some, [], ◌++◌, all, find, length,
}
use hermes_local_hands.Errors.{Result, ok, err, authentication_error}
use hermes_local_hands.Runtime.{Runtime}
use hermes_local_hands.Storage.{ClientRow, Db}
use hermes_local_hands.Storage.Clients as Store
use hermes_local_hands.Receipts.{Signer}
use hermes_local_hands.Service.{World, Host}
use hermes_local_hands.Service.Clients
use hermes_local_hands.Auth.{Scope, Connection, unauthorized, reset, guard}
use hermes_local_hands.Auth.Bearer.{IsBearer}

-- A credential that the store knows.
pub record IsKnown (py : Runtime) (token : Text) (db : Db) (row : ClientRow) : Type 0 where
  pub long : 32 ≤ length token
  pub short : length token ≤ 128
  pub ascii : all (λ c. ltb c 128) token ≡ true
  pub found : find (Store.has_token_hash (py.sha256 token)) db.clients ≡ some row
  pub named : row.client_id ≢ []

module _ (py : Runtime) (signer : Signer) (host : Host) where
  -- The two outcomes of `authenticate`, neither of which changes the world.
  data Known (token : Text) (w : World) : Type 0 where
    is_known :
        (row : ClientRow)
        → IsKnown py token w.db row
        → Clients.authenticate py signer host token w ≡ (ok row.client_id, w)
        → Known token w
    is_unknown :
        (m : String)
        → Clients.authenticate py signer host token w ≡ (err (authentication_error m), w)
        → ((row : ClientRow) → IsKnown py token w.db row → ⊥)
        → Known token w

  abbrev App : Type 0
  App = Connection → Result (Unit {0}) × Connection

  -- The connection is answered with 401, whatever the application is: it is not run.
  pub record Denied (scope : Scope) (c : Connection) : Type 0 where
    pub answer :
        (app : App)
        → guard py signer host app scope c ≡ (ok tt, record c { sent = c.sent ++ unauthorized })
    pub unknown :
        (token : Text) (row : ClientRow)
        → IsBearer py scope.headers token
        → IsKnown py token c.world.db row
        → ⊥

  -- The application is run for a client whose credential the headers hold, and whatever it does, the
  -- context variable is then what it was before.
  pub record Admitted (scope : Scope) (c : Connection) : Type 0 where
    pub token : Text
    pub row : ClientRow
    pub bearer : IsBearer py scope.headers token
    pub known : IsKnown py token c.world.db row
    pub runs :
        (app : App)
        → guard py signer host app scope c
          ≡ reset c.current_client_id (app (record c { current_client_id = some row.client_id }))
