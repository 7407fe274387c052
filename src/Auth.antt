-- ===== src/Auth.antt =====
-- src/hermes_local_hands/auth.py: the bearer credential of a request, and the guard in front of the
-- ASGI application.
pub mod Bearer
pub mod Guard
use hermes_local_hands.Base.{
  Text, codes, text_eq, is_empty, ◌==◌, leb, ◌||◌, ◌&&◌, not, ℕ, ◌+◌, Bool, true, false, Option,
  none, some, List, [], ◌∷◌, ◌++◌, map, keep, if◌then◌else◌,
}
use hermes_local_hands.Errors.{Error, Result, ok, err, refuse_if, authentication_error, ◌>>=◌, ◌>>◌}
use hermes_local_hands.Exec.{Exec}
use hermes_local_hands.Runtime.{Runtime}
use hermes_local_hands.Receipts.{Signer}
use hermes_local_hands.Service.{World, Host}
use hermes_local_hands.Service.Clients

-- `bytes.lower`
unfoldable pub ascii_lower : Text → Text
ascii_lower = map (λ c. if leb b'A' c && leb c b'Z' then c + 32 else c)

-- `value.partition(separator)`: no rest if the separator is missing
unfoldable pub partition : ℕ → Text → Text × Option Text
partition c [] = ([], none)
partition c (x ∷ xs) =
    let (before, rest) = partition c xs in if x == c then ([], some xs) else (x ∷ before, rest)

-- A header: its name and its value, decoded by Latin-1, which takes every byte to its code point.
abbrev pub Header : Type 0
Header = Text × Text

unfoldable pub is_authorization : Header → Bool
unfolding ascii_lower text_eq
is_authorization header = text_eq (ascii_lower header.0) (codes "authorization")

unfoldable pub authorization_values : List Header → List Text
unfolding is_authorization
authorization_values headers = map (λ (h : Header). h.1) (keep is_authorization headers)

unfoldable pub the_only : List Text → Result Text
the_only (value ∷ []) = ok value
the_only values = err (authentication_error "exactly one bearer credential is required")

abbrev pub no_bearer : Error
no_bearer = authentication_error "a bearer credential is required"

-- `service.py` and the application share the world; the context variable and the messages sent are
-- those of one connection.
pub data Message : Type 0 where
  response_start : ℕ → List Header → Message
  response_body : Text → Message

pub record Connection : Type 0 where
  pub world : World
  pub current_client_id : Option Text
  pub sent : List Message

-- `scope`: "type" and "headers"
pub record Scope : Type 0 where
  pub is_http : Bool
  pub headers : List Header

abbrev pub unauthorized : List Message
unauthorized =
    response_start 401 (
      (codes "content-type", codes "application/json")
      ∷ (codes "www-authenticate", codes "Bearer")
      ∷ [])
    ∷ response_body (codes "{\"error\":\"unauthorized\"}")
    ∷ []

module _ (py : Runtime) where
  -- What stands behind the first space of a value whose scheme is "bearer".
  unfoldable pub bearer_token : Text → Option Text → Result Text
  unfolding text_eq is_empty
  bearer_token scheme none = err no_bearer
  bearer_token scheme (some token) =
      if not (text_eq (py.lower scheme) (codes "bearer"))
        || is_empty token
        || not (text_eq (py.strip token) token)
      then err no_bearer
      else ok token

  unfoldable pub bearer_from_headers : List Header → Result Text
  bearer_from_headers headers = do
    value ← the_only (authorization_values headers)
    let (scheme, token) = partition 32 value
    bearer_token scheme token

-- `except AuthenticationError`, which sends the refusal; other exceptions go on.
unfoldable pub refuse : Error → Connection → Result (Unit {0}) × Connection
refuse (authentication_error m) c = (ok tt, record c { sent = c.sent ++ unauthorized })
refuse e c = (err e, c)

-- `finally: current_client_id.reset(token)`
unfoldable pub reset : Option Text → Result (Unit {0}) × Connection → Result (Unit {0}) × Connection
reset before (r, c) = (r, record c { current_client_id = before })

-- From the answer of `authenticate_headers` on.
unfoldable pub guarded :
    (Connection → Result (Unit {0}) × Connection)
    → Option Text
    → Result Text × Connection
    → Result (Unit {0}) × Connection
unfolding refuse reset
guarded app before (err e, c) = refuse e c
guarded app before (ok id, entered) = reset before (app entered)

-- `current_client_id.set(client_id)`, if the service returns a client.
unfoldable pub bind_client : Connection → Result Text × World → Result Text × Connection
bind_client c (err e, world) = (err e, record c { world = world })
bind_client c (ok id, world) = (ok id, record c { world = world; current_client_id = some id })

module _ (py : Runtime) (signer : Signer) (host : Host) where
  -- `authenticate_headers`: the client whose credential the headers hold, which becomes the current one
  unfoldable pub authenticate_headers : List Header → Connection → Result Text × Connection
  unfolding bind_client
  authenticate_headers headers c = elim (bearer_from_headers py headers) [
    | err e ↦ (err e, c)
    | ok token ↦ bind_client c (Clients.authenticate py signer host token c.world)
  ]

  -- `BearerAuthenticationMiddleware.__call__`
  unfoldable pub guard :
      (Connection → Result (Unit {0}) × Connection)
      → Scope
      → Connection
      → Result (Unit {0}) × Connection
  unfolding guarded
  guard app scope c =
      if not scope.is_http
      then app c
      else guarded app c.current_client_id (authenticate_headers scope.headers c)
