-- ===== src/Storage/Requests.antt =====
-- The table `requests`: src/hermes_local_hands/storage.py, `add_request` to
-- `mark_executing_uncertain`.
pub mod Lives
use mathlib.Core.List.{reverse}
use hermes_local_hands.Base.{
  Text, codes, text_eq, text_le, is_empty, Fields, field, end, str, ◌==◌, ltb, leb, ◌||◌, ◌&&◌, ℕ,
  Bool, true, false, not, Option, none, some, List, [], ◌∷◌, ◌++◌, map, any, keep, find, length,
  if◌then◌else◌,
}
use hermes_local_hands.Errors.{value_error, conflict_error, not_found_error}
use hermes_local_hands.Exec.{Exec, pure, gets, modify, raise_if, some_or, transaction, ◌>>=◌, ◌>>◌}
use hermes_local_hands.Runtime.{Runtime}
use hermes_local_hands.Models.{RequestState, pending, executing, expired, uncertain, PendingRequest}
use hermes_local_hands.Models.States.{state_eq}
use hermes_local_hands.Storage.{WorkspaceRow, RequestRow, Db, order_by, request_fingerprint}
use hermes_local_hands.Storage.Workspaces.{workspace_exists, granted_workspace}

-- `WHERE request_id=?`
unfoldable pub is_request : Text → RequestRow → Bool
unfolding text_eq
is_request request_id row = text_eq row.request.request_id request_id

unfoldable pub in_state : RequestState → RequestRow → Bool
unfolding state_eq
in_state state row = state_eq row.request.state state

unfoldable pub of_client : Text → RequestRow → Bool
unfolding text_eq
of_client client_id row = text_eq row.request.client_id client_id

-- `WHERE client_id=? AND idempotency_key=?`
unfoldable pub has_key : Text → Text → RequestRow → Bool
unfolding of_client
has_key client_id key row = of_client client_id row && text_eq row.request.idempotency_key key

-- `SET state=?, result_json=?`
unfoldable pub with_state : RequestState → Option Fields → RequestRow → RequestRow
with_state state result row = record row {
  request = record row.request { state = state; result = result };
}

-- `UPDATE requests SET state=?, result_json=? WHERE …`
unfoldable pub update_where :
    (RequestRow → Bool) → RequestState → Option Fields → List RequestRow → List RequestRow
unfolding with_state
update_where test state result [] = []
update_where test state result (row ∷ rows) =
    (if test row then with_state state result row else row) ∷ update_where test state result rows

unfoldable pub count_where : (RequestRow → Bool) → Db → ℕ
count_where test db = length (keep test db.requests)

unfoldable pub total_request_count : Option Text → Db → ℕ
unfolding count_where of_client
total_request_count none db = length db.requests
total_request_count (some client_id) db = count_where (of_client client_id) db

-- A condition that is added to the WHERE clause only if its argument is given.
unfoldable pub if_given : Option Text → (Text → Bool) → Bool
if_given none test = true
if_given (some t) test = test t

unfoldable pub count_pending_requests : Option Text → Option Text → Db → ℕ
unfolding count_where in_state of_client if_given
count_pending_requests client_id workspace_id db =
    count_where
      (λ row.
        in_state pending row
        && if_given client_id (λ c. of_client c row)
        && if_given workspace_id (λ w. text_eq row.request.workspace_id w))
      db

unfoldable pub count_requests_since : Text → Text → Db → ℕ
unfolding count_where of_client text_le
count_requests_since client_id created_after db =
    count_where (λ row. of_client client_id row && text_le created_after row.request.created_at) db

pub record Limits : Type 0 where
  pub max_pending_per_client : ℕ
  pub max_pending_global : ℕ
  pub max_total_per_client : ℕ
  pub max_total_requests : ℕ

unfoldable pub has_zero_limit : Limits → Bool
has_zero_limit l =
    l.max_pending_per_client == 0
    || l.max_pending_global == 0
    || l.max_total_per_client == 0
    || l.max_total_requests == 0

-- The row is refused for a request id or a client's key that is taken (PRIMARY KEY, UNIQUE), and
-- for an unknown workspace (FOREIGN KEY).
unfoldable pub insert_conflicts : PendingRequest → Db → Bool
unfolding is_request has_key workspace_exists
insert_conflicts request db =
    any (is_request request.request_id) db.requests
    || any (has_key request.client_id request.idempotency_key) db.requests
    || not (workspace_exists request.workspace_id db)

module _ (py : Runtime) where
  -- What `_insert_request` adds.
  unfoldable pub new_row : PendingRequest → RequestRow
  new_row request = record {
    request = request;
    request_fingerprint = request_fingerprint py request;
  }

  -- The part of `add_request` for a key that the client has not used.
  unfoldable pub insert_request : Limits → PendingRequest → Exec Db PendingRequest
  insert_request limits request = do
    total ← gets (total_request_count none)
    raise_if (leb limits.max_total_requests total)
        (conflict_error "total retained request quota exceeded")
    client_total ← gets (total_request_count (some request.client_id))
    raise_if (leb limits.max_total_per_client client_total)
        (conflict_error "client retained request quota exceeded")
    client_pending ← gets (count_pending_requests (some request.client_id) none)
    raise_if (leb limits.max_pending_per_client client_pending)
        (conflict_error "client pending request quota exceeded")
    all_pending ← gets (count_pending_requests none none)
    raise_if (leb limits.max_pending_global all_pending)
        (conflict_error "global pending request quota exceeded")
    clash ← gets (insert_conflicts request)
    raise_if clash (conflict_error "request identity conflict")
    modify (λ db. record db { requests = db.requests ++ new_row request ∷ [] })
    pure request

  -- The part of `add_request` for a key that the client has used: the first row, or a refusal.
  unfoldable pub replay_request : PendingRequest → RequestRow → Exec Db PendingRequest
  replay_request request existing = do
    raise_if (not (text_eq existing.request_fingerprint (request_fingerprint py request)))
        (conflict_error "idempotency key was already used with another request")
    pure existing.request

  unfoldable pub store_request :
      Limits → PendingRequest → Option RequestRow → Exec Db PendingRequest
  store_request limits request none = insert_request limits request
  store_request limits request (some existing) = replay_request request existing

  unfoldable pub add_request : Limits → PendingRequest → Exec Db PendingRequest
  unfolding has_zero_limit is_empty
  add_request limits request = do
    raise_if (is_empty request.idempotency_key) (value_error "idempotency key is required")
    raise_if (is_empty request.expires_at) (value_error "request expiry is required")
    raise_if (has_zero_limit limits) (value_error "request limits must be positive")
    transaction (do
      existing ← gets (λ db. find (has_key request.client_id request.idempotency_key) db.requests)
      store_request limits request existing)

-- `request(request_id, client_id)`: without a client, or only if the row is that client's.
unfoldable pub find_request : Text → Option Text → Db → Option RequestRow
unfolding is_request of_client if_given
find_request request_id client_id db =
    find (λ row. is_request request_id row && if_given client_id (λ c. of_client c row)) db.requests

unfoldable pub row_request : Option RequestRow → Option PendingRequest
row_request none = none
row_request (some row) = some row.request

unfoldable pub request : Text → Option Text → Exec Db PendingRequest
unfolding find_request row_request
request request_id client_id = do
  row ← gets (λ db. row_request (find_request request_id client_id db))
  some_or row (not_found_error "request not found")

unfoldable pub in_given_state : Option RequestState → RequestRow → Bool
in_given_state none row = true
in_given_state (some state) row = in_state state row

-- `ORDER BY created_at DESC, request_id DESC`: a stable sort by each key, then the reverse.
unfoldable pub list_requests :
    Option Text → Option RequestState → Option Text → Exec Db (List PendingRequest)
unfolding if_given in_state of_client
list_requests workspace_id state client_id = gets (λ db. reverse (
    order_by (λ (r : PendingRequest). r.created_at)
      (order_by (λ (r : PendingRequest). r.request_id)
        (map (λ (row : RequestRow). row.request)
          (keep
            (λ (row : RequestRow).
              if_given workspace_id (λ w. text_eq row.request.workspace_id w)
              && in_given_state state row
              && if_given client_id (λ c. of_client c row))
            db.requests)))))

unfoldable pub set_request_state :
    Text → RequestState → RequestState → Option Fields → Exec Db (Unit {0})
unfolding is_request in_state count_where update_where
set_request_state request_id expected next_state result = do
  let test = λ (row : RequestRow). is_request request_id row && in_state expected row
  updated ← gets (count_where test)
  modify (λ db. record db { requests = update_where test next_state result db.requests })
  raise_if (not (updated == 1)) (conflict_error "request state changed; reload before acting")

-- SQL's `>`: a comparison with NULL does not hold.
unfoldable pub later_than : Option ℕ → Option ℕ → Bool
later_than (some a) (some b) = ltb b a
later_than _ _ = false

unfoldable pub has_hash : Text → Option WorkspaceRow → Bool
has_hash policy_hash none = false
has_hash policy_hash (some row) = text_eq row.policy_hash policy_hash

module _ (py : Runtime) where
  -- The WHERE clause of `claim_request_for_execution`.
  unfoldable pub is_claimable : Text → Text → Db → RequestRow → Bool
  unfolding is_request in_state later_than has_hash granted_workspace
  is_claimable request_id now db row =
      is_request request_id row
      && in_state pending row
      && later_than (py.julianday row.request.expires_at) (py.julianday now)
      && has_hash row.request.policy_hash
          (granted_workspace row.request.client_id row.request.workspace_id db)

  unfoldable pub claim_request_for_execution : Text → Text → Fields → Exec Db (Unit {0})
  unfolding count_where
  claim_request_for_execution request_id now execution_result = do
    updated ← gets (λ db. count_where (is_claimable request_id now db) db)
    modify (λ db. record db {
      requests =
          update_where (is_claimable request_id now db) executing (some execution_result)
            db.requests;
    })
    raise_if (not (updated == 1))
        (conflict_error "request is no longer eligible for local execution")

-- The WHERE clause of `expire_pending`.
unfoldable pub is_due : Text → RequestRow → Bool
unfolding in_state is_empty text_le
is_due now row =
    in_state pending row
    && not (is_empty row.request.expires_at)
    && text_le row.request.expires_at now

unfoldable pub ids_where : (RequestRow → Bool) → Db → List Text
ids_where test db =
    order_by (λ t. t) (map (λ (row : RequestRow). row.request.request_id) (keep test db.requests))

-- One UPDATE of `executemany`.
unfoldable pub move_one : RequestState → RequestState → Fields → Db → Text → Db
move_one expected next_state result db request_id = record db {
  requests =
      update_where (λ row. is_request request_id row && in_state expected row) next_state
        (some result) db.requests;
}

unfoldable pub move_all : RequestState → RequestState → Fields → List Text → Db → Db
move_all expected next_state result [] db = db
move_all expected next_state result (id ∷ ids) db =
    move_all expected next_state result ids (move_one expected next_state result db id)

unfoldable pub expire_pending : Text → Exec Db (List Text)
unfolding ids_where
expire_pending now = transaction (do
  ids ← gets (ids_where (is_due now))
  modify (
      move_all pending expired (field (codes "reason") (str (codes "approval window expired")) end)
        ids)
  pure ids)

unfoldable pub mark_executing_uncertain : Exec Db (List Text)
unfolding in_state ids_where
mark_executing_uncertain = transaction (do
  ids ← gets (ids_where (in_state executing))
  modify (
      move_all executing uncertain
        (field (codes "reason") (str (codes "execution interrupted; outcome requires local review"))
          end)
        ids)
  pure ids)
