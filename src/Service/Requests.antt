-- ===== src/Service/Requests.antt =====
-- Requests as the remote client makes and sees them: service.py, `_require_clean` to `_pending`, and
-- `approval_code` to `public_request`.
use hermes_local_hands.Base.{
  Text, codes, text_eq, Fields, field, end, Value, str, int, flag, strs, null, dict, get, put, ◌==◌,
  leb, ltb, ◌||◌, ◌&&◌, not, ℕ, ◌+◌, ◌-◌, Bool, true, false, Option, none, some, List, [], ◌∷◌,
  ◌++◌, if◌then◌else◌,
}
use hermes_local_hands.Errors.{Result, ok, err, policy_error, conflict_error, other_error}
use hermes_local_hands.Exec.{Exec, pure, lift, gets, raise_if, ◌>>=◌, ◌>>◌}
use hermes_local_hands.Runtime.{Runtime}
use hermes_local_hands.Models.{
  RequestKind, patch, test, kind_value, pending, succeeded, Profiles, none_left, profile,
  PendingRequest,
}
use hermes_local_hands.Models.States.{state_eq}
use hermes_local_hands.Storage.{
  request_fingerprint, default_client_pending_limit, default_global_pending_limit,
  default_client_total_request_limit, default_total_request_limit,
}
use hermes_local_hands.Storage.Requests
use hermes_local_hands.Storage.Requests.{Limits, add_request, count_requests_since}
use hermes_local_hands.Patch.Validate.{PatchPlan}
use hermes_local_hands.Receipts.{Signer}
use hermes_local_hands.Checkout.{Status}
use hermes_local_hands.Service.{
  checkout_status, World, Host, check_patch_applies, on_db, transact, ask, read_status, now_micros,
  draw_token, record_event, expire_due,
}
use hermes_local_hands.Service.Identifiers.{is_idempotency_key}
use hermes_local_hands.Service.Clients.{workspace_of}

-- `_REQUEST_TTL`, 15 minutes, and one hour, in microseconds
abbrev pub request_ttl : ℕ
request_ttl = 900000000

abbrev pub one_hour : ℕ
one_hour = 3600000000

abbrev pub requests_per_hour : ℕ
requests_per_hour = 60

-- The defaults of `Store.add_request`.
abbrev pub default_limits : Limits
default_limits = record {
  max_pending_per_client = default_client_pending_limit;
  max_pending_global = default_global_pending_limit;
  max_total_per_client = default_client_total_request_limit;
  max_total_requests = default_total_request_limit;
}

-- `d[key]`
unfoldable pub item : Text → Fields → Result Value
unfolding get
item key d = elim (get key d) [ none ↦ err (other_error "KeyError") | some v ↦ ok v ]

-- `bool(value)`
unfoldable pub truthy : Option Value → Bool
truthy none = false
truthy (some (str [])) = false
truthy (some (int n)) = not (n == 0)
truthy (some (flag b)) = b
truthy (some (strs [])) = false
truthy (some null) = false
truthy (some (dict end)) = false
truthy (some v) = true

unfoldable pub has_entry : List Text → Bool
has_entry [] = false
has_entry (x ∷ xs) = true

-- `_require_clean`
unfoldable pub require_clean : Status → Exec World (Unit {0})
require_clean status =
    raise_if (has_entry status.changes)
      (policy_error "patch and check requests require a clean registered checkout")

unfoldable pub kind_eq : RequestKind → RequestKind → Bool
kind_eq patch patch = true
kind_eq test test = true
kind_eq _ _ = false

-- `policy.test_profiles.get(name)`
unfoldable pub find_profile : Text → Profiles → Option (List Text)
unfolding text_eq
find_profile name none_left = none
find_profile name (profile other argv rest) =
    let later = find_profile name rest in if text_eq other name then some argv else later

unfoldable pub patch_payload : Text → PatchPlan → Fields
patch_payload text plan = field (codes "patch") (str text) (
    field (codes "patch_sha256") (str plan.sha256) (
      field (codes "affected_paths") (strs plan.paths) (
        field (codes "changed_lines") (int plan.changed_lines)
          (field (codes "patch_bytes") (int plan.byte_count) end))))

unfoldable pub test_payload : Text → ℕ → Fields
test_payload profile_name timeout_seconds =
    field (codes "profile") (str profile_name)
      (field (codes "timeout_seconds") (int timeout_seconds) end)

unfoldable pub note_digest : RequestKind → Fields → Fields → Result Fields
note_digest patch payload event = elim (item (codes "patch_sha256") payload) [
  | err e ↦ err e
  | ok digest ↦ ok (put (codes "patch_sha256") digest event)
]
note_digest test payload event = ok event

unfoldable pub note_link : Option Value → Result Fields → Result Fields
unfolding truthy
note_link _ (err e) = err e
note_link none (ok event) = ok event
note_link (some v) (ok event) =
    ok (if truthy (some v) then put (codes "patch_request_id") v event else event)

-- The request that a check is linked to must be an applied patch of the same client, workspace,
-- policy and commit.
unfoldable pub is_incompatible : PendingRequest → Text → Text → Text → Bool
is_incompatible linked workspace_id policy_hash base_head =
    not (kind_eq linked.kind patch)
    || not (state_eq linked.state succeeded)
    || not (text_eq linked.workspace_id workspace_id)
    || not (text_eq linked.policy_hash policy_hash)
    || not (text_eq linked.base_head base_head)

unfoldable pub is_unknown_profile : Option (List Text) → Bool
is_unknown_profile none = true
is_unknown_profile (some argv) = false

module _ (py : Runtime) (signer : Signer) (host : Host) where
  -- the receipt of a new request
  unfoldable pub pending_event : PendingRequest → Result Fields
  pending_event r =
      let base = field (codes "request_id") (str r.request_id) (
        field (codes "kind") (str (kind_value r.kind)) (
          field (codes "workspace_id") (str r.workspace_id) (
            field (codes "request_fingerprint") (str (request_fingerprint py r))
              (field (codes "expires_at") (str r.expires_at) end)))) in
      note_link (get (codes "patch_request_id") r.payload) (note_digest r.kind r.payload base)

  -- `if is_new: self.ledger.append("request.pending", …)`
  unfoldable pub record_new : Bool → PendingRequest → Exec World (Unit {0})
  record_new false r = pure tt
  record_new true r = do
    event ← lift (pending_event r)
    record_event py signer host (codes "request.pending") event
    pure tt

  -- The transaction of `_pending`.
  unfoldable pub save_pending : PendingRequest → Text → Exec World PendingRequest
  save_pending r one_hour_ago = transact (do
    recent_before ← on_db (gets (count_requests_since r.client_id one_hour_ago))
    saved ← on_db (add_request py default_limits r)
    let is_new = text_eq saved.request_id r.request_id
    raise_if (is_new && leb requests_per_hour recent_before)
        (conflict_error "client hourly request quota exceeded")
    record_new is_new r
    pure saved)

  unfoldable pub save_request :
      RequestKind → Text → Fields → Text → Text → Text → Text → Exec World PendingRequest
  save_request kind workspace_id payload idempotency_key client_id base_head policy_hash = do
    raise_if (not (is_idempotency_key idempotency_key))
        (policy_error "idempotency key contains unsupported characters")
    created ← now_micros py signer host
    token ← draw_token py signer host
    save_pending
        (record {
          request_id = codes "r_" ++ token;
          kind = kind;
          workspace_id = workspace_id;
          payload = payload;
          idempotency_key = idempotency_key;
          base_head = base_head;
          policy_hash = policy_hash;
          state = pending;
          created_at = py.isoformat created;
          client_id = client_id;
          expires_at = py.isoformat (created + request_ttl);
          result = none;
        })
        (py.isoformat (created - one_hour))

  unfoldable pub propose_patch : Text → Text → Text → Text → Exec World PendingRequest
  propose_patch workspace_id text idempotency_key client_id = do
    expire_due py signer host
    workspace ← workspace_of workspace_id (some client_id)
    raise_if (not (has_entry workspace.policy.write_allowlist))
        (policy_error "this workspace is read-only; no write allowlist is registered")
    status ←
        ask (read_status workspace.policy.root)
          (λ n. checkout_status py signer host n workspace.policy.root)
    require_clean status
    plan ←
        check_patch_applies py signer host workspace.policy.root text status.head
          workspace.policy.write_allowlist
    save_request patch workspace_id (patch_payload text plan) idempotency_key client_id status.head
        workspace.policy_hash

  unfoldable pub link_payload : Option Text → Text → Text → Text → Text → Fields → Exec World Fields
  link_payload none client_id workspace_id policy_hash base_head payload = pure payload
  link_payload (some patch_id) client_id workspace_id policy_hash base_head payload = do
    linked ← on_db (Requests.request patch_id (some client_id))
    raise_if (is_incompatible linked workspace_id policy_hash base_head)
        (policy_error "linked patch request is not an approved compatible snapshot")
    pure (put (codes "patch_request_id") (str linked.request_id) payload)

  -- `timeout_seconds` is an integer here: the caller's other types are refused before.
  unfoldable pub request_test :
      Text → Text → Text → ℕ → Text → Option Text → Exec World PendingRequest
  request_test workspace_id profile_name idempotency_key timeout_seconds client_id
        patch_request_id =
      do
        expire_due py signer host
        workspace ← workspace_of workspace_id (some client_id)
        raise_if (is_unknown_profile (find_profile profile_name workspace.policy.test_profiles))
            (policy_error "unknown check profile")
        raise_if (ltb timeout_seconds 1 || ltb 900 timeout_seconds)
            (policy_error "timeout is outside allowed range")
        status ←
            ask (read_status workspace.policy.root)
              (λ n. checkout_status py signer host n workspace.policy.root)
        require_clean status
        payload ←
            link_payload patch_request_id client_id workspace_id workspace.policy_hash status.head
              (test_payload profile_name timeout_seconds)
        save_request test workspace_id payload idempotency_key client_id status.head
            workspace.policy_hash

  unfoldable pub repo_status : Text → Option Text → Exec World Status
  repo_status workspace_id client_id = do
    workspace ← workspace_of workspace_id client_id
    ask (read_status workspace.policy.root)
        (λ n. checkout_status py signer host n workspace.policy.root)
