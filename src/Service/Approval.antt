-- ===== src/Service/Approval.antt =====
-- What only the operator does: service.py, `reject`, `_approval_preflight` and `_linked_patch`, with
-- the helpers `_safe_operator_text` and `_safe_failure`.
use hermes_local_hands.Base.{
  Text, codes, text_eq, is_empty, Fields, field, end, Value, str, int, null, get, ◌==◌, leb, ltb,
  ◌||◌, ◌&&◌, not, ℕ, zero, suc, Bool, false, Option, none, some, [], ◌∷◌, all, keep, if◌then◌else◌,
}
use hermes_local_hands.Errors.{
  Error, Result, ok, err, policy_error, conflict_error, uncertain_execution_error,
  file_not_found_error, os_error, other_error, is_policy_error, is_execution_error,
}
use hermes_local_hands.Exec.{Exec, pure, lift, raise_if, ◌>>=◌, ◌>>◌}
use hermes_local_hands.Runtime.{Runtime}
use hermes_local_hands.Models.{
  RequestKind, patch, test, kind_value, pending, rejected, WorkspacePolicy, PendingRequest,
}
use hermes_local_hands.Storage.{request_fingerprint}
use hermes_local_hands.Storage.Requests
use hermes_local_hands.Storage.Requests.{claim_request_for_execution, set_request_state}
use hermes_local_hands.Patch.Validate.{PatchPlan, default_patch_limits, validate_patch}
use hermes_local_hands.Receipts.{Signer}
use hermes_local_hands.Checkout.{Status}
use hermes_local_hands.Service.{
  checkout_status, World, Host, check_patch_applies, on_db, transact, ask, read_status,
  record_event, expire_due,
}
use hermes_local_hands.Service.Clients.{workspace_of}
use hermes_local_hands.Service.Requests.{item, require_clean, is_incompatible}

-- `value[:n]`
unfoldable pub take : ℕ → Text → Text
take zero t = []
take (suc n) [] = []
take (suc n) (x ∷ xs) = x ∷ take n xs

-- `secrets.compare_digest` of two `str`, which takes ASCII text only.
unfoldable pub compare_digest : Text → Text → Result Bool
unfolding text_eq
compare_digest a b =
    if all (λ c. ltb c 128) a && all (λ c. ltb c 128) b
    then ok (text_eq a b)
    else err (other_error "TypeError")

-- `plan.sha256 == payload.get("patch_sha256")`
unfoldable pub is_text : Text → Option Value → Bool
unfolding text_eq
is_text t (some (str u)) = text_eq t u
is_text t _ = false

-- The class and the summary of `_safe_failure`.
unfoldable pub failure_code : Error → Text × Text
unfolding is_policy_error is_execution_error
failure_code (uncertain_execution_error m) =
    (codes "execution_outcome_uncertain", codes "local execution outcome is uncertain")
failure_code (file_not_found_error m) =
    (codes "executable_unavailable", codes "configured executable is unavailable")
failure_code (os_error m) =
    (codes "local_execution_error", codes "local execution could not be completed")
failure_code e =
    if is_policy_error e
    then (codes "policy_denied", codes "local policy denied the operation")
    else if is_execution_error e
    then (codes "local_execution_error", codes "local execution could not be completed")
    else (codes "internal_error", codes "local execution failed")

module _ (py : Runtime) where
  -- `str(value)`
  unfoldable pub text_of : Value → Text
  text_of (str t) = t
  text_of v = py.to_str v

  -- `int(value)`
  unfoldable pub int_of : Value → Result ℕ
  int_of (int n) = ok n
  int_of v = py.to_int v

  unfoldable pub or_default : Text → Text
  or_default [] = codes "rejected locally"
  or_default (x ∷ xs) = x ∷ xs

  -- `_safe_operator_text`: a line break is below 32, so that nothing is left for the two calls of
  -- `replace` after the filter.
  unfoldable pub safe_operator_text : Text → Text
  unfolding take or_default
  safe_operator_text value =
      or_default
        (take 300 (py.strip (py.redact (keep (λ c. c == b'\t' || c == 32 || leb 32 c) value))))

  -- `_safe_failure`
  unfoldable pub safe_failure : Error → Fields
  unfolding failure_code
  safe_failure e =
      let (code, summary) = failure_code e in
      field (codes "code") (str code) (
        field (codes "summary") (str summary)
          (field (codes "detail_sha256") (str (py.sha256 (py.describe e))) end))

  -- `request_fingerprint(request)[:12].upper()`
  unfoldable pub code_of : PendingRequest → Text
  unfolding take
  code_of request = py.upper (take 12 (request_fingerprint py request))

  unfoldable pub approval_code : Text → Exec World Text
  approval_code request_id = do
    request ← on_db (Requests.request request_id none)
    pure (code_of request)

module _ (py : Runtime) (signer : Signer) (host : Host) where
  unfoldable pub reject : Text → Text → Exec World (Unit {0})
  unfolding safe_operator_text
  reject request_id reason = do
    expire_due py signer host
    request ← on_db (Requests.request request_id none)
    let result = field (codes "reason") (str (safe_operator_text py reason)) end
    transact (do
      on_db (set_request_state request_id pending rejected (some result))
      record_event py signer host (codes "request.rejected") (
          field (codes "request_id") (str request.request_id)
            (field (codes "kind") (str (kind_value request.kind)) result))
      pure tt)

  -- The plan of a patch request, tried against the checkout again.
  unfoldable pub approved_plan :
      PendingRequest → WorkspacePolicy → RequestKind → Exec World (Option PatchPlan)
  unfolding text_of is_text
  approved_plan request policy test = pure none
  approved_plan request policy patch = do
    text ← lift (item (codes "patch") request.payload)
    plan ←
        check_patch_applies py signer host policy.root (text_of py text) request.base_head
          policy.write_allowlist
    raise_if (not (is_text plan.sha256 (get (codes "patch_sha256") request.payload)))
        (conflict_error "stored patch digest does not match the approved request")
    pure (some plan)

  -- `if not confirmation or not secrets.compare_digest(…)`
  unfoldable pub confirm : PendingRequest → Text → Exec World (Unit {0})
  unfolding is_empty
  confirm request confirmation = do
    raise_if (is_empty confirmation)
        (policy_error "approval confirmation does not match the reviewed request")
    same ← lift (compare_digest (py.upper confirmation) (code_of py request))
    raise_if (not same) (policy_error "approval confirmation does not match the reviewed request")

  -- `_approval_preflight`
  unfoldable pub approval_preflight :
      PendingRequest → Text → Exec World (WorkspacePolicy × Status × Option PatchPlan)
  approval_preflight request confirmation = do
    confirm request confirmation
    workspace ← workspace_of request.workspace_id (some request.client_id)
    status ←
        ask (read_status workspace.policy.root)
          (λ n. checkout_status py signer host n workspace.policy.root)
    require_clean status
    raise_if
        (not (text_eq workspace.policy_hash request.policy_hash)
          || not (text_eq status.head request.base_head))
        (policy_error "workspace policy or Git HEAD changed; create a new request")
    plan ← approved_plan request workspace.policy request.kind
    pure (workspace.policy, status, plan)

  -- `_linked_patch`, for the id that the payload names
  unfoldable pub linked_request :
      PendingRequest → WorkspacePolicy → Option Value → Exec World (Option PendingRequest)
  unfolding text_of is_text
  linked_request request policy none = pure none
  linked_request request policy (some null) = pure none
  linked_request request policy (some id) = do
    linked ← on_db (Requests.request (text_of py id) (some request.client_id))
    raise_if (is_incompatible linked request.workspace_id request.policy_hash request.base_head)
        (policy_error "linked patch request is no longer compatible")
    text ← lift (item (codes "patch") linked.payload)
    plan ←
        lift
          (validate_patch py default_patch_limits (some policy.write_allowlist) (text_of py text))
    raise_if (not (is_text plan.sha256 (get (codes "patch_sha256") linked.payload)))
        (conflict_error "linked patch digest is inconsistent")
    pure (some linked)

  unfoldable pub linked_patch :
      PendingRequest → WorkspacePolicy → RequestKind → Exec World (Option PendingRequest)
  unfolding get
  linked_patch request policy patch = pure none
  linked_patch request policy test =
      linked_request request policy (get (codes "patch_request_id") request.payload)
