-- ===== src/Service/Execution.antt =====
-- The execution of an approved request: service.py, `approve`. The id that `approve` is called with is
-- that of the request which it reads.
use hermes_local_hands.Base.{
  Text, codes, text_eq, Fields, field, end, Value, str, int, flag, strs, dict, get, put, pop, ◌==◌,
  ◌&&◌, not, Bool, false, Option, none, some, List, if◌then◌else◌,
}
use hermes_local_hands.Errors.{
  Error, Result, ok, err, conflict_error, uncertain_execution_error, other_error,
}
use hermes_local_hands.Exec.{Exec, pure, raise, lift, raise_if, ◌>>=◌, ◌>>◌}
use hermes_local_hands.Runtime.{Runtime}
use hermes_local_hands.Models.{
  RequestKind, patch, test, kind_value, RequestState, pending, executing, succeeded, failed,
  uncertain, state_value, WorkspacePolicy, PendingRequest,
}
use hermes_local_hands.Models.States.{state_eq}
use hermes_local_hands.Storage.{request_fingerprint}
use hermes_local_hands.Storage.Requests
use hermes_local_hands.Storage.Requests.{claim_request_for_execution, set_request_state}
use hermes_local_hands.Patch.Validate.{PatchPlan}
use hermes_local_hands.Receipts.{Signer}
use hermes_local_hands.Checkout.{Status}
use hermes_local_hands.Service.{
  checkout_status, World, Host, status_eq, apply_patch, on_db, transact, attempt, ask, read_status,
  create_worktree, run_check, now, draw_token, record_event, expire_due,
}
use hermes_local_hands.Service.Requests.{item, truthy, find_profile}
use hermes_local_hands.Service.Approval.{
  text_of, int_of, safe_failure, approval_preflight, linked_patch,
}

-- `value == 0`: Python's `False` is 0.
unfoldable pub is_zero : Option Value → Bool
is_zero (some (int n)) = n == 0
is_zero (some (flag b)) = not b
is_zero _ = false

-- `{**a, **b}`
unfoldable pub merge : Fields → Fields → Fields
unfolding put
merge a end = a
merge a (field k v rest) = merge (put k v a) rest

-- How an execution ended.
pub record Outcome : Type 0 where
  pub state : RequestState
  pub event : Text
  pub result : Fields

-- `UNCERTAIN if isinstance(exc, UncertainExecutionError) else FAILED`
unfoldable pub failure_state : Error → RequestState
failure_state (uncertain_execution_error m) = uncertain
failure_state e = failed

unfoldable pub failure_event : RequestState → Text
failure_event uncertain = codes "request.uncertain"
failure_event s = codes "request.failed"

module _ (py : Runtime) (signer : Signer) (host : Host) where
  -- The events of an approved request name it, its kind and the attempt.
  unfoldable pub attempt_event : PendingRequest → Text → Fields → Fields
  attempt_event request attempt_id more = field (codes "request_id") (str request.request_id) (
      field (codes "kind") (str (kind_value request.kind))
        (field (codes "attempt_id") (str attempt_id) more))

  unfoldable pub apply_text : Text → Value → Exec World (Unit {0})
  unfolding text_of
  apply_text worktree text = apply_patch py signer host worktree (text_of py text)

  -- the execution of a patch: it is applied in a new snapshot
  unfoldable pub run_patch : PendingRequest → Text → Option PatchPlan → Exec World Outcome
  run_patch request worktree none = raise (other_error "AssertionError")
  run_patch request worktree (some plan) = do
    text ← lift (item (codes "patch") request.payload)
    apply_text worktree text
    pure (record {
      state = succeeded;
      event = codes "request.succeeded";
      result = field (codes "snapshot_id") (str request.request_id) (
          field (codes "patch_sha256") (str plan.sha256) (
            field (codes "affected_paths") (strs plan.paths)
              (field (codes "changed_lines") (int plan.changed_lines) end)));
    })

  -- `if linked is not None: apply_patch(…)`
  unfoldable pub apply_linked : Text → Option PendingRequest → Exec World (Unit {0})
  apply_linked worktree none = pure tt
  apply_linked worktree (some linked) = do
    text ← lift (item (codes "patch") linked.payload)
    apply_text worktree text

  unfoldable pub note_linked : Option PendingRequest → Fields → Exec World Fields
  note_linked none result = pure result
  note_linked (some linked) result = do
    digest ← lift (item (codes "patch_sha256") linked.payload)
    pure (
        put (codes "patch_sha256") digest
          (put (codes "patch_request_id") (str linked.request_id) result))

  -- `"same"`, `"changed"` or `"unavailable"`
  unfoldable pub observe : Text → Status → Exec World Text
  unfolding status_eq
  observe root before =
      attempt
        (do
          after ← ask (read_status root) (λ n. checkout_status py signer host n root)
          pure (if status_eq after before then codes "same" else codes "changed"))
        (λ e. pure (codes "unavailable"))

  unfoldable pub has_passed : Fields → Text → Bool
  unfolding get truthy is_zero text_eq
  has_passed result observation =
      is_zero (get (codes "exit_code") result)
      && not (truthy (get (codes "timed_out") result))
      && not (truthy (get (codes "output_truncated") result))
      && text_eq observation (codes "same")

  unfoldable pub argv_of : Option (List Text) → Result (List Text)
  argv_of none = err (other_error "KeyError")
  argv_of (some argv) = ok argv

  -- the execution of a check: its profile is run in a new snapshot, with the linked patch applied
  unfoldable pub run_test :
      PendingRequest → WorkspacePolicy → Status → Text → Option PendingRequest → Exec World Outcome
  unfolding text_of int_of find_profile has_passed argv_of
  run_test request policy before worktree linked = do
    apply_linked worktree linked
    name ← lift (item (codes "profile") request.payload)
    argv ← lift (argv_of (find_profile (text_of py name) policy.test_profiles))
    limit ← lift (item (codes "timeout_seconds") request.payload)
    seconds ← lift (int_of py limit)
    ran ← ask (run_check worktree argv) (λ n. host.run_profile worktree argv seconds)
    noted ←
        note_linked linked
          (put (codes "snapshot_id") (str request.request_id) (pop (codes "worktree") ran))
    observation ← observe policy.root before
    let result = put (codes "source_status_observation") (str observation) noted
    let passed = has_passed result observation
    pure (record {
      state = if passed then succeeded else failed;
      event = if passed then codes "check.passed" else codes "check.failed";
      result = put (codes "passed") (flag passed) result;
    })

  unfoldable pub run_kind :
      RequestKind
      → PendingRequest
      → WorkspacePolicy
      → Status
      → Option PatchPlan
      → Option PendingRequest
      → Text
      → Exec World Outcome
  run_kind patch request policy before plan linked worktree = run_patch request worktree plan
  run_kind test request policy before plan linked worktree =
      run_test request policy before worktree linked

  -- The body of the `try` of `approve`.
  unfoldable pub execute :
      PendingRequest
      → WorkspacePolicy
      → Status
      → Option PatchPlan
      → Option PendingRequest
      → Exec World Outcome
  execute request policy before plan linked = do
    worktree ←
        ask (create_worktree policy.root request.request_id)
          (λ n. host.managed_worktree policy.root request.request_id request.base_head)
    run_kind request.kind request policy before plan linked worktree

  -- One transaction: the claim of the request, and its receipt.
  unfoldable pub claim : PendingRequest → Text → Exec World (Unit {0})
  claim request attempt_id = do
    started_at ← now py signer host
    transact (do
      on_db (
          claim_request_for_execution py request.request_id started_at (
            field (codes "attempt_id") (str attempt_id)
              (field (codes "started_at") (str started_at) end)))
      record_event py signer host (codes "request.approved") (
          attempt_event request attempt_id
            (field (codes "request_fingerprint") (str (request_fingerprint py request)) end))
      pure tt)

  -- One transaction: the end of an execution, and its receipt.
  unfoldable pub settle :
      PendingRequest → RequestState → Fields → Text → Fields → Exec World (Unit {0})
  settle request state result event payload = transact (do
    on_db (set_request_state request.request_id executing state (some result))
    record_event py signer host event payload
    pure tt)

  -- `except Exception as exc: …; raise`
  unfoldable pub settle_failure : PendingRequest → Text → Error → Exec World Outcome
  unfolding merge failure_state failure_event
  settle_failure request attempt_id e = do
    let failure = safe_failure py e
    settle request (failure_state e) failure (failure_event (failure_state e))
        (merge (attempt_event request attempt_id end) failure)
    raise e

  -- What follows the claim.
  unfoldable pub run_claimed :
      PendingRequest
      → WorkspacePolicy
      → Status
      → Option PatchPlan
      → Option PendingRequest
      → Text
      → Exec World Fields
  unfolding merge
  run_claimed request policy before plan linked attempt_id = do
    outcome ←
        attempt (execute request policy before plan linked) (settle_failure request attempt_id)
    settle request outcome.state outcome.result outcome.event (
        attempt_event request attempt_id (
          field (codes "terminal_state") (str (state_value outcome.state)) (
            field (codes "result_hash") (str (py.sha256 (py.json_dumps (dict outcome.result))))
              end)))
    pure (
        merge
          (field (codes "request_id") (str request.request_id)
            (field (codes "state") (str (state_value outcome.state)) end))
          outcome.result)

  unfoldable pub approve : Text → Text → Exec World Fields
  approve request_id confirmation = do
    expire_due py signer host
    request ← on_db (Requests.request request_id none)
    raise_if (not (state_eq request.state pending))
        (conflict_error "only a pending request can be approved")
    (policy, before, plan) ← approval_preflight py signer host request confirmation
    linked ← linked_patch py signer host request policy request.kind
    attempt_id ← draw_token py signer host
    claim request attempt_id
    run_claimed request policy before plan linked attempt_id
