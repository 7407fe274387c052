-- ===== src/Service/Keeps/Endings.antt =====
-- How an execution ends: in a state that follows on its being executed.
use hermes_local_hands.Base.{Text, ◌≡◌, Bool, true, false, Option, none, some, refl, if◌then◌else◌}
use hermes_local_hands.Errors.{Error, Result, ok, err, uncertain_execution_error}
use hermes_local_hands.Exec.{Exec}
use hermes_local_hands.Exec.Yields.{Yields, Yields-pure, Yields-raise, Yields-bind}
use hermes_local_hands.Runtime.{Runtime}
use hermes_local_hands.Models.{
  RequestKind, patch, test, executing, succeeded, failed, WorkspacePolicy, PendingRequest,
}
use hermes_local_hands.Models.States.{Next, succeed, fail, doubt}
use hermes_local_hands.Patch.Validate.{PatchPlan}
use hermes_local_hands.Receipts.{Signer}
use hermes_local_hands.Checkout.{Status}
use hermes_local_hands.Service.{World, Host, attempt, handle}
use hermes_local_hands.Service.Execution.{
  Outcome, failure_state, run_patch, run_test, run_kind, execute, settle_failure,
}

abbrev pub IsEnding : Outcome → Type 0
IsEnding outcome = Next executing outcome.state

pub failure_state-Next : (e : Error) → Next executing (failure_state e)
unfolding failure_state
failure_state-Next (uncertain_execution_error m) = doubt
failure_state-Next e = fail

check_state-Next : (passed : Bool) → Next executing (if passed then succeeded else failed)
check_state-Next true = succeed
check_state-Next false = fail

attempt-Yields :
    {A : Type 0} (P : A → Type 0) (m : Exec World A) (recover : Error → Exec World A)
    → Yields P m
    → ((e : Error) → Yields P (recover e))
    → Yields P (attempt m recover)
unfolding attempt
attempt-Yields {A} P m recover k l = record { at = λ w v a h. go w (m w) refl v a h }
  where
    go :
        (w : World) (r : Result A × World)
        → m w ≡ r
        → (v : World) (a : A) → handle recover r ≡ (ok a, v)
        → P a
    go w (ok b, u) e v a h = k.at w v a (cc)
    go w (err x, u) e v a h = (l x).at u v a h

module _ (py : Runtime) (signer : Signer) (host : Host) where
  run_patch-IsEnding :
      (r : PendingRequest) (t : Text) (o : Option PatchPlan)
      → Yields IsEnding (run_patch py signer host r t o)
  unfolding run_patch
  run_patch-IsEnding r t none = Yields-raise IsEnding _
  run_patch-IsEnding r t (some plan) =
      Yields-bind IsEnding _ _
        (λ text. Yields-bind IsEnding _ _ (λ _. Yields-pure IsEnding _ succeed))

  run_test-IsEnding :
      (r : PendingRequest) (p : WorkspacePolicy) (s : Status) (t : Text) (l : Option PendingRequest)
      → Yields IsEnding (run_test py signer host r p s t l)
  unfolding run_test
  run_test-IsEnding r p s t l = search (Yields-bind, Yields-pure, check_state-Next) depth 20

  run_kind-IsEnding :
      (a : RequestKind) (r : PendingRequest) (p : WorkspacePolicy) (s : Status)
      (o : Option PatchPlan) (l : Option PendingRequest) (t : Text)
      → Yields IsEnding (run_kind py signer host a r p s o l t)
  unfolding run_kind
  run_kind-IsEnding patch r p s o l t = run_patch-IsEnding r t o
  run_kind-IsEnding test r p s o l t = run_test-IsEnding r p s t l

  execute-IsEnding :
      (r : PendingRequest) (p : WorkspacePolicy) (s : Status) (o : Option PatchPlan)
      (l : Option PendingRequest)
      → Yields IsEnding (execute py signer host r p s o l)
  unfolding execute
  execute-IsEnding r p s o l = Yields-bind IsEnding _ _ (run_kind-IsEnding r.kind r p s o l)

  settle_failure-IsEnding :
      (r : PendingRequest) (a : Text) (e : Error)
      → Yields IsEnding (settle_failure py signer host r a e)
  unfolding settle_failure
  settle_failure-IsEnding r a e = Yields-bind IsEnding _ _ (λ _. Yields-raise IsEnding e)

  -- What `approve` settles after the `try`.
  pub attempted-IsEnding :
      (r : PendingRequest) (p : WorkspacePolicy) (s : Status) (o : Option PatchPlan)
      (l : Option PendingRequest) (a : Text)
      → Yields IsEnding
          (attempt (execute py signer host r p s o l) (settle_failure py signer host r a))
  attempted-IsEnding r p s o l a =
      attempt-Yields IsEnding _ _ (execute-IsEnding r p s o l) (settle_failure-IsEnding r a)
