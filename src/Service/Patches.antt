-- ===== src/Service/Patches.antt =====
-- A patch that the service takes, or that the operator's approval passes, is one of the grammar.
use hermes_local_hands.Base.{codes, get, Value, ◌≡◌, true, Option, some, []}
use hermes_local_hands.Errors.{ok}
use hermes_local_hands.Runtime.{Runtime}
use hermes_local_hands.Models.{WorkspacePolicy, PendingRequest}
use hermes_local_hands.Receipts.{Signer}
use hermes_local_hands.Patch.Validate.{PatchPlan, default_patch_limits}
use hermes_local_hands.Patch.Grammar.{IsPatch}
use hermes_local_hands.Checkout.{Status}
use hermes_local_hands.Service.{Host}
use hermes_local_hands.Service.Requests.{item}
use hermes_local_hands.Service.Approval.{text_of, is_text}

module _ (py : Runtime) (signer : Signer) (host : Host) where
  -- What the review of a patch request has found when it passes.
  pub record Reviewed (request : PendingRequest) (policy : WorkspacePolicy) (status : Status)
      (plan : Option PatchPlan) : Type 0 where
    pub value : Value
    pub stored : item (codes "patch") request.payload ≡ ok value
    pub shown : PatchPlan
    pub planned : plan ≡ some shown
    pub is_patch :
        IsPatch py default_patch_limits (some policy.write_allowlist) (text_of py value) shown
    pub same_digest : is_text shown.sha256 (get (codes "patch_sha256") request.payload) ≡ true
    pub same_head : status.head ≡ request.base_head
    pub is_clean : status.changes ≡ []
