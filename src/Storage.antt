-- ===== src/Storage.antt =====
-- src/hermes_local_hands/storage.py: the tables as lists of rows in insertion order. A JSON column
-- holds the value that it encodes. The operations stand in the children `Clients`, `Workspaces`,
-- `Requests` and `Receipts`; `Evolves` has what every operation keeps.
pub mod Clients
pub mod Workspaces
pub mod Requests
pub mod Receipts
pub mod Evolves
pub mod History
pub mod Sound
pub mod Once
pub mod Quota
pub mod Retry
use hermes_local_hands.Base.{
  Text, codes, Fields, field, end, Value, str, int, dict, text_le, replicate, ℕ, Bool, Option, List,
  [], ◌∷◌, if◌then◌else◌,
}
use hermes_local_hands.Runtime.{Runtime}
use hermes_local_hands.Models.{
  RequestKind, kind_value, RequestState, WorkspacePolicy, PendingRequest,
}

abbrev pub default_client_pending_limit : ℕ
default_client_pending_limit = 32

abbrev pub default_global_pending_limit : ℕ
default_global_pending_limit = 256

abbrev pub default_client_total_request_limit : ℕ
default_client_total_request_limit = 512

abbrev pub default_total_request_limit : ℕ
default_total_request_limit = 2048

-- `"0" * 64`
abbrev pub genesis_hash : Text
genesis_hash = replicate 64 b'0'

pub record ClientRow : Type 0 where
  pub client_id : Text
  pub token_hash : Text
  pub created_at : Text

-- `workspace_id` and `root` are those of the policy.
pub record WorkspaceRow : Type 0 where
  pub policy : WorkspacePolicy
  pub policy_hash : Text

pub record GrantRow : Type 0 where
  pub client_id : Text
  pub workspace_id : Text
  pub granted_at : Text

pub record RequestRow : Type 0 where
  pub request : PendingRequest
  pub request_fingerprint : Text

pub record ReceiptRow : Type 0 where
  pub schema : ℕ
  pub receipt_id : Text
  pub occurred_at : Text
  pub event : Text
  pub payload : Fields
  pub previous_hash : Text
  pub receipt_hash : Text
  pub signature : Text

-- `signing_key` is the `metadata` row "receipt_signing_key_fingerprint". The rows of `receipts` are
-- in the order of `sequence`: nothing deletes one, so the n-th row has the number n.
pub record Db : Type 0 where
  pub clients : List ClientRow
  pub workspaces : List WorkspaceRow
  pub grants : List GrantRow
  pub requests : List RequestRow
  pub receipts : List ReceiptRow
  pub signing_key : Option Text

-- `ORDER BY key`, an insertion sort
insert_by {ℓ} : {A : Type ℓ} → (A → Text) → A → List A → List A
insert_by key a [] = a ∷ []
insert_by key a (b ∷ bs) =
    let rest = insert_by key a bs in if text_le (key a) (key b) then a ∷ b ∷ bs else b ∷ rest

unfoldable pub order_by {ℓ} : {A : Type ℓ} → (A → Text) → List A → List A
unfolding insert_by text_le
order_by key [] = []
order_by key (a ∷ rest) = insert_by key a (order_by key rest)

module _ (py : Runtime) where
  -- the body that `request_fingerprint` hashes
  fingerprint_body : PendingRequest → Fields
  fingerprint_body r = field (codes "schema") (int 1) (
      field (codes "client_id") (str r.client_id) (
        field (codes "idempotency_key") (str r.idempotency_key) (
          field (codes "kind") (str (kind_value r.kind)) (
            field (codes "workspace_id") (str r.workspace_id) (
              field (codes "payload") (dict r.payload) (
                field (codes "base_head") (str r.base_head)
                  (field (codes "policy_hash") (str r.policy_hash) end)))))))

  unfoldable pub request_fingerprint : PendingRequest → Text
  unfolding fingerprint_body
  request_fingerprint r = py.sha256 (py.json_dumps (dict (fingerprint_body r)))
