-- ===== src/Models.antt =====
-- src/hermes_local_hands/models.py: the domain objects.
pub mod States
use hermes_local_hands.Base.{
  Text, codes, Fields, field, end, Value, str, strs, int, dict, Option, none, some, List, [], ◌∷◌,
  ℕ,
}

pub data RequestKind : Type 0 where
  patch test : RequestKind

abbrev pub kind_value : RequestKind → Text
kind_value patch = codes "patch"
kind_value test = codes "test"

pub data RequestState : Type 0 where
  pending approved rejected executing succeeded failed expired uncertain : RequestState

abbrev pub state_value : RequestState → Text
state_value pending = codes "pending"
state_value approved = codes "approved"
state_value rejected = codes "rejected"
state_value executing = codes "executing"
state_value succeeded = codes "succeeded"
state_value failed = codes "failed"
state_value expired = codes "expired"
state_value uncertain = codes "uncertain"

-- `profile_name → argv`, in insertion order
pub data Profiles : Type 0 where
  none_left : Profiles
  profile : Text → List Text → Profiles → Profiles

pub record WorkspacePolicy : Type 0 where
  pub workspace_id : Text
  pub root : Text
  pub read_allowlist : List Text
  pub test_profiles : Profiles
  pub max_read_bytes : ℕ
  pub write_allowlist : List Text

profile_fields : Profiles → Fields
profile_fields none_left = end
profile_fields (profile name argv rest) = field name (strs argv) (profile_fields rest)

-- `WorkspacePolicy.to_dict`
unfoldable pub to_dict : WorkspacePolicy → Fields
unfolding profile_fields
to_dict p = field (codes "workspace_id") (str p.workspace_id) (
    field (codes "root") (str p.root) (
      field (codes "read_allowlist") (strs p.read_allowlist) (
        field (codes "test_profiles") (dict (profile_fields p.test_profiles)) (
          field (codes "max_read_bytes") (int p.max_read_bytes)
            (field (codes "write_allowlist") (strs p.write_allowlist) end)))))

pub record PendingRequest : Type 0 where
  pub request_id : Text
  pub kind : RequestKind
  pub workspace_id : Text
  pub payload : Fields
  pub idempotency_key : Text
  pub base_head : Text
  pub policy_hash : Text
  pub state : RequestState
  pub created_at : Text
  pub client_id : Text
  pub expires_at : Text
  pub result : Option Fields
