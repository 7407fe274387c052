-- ===== src/Service/Views.antt =====
-- What the remote client is told of a request: service.py, `public_request`, and mcp_server.py,
-- `_public` and the tools of `MCPAdapter` but `read_file`.
pub mod Shown
use hermes_local_hands.Base.{
  Text, codes, mem_text, Fields, field, end, Value, str, null, dict, get, Option, none, some, List,
  [], ◌∷◌, if◌then◌else◌,
}
use hermes_local_hands.Errors.{Result, ok, err}
use hermes_local_hands.Exec.{Exec, pure, lift, ◌>>=◌, ◌>>◌}
use hermes_local_hands.Runtime.{Runtime}
use hermes_local_hands.Models.{RequestKind, patch, test, kind_value, state_value, PendingRequest}
use hermes_local_hands.Storage.Requests
use hermes_local_hands.Receipts.{Signer}
use hermes_local_hands.Service.{World, Host, on_db, expire_due}
use hermes_local_hands.Service.Requests.{item}

abbrev pub public_failure_result_fields : List Text
public_failure_result_fields = codes "code" ∷ codes "detail_sha256" ∷ codes "summary" ∷ []

abbrev pub public_patch_result_fields : List Text
public_patch_result_fields =
    codes "affected_paths"
    ∷ codes "changed_lines"
    ∷ codes "patch_sha256"
    ∷ codes "snapshot_id"
    ∷ public_failure_result_fields

abbrev pub public_test_result_fields : List Text
public_test_result_fields =
    codes "exit_code"
    ∷ codes "output_bytes"
    ∷ codes "output_sha256"
    ∷ codes "output_truncated"
    ∷ codes "passed"
    ∷ codes "patch_request_id"
    ∷ codes "patch_sha256"
    ∷ codes "process_cleanup_guaranteed"
    ∷ codes "process_group_kill_attempted"
    ∷ codes "snapshot_id"
    ∷ codes "source_status_observation"
    ∷ codes "temporary_home_removed"
    ∷ codes "timed_out"
    ∷ public_failure_result_fields

abbrev pub test_detail_fields : List Text
test_detail_fields = codes "profile" ∷ codes "timeout_seconds" ∷ codes "patch_request_id" ∷ []

unfoldable pub result_fields : RequestKind → List Text
result_fields patch = public_patch_result_fields
result_fields test = public_test_result_fields

unfoldable pub add_present : Text → Option Value → Fields → Fields
add_present key none d = d
add_present key (some v) d = field key v d

-- `{key: d[key] for key in keys if key in d}`
unfoldable pub pick : List Text → Fields → Fields
unfolding get add_present
pick [] d = end
pick (key ∷ keys) d = add_present key (get key d) (pick keys d)

-- `request_details`
unfoldable pub request_details : RequestKind → Fields → Result Fields
request_details patch payload = elim (item (codes "patch_sha256") payload) [
  | err e ↦ err e
  | ok digest ↦ elim (item (codes "affected_paths") payload) [
    | err e ↦ err e
    | ok paths ↦ elim (item (codes "changed_lines") payload) [
      | err e ↦ err e
      | ok lines ↦ elim (item (codes "patch_bytes") payload) [
        | err e ↦ err e
        | ok bytes ↦ ok (
            field (codes "patch_sha256") digest (
              field (codes "affected_paths") paths
                (field (codes "changed_lines") lines (field (codes "patch_bytes") bytes end))))
      ]
    ]
  ]
]
request_details test payload = ok (pick test_detail_fields payload)

-- `public_result`
unfoldable pub public_result : RequestKind → Option Fields → Value
unfolding pick result_fields
public_result kind none = null
public_result kind (some result) = dict (pick (result_fields kind) result)

unfoldable pub request_view : PendingRequest → Fields → Fields
request_view r details = field (codes "request_id") (str r.request_id) (
    field (codes "kind") (str (kind_value r.kind)) (
      field (codes "workspace_id") (str r.workspace_id) (
        field (codes "state") (str (state_value r.state)) (
          field (codes "created_at") (str r.created_at) (
            field (codes "expires_at") (str r.expires_at) (
              field (codes "base_head") (str r.base_head) (
                field (codes "policy_hash") (str r.policy_hash) (
                  field (codes "request") (dict details)
                    (field (codes "result") (public_result r.kind r.result) end)))))))))

-- the keys that `_public` drops
abbrev pub private_keys : List Text
private_keys =
    codes "root"
    ∷ codes "worktree"
    ∷ codes "token"
    ∷ codes "bearer_token"
    ∷ codes "credential"
    ∷ codes "secret"
    ∷ codes "password"
    ∷ []

module _ (py : Runtime) where
  -- `_public`: a list of texts stays as it is.
  unfoldable mutual
    unfolding mem_text

    pub public : Value → Value
    public (dict d) = dict (public_fields d)
    public v = v

    pub public_fields : Fields → Fields
    public_fields end = end
    public_fields (field k v d) =
        let shown = public v in
        let rest = public_fields d in
        if mem_text (py.lower k) private_keys then rest else field k shown rest

module _ (py : Runtime) (signer : Signer) (host : Host) where
  unfoldable pub public_request : Text → Text → Exec World Fields
  public_request request_id client_id = do
    expire_due py signer host
    request ← on_db (Requests.request request_id (some client_id))
    details ← lift (request_details request.kind request.payload)
    pure (request_view request details)
