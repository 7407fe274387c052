-- ===== src/Tests/Boundary.antt =====
-- The boundary: a review that passes, a status that is read, credentials and the guard.
use hermes_local_hands.Base.{
  Text, ◌++◌, ◌↔◌, true, codes, end, field, str, text_eq, split, is_empty, ◌≡◌, refl, none, List,
  [], ◌∷◌,
}
use hermes_local_hands.Errors.{ok}
use hermes_local_hands.Patch.Headers.{headers}
use hermes_local_hands.Patch.Validate.{PatchPlan}
use hermes_local_hands.Runtime.{Runtime}
use hermes_local_hands.Models.{patch, pending, PendingRequest}
use hermes_local_hands.Storage.Workspaces
use hermes_local_hands.Checkout.{
  Status, record_code, is_status_letter, is_rename, parse_records, parse_porcelain_status, head,
}
use hermes_local_hands.Checkout.Records.{Reads, parse_porcelain_status_iff}
use hermes_local_hands.Service.{World, Host}
use hermes_local_hands.Storage.Requests
use hermes_local_hands.Service.Requests.{patch_payload}
use hermes_local_hands.Auth.{
  Header, Scope, Connection, ascii_lower, partition, is_authorization, authorization_values,
  the_only, bearer_token, bearer_from_headers,
}
use hermes_local_hands.Auth.Bearer.{IsBearer, bearer_from_headers_iff}
use hermes_local_hands.Tests.Examples.{plain, files, request_of, db_with}

abbrev typed : Runtime
typed = record plain { sha256 = λ t. codes "0123456789abcdef" }

abbrev commit : Text
commit = codes "0123456789012345678901234567890123456789"

abbrev pub host : Host
host = record {
  git_branch = λ n root. ok (codes "main");
  git_status = λ n root. ok [];
  git_head = λ n root. ok commit;
  apply_check = λ root text head. ok tt;
  managed_worktree = λ root id head. ok (codes "/state/tree");
  apply_patch = λ tree text. ok tt;
  run_profile = λ tree argv seconds. ok end;
  os = λ n. files;
  time = λ n. 2;
  token = λ n. codes "token";
}

abbrev doc_patch : Text
doc_patch = codes "--- a/docs/a\n+++ b/docs/a\n@@ -1 +1 @@\n-a\n+b\n"

abbrev doc_plan : PatchPlan
doc_plan = record {
  paths = codes "docs/a" ∷ [];
  changed_lines = 2;
  byte_count = 44;
  sha256 = codes "0123456789abcdef";
}

abbrev reviewed : PendingRequest
reviewed = record (request_of (codes "r1") pending) {
  base_head = commit;
  payload =
      field (codes "patch") (str doc_patch)
        (field (codes "patch_sha256") (str (codes "0123456789abcdef")) end);
}

abbrev pub world : World
world = record { db = db_with []; readings = 0; drawn = 0; calls = [] }

abbrev status : Status
status = record { head = commit; branch = codes "main"; changes = [] }

-- A change, a rename with its source, and the end.
abbrev printed : Text
printed = codes " M a" ++ 0 ∷ (codes "R  new" ++ 0 ∷ (codes "old" ++ 0 ∷ []))

status_is_read : parse_porcelain_status printed ≡ ok (codes " M" ∷ codes "R " ∷ [])
unfolding parse_porcelain_status parse_records record_code is_status_letter is_rename split is_empty
status_is_read = refl

parse_porcelain_status_iff_example :
    (parse_porcelain_status printed ≡ ok (codes " M" ∷ codes "R " ∷ []))
    ↔ Reads (split 0 printed) (codes " M" ∷ codes "R " ∷ [])
parse_porcelain_status_iff_example =
    parse_porcelain_status_iff printed (codes " M" ∷ codes "R " ∷ [])

abbrev headers_of : List Header
headers_of =
    (codes "Host", codes "localhost")
    ∷ (codes "Authorization", codes "bearer 0123456789abcdef0123456789abcdef")
    ∷ []

abbrev credential : Text
credential = codes "0123456789abcdef0123456789abcdef"

bearer_is_read : bearer_from_headers plain headers_of ≡ ok credential
unfolding bearer_from_headers authorization_values is_authorization ascii_lower the_only partition
    bearer_token text_eq is_empty
bearer_is_read = refl

bearer_from_headers_iff_example :
    (bearer_from_headers plain headers_of ≡ ok credential) ↔ IsBearer plain headers_of credential
bearer_from_headers_iff_example = bearer_from_headers_iff plain headers_of credential

abbrev connection : Connection
connection = record { world = world; current_client_id = none; sent = [] }

abbrev scope : Scope
scope = record { is_http = true; headers = headers_of }

-- A proposal of the client "ana".
abbrev proposed : PendingRequest
proposed = record {
  request_id = codes "r_token";
  kind = patch;
  workspace_id = codes "app";
  payload = patch_payload doc_patch doc_plan;
  idempotency_key = codes "key-1";
  base_head = commit;
  policy_hash = codes "p";
  state = pending;
  created_at = 2 ∷ [];
  client_id = codes "ana";
  expires_at = 900000002 ∷ [];
  result = none;
}
