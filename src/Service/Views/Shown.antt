-- ===== src/Service/Views/Shown.antt =====
-- What a view of a request leaves out.
use hermes_local_hands.Base.{Text, codes, Value, dict, get, Option, none, List, [], ◌∷◌}
use hermes_local_hands.Runtime.{Runtime}
use hermes_local_hands.Models.{RequestKind, patch, test}
use hermes_local_hands.Storage.Requests
use hermes_local_hands.Service.Views.{test_detail_fields}

abbrev pub patch_detail_fields : List Text
patch_detail_fields =
    codes "patch_sha256" ∷ codes "affected_paths" ∷ codes "changed_lines" ∷ codes "patch_bytes" ∷ []

abbrev pub detail_fields : RequestKind → List Text
detail_fields patch = patch_detail_fields
detail_fields test = test_detail_fields

-- What stands under a key of a value that is an object.
unfoldable pub get_in : Text → Value → Option Value
unfolding get
get_in k (dict d) = get k d
get_in k v = none
