-- ===== src/Tests/Policies.antt =====
-- A policy that is registered.
use hermes_local_hands.Base.{codes, none, true, [], ◌∷◌}
use hermes_local_hands.Errors.{ok}
use hermes_local_hands.Models.{none_left, profile, WorkspacePolicy}
use hermes_local_hands.Service.Policies.{Places}

-- Every path is resolved, and every file is executable.
abbrev places : Places
places = record {
  git_root = λ t. ok t;
  state_root = codes "/state";
  resolve = λ t. t;
  resolve_strict = λ t. ok t;
  which = λ t. none;
  is_regular = λ t. ok true;
  is_executable = λ t. true;
}

-- A scope is given twice.
abbrev asked : WorkspacePolicy
asked = record {
  workspace_id = codes "app";
  root = codes "/srv";
  read_allowlist = codes "docs" ∷ codes "docs" ∷ [];
  test_profiles = profile (codes "unit") (codes "./run" ∷ codes "-q" ∷ []) none_left;
  max_read_bytes = 100;
  write_allowlist = codes "docs/a" ∷ [];
}

abbrev stored : WorkspacePolicy
stored = record {
  workspace_id = codes "app";
  root = codes "/srv";
  read_allowlist = codes "docs" ∷ [];
  test_profiles = profile (codes "unit") (codes "./run" ∷ codes "-q" ∷ []) none_left;
  max_read_bytes = 100;
  write_allowlist = codes "docs/a" ∷ [];
}
