-- ===== src/Service/Policies/Canonical.antt =====
-- What is true of a policy that `register_workspace` stores.
use mathlib.Core.List.{Memᴰ}
use hermes_local_hands.Base.{Text, ◌≤◌, ◌≡◌, ◌≢◌, true, false, List, [], ◌∷◌, any, All, length}
use hermes_local_hands.Runtime.{Runtime}
use hermes_local_hands.Models.{Profiles, none_left, profile, WorkspacePolicy}
use hermes_local_hands.Paths.Accepted.{IsSafePath}
use hermes_local_hands.Paths.Allowed.{IsBelow}
use hermes_local_hands.Service.Identifiers.{is_identifier}
use hermes_local_hands.Service.Policies.{
  Places, is_relative_to, contains_text, is_unsupported_argument,
}

-- The profiles: of each the arguments behind the executable do not hold the root, and are supported.
abbrev pub IsFixed : Text → Profiles → Type 0
IsFixed root none_left = Unit
IsFixed root (profile name [] rest) = ⊥
IsFixed root (profile name (executable ∷ arguments) rest) =
    (is_identifier name ≡ true)
    × (length (executable ∷ arguments) ≤ 32)
    × (any is_unsupported_argument arguments ≡ false)
    × (any (contains_text root) arguments ≡ false)
    × IsFixed root rest

pub record IsCanonical (py : Runtime) (places : Places) (p : WorkspacePolicy) : Type 0 where
  pub identifier : is_identifier p.workspace_id ≡ true
  pub some_read : p.read_allowlist ≢ []
  pub safe_reads : All (IsSafePath py) p.read_allowlist
  pub safe_writes : All (IsSafePath py) p.write_allowlist
  pub writes_are_read :
      All
        (λ write. (read : Text) × Memᴰ read p.read_allowlist × IsBelow write read)
        p.write_allowlist
  pub some_bytes : 1 ≤ p.max_read_bytes
  pub few_bytes : p.max_read_bytes ≤ 1048576
  pub state_is_outside : is_relative_to places.state_root (places.resolve p.root) ≡ false
  pub state_is_apart : is_relative_to (places.resolve p.root) places.state_root ≡ false
  pub profiles : IsFixed p.root p.test_profiles
