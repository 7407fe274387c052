-- ===== src/Service/Policies.antt =====
-- The policy of a workspace that is registered: service.py, the checks of `register_workspace`, and
-- `_canonical_profile`.
pub mod Canonical
use hermes_local_hands.Base.{
  Text, codes, text_eq, mem_text, is_empty, has_char, starts_with, join, Fields, field, end, str,
  int, strs, dict, ltb, ◌||◌, ◌&&◌, not, ℕ, zero, suc, ◌+◌, Bool, true, false, Option, none, some,
  List, [], ◌∷◌, ◌++◌, any, length, if◌then◌else◌,
}
use hermes_local_hands.Errors.{Error, Result, ok, err, refuse_if, policy_error, ◌>>=◌, ◌>>◌}
use hermes_local_hands.Runtime.{Runtime}
use hermes_local_hands.Models.{Profiles, none_left, profile, WorkspacePolicy, to_dict}
use hermes_local_hands.Paths.{path_parts, is_within, normalise_relative}
use hermes_local_hands.Patch.Headers.{strip_prefix}
use hermes_local_hands.Service.Identifiers.{validated_identifier}

-- What the file system answers: a resolved path is absolute and normal.
pub record Places : Type 0 where
  -- `require_git_root`
  pub git_root : Text → Result Text
  -- `Path(self.store.path).parent.resolve()`
  pub state_root : Text
  -- `Path(value).resolve()` and `Path(value).resolve(strict=True)`
  pub resolve : Text → Text
  pub resolve_strict : Text → Result Text
  -- `shutil.which`
  pub which : Text → Option Text
  -- `stat.S_ISREG(candidate.stat().st_mode)` and `os.access(candidate, os.X_OK)`
  pub is_regular : Text → Result Bool
  pub is_executable : Text → Bool

-- `a.is_relative_to(b)` of two absolute paths, by their parts; the parts behind those of `b`
unfoldable pub parts_behind : List Text → List Text → Option (List Text)
unfolding text_eq
parts_behind ps [] = some ps
parts_behind [] (q ∷ qs) = none
parts_behind (p ∷ ps) (q ∷ qs) = let rest = parts_behind ps qs in if text_eq p q then rest else none

unfoldable pub is_relative_to : Text → Text → Bool
unfolding parts_behind path_parts
is_relative_to a b = elim (parts_behind (path_parts a) (path_parts b)) [
  | none ↦ false
  | some ps ↦ true
]

-- `tuple(dict.fromkeys(values))`
unfoldable pub unique_behind : List Text → List Text → List Text
unfolding mem_text
unique_behind seen [] = []
unique_behind seen (t ∷ ts) =
    let fresh = unique_behind (seen ++ t ∷ []) ts in
    let rest = unique_behind seen ts in if mem_text t seen then rest else t ∷ fresh

unfoldable pub unique : List Text → List Text
unfolding unique_behind
unique ts = unique_behind [] ts

-- `needle in text`
unfoldable pub contains_text : Text → Text → Bool
unfolding starts_with
contains_text needle [] = starts_with needle []
contains_text needle (c ∷ cs) = starts_with needle (c ∷ cs) || contains_text needle cs

unfoldable pub total_length : List Text → ℕ
total_length [] = 0
total_length (t ∷ ts) = length t + total_length ts

unfoldable pub no_entry : List Text → Bool
no_entry [] = true
no_entry (t ∷ ts) = false

-- `not item or "\x00" in item or "\n" in item or "\r" in item`
unfoldable pub is_unsupported_argument : Text → Bool
unfolding is_empty has_char
is_unsupported_argument item =
    is_empty item || has_char 0 item || has_char b'\n' item || has_char b'\r' item

unfoldable pub profile_count : Profiles → ℕ
profile_count none_left = 0
profile_count (profile name argv rest) = profile_count rest + 1

-- Every value through a check that may refuse it.
unfoldable pub each : (Text → Result Text) → List Text → Result (List Text)
each f [] = ok []
each f (t ∷ ts) = do u ← f t; us ← each f ts; ok (u ∷ us)

-- The write paths lie below read paths.
unfoldable pub is_covered : List Text → Text → Bool
unfolding is_within
is_covered reads write = any (is_within write) reads

module _ (py : Runtime) (places : Places) where
  unfoldable pub which_or : Text → Result Text
  which_or executable =
      if starts_with (codes "/") executable then ok executable else elim (places.which executable) [
        | none ↦ err (policy_error "check executable could not be resolved during registration")
        | some resolved ↦
            if is_empty resolved
            then err (policy_error "check executable could not be resolved during registration")
            else ok resolved
      ]

  -- `f"./{candidate.relative_to(root_path).as_posix()}"`, or the absolute path
  unfoldable pub spelled_below : Text → Text → Text
  unfolding parts_behind path_parts join
  spelled_below root candidate = elim (parts_behind (path_parts candidate) (path_parts root)) [
    | none ↦ candidate
    | some [] ↦ codes "./."
    | some (p ∷ ps) ↦ codes "./" ++ join b'/' (p ∷ ps)
  ]

  -- The executable of a profile as it is stored, and the file that it names.
  unfoldable pub canonical_executable : Text → Text → Result (Text × Text)
  canonical_executable root executable = elim (strip_prefix (codes "./") executable) [
    | some rest ↦ do
      relative ← normalise_relative py rest
      candidate ← places.resolve_strict (root ++ codes "/" ++ relative)
      refuse_if (not (is_relative_to candidate root))
          (policy_error "check executable escapes the workspace")
      ok (codes "./" ++ relative, candidate)
    | none ↦ do
      resolved ← which_or executable
      candidate ← places.resolve_strict resolved
      ok (spelled_below root candidate, candidate)
  ]

  -- `_canonical_profile`
  unfoldable pub canonical_profile : Text → Text → List Text → Result (List Text)
  canonical_profile root name [] = do
    validated_identifier name "check profile"
    err (policy_error "check profiles need a bounded fixed argument vector")
  canonical_profile root name (executable ∷ arguments) = do
    validated_identifier name "check profile"
    refuse_if
        (ltb 32 (length (executable ∷ arguments))
          || ltb 8192 (total_length (executable ∷ arguments)))
        (policy_error "check profiles need a bounded fixed argument vector")
    refuse_if (any is_unsupported_argument (executable ∷ arguments))
        (policy_error "check profile arguments contain unsupported characters")
    (spelled, candidate) ← canonical_executable root executable
    regular ← places.is_regular candidate
    refuse_if (not regular || not (places.is_executable candidate))
        (policy_error "check executable must be a regular executable file")
    refuse_if (any (contains_text root) arguments)
        (policy_error "check arguments must address workspace files relatively")
    ok (spelled ∷ arguments)

  unfoldable pub canonical_profiles : Text → Profiles → Result Profiles
  canonical_profiles root none_left = ok none_left
  canonical_profiles root (profile name argv rest) = do
    canonical ← canonical_profile root name argv
    others ← canonical_profiles root rest
    ok (profile name canonical others)

  -- `register_workspace` as far as the checks go: the canonical policy
  unfoldable pub canonical_policy : WorkspacePolicy → Result WorkspacePolicy
  canonical_policy policy = do
    workspace_id ← validated_identifier policy.workspace_id "workspace id"
    root ← places.git_root policy.root
    refuse_if
        (text_eq places.state_root (places.resolve root)
          || is_relative_to places.state_root (places.resolve root)
          || is_relative_to (places.resolve root) places.state_root)
        (policy_error "private state and registered workspace must not overlap")
    refuse_if (no_entry policy.read_allowlist)
        (policy_error "a workspace needs an explicit read allowlist")
    reads ← each (normalise_relative py) policy.read_allowlist
    writes ← each (normalise_relative py) policy.write_allowlist
    refuse_if (any (λ write. not (is_covered (unique reads) write)) (unique writes))
        (policy_error "every write path must also be covered by the read allowlist")
    refuse_if (ltb policy.max_read_bytes 1 || ltb 1048576 policy.max_read_bytes)
        (policy_error "read limit must be between 1 and 1048576")
    profiles ← canonical_profiles root policy.test_profiles
    ok (record {
      workspace_id = workspace_id;
      root = root;
      read_allowlist = unique reads;
      test_profiles = profiles;
      max_read_bytes = policy.max_read_bytes;
      write_allowlist = unique writes;
    })

-- `_policy_hash`
unfoldable pub policy_hash : Runtime → WorkspacePolicy → Text
policy_hash py policy = py.sha256 (py.json_dumps (dict (to_dict policy)))
