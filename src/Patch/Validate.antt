-- ===== src/Patch/Validate.antt =====
-- gitops.py, `validate_patch`.
use hermes_local_hands.Base.{
  Text, codes, text_eq, mem_text, is_empty, has_char, starts_with, split, ◌==◌, leb, ltb, ◌||◌,
  ◌&&◌, not, ℕ, zero, suc, ◌+◌, Bool, true, false, Option, none, some, List, [], ◌∷◌, ◌++◌, any,
  length, if◌then◌else◌,
}
use hermes_local_hands.Errors.{
  Result, ok, err, refuse_if, policy_error, value_error, other_error, ◌>>=◌, ◌>>◌,
}
use hermes_local_hands.Runtime.{Runtime}
use hermes_local_hands.Paths.{allowed_relative}
use hermes_local_hands.Patch.Headers.{patch_path, headers, is_index_header}
use hermes_local_hands.Patch.Hunks.{parse_hunks}

-- `_MAX_PATCH_BYTES`, `_MAX_PATCH_FILES`, `_MAX_CHANGED_LINES`
abbrev pub max_patch_bytes : ℕ
max_patch_bytes = 262144

abbrev pub max_patch_files : ℕ
max_patch_files = 50

abbrev pub max_changed_lines : ℕ
max_changed_lines = 5000

abbrev pub forbidden_patch_metadata : List Text
forbidden_patch_metadata =
    codes "GIT binary patch"
    ∷ codes "Binary files "
    ∷ codes "old mode "
    ∷ codes "new mode "
    ∷ codes "new file mode "
    ∷ codes "deleted file mode "
    ∷ codes "similarity index "
    ∷ codes "dissimilarity index "
    ∷ codes "rename from "
    ∷ codes "rename to "
    ∷ codes "copy from "
    ∷ codes "copy to "
    ∷ codes "Submodule "
    ∷ []

pub record PatchPlan : Type 0 where
  pub paths : List Text
  pub changed_lines : ℕ
  pub byte_count : ℕ
  pub sha256 : Text

-- The parameters of `validate_patch`.
pub record PatchLimits : Type 0 where
  pub maximum : ℕ
  pub maximum_files : ℕ
  pub maximum_changed_lines : ℕ

abbrev pub default_patch_limits : PatchLimits
default_patch_limits = record {
  maximum = max_patch_bytes;
  maximum_files = max_patch_files;
  maximum_changed_lines = max_changed_lines;
}

-- The bytes of a character in UTF-8; surrogates have none.
unfoldable pub utf8_bytes : ℕ → ℕ
utf8_bytes c = if ltb c 128 then 1 else if ltb c 2048 then 2 else if ltb c 65536 then 3 else 4

unfoldable pub utf8_length : Text → ℕ
unfolding utf8_bytes
utf8_length [] = 0
utf8_length (c ∷ cs) = utf8_bytes c + utf8_length cs

unfoldable pub is_surrogate : ℕ → Bool
is_surrogate c = leb 55296 c && leb c 57343

-- `patch.endswith("\n")`, and `patch[:-1]`
unfoldable pub ends_with_newline : Text → Bool
ends_with_newline [] = false
ends_with_newline (c ∷ []) = c == b'\n'
ends_with_newline (c ∷ d ∷ cs) = ends_with_newline (d ∷ cs)

unfoldable pub without_last : Text → Text
without_last [] = []
without_last (c ∷ []) = []
without_last (c ∷ d ∷ cs) = c ∷ without_last (d ∷ cs)

unfoldable pub is_forbidden : Text → Bool
unfolding starts_with
is_forbidden line = any (λ prefix. starts_with prefix line) forbidden_patch_metadata

unfoldable pub is_git_header : Text → Bool
unfolding starts_with
is_git_header line = starts_with (codes "diff --git ") line

unfoldable pub is_git_format : List Text → Bool
unfolding is_git_header
is_git_format [] = false
is_git_format (line ∷ lines) = is_git_header line

-- `if index < len(lines) and lines[index].startswith("index ")`
unfoldable pub skip_index : List Text → Result (List Text)
unfolding starts_with
skip_index [] = ok []
skip_index (line ∷ lines) =
    if starts_with (codes "index ") line
    then if is_index_header line
      then ok lines
      else err (policy_error "patch index header is malformed or creates/deletes a file")
    else ok (line ∷ lines)

-- `if not git_format and index < len(lines) and not lines[index].startswith("--- ")`
unfoldable pub has_trailing : Bool → List Text → Bool
unfolding starts_with
has_trailing true lines = false
has_trailing false [] = false
has_trailing false (line ∷ lines) = not (starts_with (codes "--- ") line)

unfoldable pub no_path : List Text → Bool
no_path [] = true
no_path (path ∷ paths) = false

unfoldable pub check_allowed : Runtime → Option (List Text) → Text → Result (Unit {0})
check_allowed py none path = ok tt
check_allowed py (some allowlist) path = do allowed_relative py path allowlist; ok tt

module _ (py : Runtime) where
  -- The two paths of a `diff --git` line that has been split at its blanks.
  unfoldable pub git_paths : List Text → Result Text
  git_paths (diff ∷ git ∷ old ∷ new ∷ []) = do
    refuse_if (not (text_eq diff (codes "diff")) || not (text_eq git (codes "--git")))
        (policy_error "diff --git path is ambiguous")
    before ← patch_path py old (codes "a/")
    after ← patch_path py new (codes "b/")
    refuse_if (not (text_eq before after))
        (policy_error "rename or mismatched patch paths are not permitted")
    ok before
  git_paths fields = err (policy_error "diff --git path is ambiguous")

  -- What stands before the `---` line: the path that it must name, and the lines from there on.
  unfoldable pub section_start : Bool → Text → List Text → Result (Option Text × List Text)
  section_start true line lines = do
    refuse_if (not (is_git_header line))
        (policy_error "every git-format patch section must start with diff --git")
    path ← git_paths (split b' ' line)
    rest ← skip_index lines
    ok (some path, rest)
  section_start false line lines = do
    refuse_if (not (starts_with (codes "--- ") line))
        (policy_error "patch contains data outside a unified diff section")
    ok (none, line ∷ lines)

  -- One round of the main loop: the path, the changes and the lines that are left.
  unfoldable pub section :
      Option (List Text) → List Text → ℕ → Bool → Text → List Text → Result (Text × ℕ × List Text)
  section allowlist paths fuel git_format line lines = do
    (expected, a) ← section_start git_format line lines
    (path, b) ← headers py a expected
    refuse_if (mem_text path paths) (policy_error "a file may appear only once in a patch")
    check_allowed py allowlist path
    (changed, c) ← parse_hunks py fuel 0 0 b
    ok (path, changed, c)

  -- The main loop: the paths and the changes. Each round takes a line off, at least.
  unfoldable pub sections :
      PatchLimits
      → Option (List Text)
      → ℕ
      → Bool
      → List Text
      → ℕ
      → List Text
      → Result (List Text × ℕ)
  sections limits allowlist zero git_format paths changed lines = err (other_error "out of fuel")
  sections limits allowlist (suc fuel) git_format paths changed [] = ok (paths, changed)
  sections limits allowlist (suc fuel) git_format paths changed (line ∷ lines) = do
    (path, more, rest) ← section allowlist paths (suc fuel) git_format line lines
    refuse_if
        (ltb limits.maximum_files (length (paths ++ path ∷ []))
          || ltb limits.maximum_changed_lines (changed + more))
        (policy_error "patch exceeds the file or changed-line limit")
    refuse_if (has_trailing git_format rest)
        (policy_error "patch contains trailing or unsupported metadata")
    sections limits allowlist fuel git_format (paths ++ path ∷ []) (changed + more) rest

  unfoldable pub validate_patch : PatchLimits → Option (List Text) → Text → Result PatchPlan
  validate_patch limits allowlist patch = do
    refuse_if (any is_surrogate patch) (value_error "surrogates not allowed")
    refuse_if (is_empty patch || ltb limits.maximum (utf8_length patch) || has_char 0 patch)
        (policy_error "patch is empty, binary, or exceeds size limit")
    refuse_if (has_char b'\r' patch || not (ends_with_newline patch))
        (policy_error "patch must use LF line endings and end with a newline")
    let lines = split b'\n' (without_last patch)
    refuse_if (any is_forbidden lines)
        (policy_error "patch contains unsupported binary, mode, or path metadata")
    (paths, changed) ←
        sections limits allowlist (suc (length lines)) (is_git_format lines) [] 0 lines
    refuse_if (no_path paths || changed == 0)
        (policy_error "patch must modify at least one text line")
    ok (record {
      paths = paths;
      changed_lines = changed;
      byte_count = utf8_length patch;
      sha256 = py.sha256 patch;
    })
