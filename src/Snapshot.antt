-- ===== src/Snapshot.antt =====
-- What a snapshot of a commit will hold: gitops.py, `_archive_relative` and `_snapshot_plan`. What Git
-- prints is given; bytes are numbers below 256.
pub mod Planned
use hermes_local_hands.Base.{
  Text, codes, text_eq, mem_text, is_empty, has_char, starts_with, split, rstrip, ◌==◌, leb, ltb,
  ◌||◌, ◌&&◌, not, ℕ, ◌+◌, Bool, true, false, Option, none, some, List, [], ◌∷◌, ◌++◌, any, all,
  map, length, if◌then◌else◌,
}
use hermes_local_hands.Errors.{Error, Result, ok, err, refuse_if, policy_error, ◌>>=◌, ◌>>◌}
use hermes_local_hands.Runtime.{Runtime}
use hermes_local_hands.Paths.{is_control, is_dot_part, path_parts, as_posix}

abbrev pub max_snapshot_files : ℕ
max_snapshot_files = 25000

abbrev pub max_snapshot_file_bytes : ℕ
max_snapshot_file_bytes = 20971520

abbrev pub max_snapshot_total_bytes : ℕ
max_snapshot_total_bytes = 268435456

-- `_SnapshotFile`
pub record SnapshotFile : Type 0 where
  pub size : ℕ
  pub mode : ℕ
  pub object_id : Text
  pub object_format : Text

-- A path of the plan, which is a dict in the order of insertion, and its file.
abbrev pub Entry : Type 0
Entry = Text × SnapshotFile

pub record Plan : Type 0 where
  pub entries : List Entry
  pub total : ℕ

abbrev pub paths : List Entry → List Text
paths = map (λ (e : Entry). e.0)

-- A line of `git ls-tree`; the size as its sign and its magnitude.
pub record TreeLine : Type 0 where
  pub mode : Text
  pub object_type : Text
  pub object_id : Text
  pub is_negative : Bool
  pub size : ℕ
  pub path : Text

abbrev pub malformed_tree : Error
malformed_tree = policy_error "Git tree contains malformed metadata"

-- `value.split(separator, 1)` into two
unfoldable pub cut : ℕ → Text → Result (Text × Text)
cut c [] = err malformed_tree
cut c (x ∷ xs) =
    let rest = cut c xs in
    if x == c then ok ([], xs) else (do (before, behind) ← rest; ok (x ∷ before, behind))

unfoldable pub is_lower_hex : ℕ → Bool
is_lower_hex c = (leb b'0' c && leb c b'9') || (leb b'a' c && leb c b'f')

-- `re.fullmatch(rf"[0-9a-f]{{{expected_hash_length}}}", object_id)`
unfoldable pub is_object_id : Text → Text → Bool
unfolding is_lower_hex text_eq
is_object_id object_format object_id =
    (length object_id == (if text_eq object_format (codes "sha1") then 40 else 64))
    && all is_lower_hex object_id

unfoldable pub is_file_mode : Text → Bool
unfolding text_eq
is_file_mode mode = text_eq mode (codes "100644") || text_eq mode (codes "100755")

-- The checks of `_archive_relative` on a decoded path, and the path that it returns.
module _ (py : Runtime) where
  unfoldable pub is_reserved_part : Text → Bool
  unfolding text_eq
  is_reserved_part part = text_eq (py.lower part) (codes ".git")

  unfoldable pub checked_path : Text → Result Text
  unfolding is_empty starts_with has_char is_control is_dot_part split path_parts as_posix mem_text
  checked_path value = do
    refuse_if
        (is_empty value
          || starts_with (codes "/") value
          || (has_char b'\\' value || has_char 0 value || any is_control value))
        (policy_error "snapshot contains an unsafe path")
    refuse_if (any is_dot_part (split b'/' value)) (policy_error "snapshot contains path traversal")
    refuse_if (any is_reserved_part (path_parts value))
        (policy_error "snapshot tree contains a reserved .git path")
    refuse_if
        (mem_text (as_posix value) (codes ".deletion-pending" ∷ codes ".deletion-complete" ∷ []))
        (policy_error "snapshot tree contains a reserved deletion marker path")
    ok (as_posix value)

  unfoldable pub archive_relative : Text → Bool → Result Text
  unfolding rstrip
  archive_relative raw directory = elim (py.decode_utf8 raw) [
    | none ↦ err (policy_error "snapshot contains a non-UTF-8 path")
    | some value ↦ checked_path (if directory then rstrip b'/' value else value)
  ]

  -- `int(raw_size)` of bytes, as sign and magnitude; `none` where it raises
  module _ (int_of_bytes : Text → Option (Bool × ℕ)) where
    unfoldable pub parse_line : Text → Result TreeLine
    parse_line line = do
      (metadata, path) ← cut b'\t' line
      (mode, behind_mode) ← cut 32 metadata
      (object_type, behind_type) ← cut 32 behind_mode
      (object_id, raw_size) ← cut 32 behind_type
      elim (int_of_bytes raw_size) [
        | none ↦ err malformed_tree
        | some (is_negative, size) ↦ ok (record {
          mode = mode;
          object_type = object_type;
          object_id = object_id;
          is_negative = is_negative;
          size = size;
          path = path;
        })
      ]

    -- The end of a round of the loop: the file at its path joins the plan.
    unfoldable pub add_file : Plan → Text → Bool → SnapshotFile → Result Plan
    unfolding mem_text
    add_file plan path is_negative file = do
      refuse_if (mem_text path (paths plan.entries))
          (policy_error "snapshot contains a duplicate path")
      refuse_if (is_negative || ltb max_snapshot_file_bytes file.size)
          (policy_error "snapshot file exceeds size limit")
      refuse_if
          (leb max_snapshot_files (length plan.entries)
            || ltb max_snapshot_total_bytes (plan.total + file.size))
          (policy_error "snapshot exceeds the file-count or total-size limit")
      ok (record { entries = plan.entries ++ (path, file) ∷ []; total = plan.total + file.size })

    unfoldable pub add_line : Text → Plan → Text → Result Plan
    unfolding text_eq is_file_mode is_object_id
    add_line object_format plan line = do
      tree ← parse_line line
      refuse_if (not (text_eq tree.object_type (codes "blob")) || not (is_file_mode tree.mode))
          (policy_error "snapshot contains a symlink, submodule, or unsupported file mode")
      path ← archive_relative tree.path false
      refuse_if (any (leb 128) tree.object_id)
          (policy_error "Git tree contains an invalid object identifier")
      refuse_if (not (is_object_id object_format (py.lower tree.object_id)))
          (policy_error "Git tree contains an invalid object identifier")
      add_file plan path tree.is_negative (record {
        size = tree.size;
        -- 0o755 and 0o644
        mode = if text_eq tree.mode (codes "100755") then 493 else 420;
        object_id = py.lower tree.object_id;
        object_format = object_format;
      })

    unfoldable pub add_lines : Text → Plan → List Text → Result Plan
    add_lines object_format plan [] = ok plan
    add_lines object_format plan ([] ∷ lines) = add_lines object_format plan lines
    add_lines object_format plan ((c ∷ cs) ∷ lines) = do
      longer ← add_line object_format plan (c ∷ cs)
      add_lines object_format longer lines

    -- `_snapshot_plan`, of the answers of `_git` and `_git_bytes`
    unfoldable pub snapshot_plan : Result Text → Result Text → Result (List Entry)
    unfolding text_eq split
    snapshot_plan git_format git_tree = do
      object_format ← git_format
      refuse_if
          (not (text_eq object_format (codes "sha1") || text_eq object_format (codes "sha256")))
          (policy_error "repository uses an unsupported Git object format")
      raw ← git_tree
      plan ← add_lines object_format (record { entries = []; total = 0 }) (split 0 raw)
      ok plan.entries
