-- ===== src/Tests/Snapshot.antt =====
-- A plan of a snapshot with two files.
use hermes_local_hands.Base.{
  Text, codes, has_char, is_empty, join, mem_text, rstrip, split, starts_with, text_eq, ℕ, Bool,
  false, Option, some, List, [], ◌∷◌, ◌++◌, ◌≡◌, refl, replicate, length,
}
use hermes_local_hands.Errors.{ok}
use hermes_local_hands.Paths.{is_control, is_dot_part, path_parts, as_posix}
use hermes_local_hands.Snapshot.{
  Entry, cut, is_lower_hex, is_object_id, is_file_mode, is_reserved_part, checked_path,
  archive_relative, parse_line, add_file, add_line, add_lines, snapshot_plan,
}
use hermes_local_hands.Snapshot.Planned.{IsPlanned, snapshot_plan-IsPlanned}
use hermes_local_hands.Tests.Examples.{plain}

abbrev object_id : Text
object_id = replicate 40 b'a'

-- A size is written with as many characters as it counts.
abbrev size_of : Text → Option (Bool × ℕ)
size_of t = some (false, length t)

abbrev tree : Text
tree =
    (codes "100644 blob " ++ object_id ++ codes " 11" ++ b'\t' ∷ codes "docs/a")
    ++ 0 ∷ (codes "100755 blob " ++ object_id ++ codes " 111" ++ b'\t' ∷ codes "run")
    ++ 0 ∷ []

abbrev planned : List Entry
planned =
    (
      codes "docs/a",
      record { size = 2; mode = 420; object_id = object_id; object_format = codes "sha1" },
    )
    ∷ (
      codes "run",
      record { size = 3; mode = 493; object_id = object_id; object_format = codes "sha1" },
    )
    ∷ []

tree_is_planned : snapshot_plan plain size_of (ok (codes "sha1")) (ok tree) ≡ ok planned
unfolding snapshot_plan add_lines add_line add_file parse_line archive_relative checked_path
    is_reserved_part is_file_mode is_object_id is_lower_hex cut as_posix path_parts is_dot_part
    is_control has_char is_empty join mem_text rstrip split starts_with text_eq
tree_is_planned = refl

snapshot_plan-IsPlanned_example : IsPlanned plain (codes "sha1") planned
snapshot_plan-IsPlanned_example =
    snapshot_plan-IsPlanned plain size_of (codes "sha1") (ok tree) planned tree_is_planned
