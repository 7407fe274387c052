-- ===== src/Patch/Grammar.antt =====
-- The patches that `validate_patch` is meant to accept, as data with their text: a modification of text
-- files, section by section and hunk by hunk. Nothing here calls the parser's loops.
use hermes_local_hands.Base.{
  Text, codes, mem_text, join, starts_with, ℕ, ◌+◌, ◌≤◌, ◌<◌, ◌≡◌, ◌≢◌, Bool, true, false, Option,
  none, some, List, [], ◌∷◌, ◌++◌, map, all, any, All, length, if◌then◌else◌,
}
use hermes_local_hands.Errors.{ok}
use hermes_local_hands.Runtime.{Runtime}
use hermes_local_hands.Paths.Accepted.{IsSafePath}
use hermes_local_hands.Patch.Headers.{is_patch_char, is_index_header, hunk_header}
use hermes_local_hands.Patch.Hunks.{no_newline_text}
use hermes_local_hands.Patch.Validate.{
  PatchPlan, PatchLimits, utf8_length, check_allowed, is_forbidden,
}

-- One line of a hunk.
pub data Item : Type 0 where
  kept deleted inserted : Text → Item
  newline_marker : Item

abbrev pub item_text : Item → Text
item_text (kept t) = b' ' ∷ t
item_text (deleted t) = b'-' ∷ t
item_text (inserted t) = b'+' ∷ t
item_text newline_marker = no_newline_text

abbrev pub old_count : List Item → ℕ
old_count [] = 0
old_count (kept t ∷ items) = old_count items + 1
old_count (deleted t ∷ items) = old_count items + 1
old_count (inserted t ∷ items) = old_count items
old_count (newline_marker ∷ items) = old_count items

abbrev pub new_count : List Item → ℕ
new_count [] = 0
new_count (kept t ∷ items) = new_count items + 1
new_count (deleted t ∷ items) = new_count items
new_count (inserted t ∷ items) = new_count items + 1
new_count (newline_marker ∷ items) = new_count items

abbrev pub changes : List Item → ℕ
changes [] = 0
changes (kept t ∷ items) = changes items
changes (deleted t ∷ items) = changes items + 1
changes (inserted t ∷ items) = changes items + 1
changes (newline_marker ∷ items) = changes items

-- A marker stands only behind another line; the flag says that one may stand first.
abbrev pub IsMarked : Bool → List Item → Type 0
IsMarked allowed [] = Unit
IsMarked allowed (kept t ∷ items) = IsMarked true items
IsMarked allowed (deleted t ∷ items) = IsMarked true items
IsMarked allowed (inserted t ∷ items) = IsMarked true items
IsMarked allowed (newline_marker ∷ items) = (allowed ≡ true) × IsMarked false items

-- `ending` says that the marker follows the last line.
pub record Hunk : Type 0 where
  pub header : Text
  pub items : List Item
  pub ending : Bool

abbrev pub hunk_lines : Hunk → List Text → List Text
hunk_lines h rest =
    h.header ∷ (map item_text h.items ++ (if h.ending then no_newline_text ∷ rest else rest))

abbrev pub hunks_lines : List Hunk → List Text → List Text
hunks_lines [] rest = rest
hunks_lines (h ∷ hs) rest = hunk_lines h (hunks_lines hs rest)

abbrev pub hunks_changes : List Hunk → ℕ
hunks_changes [] = 0
hunks_changes (h ∷ hs) = changes h.items + hunks_changes hs

-- The header declares the lines that follow.
pub record IsHunk (py : Runtime) (h : Hunk) : Type 0 where
  pub is_header : starts_with (codes "@@ ") h.header ≡ true
  pub counts : hunk_header py h.header ≡ ok (old_count h.items, new_count h.items)
  pub marked : IsMarked false h.items

-- The changes of one file, with the `index` line if there is one.
pub record Section : Type 0 where
  pub index : Option Text
  pub path : Text
  pub hunks : List Hunk

abbrev pub index_lines : Option Text → List Text → List Text
index_lines none rest = rest
index_lines (some line) rest = line ∷ rest

abbrev pub file_lines : Text → List Text → List Text
file_lines path rest = (codes "--- a/" ++ path) ∷ (codes "+++ b/" ++ path) ∷ rest

-- The lines of a section, in the format of Git or in the plain one.
abbrev pub section_lines : Bool → Section → List Text → List Text
section_lines true s rest =
    (codes "diff --git a/" ++ (s.path ++ (codes " b/" ++ s.path)))
    ∷ index_lines s.index (file_lines s.path (hunks_lines s.hunks rest))
section_lines false s rest = file_lines s.path (hunks_lines s.hunks rest)

abbrev pub sections_lines : Bool → List Section → List Text
sections_lines git [] = []
sections_lines git (s ∷ ss) = section_lines git s (sections_lines git ss)

abbrev pub section_changes : List Section → ℕ
section_changes [] = 0
section_changes (s ∷ ss) = hunks_changes s.hunks + section_changes ss

abbrev pub section_paths : List Section → List Text
section_paths = map (λ (s : Section). s.path)

abbrev pub IsIndex : Option Text → Type 0
IsIndex none = Unit
IsIndex (some line) = is_index_header line ≡ true

pub record IsSection (py : Runtime) (allowlist : Option (List Text)) (s : Section) : Type 0 where
  pub index : IsIndex s.index
  pub safe : IsSafePath py s.path
  pub plain : all is_patch_char s.path ≡ true
  pub allowed : check_allowed py allowlist s.path ≡ ok tt
  pub changed : s.hunks ≢ []
  pub hunks : All (IsHunk py) s.hunks

-- No path stands twice.
abbrev pub IsDistinct : List Text → Type 0
IsDistinct [] = Unit
IsDistinct (p ∷ ps) = (mem_text p ps ≡ false) × IsDistinct ps

-- What a plan says of a patch: its sections in order, and the bounds.
pub record IsPatch (py : Runtime) (limits : PatchLimits) (allowlist : Option (List Text))
    (patch : Text) (plan : PatchPlan) : Type 0 where
  pub git : Bool
  pub parts : List Section
  pub spelled : patch ≡ join b'\n' (sections_lines git parts) ++ b'\n' ∷ []
  pub each : All (IsSection py allowlist) parts
  pub paths : plan.paths ≡ section_paths parts
  pub distinct : IsDistinct plan.paths
  pub changed_lines : plan.changed_lines ≡ section_changes parts
  pub some_change : 0 < plan.changed_lines
  pub few_changes : plan.changed_lines ≤ limits.maximum_changed_lines
  pub few_files : length plan.paths ≤ limits.maximum_files
  pub byte_count : plan.byte_count ≡ utf8_length patch
  pub small : plan.byte_count ≤ limits.maximum
  pub no_metadata : any is_forbidden (sections_lines git parts) ≡ false
  pub sha256 : plan.sha256 ≡ py.sha256 patch
