-- ===== src/Patch/Hunks.antt =====
-- The hunks of one section: gitops.py, `_parse_hunks`. The position in the list of lines is the list of
-- the lines that are left.
use hermes_local_hands.Base.{
  Text, codes, text_eq, starts_with, ltb, ◌==◌, ◌||◌, ℕ, zero, suc, ◌+◌, Bool, true, false, List,
  [], ◌∷◌, if◌then◌else◌,
}
use hermes_local_hands.Errors.{Error, Result, ok, err, policy_error, other_error, ◌>>=◌}
use hermes_local_hands.Runtime.{Runtime}
use hermes_local_hands.Patch.Headers.{hunk_header}

abbrev pub no_newline_text : Text
no_newline_text = codes "\\ No newline at end of file"

-- What the first character makes of a line of a hunk.
pub data Marker : Type 0 where
  context removed added no_newline invalid : Marker

unfoldable pub marker_of : Text → Marker
unfolding text_eq
marker_of [] = invalid
marker_of (c ∷ cs) =
    if c == b' '
    then context
    else if c == b'-'
    then removed
    else if c == b'+'
    then added
    else if text_eq (c ∷ cs) no_newline_text
    then no_newline
    else invalid

abbrev pub short_hunk : Error
short_hunk = policy_error "patch hunk ended before its declared line counts"

abbrev pub invalid_line : Error
invalid_line = policy_error "patch hunk contains an invalid body line"

abbrev pub long_hunk : Error
long_hunk = policy_error "patch hunk exceeds its declared line counts"

-- The inner loop: what has been seen of the old and of the new lines, whether the marker for a missing
-- newline may follow, and the changes so far. The marker is allowed only after a line of the body, so
-- `body_line_seen` adds nothing to `marker_allowed`.
unfoldable pub hunk_body : ℕ → ℕ → ℕ → ℕ → Bool → ℕ → List Text → Result (ℕ × List Text)
unfolding marker_of
hunk_body old new old_seen new_seen allowed changed [] =
    if ltb old_seen old || ltb new_seen new then err short_hunk else ok (changed, [])
hunk_body old new old_seen new_seen allowed changed (line ∷ lines) =
    elim (ltb old_seen old || ltb new_seen new) [
      | false ↦ ok (changed, line ∷ lines)
      | true ↦ elim (marker_of line) [
        | context ↦ elim (ltb old (old_seen + 1) || ltb new (new_seen + 1)) [
          | true ↦ err long_hunk
          | false ↦ hunk_body old new (old_seen + 1) (new_seen + 1) true changed lines
        ]
        | removed ↦ elim (ltb old (old_seen + 1) || ltb new new_seen) [
          | true ↦ err long_hunk
          | false ↦ hunk_body old new (old_seen + 1) new_seen true (changed + 1) lines
        ]
        | added ↦ elim (ltb old old_seen || ltb new (new_seen + 1)) [
          | true ↦ err long_hunk
          | false ↦ hunk_body old new old_seen (new_seen + 1) true (changed + 1) lines
        ]
        | no_newline ↦ elim allowed [
          | true ↦ hunk_body old new old_seen new_seen false changed lines
          | false ↦ err invalid_line
        ]
        | invalid ↦ err invalid_line
      ]
    ]

-- The marker behind the last line.
unfoldable pub skip_marker : List Text → List Text
unfolding text_eq
skip_marker [] = []
skip_marker (line ∷ lines) = if text_eq line no_newline_text then lines else line ∷ lines

unfoldable pub hunks_end : ℕ → ℕ → List Text → Result (ℕ × List Text)
hunks_end zero changed lines =
    err (policy_error "each patch section must contain at least one hunk")
hunks_end (suc count) changed lines = ok (changed, lines)

module _ (py : Runtime) where
  -- One hunk, from its header on.
  unfoldable pub hunk : Text → List Text → Result (ℕ × List Text)
  hunk header lines = do
    (old, new) ← hunk_header py header
    (changed, rest) ← hunk_body old new 0 0 false 0 lines
    ok (changed, skip_marker rest)

  -- `_parse_hunks`: the changes, and the lines behind. Each round takes a header off the lines.
  unfoldable pub parse_hunks : ℕ → ℕ → ℕ → List Text → Result (ℕ × List Text)
  unfolding hunks_end starts_with
  parse_hunks zero count changed lines = err (other_error "out of fuel")
  parse_hunks (suc fuel) count changed [] = hunks_end count changed []
  parse_hunks (suc fuel) count changed (line ∷ lines) = elim (starts_with (codes "@@ ") line) [
    | false ↦ hunks_end count changed (line ∷ lines)
    | true ↦ do (more, rest) ← hunk line lines; parse_hunks fuel (suc count) (changed + more) rest
  ]
