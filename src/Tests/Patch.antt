-- ===== src/Tests/Patch.antt =====
-- Patches that are read, and refused.
use hermes_local_hands.Base.{
  Text, codes, text_eq, starts_with, is_empty, ◌≡◌, refl, ◌⊎◌, false, none, List, [], ◌∷◌,
}
use hermes_local_hands.Errors.{Error, ok, err, policy_error}
use hermes_local_hands.Patch.Headers.{
  strip_prefix, expect, is_ascii_digit, span, digit_value, is_digit, read_digits, int_of_digits,
  number, optional_number, hunk_header, value_or_zero,
}
use hermes_local_hands.Patch.Hunks.{marker_of, hunk_body, hunk}
use hermes_local_hands.Patch.Validate.{PatchPlan, default_patch_limits, validate_patch}
use hermes_local_hands.Patch.Ends.{validate_patch-ends}
use hermes_local_hands.Errors.Ends.{is_fuel_error}
use hermes_local_hands.Tests.Examples.{plain}

abbrev one_line : Text
one_line = codes "--- a/x.py\n+++ b/x.py\n@@ -1 +1 @@\n-a\n+b\n"

abbrev one_plan : PatchPlan
one_plan = record {
  paths = codes "x.py" ∷ [];
  changed_lines = 2;
  byte_count = 40;
  sha256 = one_line;
}

-- A third line where the header declares two.
abbrev long_hunk_lines : List Text
long_hunk_lines = codes "-a" ∷ codes " b" ∷ []

long_hunk_refused :
    hunk plain (codes "@@ -1 +1 @@") long_hunk_lines
    ≡ err (policy_error "patch hunk exceeds its declared line counts")
unfolding hunk hunk_header hunk_body expect strip_prefix number optional_number int_of_digits
    read_digits span is_digit digit_value is_ascii_digit value_or_zero marker_of text_eq starts_with
    is_empty
long_hunk_refused = refl

validate_patch-ends_example :
    ((plan : PatchPlan) × (validate_patch plain default_patch_limits none one_line ≡ ok plan))
    ⊎ ((e : Error) × (validate_patch plain default_patch_limits none one_line ≡ err e)
        × (is_fuel_error e ≡ false))
validate_patch-ends_example = validate_patch-ends plain default_patch_limits none one_line
