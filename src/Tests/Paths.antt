-- ===== src/Tests/Paths.antt =====
-- Paths.
use hermes_local_hands.Base.{Text, codes, ◌≡◌, refl, ◌↔◌, [], ◌∷◌, split, rstrip, All}
use mathlib.Core.List.{Memᴰ}
use hermes_local_hands.Errors.{ok, err, unsafe_path_error}
use hermes_local_hands.Paths.{
  normalise_relative, allowed_relative, is_ambiguous, is_dot_part, is_sensitive_part,
  is_sensitive_name, path_parts, path_name, as_posix,
}
use hermes_local_hands.Paths.Accepted.{IsSafePath, normalise_relative_iff}
use hermes_local_hands.Paths.Allowed.{IsBelow, allowed_relative-IsBelow}
use hermes_local_hands.Tests.Examples.{plain}

hidden_is_refused :
    normalise_relative plain (codes "docs/.env")
    ≡ err (unsafe_path_error "sensitive path is never readable")
unfolding normalise_relative is_ambiguous split is_dot_part path_parts is_sensitive_part
hidden_is_refused = refl

sibling_is_outside :
    allowed_relative plain (codes "docs2/a") (codes "docs" ∷ [])
    ≡ err (unsafe_path_error "path is outside this workspace read allowlist")
unfolding allowed_relative normalise_relative is_ambiguous split is_dot_part path_parts
    is_sensitive_part is_sensitive_name path_name as_posix rstrip
sibling_is_outside = refl

normalise_relative_iff_example :
    (normalise_relative plain (codes "docs/a") ≡ ok (codes "docs/a"))
    ↔ ((codes "docs/a" ≡ codes "docs/a") × IsSafePath plain (codes "docs/a"))
normalise_relative_iff_example = normalise_relative_iff plain (codes "docs/a") (codes "docs/a")

guide_is_allowed : allowed_relative plain (codes "docs/a") (codes "docs" ∷ []) ≡ ok (codes "docs/a")
unfolding allowed_relative normalise_relative is_ambiguous split is_dot_part path_parts
    is_sensitive_part is_sensitive_name path_name as_posix rstrip
guide_is_allowed = refl

allowed_relative-IsBelow_example :
    (codes "docs/a" ≡ codes "docs/a")
    × IsSafePath plain (codes "docs/a")
    × ((entry : Text) × Memᴰ entry (codes "docs" ∷ []) × IsBelow (codes "docs/a") entry)
    × All (IsSafePath plain) (codes "docs" ∷ [])
allowed_relative-IsBelow_example =
    allowed_relative-IsBelow plain (codes "docs/a") (codes "docs" ∷ []) (codes "docs/a")
      guide_is_allowed
