-- ===== src/Patch/Ends/Headers.antt =====
-- The header lines and the bodies of hunks raise no error of the model's own.
use hermes_local_hands.Base.{
  Text, ltb, ◌||◌, ℕ, ◌+◌, ◌≡◌, refl, Bool, true, false, Option, none, some, List, [], ◌∷◌,
}
use hermes_local_hands.Errors.{Error, Result, ok, err}
use hermes_local_hands.Errors.Ends.{
  is_fuel_error, Ends, ends_ok, ends_err, Ends->>=, Ends->>, Ends-refuse_if, Ends-if,
}
use hermes_local_hands.Runtime.{Runtime}
use hermes_local_hands.Paths.Ends.{normalise_relative-Ends, allowed_relative-Ends}
use hermes_local_hands.Patch.Headers.{
  strip_prefix, expect, number, optional_number, int_of_digits, hunk_header, patch_path, headers,
}
use hermes_local_hands.Patch.Hunks.{
  Marker, context, removed, added, no_newline, invalid, marker_of, hunk_body, hunk,
}
use hermes_local_hands.Patch.Validate.{check_allowed, git_paths, skip_index, section_start}

option-Ends {ℓ} :
    {A : Type ℓ} (o : Option A) (e : Error)
    → is_fuel_error e ≡ false
    → Ends (elim o [ none ↦ err e | some a ↦ ok a ])
option-Ends none e h = ends_err e h
option-Ends (some a) e h = ends_ok a

expect-Ends : (e : Error) (p t : Text) → is_fuel_error e ≡ false → Ends (expect e p t)
unfolding expect
expect-Ends e p t h = option-Ends (strip_prefix p t) e h

pub skip_index-Ends : (lines : List Text) → Ends (skip_index lines)
unfolding skip_index is_fuel_error
skip_index-Ends [] = ends_ok []
skip_index-Ends (line ∷ lines) =
    Ends-if _ _ _ (Ends-if _ _ _ (ends_ok lines) (ends_err _ refl)) (ends_ok (line ∷ lines))

Ends-refused {ℓ} :
    {A : Type ℓ} (b : Bool) (e : Error) (r : Result A)
    → is_fuel_error e ≡ false
    → Ends r
    → Ends (elim b [ true ↦ err e | false ↦ r ])
Ends-refused true e r h k = ends_err e h
Ends-refused false e r h k = k

Ends-allowed {ℓ} :
    {A : Type ℓ} (b : Bool) (e : Error) (r : Result A)
    → is_fuel_error e ≡ false
    → Ends r
    → Ends (elim b [ true ↦ r | false ↦ err e ])
Ends-allowed true e r h k = k
Ends-allowed false e r h k = ends_err e h

Ends-more {ℓ} :
    {A : Type ℓ} (b : Bool) (a : A) (r : Result A)
    → Ends r
    → Ends (elim b [ false ↦ ok a | true ↦ r ])
Ends-more true a r h = h
Ends-more false a r h = ends_ok a

Ends-marker {ℓ} :
    {A : Type ℓ} (m : Marker) (a b c d : Result A) (e : Error)
    → Ends a
    → Ends b
    → Ends c
    → Ends d
    → is_fuel_error e ≡ false
    → Ends (elim m [ context ↦ a | removed ↦ b | added ↦ c | no_newline ↦ d | invalid ↦ err e ])
Ends-marker context a b c d e h i j k l = h
Ends-marker removed a b c d e h i j k l = i
Ends-marker added a b c d e h i j k l = j
Ends-marker no_newline a b c d e h i j k l = k
Ends-marker invalid a b c d e h i j k l = ends_err e l

pub hunk_body-Ends :
    (old new os ns : ℕ) (a : Bool) (ch : ℕ) (lines : List Text)
    → Ends (hunk_body old new os ns a ch lines)
unfolding hunk_body is_fuel_error
hunk_body-Ends old new os ns a ch [] = search (Ends-if, ends_err, ends_ok, refl) depth 5
hunk_body-Ends old new os ns a ch (line ∷ lines) = Ends-more (ltb os old || ltb ns new) _ _ (
    Ends-marker (marker_of line) _ _ _ _ _
      (Ends-refused _ _ _ refl (hunk_body-Ends old new (os + 1) (ns + 1) true ch lines))
      (Ends-refused _ _ _ refl (hunk_body-Ends old new (os + 1) ns true (ch + 1) lines))
      (Ends-refused _ _ _ refl (hunk_body-Ends old new os (ns + 1) true (ch + 1) lines))
      (Ends-allowed _ _ _ refl (hunk_body-Ends old new os ns false ch lines)) refl)

module _ (py : Runtime) where
  number-Ends : (t : Text) → Ends (number py t)
  unfolding number is_fuel_error
  number-Ends t = search (Ends-if, ends_err, ends_ok, refl) depth 5

  optional_number-Ends : (t : Text) → Ends (optional_number py t)
  unfolding optional_number is_fuel_error
  optional_number-Ends [] = ends_ok _
  optional_number-Ends (c ∷ cs) = search (Ends-if, number-Ends, ends_ok) depth 5

  int_of_digits-Ends : (t : Text) → Ends (int_of_digits py t)
  unfolding int_of_digits is_fuel_error
  int_of_digits-Ends t = search (Ends-if, ends_err, ends_ok, refl) depth 5

  pub hunk_header-Ends : (line : Text) → Ends (hunk_header py line)
  unfolding hunk_header is_fuel_error
  hunk_header-Ends line =
      search
        (
          Ends->>=, Ends->>, Ends-refuse_if, ends_ok, expect-Ends, number-Ends,
          optional_number-Ends, int_of_digits-Ends, refl,
        )
        depth 20

  pub hunk-Ends : (header : Text) (lines : List Text) → Ends (hunk py header lines)
  unfolding hunk
  hunk-Ends header lines = search (Ends->>=, hunk_header-Ends, hunk_body-Ends, ends_ok) depth 6

  pub check_allowed-Ends :
      (allowlist : Option (List Text)) (path : Text) → Ends (check_allowed py allowlist path)
  unfolding check_allowed
  check_allowed-Ends none path = ends_ok tt
  check_allowed-Ends (some allowlist) path =
      search (Ends->>=, Ends->>, allowed_relative-Ends, ends_ok) depth 10

  patch_path-Ends : (raw prefix : Text) → Ends (patch_path py raw prefix)
  unfolding patch_path is_fuel_error
  patch_path-Ends raw prefix =
      search (Ends->>=, Ends->>, Ends-refuse_if, expect-Ends, normalise_relative-Ends, refl) depth
        10

  pub headers-Ends : (lines : List Text) (expected : Option Text) → Ends (headers py lines expected)
  unfolding headers is_fuel_error
  headers-Ends [] expected = ends_err _ refl
  headers-Ends (line ∷ []) expected = ends_err _ refl
  headers-Ends (line ∷ next ∷ rest) expected =
      search (Ends->>=, Ends->>, Ends-refuse_if, expect-Ends, patch_path-Ends, ends_ok, refl) depth
        12

  git_paths-Ends : (fields : List Text) → Ends (git_paths py fields)
  unfolding git_paths is_fuel_error
  git_paths-Ends [] = ends_err _ refl
  git_paths-Ends (a ∷ []) = ends_err _ refl
  git_paths-Ends (a ∷ b ∷ []) = ends_err _ refl
  git_paths-Ends (a ∷ b ∷ c ∷ []) = ends_err _ refl
  git_paths-Ends (a ∷ b ∷ c ∷ d ∷ e ∷ fields) = ends_err _ refl
  git_paths-Ends (diff ∷ git ∷ old ∷ new ∷ []) =
      search (Ends->>=, Ends->>, Ends-refuse_if, patch_path-Ends, ends_ok, refl) depth 10

  pub section_start-Ends :
      (git : Bool) (line : Text) (lines : List Text) → Ends (section_start py git line lines)
  unfolding section_start is_fuel_error
  section_start-Ends true line lines =
      search (Ends->>=, Ends->>, Ends-refuse_if, git_paths-Ends, skip_index-Ends, ends_ok, refl)
        depth 10
  section_start-Ends false line lines =
      search (Ends->>=, Ends->>, Ends-refuse_if, ends_ok, refl) depth 6
