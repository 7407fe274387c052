-- ===== src/Patch/Ends.antt =====
-- The parser's loops always have fuel enough: `validate_patch` ends with a plan or with one of the
-- source's exceptions.
pub mod Headers
use hermes_local_hands.Base.{
  Text, codes, split, starts_with, mem_text, has_char, is_empty, any, length, length-append, map,
  ltb, ◌==◌, ◌||◌, not, ℕ, zero, suc, ◌+◌, ◌≤◌, ◌<◌, ◌≡◌, refl, sym, ap, ◌∙◌, Bool, true, false,
  Bool-cases, inl, inr, ◌⊎◌, Option, none, some, List, [], ◌∷◌, ◌++◌, arith, if◌then◌else◌,
}
use hermes_local_hands.Errors.{Error, Result, ok, err, refuse_if}
use hermes_local_hands.Runtime.{Runtime}
use hermes_local_hands.Patch.Headers.{headers}
use hermes_local_hands.Patch.Hunks.{no_newline_text, hunk, hunks_end, parse_hunks}
use hermes_local_hands.Patch.Validate.{
  PatchLimits, PatchPlan, without_last, is_git_format, section_start, section, sections,
  validate_patch,
}
use hermes_local_hands.Patch.Grammar.{
  item_text, Hunk, hunk_lines, hunks_lines, Section, section_lines, index_lines, file_lines,
}
use hermes_local_hands.Patch.Sound.Hunks.{ReadHunk, hunk-ReadHunk}
use hermes_local_hands.Patch.Sound.Headers.{headers-ReadHeaders}
use hermes_local_hands.Patch.Sound.Sections.{
  start_lines, ReadStart, section_start-ReadStart, section-ReadSection, section_lines-start,
}
use hermes_local_hands.Errors.Ends.{
  is_fuel_error, Ends, ends_ok, ends_err, Ends->>=, Ends->>, Ends-refuse_if,
}
use hermes_local_hands.Patch.Ends.Headers.{
  hunk-Ends, headers-Ends, section_start-Ends, check_allowed-Ends,
}

ended {ℓ} :
    {A : Type ℓ} (r : Result A)
    → Ends r
    → ((a : A) × (r ≡ ok a)) ⊎ ((e : Error) × (r ≡ err e) × (is_fuel_error e ≡ false))
ended r (ends_ok a) = inl (a, refl)
ended r (ends_err e h) = inr (e, refl, h)

hunk_lines-longer : (h : Hunk) (rest : List Text) → length rest < length (hunk_lines h rest)
hunk_lines-longer h rest = elim (Bool-cases h.ending) [
  | inl e ↦ rw e (omega (arith, length-append (map item_text h.items) (no_newline_text ∷ rest)))
  | inr e ↦ rw e (omega (arith, length-append (map item_text h.items) rest))
]

hunks_lines-longer :
    (hs : List Hunk) (rest : List Text) → length rest ≤ length (hunks_lines hs rest)
hunks_lines-longer [] rest = omega arith
hunks_lines-longer (h ∷ hs) rest =
    let one : length (hunks_lines hs rest) < length (hunk_lines h (hunks_lines hs rest)) =
      hunk_lines-longer h (hunks_lines hs rest) in
    omega (arith, one, hunks_lines-longer hs rest)

start_lines-longer :
    (git : Bool) (path : Text) (index : Option Text) (rest : List Text)
    → length rest ≤ length (start_lines git path index rest)
unfolding start_lines
start_lines-longer true path none rest = omega arith
start_lines-longer true path (some line) rest = omega arith
start_lines-longer false path index rest = omega arith

section_lines-longer :
    (git : Bool) (s : Section) (rest : List Text) → length rest < length (section_lines git s rest)
section_lines-longer git s rest =
    let a : length (file_lines s.path (hunks_lines s.hunks rest))
        ≤ length (start_lines git s.path s.index (file_lines s.path (hunks_lines s.hunks rest))) =
      start_lines-longer git s.path s.index (file_lines s.path (hunks_lines s.hunks rest)) in
    let b : length (start_lines git s.path s.index (file_lines s.path (hunks_lines s.hunks rest)))
        ≡ length (section_lines git s rest) =
      ap length (section_lines-start git s rest) in
    omega (arith, a, b, hunks_lines-longer s.hunks rest)

module _ (py : Runtime) where
  hunk-shorter :
      (line : Text) (lines rest : List Text) (more : ℕ)
      → starts_with (codes "@@ ") line ≡ true
      → hunk py line lines ≡ ok (more, rest)
      → length rest < length (line ∷ lines)
  hunk-shorter line lines rest more at e =
      let r = hunk-ReadHunk py line lines (more, rest) at e in
      omega (arith, hunk_lines-longer r.read rest, ap length r.spelled)

  hunks_end-Ends : (count changed : ℕ) (lines : List Text) → Ends (hunks_end count changed lines)
  unfolding hunks_end is_fuel_error
  hunks_end-Ends zero changed lines = ends_err _ refl
  hunks_end-Ends (suc count) changed lines = ends_ok _

  parse_hunks-Ends :
      (fuel count changed : ℕ) (lines : List Text)
      → length lines < fuel
      → Ends (parse_hunks py fuel count changed lines)
  unfolding parse_hunks
  parse_hunks-Ends zero count changed lines h = absurd (omega (arith, h))
  parse_hunks-Ends (suc fuel) count changed [] h = hunks_end-Ends count changed []
  parse_hunks-Ends (suc fuel) count changed (line ∷ lines) h =
      elim (Bool-cases (starts_with (codes "@@ ") line)) [
        | inr other ↦ rw (parse_hunks, other) (hunks_end-Ends count changed (line ∷ lines))
        | inl at ↦
            rw (parse_hunks, at)
              (Ends->>= _ _ (hunk-Ends py line lines) (λ r e.
                parse_hunks-Ends fuel (suc count) (changed + r.0) r.1
                  (omega (arith, h, hunk-shorter line lines r.1 r.0 at e))))
      ]

  start-shorter :
      (git : Bool) (line path : Text) (lines a b : List Text) (expected : Option Text)
      → section_start py git line lines ≡ ok (expected, a)
      → headers py a expected ≡ ok (path, b)
      → length b < length (line ∷ lines)
  start-shorter git line path lines a b expected e f =
      let s = section_start-ReadStart py git line lines expected a e in
      let t = headers-ReadHeaders py a expected path b f in
      omega (
        arith,
        ap length (s.spelled path t.expected_path),
        start_lines-longer git path s.index a,
        ap length t.spelled,
      )

  section-Ends :
      (allowlist : Option (List Text)) (paths : List Text) (fuel : ℕ) (git : Bool) (line : Text)
      (lines : List Text)
      → length (line ∷ lines) ≤ fuel
      → Ends (section py allowlist paths fuel git line lines)
  unfolding section is_fuel_error
  section-Ends allowlist paths fuel git line lines h =
      Ends->>= _ _ (section_start-Ends py git line lines) (λ x e.
        Ends->>= _ _ (headers-Ends py x.1 x.0) (λ y f. Ends->> _ _ (Ends-refuse_if _ _ refl) (
          Ends->> _ _ (check_allowed-Ends py allowlist y.0) (
            Ends->>= _ _
              (parse_hunks-Ends fuel 0 0 y.1
                (omega (arith, h, start-shorter git line y.0 lines x.1 y.1 x.0 e f)))
              (λ z g. ends_ok _)))))

module _ (py : Runtime) (limits : PatchLimits) (allowlist : Option (List Text)) where
  section-shorter :
      (paths : List Text) (fuel : ℕ) (git : Bool) (line path : Text) (lines rest : List Text)
      (more : ℕ)
      → section py allowlist paths fuel git line lines ≡ ok (path, more, rest)
      → length rest < length (line ∷ lines)
  section-shorter paths fuel git line path lines rest more e =
      let s = section-ReadSection py allowlist paths fuel git line lines path more rest e in
      omega (arith, section_lines-longer git s.read rest, ap length s.spelled)

  sections-Ends :
      (fuel : ℕ) (git : Bool) (paths : List Text) (changed : ℕ) (lines : List Text)
      → length lines < fuel
      → Ends (sections py limits allowlist fuel git paths changed lines)
  unfolding sections is_fuel_error
  sections-Ends zero git paths changed lines h = absurd (omega (arith, h))
  sections-Ends (suc fuel) git paths changed [] h = ends_ok _
  sections-Ends (suc fuel) git paths changed (line ∷ lines) h =
      let next : (x : Text × ℕ × List Text)
          → section py allowlist paths (suc fuel) git line lines ≡ ok x
          → Ends (sections py limits allowlist fuel git (paths ++ x.0 ∷ []) (changed + x.1) x.2) =
        λ x e.
          sections-Ends fuel git (paths ++ x.0 ∷ []) (changed + x.1) x.2
            (omega (arith, h, section-shorter paths (suc fuel) git line x.0 lines x.2 x.1 e)) in
      let first = section-Ends py allowlist paths (suc fuel) git line lines (omega (arith, h)) in
      search (Ends->>=, Ends->>, Ends-refuse_if, first, next, refl) depth 8

  validate_patch-Ends : (patch : Text) → Ends (validate_patch py limits allowlist patch)
  unfolding validate_patch is_fuel_error
  validate_patch-Ends patch =
      let lines : List Text = split b'\n' (without_last patch) in
      let first =
        sections-Ends (suc (length lines)) (is_git_format lines) [] 0 lines (omega arith) in
      search (Ends->>=, Ends->>, Ends-refuse_if, first, ends_ok, refl) depth 12

  -- `validate_patch` ends: for every text it returns a plan, or it raises an exception that is not the
  -- one by which the model's loops say that they have run out of fuel.
  pub validate_patch-ends :
      (patch : Text)
      → ((plan : PatchPlan) × (validate_patch py limits allowlist patch ≡ ok plan))
        ⊎ ((e : Error) × (validate_patch py limits allowlist patch ≡ err e)
            × (is_fuel_error e ≡ false))
  validate_patch-ends patch =
      ended (validate_patch py limits allowlist patch) (validate_patch-Ends patch)
