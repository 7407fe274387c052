-- ===== src/Patch/Sound/Sections.antt =====
-- The sections of a patch that has been read.
use mathlib.Core.List.{append_assoc, append-nil}
use hermes_local_hands.Base.{
  Text, codes, text_eq, text_eq_iff, text_eq_refl, mem_text, starts_with, split, any, any-append,
  ltb, length, ◌||◌, not, ℕ, zero, suc, ◌+◌, ◌≤◌, ◌<◌, ◌≡◌, ◌≢◌, refl, sym, ap, ◌∙◌, Bool, true,
  false, Bool-cases, inl, inr, Option, none, some, List, [], ◌∷◌, ◌++◌, All, arith,
}
use hermes_local_hands.Errors.{ok, ok-injective, ok-ne-err, >>=-eq-ok, refuse_if-eq-ok}
use hermes_local_hands.Runtime.{Runtime}
use hermes_local_hands.Patch.Headers.{headers, is_expected}
use hermes_local_hands.Patch.Hunks.{parse_hunks}
use hermes_local_hands.Patch.Validate.{
  PatchLimits, check_allowed, git_paths, is_git_header, skip_index, section_start, section,
  sections, has_trailing,
}
use hermes_local_hands.Patch.Grammar.{
  Hunk, Section, IsSection, IsIndex, IsDistinct, index_lines, file_lines, section_lines,
  hunks_changes, section_changes, section_paths, sections_lines, hunks_lines,
}
use hermes_local_hands.Patch.Sound.Hunks.{ReadHunks, parse_hunks-ReadHunks}
use hermes_local_hands.Patch.Sound.Headers.{
  ReadHeaders, headers-ReadHeaders, git_paths-split, skip_index-IsIndex,
}

-- What stands before the `---` line of a section.
unfoldable pub start_lines : Bool → Text → Option Text → List Text → List Text
start_lines true path index rest =
    (codes "diff --git a/" ++ (path ++ (codes " b/" ++ path))) ∷ index_lines index rest
start_lines false path index rest = rest

pub section_lines-start :
    (git : Bool) (s : Section) (rest : List Text)
    → start_lines git s.path s.index (file_lines s.path (hunks_lines s.hunks rest))
      ≡ section_lines git s rest
unfolding start_lines
section_lines-start true s rest = refl
section_lines-start false s rest = refl

module _ (py : Runtime) where
  pub record ReadStart (git : Bool) (line : Text) (lines : List Text) (expected : Option Text)
      (rest : List Text) : Type 0 where
    pub index : Option Text
    pub valid : IsIndex index
    pub spelled :
        (path : Text)
        → is_expected path expected ≡ true
        → line ∷ lines ≡ start_lines git path index rest

  git_start :
      (line path : Text) (lines rest : List Text) (expected : Option Text)
      → line ≡ codes "diff --git a/" ++ (path ++ (codes " b/" ++ path))
      → (index : Option Text) × IsIndex index × (lines ≡ index_lines index rest)
      → some path ≡ expected
      → ReadStart true line lines expected rest
  unfolding start_lines is_expected
  git_start line path lines rest expected e (index, valid, f) g = record {
    index = index;
    valid = valid;
    spelled = λ p k.
        let same : p ≡ path = (text_eq_iff p path).0 (rw (sym g) at k) in rw (same, f, e) refl;
  }

  pub section_start-ReadStart :
      (git : Bool) (line : Text) (lines : List Text) (expected : Option Text) (rest : List Text)
      → section_start py git line lines ≡ ok (expected, rest)
      → ReadStart git line lines expected rest
  unfolding section_start
  section_start-ReadStart true line lines expected rest h =
      let (at, h1) = refuse_if-eq-ok (not (is_git_header line)) _ _ h in
      let (path, e, h2) = >>=-eq-ok (git_paths py (split b' ' line)) _ h1 in
      let (left, f, h3) = >>=-eq-ok (skip_index lines) _ h2 in
      let both : ◌≡◌ {A = Option Text × List Text} (some path, left) (expected, rest) =
        ok-injective h3 in
      git_start line path lines rest expected (git_paths-split py line path e)
        (skip_index-IsIndex lines rest (f ∙ ap (λ (x : Option Text × List Text). ok (x.1)) both))
        (ap (λ (x : Option Text × List Text). x.0) both)
  section_start-ReadStart false line lines expected rest h =
      let (at, h1) = refuse_if-eq-ok (not (starts_with (codes "--- ") line)) _ _ h in
      let both : ◌≡◌ {A = Option Text × List Text} (none, line ∷ lines) (expected, rest) =
        ok-injective h1 in
      record {
        index = none;
        valid = tt;
        spelled = λ p k. unfold start_lines in ap (λ (x : Option Text × List Text). x.1) both;
      }

  -- One section, with the lines that it takes.
  pub record ReadSection (allowlist : Option (List Text)) (paths : List Text) (git : Bool)
      (lines : List Text) (path : Text) (changed : ℕ) (rest : List Text) : Type 0 where
    pub read : Section
    pub valid : IsSection py allowlist read
    pub named : read.path ≡ path
    pub spelled : lines ≡ section_lines git read rest
    pub total : changed ≡ hunks_changes read.hunks
    pub fresh : mem_text path paths ≡ false

  some_hunk : (hs : List Hunk) → 0 < 0 + length hs → hs ≢ []
  some_hunk [] h = absurd (omega (arith, h))
  some_hunk (x ∷ hs) h = cc

  ReadSection-of :
      (allowlist : Option (List Text)) (paths : List Text) (git : Bool) (line : Text)
      (lines a b : List Text) (expected : Option Text) (path : Text) (changed : ℕ)
      (rest : List Text)
      → ReadStart git line lines expected a
      → ReadHeaders py a expected path b
      → mem_text path paths ≡ false
      → check_allowed py allowlist path ≡ ok tt
      → ReadHunks py 0 0 b (changed, rest)
      → ReadSection allowlist paths git (line ∷ lines) path changed rest
  ReadSection-of allowlist paths git line lines a b expected path changed rest start top fresh
        inside body =
      let part : Section = record { index = start.index; path = path; hunks = body.read } in
      record {
        read = part;
        valid = record {
          index = start.valid;
          safe = top.safe;
          plain = top.plain;
          allowed = inside;
          changed = some_hunk body.read body.some;
          hunks = body.valid;
        };
        named = refl;
        spelled =
            start.spelled path top.expected_path
            ∙ ap (start_lines git path start.index)
                (top.spelled ∙ ap (file_lines path) body.spelled)
            ∙ section_lines-start git part rest;
        total = omega (arith, body.total);
        fresh = fresh;
      }

  pub section-ReadSection :
      (allowlist : Option (List Text)) (paths : List Text) (fuel : ℕ) (git : Bool) (line : Text)
      (lines : List Text) (path : Text) (changed : ℕ) (rest : List Text)
      → section py allowlist paths fuel git line lines ≡ ok (path, changed, rest)
      → ReadSection allowlist paths git (line ∷ lines) path changed rest
  unfolding section
  section-ReadSection allowlist paths fuel git line lines path changed rest h =
      let ((expected, a), e1, h1) = >>=-eq-ok (section_start py git line lines) _ h in
      let ((named, b), e2, h2) = >>=-eq-ok (headers py a expected) _ h1 in
      let (fresh, h3) = refuse_if-eq-ok (mem_text named paths) _ _ h2 in
      let (t, e3, h4) = >>=-eq-ok (check_allowed py allowlist named) _ h3 in
      let ((more, c), e4, h5) = >>=-eq-ok (parse_hunks py fuel 0 0 b) _ h4 in
      let same : ◌≡◌ {A = Text × ℕ × List Text} (named, more, c) (path, changed, rest) =
        ok-injective h5 in
      let p : named ≡ path = ap (λ (x : Text × ℕ × List Text). x.0) same in
      let q : ◌≡◌ {A = ℕ × List Text} (more, c) (changed, rest) =
        ap (λ (x : Text × ℕ × List Text). (x.1, x.2)) same in
      ReadSection-of allowlist paths git line lines a b expected path changed rest
        (section_start-ReadStart git line lines expected a e1)
        (headers-ReadHeaders py a expected path b (e2 ∙ ap (λ n. ok (n, b)) p)) (rw p at fresh)
        (ap (check_allowed py allowlist) (sym p) ∙ e3)
        (parse_hunks-ReadHunks py fuel 0 0 b (changed, rest) (e4 ∙ ap ok q))

-- Paths that none of the earlier ones repeats.
abbrev pub IsFresh : List Text → List Text → Type 0
IsFresh paths [] = Unit
IsFresh paths (p ∷ ps) = (mem_text p paths ≡ false) × IsFresh (paths ++ p ∷ []) ps

mem_text-distinct :
    (p q : Text) (paths : List Text)
    → mem_text p paths ≡ true
    → mem_text q paths ≡ false
    → text_eq p q ≡ false
mem_text-distinct p q paths h k = elim (Bool-cases (text_eq p q)) [
  | inr other ↦ other
  | inl same ↦
      let e : p ≡ q = (text_eq_iff p q).0 same in let l : mem_text q paths ≡ true = rw e at h in cc
]

mem_text-append :
    (t : Text) (paths qs : List Text) → mem_text t paths ≡ true → mem_text t (paths ++ qs) ≡ true
unfolding mem_text
mem_text-append t paths qs h = any-append (text_eq t) paths qs ∙ rw h refl

mem_text-last : (t : Text) (paths : List Text) → mem_text t (paths ++ t ∷ []) ≡ true
unfolding mem_text
mem_text-last t paths = any-append (text_eq t) paths (t ∷ []) ∙ ground (arith, text_eq_refl t)

IsFresh-absent :
    (p : Text) (paths ps : List Text)
    → mem_text p paths ≡ true
    → IsFresh paths ps
    → mem_text p ps ≡ false
unfolding mem_text
IsFresh-absent p paths [] m h = refl
IsFresh-absent p paths (q ∷ ps) m h =
    let head : text_eq p q ≡ false = mem_text-distinct p q paths m h.0 in
    let rest : any (text_eq p) ps ≡ false =
      IsFresh-absent p (paths ++ q ∷ []) ps (mem_text-append p paths (q ∷ []) m) h.1 in
    rw (head, rest) refl

pub IsFresh-IsDistinct : (paths ps : List Text) → IsFresh paths ps → IsDistinct ps
IsFresh-IsDistinct paths [] h = tt
IsFresh-IsDistinct paths (p ∷ ps) h = (
  IsFresh-absent p (paths ++ p ∷ []) ps (mem_text-last p paths) h.1,
  IsFresh-IsDistinct (paths ++ p ∷ []) ps h.1,
)

-- The sections, with what they add to the paths and the changes.
pub record ReadSections (py : Runtime) (limits : PatchLimits) (allowlist : Option (List Text))
    (git : Bool) (paths : List Text) (changed : ℕ) (lines : List Text) (all_paths : List Text)
    (total : ℕ) : Type 0 where
  pub read : List Section
  pub valid : All (IsSection py allowlist) read
  pub spelled : lines ≡ sections_lines git read
  pub named : all_paths ≡ paths ++ section_paths read
  pub sum : total ≡ changed + section_changes read
  pub fresh : IsFresh paths (section_paths read)
  pub few_files : length paths ≤ limits.maximum_files → length all_paths ≤ limits.maximum_files
  pub few_changes : changed ≤ limits.maximum_changed_lines → total ≤ limits.maximum_changed_lines

module _ (py : Runtime) (limits : PatchLimits) (allowlist : Option (List Text)) where
  ReadSections-cons :
      (git : Bool) (paths : List Text) (changed more : ℕ) (lines rest : List Text) (path : Text)
      (all_paths : List Text) (total : ℕ)
      → ReadSection py allowlist paths git lines path more rest
      → (ltb limits.maximum_files (length (paths ++ path ∷ []))
          || ltb limits.maximum_changed_lines (changed + more))
        ≡ false
      → ReadSections py limits allowlist git
          (paths ++ path ∷ [])
          (changed + more)
          rest
          all_paths
          total
      → ReadSections py limits allowlist git paths changed lines all_paths total
  ReadSections-cons git paths changed more lines rest path all_paths total one small many = record {
    read = one.read ∷ many.read;
    valid = (one.valid, many.valid);
    spelled = one.spelled ∙ ap (section_lines git one.read) many.spelled;
    named =
        many.named
        ∙ append_assoc paths (path ∷ []) (section_paths many.read)
        ∙ ap (λ (p : Text). paths ++ p ∷ section_paths many.read) (sym one.named);
    sum = omega (arith, many.sum, one.total);
    fresh = rw one.named (one.fresh, many.fresh);
    few_files = λ h. many.few_files (ground arith);
    few_changes = λ h. many.few_changes (ground arith);
  }

  pub sections-ReadSections :
      (fuel : ℕ) (git : Bool) (paths : List Text) (changed : ℕ) (lines : List Text)
      (all_paths : List Text) (total : ℕ)
      → sections py limits allowlist fuel git paths changed lines ≡ ok (all_paths, total)
      → ReadSections py limits allowlist git paths changed lines all_paths total
  unfolding sections
  sections-ReadSections zero git paths changed lines all_paths total h = absurd (ok-ne-err h)
  sections-ReadSections (suc fuel) git paths changed [] all_paths total h =
      let same : ◌≡◌ {A = List Text × ℕ} (paths, changed) (all_paths, total) = ok-injective h in
      let p : paths ≡ all_paths = ap (λ (x : List Text × ℕ). x.0) same in
      let q : changed ≡ total = ap (λ (x : List Text × ℕ). x.1) same in
      record {
        read = [];
        valid = tt;
        spelled = refl;
        named = sym p ∙ sym (append-nil paths);
        sum = omega (arith, q);
        fresh = tt;
        few_files = λ h. rw p at h;
        few_changes = λ h. rw q at h;
      }
  sections-ReadSections (suc fuel) git paths changed (line ∷ lines) all_paths total h =
      let ((path, more, rest), e, h1) =
        >>=-eq-ok (section py allowlist paths (suc fuel) git line lines) _ h in
      let (small, h2) =
        refuse_if-eq-ok
          (ltb limits.maximum_files (length (paths ++ path ∷ []))
            || ltb limits.maximum_changed_lines (changed + more))
          _ _ h1 in
      let (ended, h3) = refuse_if-eq-ok (has_trailing git rest) _ _ h2 in
      ReadSections-cons git paths changed more (line ∷ lines) rest path all_paths total
        (section-ReadSection py allowlist paths (suc fuel) git line lines path more rest e) small
        (sections-ReadSections fuel git (paths ++ path ∷ []) (changed + more) rest all_paths total
          h3)
