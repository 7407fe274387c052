-- ===== src/Patch/Sound/Headers.antt =====
-- The header lines of a section that has been read.
use hermes_local_hands.Base.{
  Text, codes, text_eq, text_eq_iff, is_empty, starts_with, join, split, join-split, ◌||◌, not, ◌≡◌,
  refl, sym, ap, ◌∙◌, Bool, true, false, Option, none, some, List, [], ◌∷◌, ◌++◌, any, all, arith,
  ℕ, Bool-cases, inl, inr,
}
use hermes_local_hands.Errors.{Error, ok, ok-injective, ok-ne-err, >>=-eq-ok, refuse_if-eq-ok}
use hermes_local_hands.Runtime.{Runtime}
use hermes_local_hands.Paths.Accepted.{IsSafePath, normalise_relative_iff}
use hermes_local_hands.Patch.Headers.{
  strip_prefix, expect, is_patch_char, is_space, is_expected, is_index_header, patch_path, headers,
}
use hermes_local_hands.Patch.Validate.{git_paths, skip_index}
use hermes_local_hands.Patch.Grammar.{file_lines, index_lines, IsIndex}

strip_prefix-append : (prefix t r : Text) → strip_prefix prefix t ≡ some r → t ≡ prefix ++ r
unfolding strip_prefix
strip_prefix-append [] t r h = cc
strip_prefix-append (x ∷ xs) [] r h = cc
strip_prefix-append (x ∷ xs) (y ∷ ys) r h =
    let tail : ys ≡ xs ++ r = strip_prefix-append xs ys r (ground arith) in
    let head : x ≡ y = ground arith in cc

pub expect-append : (e : Error) (prefix t r : Text) → expect e prefix t ≡ ok r → t ≡ prefix ++ r
unfolding expect
expect-append e prefix t r h = strip_prefix-append prefix t r (ground arith)

all-append : (p : ℕ → Bool) (xs ys : Text) → all p (xs ++ ys) ≡ true → all p ys ≡ true
all-append p [] ys h = h
all-append p (x ∷ xs) ys h = all-append p xs ys (ground arith)

module _ (py : Runtime) where
  -- A path that `_patch_path` has accepted.
  pub record ReadPath (raw prefix path : Text) : Type 0 where
    pub spelled : raw ≡ prefix ++ path
    pub safe : IsSafePath py path
    pub plain : all is_patch_char path ≡ true

  pub patch_path-ReadPath :
      (raw prefix path : Text) → patch_path py raw prefix ≡ ok path → ReadPath raw prefix path
  unfolding patch_path
  patch_path-ReadPath raw prefix path h =
      let (value, e, h1) = >>=-eq-ok (expect _ prefix raw) _ h in
      let (plain, h2) = refuse_if-eq-ok (is_empty raw || not (all is_patch_char raw)) _ _ h1 in
      let (blank, h3) = refuse_if-eq-ok (is_empty value || any is_space value) _ _ h2 in
      let (same, safe) = (normalise_relative_iff py value path).0 h3 in
      let spelled : raw ≡ prefix ++ path =
        expect-append _ prefix raw value e ∙ ap (λ (v : Text). prefix ++ v) (sym same) in
      let every : all is_patch_char raw ≡ true = ground arith in
      record {
        spelled = spelled;
        safe = rw same safe;
        plain = all-append is_patch_char prefix path (rw spelled at every);
      }

  same_text : (a b : Text) → not (text_eq a b) ≡ false → a ≡ b
  same_text a b h = (text_eq_iff a b).0 (ground arith)

  -- The two headers of a section.
  pub record ReadHeaders (lines : List Text) (expected : Option Text) (path : Text)
      (rest : List Text) : Type 0 where
    pub spelled : lines ≡ file_lines path rest
    pub safe : IsSafePath py path
    pub plain : all is_patch_char path ≡ true
    pub expected_path : is_expected path expected ≡ true

  ReadHeaders-of_paths :
      (line next old new before after : Text) (lines : List Text) (expected : Option Text)
      (path : Text) (rest : List Text)
      → line ≡ codes "--- " ++ old
      → next ≡ codes "+++ " ++ new
      → ReadPath old (codes "a/") before
      → ReadPath new (codes "b/") after
      → (not (text_eq before after) || not (is_expected before expected)) ≡ false
      → ◌≡◌ {A = Text × List Text} (before, lines) (path, rest)
      → ReadHeaders (line ∷ next ∷ lines) expected path rest
  ReadHeaders-of_paths line next old new before after lines expected path rest p q a b same e =
      let c : before ≡ path = ap (λ (x : Text × List Text). x.0) e in
      let d : lines ≡ rest = ap (λ (x : Text × List Text). x.1) e in
      let f : after ≡ path = sym (same_text before after (ground arith)) ∙ c in
      let known : is_expected before expected ≡ true = ground arith in
      record {
        spelled = rw (p, q, a.spelled, b.spelled, c, d, f) refl;
        safe = rw c at a.safe;
        plain = rw c at a.plain;
        expected_path = rw c at known;
      }

  pub headers-ReadHeaders :
      (lines : List Text) (expected : Option Text) (path : Text) (rest : List Text)
      → headers py lines expected ≡ ok (path, rest)
      → ReadHeaders lines expected path rest
  unfolding headers
  headers-ReadHeaders [] expected path rest h = absurd (ok-ne-err h)
  headers-ReadHeaders (line ∷ []) expected path rest h = absurd (ok-ne-err h)
  headers-ReadHeaders (line ∷ next ∷ lines) expected path rest h =
      let (old, e1, h1) = >>=-eq-ok (expect _ (codes "--- ") line) _ h in
      let (new, e2, h2) = >>=-eq-ok (expect _ (codes "+++ ") next) _ h1 in
      let (before, e3, h3) = >>=-eq-ok (patch_path py old (codes "a/")) _ h2 in
      let (after, e4, h4) = >>=-eq-ok (patch_path py new (codes "b/")) _ h3 in
      let (same, h5) =
        refuse_if-eq-ok (not (text_eq before after) || not (is_expected before expected)) _ _ h4 in
      ReadHeaders-of_paths line next old new before after lines expected path rest
        (expect-append _ (codes "--- ") line old e1) (expect-append _ (codes "+++ ") next new e2)
        (patch_path-ReadPath old (codes "a/") before e3)
        (patch_path-ReadPath new (codes "b/") after e4) same (ok-injective h5)

  git_line :
      (diff git old new : Text) (before after path : Text)
      → (not (text_eq diff (codes "diff")) || not (text_eq git (codes "--git"))) ≡ false
      → ReadPath old (codes "a/") before
      → ReadPath new (codes "b/") after
      → not (text_eq before after) ≡ false
      → before ≡ path
      → join b' ' (diff ∷ git ∷ old ∷ new ∷ [])
        ≡ codes "diff --git a/" ++ (path ++ (codes " b/" ++ path))
  unfolding join
  git_line diff git old new before after path h a b same e =
      let p : diff ≡ codes "diff" = (text_eq_iff diff (codes "diff")).0 (ground arith) in
      let q : git ≡ codes "--git" = (text_eq_iff git (codes "--git")).0 (ground arith) in
      let c : after ≡ path = sym (same_text before after same) ∙ e in
      rw (p, q, a.spelled, b.spelled, c, e) refl

  -- The line of Git names the path twice.
  git_paths-eq-join :
      (fields : List Text) (path : Text)
      → git_paths py fields ≡ ok path
      → join b' ' fields ≡ codes "diff --git a/" ++ (path ++ (codes " b/" ++ path))
  unfolding git_paths
  git_paths-eq-join [] path h = absurd (ok-ne-err h)
  git_paths-eq-join (a ∷ []) path h = absurd (ok-ne-err h)
  git_paths-eq-join (a ∷ b ∷ []) path h = absurd (ok-ne-err h)
  git_paths-eq-join (a ∷ b ∷ c ∷ []) path h = absurd (ok-ne-err h)
  git_paths-eq-join (a ∷ b ∷ c ∷ d ∷ e ∷ fields) path h = absurd (ok-ne-err h)
  git_paths-eq-join (diff ∷ git ∷ old ∷ new ∷ []) path h =
      let (start, h1) =
        refuse_if-eq-ok (not (text_eq diff (codes "diff")) || not (text_eq git (codes "--git"))) _ _
          h in
      let (before, e1, h2) = >>=-eq-ok (patch_path py old (codes "a/")) _ h1 in
      let (after, e2, h3) = >>=-eq-ok (patch_path py new (codes "b/")) _ h2 in
      let (same, h4) = refuse_if-eq-ok (not (text_eq before after)) _ _ h3 in
      git_line diff git old new before after path start
        (patch_path-ReadPath old (codes "a/") before e1)
        (patch_path-ReadPath new (codes "b/") after e2) same (ok-injective h4)

  pub git_paths-split :
      (line path : Text)
      → git_paths py (split b' ' line) ≡ ok path
      → line ≡ codes "diff --git a/" ++ (path ++ (codes " b/" ++ path))
  git_paths-split line path h =
      sym (join-split b' ' line) ∙ git_paths-eq-join (split b' ' line) path h

-- The line of the objects, if it is there.
pub skip_index-IsIndex :
    (lines rest : List Text)
    → skip_index lines ≡ ok rest
    → (index : Option Text) × IsIndex index × (lines ≡ index_lines index rest)
unfolding skip_index
skip_index-IsIndex [] rest h = (none, tt, ok-injective h)
skip_index-IsIndex (line ∷ lines) rest h = elim (Bool-cases (starts_with (codes "index ") line)) [
  | inr other ↦ (none, tt, ok-injective (rw other at h))
  | inl at ↦ elim (Bool-cases (is_index_header line)) [
    | inl good ↦
        (some line, good, ap (λ (ls : List Text). line ∷ ls) (ok-injective (rw (at, good) at h)))
    | inr bad ↦ absurd (ok-ne-err (rw (at, bad) at h))
  ]
]
