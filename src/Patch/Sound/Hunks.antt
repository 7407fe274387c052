-- ===== src/Patch/Sound/Hunks.antt =====
-- The hunks of a section that has been read.
use hermes_local_hands.Base.{
  Text, codes, text_eq, text_eq_iff, starts_with, ℕ, zero, suc, ◌+◌, ◌<◌, length, ap₂, ◌≡◌, refl,
  ap, ◌∙◌, Bool, true, false, Bool-cases, inl, inr, List, [], ◌∷◌, ◌++◌, map, All, arith,
  if◌then◌else◌,
}
use hermes_local_hands.Errors.{ok, ok-injective, ok-ne-err, >>=-eq-ok}
use hermes_local_hands.Runtime.{Runtime}
use hermes_local_hands.Patch.Headers.{hunk_header}
use hermes_local_hands.Patch.Hunks.{
  no_newline_text, hunk_body, skip_marker, hunk, hunks_end, parse_hunks,
}
use hermes_local_hands.Patch.Grammar.{
  item_text, old_count, new_count, changes, Hunk, hunk_lines, hunks_lines, hunks_changes, IsHunk,
}
use hermes_local_hands.Patch.Sound.Bodies.{Body, hunk_body-Body}

skipped :
    (lines : List Text)
    → (ending : Bool) × (lines
        ≡ (if ending then no_newline_text ∷ skip_marker lines else skip_marker lines))
unfolding skip_marker
skipped [] = (false, refl)
skipped (line ∷ lines) = elim (Bool-cases (text_eq line no_newline_text)) [
  | inl same ↦ (true, rw same (ap (λ l. l ∷ lines) ((text_eq_iff line no_newline_text).0 same)))
  | inr other ↦ (false, rw other refl)
]

module _ (py : Runtime) where
  -- One hunk, with the lines that it takes.
  pub record ReadHunk (header : Text) (lines : List Text) (r : ℕ × List Text) : Type 0 where
    pub read : Hunk
    pub valid : IsHunk py read
    pub spelled : header ∷ lines ≡ hunk_lines read r.1
    pub total : r.0 ≡ changes read.items

  ReadHunk-of_items :
      (header : Text) (lines : List Text) (old new changed : ℕ) (rest : List Text)
      (r : ℕ × List Text)
      → starts_with (codes "@@ ") header ≡ true
      → hunk_header py header ≡ ok (old, new)
      → Body old new 0 0 false 0 lines (changed, rest)
      → (changed, skip_marker rest) ≡ r
      → ReadHunk header lines r
  ReadHunk-of_items header lines old new changed rest r at e b same =
      let (ending, s) = skipped rest in
      let olds : old ≡ old_count b.items = omega (arith, b.old_lines) in
      let news : new ≡ new_count b.items = omega (arith, b.new_lines) in
      let count : r.0 ≡ changes b.items =
        omega (arith, b.total, ap (λ (x : ℕ × List Text). x.0) same) in
      record {
        read = record { header = header; items = b.items; ending = ending };
        valid = record {
          is_header = at;
          counts = e ∙ ap₂ (λ a c. ok (a, c)) olds news;
          marked = b.marked;
        };
        spelled =
            ap (λ (ls : List Text). header ∷ ls)
              (b.spelled
                ∙ ap (λ (ls : List Text). map item_text b.items ++ ls)
                    (s
                      ∙ ap (λ (x : ℕ × List Text). if ending then no_newline_text ∷ x.1 else x.1)
                          same));
        total = count;
      }

  pub hunk-ReadHunk :
      (header : Text) (lines : List Text) (r : ℕ × List Text)
      → starts_with (codes "@@ ") header ≡ true
      → hunk py header lines ≡ ok r
      → ReadHunk header lines r
  unfolding hunk
  hunk-ReadHunk header lines r at h =
      let ((old, new), e, h1) = >>=-eq-ok (hunk_header py header) _ h in
      let ((changed, rest), f, h2) = >>=-eq-ok (hunk_body old new 0 0 false 0 lines) _ h1 in
      ReadHunk-of_items header lines old new changed rest r at e
        (hunk_body-Body old new (changed, rest) lines 0 0 false 0 (omega arith) (omega arith) f)
        (ok-injective h2)

  -- The hunks of a section, with the lines that they take.
  pub record ReadHunks (count changed : ℕ) (lines : List Text) (r : ℕ × List Text) : Type 0 where
    pub read : List Hunk
    pub valid : All (IsHunk py) read
    pub spelled : lines ≡ hunks_lines read r.1
    pub total : r.0 ≡ changed + hunks_changes read
    pub some : 0 < count + length read

  hunks_end-ReadHunks :
      (count changed : ℕ) (lines : List Text) (r : ℕ × List Text)
      → hunks_end count changed lines ≡ ok r
      → ReadHunks count changed lines r
  unfolding hunks_end
  hunks_end-ReadHunks zero changed lines r h = absurd (ok-ne-err h)
  hunks_end-ReadHunks (suc count) changed lines r h =
      let e : (changed, lines) ≡ r = ok-injective h in
      record {
        read = [];
        valid = tt;
        spelled = ap (λ (x : ℕ × List Text). x.1) e;
        total = omega (arith, ap (λ (x : ℕ × List Text). x.0) e);
        some = omega arith;
      }

  ReadHunks-cons :
      (count changed more : ℕ) (line : Text) (lines rest : List Text) (r : ℕ × List Text)
      → ReadHunk line lines (more, rest)
      → ReadHunks (suc count) (changed + more) rest r
      → ReadHunks count changed (line ∷ lines) r
  ReadHunks-cons count changed more line lines rest r one many =
      let first : more ≡ changes one.read.items = one.total in
      let sum : r.0 ≡ (changed + more) + hunks_changes many.read = many.total in
      record {
        read = one.read ∷ many.read;
        valid = (one.valid, many.valid);
        spelled = one.spelled ∙ ap (hunk_lines one.read) many.spelled;
        total = omega (arith, first, sum);
        some = omega arith;
      }

  pub parse_hunks-ReadHunks :
      (fuel count changed : ℕ) (lines : List Text) (r : ℕ × List Text)
      → parse_hunks py fuel count changed lines ≡ ok r
      → ReadHunks count changed lines r
  unfolding parse_hunks
  parse_hunks-ReadHunks zero count changed lines r h = absurd (ok-ne-err h)
  parse_hunks-ReadHunks (suc fuel) count changed [] r h = hunks_end-ReadHunks count changed [] r h
  parse_hunks-ReadHunks (suc fuel) count changed (line ∷ lines) r h =
      elim (Bool-cases (starts_with (codes "@@ ") line)) [
        | inl at ↦
            let ((more, rest), e, k) =
              >>=-eq-ok (hunk py line lines) _ (rw (parse_hunks, at) at h) in
            ReadHunks-cons count changed more line lines rest r
              (hunk-ReadHunk line lines (more, rest) at e)
              (parse_hunks-ReadHunks fuel (suc count) (changed + more) rest r k)
        | inr other ↦
            hunks_end-ReadHunks count changed (line ∷ lines) r (rw (parse_hunks, other) at h)
      ]
