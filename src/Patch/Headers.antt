-- ===== src/Patch/Headers.antt =====
-- The header lines of a patch: gitops.py, `_patch_path`, `_headers` and the three regular expressions.
use hermes_local_hands.Base.{
  Text, codes, text_eq, mem_text, starts_with, ◌==◌, leb, ltb, ◌||◌, ◌&&◌, not, ℕ, ◌+◌, ◌*◌, ◌-◌,
  Bool, true, false, Option, none, some, List, [], ◌∷◌, all, any, length, is_empty, is_some,
  if◌then◌else◌,
}
use hermes_local_hands.Errors.{
  Error, Result, ok, err, refuse_if, policy_error, value_error, ◌>>=◌, ◌>>◌,
}
use hermes_local_hands.Runtime.{Runtime}
use hermes_local_hands.Paths.{normalise_relative}

-- `value[len(prefix):]` if the value starts with the prefix
unfoldable pub strip_prefix : Text → Text → Option Text
strip_prefix [] t = some t
strip_prefix (x ∷ xs) [] = none
strip_prefix (x ∷ xs) (y ∷ ys) = let rest = strip_prefix xs ys in if x == y then rest else none

-- `[0-9]`, `[A-Za-z]`
unfoldable pub is_ascii_digit : ℕ → Bool
is_ascii_digit c = leb b'0' c && leb c b'9'

unfoldable pub is_ascii_letter : ℕ → Bool
is_ascii_letter c = (leb b'a' c && leb c b'z') || (leb b'A' c && leb c b'Z')

-- One character of `_SAFE_PATCH_PATH`.
unfoldable pub is_patch_char : ℕ → Bool
unfolding is_ascii_digit is_ascii_letter
is_patch_char c =
    is_ascii_letter c
    || is_ascii_digit c
    || any (λ d. c == d) (b'_' ∷ b'@' ∷ b'+' ∷ b'.' ∷ b',' ∷ b'/' ∷ b'-' ∷ [])

-- `character.isspace()` of an ASCII character
unfoldable pub is_space : ℕ → Bool
is_space c = c == 32 || (leb 9 c && leb c 13) || (leb 28 c && leb c 31)

unfoldable pub is_hex : ℕ → Bool
unfolding is_ascii_digit
is_hex c = is_ascii_digit c || (leb b'a' c && leb c b'f') || (leb b'A' c && leb c b'F')

-- The longest start of a text whose characters pass a test, and the rest.
unfoldable pub span : (ℕ → Bool) → Text → Text × Text
span p [] = ([], [])
span p (c ∷ cs) = let (run, rest) = span p cs in if p c then (c ∷ run, rest) else ([], c ∷ cs)

-- The rest behind a fixed text, or the refusal.
unfoldable pub expect : Error → Text → Text → Result Text
unfolding strip_prefix
expect e prefix t = elim (strip_prefix prefix t) [ none ↦ err e | some rest ↦ ok rest ]

abbrev pub malformed_hunk : Error
malformed_hunk = policy_error "patch contains a malformed hunk header"

unfoldable pub value_or_zero : Option ℕ → ℕ
value_or_zero none = 0
value_or_zero (some n) = n

-- `expected is None or before == expected`
unfoldable pub is_expected : Text → Option Text → Bool
unfolding text_eq
is_expected before none = true
is_expected before (some expected) = text_eq before expected

module _ (py : Runtime) where
  -- `\d`, with its value
  unfoldable pub digit_value : ℕ → Option ℕ
  unfolding is_ascii_digit
  digit_value c =
      if is_ascii_digit c then some (c - b'0') else if ltb c 128 then none else py.decimal c

  unfoldable pub is_digit : ℕ → Bool
  unfolding digit_value
  is_digit c = is_some (digit_value c)

  unfoldable pub read_digits : ℕ → Text → ℕ
  unfolding digit_value
  read_digits n [] = n
  read_digits n (c ∷ cs) = read_digits (10 * n + value_or_zero (digit_value c)) cs

  -- `int(digits)`: more than 4300 digits are refused (`sys.get_int_max_str_digits`).
  unfoldable pub int_of_digits : Text → Result ℕ
  unfolding read_digits
  int_of_digits t =
      if ltb 4300 (length t)
      then err (value_error "Exceeds the limit for integer string conversion")
      else ok (read_digits 0 t)

  -- `(\d+)`
  unfoldable pub number : Text → Result (Text × Text)
  unfolding span is_digit
  number t =
      let (digits, rest) = span is_digit t in
      if is_empty digits then err malformed_hunk else ok (digits, rest)

  -- `(?:,(\d+))?`; a group that is left out counts as "1"
  unfoldable pub optional_number : Text → Result (Text × Text)
  unfolding number
  optional_number [] = ok (codes "1", [])
  optional_number (c ∷ cs) =
      let counted = number cs in if c == b',' then counted else ok (codes "1", c ∷ cs)

  -- `_HUNK_HEADER`, and the two counts
  unfoldable pub hunk_header : Text → Result (ℕ × ℕ)
  hunk_header line = do
    a ← expect malformed_hunk (codes "@@ -") line
    (old_start, b) ← number a
    (old_count, c) ← optional_number b
    d ← expect malformed_hunk (codes " +") c
    (new_start, e) ← number d
    (new_count, f) ← optional_number e
    heading ← expect malformed_hunk (codes " @@") f
    refuse_if (not (is_empty heading || starts_with (codes " ") heading)) malformed_hunk
    old ← int_of_digits old_count
    new ← int_of_digits new_count
    ok (old, new)

  -- `_patch_path`
  unfoldable pub patch_path : Text → Text → Result Text
  patch_path raw expected_prefix = do
    value ←
        expect (policy_error "patch path is quoted, ambiguous, or malformed") expected_prefix raw
    refuse_if (is_empty raw || not (all is_patch_char raw))
        (policy_error "patch path is quoted, ambiguous, or malformed")
    refuse_if (is_empty value || any is_space value)
        (policy_error "patch paths containing whitespace are not supported")
    normalise_relative py value

  -- `_headers`: the path, and the lines behind the two headers
  unfoldable pub headers : List Text → Option Text → Result (Text × List Text)
  headers [] expected = err (policy_error "patch section is missing the original-file header")
  headers (line ∷ []) expected =
      err (policy_error "patch section is missing the original-file header")
  headers (line ∷ next ∷ rest) expected = do
    old ←
        expect (policy_error "patch section is missing the original-file header") (codes "--- ")
          line
    new ←
        expect (policy_error "patch section is missing the updated-file header") (codes "+++ ") next
    before ← patch_path old (codes "a/")
    after ← patch_path new (codes "b/")
    refuse_if (not (text_eq before after) || not (is_expected before expected))
        (policy_error "rename or mismatched patch paths are not permitted")
    ok (before, rest)

-- `[0-9a-fA-F]{7,64}`
unfoldable pub is_object_name : Text → Bool
is_object_name t = leb 7 (length t) && leb (length t) 64

-- `_INDEX_HEADER`, and that neither object is the one of zeros
unfoldable pub is_index_header : Text → Bool
unfolding strip_prefix span is_hex is_object_name
is_index_header line = elim (strip_prefix (codes "index ") line) [
  | none ↦ false
  | some a ↦
      let (old, b) = span is_hex a in
      elim (strip_prefix (codes "..") b) [
        | none ↦ false
        | some c ↦
            let (new, mode) = span is_hex c in
            is_object_name old
            && is_object_name new
            && mem_text mode ([] ∷ codes " 100644" ∷ codes " 100755" ∷ [])
            && not (all (λ d. d == b'0') old)
            && not (all (λ d. d == b'0') new)
      ]
]
