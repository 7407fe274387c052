-- ===== src/Checkout.antt =====
-- The status of a checkout: gitops.py, `_parse_porcelain_status`, `sanitized_status` and `head`. What
-- Git prints is given; bytes are numbers below 256.
pub mod Records
use hermes_local_hands.Base.{
  Text, codes, mem_text, is_empty, split, ◌==◌, leb, ltb, ◌||◌, ◌&&◌, not, ℕ, Bool, true, false,
  List, [], ◌∷◌, any, all, length, if◌then◌else◌,
}
use hermes_local_hands.Errors.{Error, Result, ok, err, refuse_if, execution_error, ◌>>=◌, ◌>>◌}
use hermes_local_hands.Runtime.{Runtime}

-- `sanitized_status`: "change_count" is the length of "changes", and a change is its two letters.
pub record Status : Type 0 where
  pub head : Text
  pub branch : Text
  pub changes : List Text

-- `character in " MADRCU?!T"`
unfoldable pub is_status_letter : ℕ → Bool
is_status_letter c = any (λ d. c == d) (codes " MADRCU?!T")

-- `code[0] in "RC" or code[1] in "RC"`
unfoldable pub is_rename : ℕ → ℕ → Bool
is_rename x y = any (λ d. x == d) (codes "RC") || any (λ d. y == d) (codes "RC")

abbrev pub malformed_status : Error
malformed_status = execution_error "Git returned malformed status data"

abbrev pub incomplete_rename : Error
incomplete_rename = execution_error "Git returned an incomplete rename status"

-- The two letters of a record: a shorter one than four bytes, or one without the blank, is refused.
unfoldable pub record_code : Text → Result (ℕ × ℕ)
unfolding is_status_letter
record_code (x ∷ y ∷ blank ∷ p ∷ path) =
    if not (blank == 32) || not (ltb x 128 && ltb y 128)
    then err malformed_status
    else if not (is_status_letter x && is_status_letter y)
    then err (execution_error "Git returned an unknown status code")
    else ok (x, y)
record_code t = err malformed_status

-- `_parse_porcelain_status`, from a record on. A rename takes the record behind it, unread.
unfoldable pub parse_records : List Text → Result (List Text)
unfolding is_rename
parse_records [] = ok []
parse_records ([] ∷ records) = parse_records records
parse_records ((c ∷ cs) ∷ []) = do
  (x, y) ← record_code (c ∷ cs)
  refuse_if (is_rename x y) incomplete_rename
  ok ((x ∷ y ∷ []) ∷ [])
parse_records ((c ∷ cs) ∷ source ∷ records) =
    let skipped = parse_records records in
    let following = parse_records (source ∷ records) in
    do
      (x, y) ← record_code (c ∷ cs)
      refuse_if (is_rename x y && is_empty source) incomplete_rename
      changes ← if is_rename x y then skipped else following
      ok ((x ∷ y ∷ []) ∷ changes)

unfoldable pub parse_porcelain_status : Text → Result (List Text)
unfolding split
parse_porcelain_status raw = parse_records (split 0 raw)

-- `[0-9a-fA-F]{40,64}`
unfoldable pub is_commit : Text → Bool
is_commit t =
    leb 40 (length t)
    && leb (length t) 64
    && all
        (λ c.
          (leb b'0' c && leb c b'9') || (leb b'a' c && leb c b'f') || (leb b'A' c && leb c b'F'))
        t

unfoldable pub or_detached : Text → Text
or_detached [] = codes "DETACHED"
or_detached (x ∷ xs) = x ∷ xs

-- `head`, of what `git rev-parse` prints
unfoldable pub head : Runtime → Result Text → Result Text
unfolding is_commit
head py printed = do
  value ← printed
  refuse_if (not (is_commit value)) (execution_error "Git returned an invalid commit identifier")
  ok (py.lower value)

-- `sanitized_status`, of what `git branch`, `git status` and `git rev-parse` print
unfoldable pub sanitized_status : Runtime → Result Text → Result Text → Result Text → Result Status
unfolding or_detached
sanitized_status py branch raw_status commit = do
  name ← branch
  raw ← raw_status
  changes ← parse_porcelain_status raw
  current ← head py commit
  ok (record { head = current; branch = or_detached name; changes = changes })
