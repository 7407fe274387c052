-- ===== src/Paths.antt =====
-- src/hermes_local_hands/paths.py: which relative paths are readable, and the bounded stable read.
pub mod Accepted
pub mod Allowed
pub mod Ends
pub mod Read
use hermes_local_hands.Base.{
  Text, codes, text_eq, mem_text, is_empty, has_char, starts_with, ends_with, split, join, rstrip,
  ℕ, Bool, true, false, not, ◌&&◌, ◌||◌, Option, none, some, List, [], ◌∷◌, ◌++◌, map, any, keep,
  last?, ltb, ◌==◌, if◌then◌else◌,
}
use hermes_local_hands.Errors.{◌>>=◌, ◌>>◌, refuse_if, Result, ok, err, unsafe_path_error}
use hermes_local_hands.Runtime.{Runtime}

abbrev pub sensitive_parts : List Text
sensitive_parts =
    codes ".git"
    ∷ codes ".env"
    ∷ codes ".ssh"
    ∷ codes ".aws"
    ∷ codes ".gnupg"
    ∷ codes ".npmrc"
    ∷ codes ".pypirc"
    ∷ codes ".netrc"
    ∷ []

abbrev pub sensitive_suffixes : List Text
sensitive_suffixes = codes ".pem" ∷ codes ".key" ∷ codes ".p12" ∷ codes ".pfx" ∷ codes ".kdbx" ∷ []

-- `ord(character) < 32 or ord(character) == 127`
unfoldable pub is_control : ℕ → Bool
is_control c = ltb c 32 || c == 127

-- The first guard: an empty, absolute, NUL, backslash or control-character spelling.
unfoldable pub is_ambiguous : Text → Bool
unfolding is_empty has_char starts_with is_control
is_ambiguous value =
    is_empty value
    || has_char 0 value
    || has_char b'\\' value
    || starts_with (codes "/") value
    || any is_control value

-- `part in ("", ".", "..")`
unfoldable pub is_dot_part : Text → Bool
unfolding mem_text
is_dot_part part = mem_text part ([] ∷ codes "." ∷ codes ".." ∷ [])

-- `PurePosixPath(value).parts` of a relative spelling: empty and "." parts are dropped.
unfoldable pub path_parts : Text → List Text
unfolding split mem_text
path_parts value = keep (λ part. not (mem_text part ([] ∷ codes "." ∷ []))) (split b'/' value)

unfoldable pub or_empty : Option Text → Text
or_empty none = []
or_empty (some t) = t

-- `PurePosixPath(value).name`
unfoldable pub path_name : Text → Text
unfolding path_parts or_empty
path_name value = or_empty (last? (path_parts value))

-- `PurePosixPath(value).as_posix()`
unfoldable pub as_posix : Text → Text
unfolding path_parts is_empty join
as_posix value =
    let joined = join b'/' (path_parts value) in if is_empty joined then codes "." else joined

-- `before.st_dev`, …: what `_unchanged` compares
pub record StatResult : Type 0 where
  pub st_dev : ℕ
  pub st_ino : ℕ
  pub st_mode : ℕ
  pub st_size : ℕ
  pub st_mtime_ns : ℕ
  pub st_ctime_ns : ℕ

unfoldable pub unchanged : StatResult → StatResult → Bool
unchanged a b =
    a.st_dev == b.st_dev
    && a.st_ino == b.st_ino
    && a.st_mode == b.st_mode
    && a.st_size == b.st_size
    && a.st_mtime_ns == b.st_mtime_ns
    && a.st_ctime_ns == b.st_ctime_ns

-- `normal == prefix or normal.startswith(prefix + "/")`
unfoldable pub is_within : Text → Text → Bool
unfolding text_eq starts_with
is_within normal prefix = text_eq normal prefix || starts_with (prefix ++ codes "/") normal

-- No prefix admits nothing, so `not prefixes` needs no test of its own.
unfoldable pub within_any : Text → List Text → Bool
unfolding is_within
within_any normal prefixes = any (is_within normal) prefixes

module _ (py : Runtime) where
  -- `part.lower() in SENSITIVE_PARTS`
  unfoldable pub is_sensitive_part : Text → Bool
  unfolding mem_text
  is_sensitive_part part = mem_text (py.lower part) sensitive_parts

  -- `name.lower().endswith(SENSITIVE_SUFFIXES)`
  unfoldable pub is_sensitive_name : Text → Bool
  unfolding ends_with
  is_sensitive_name name = any (λ suffix. ends_with suffix (py.lower name)) sensitive_suffixes

  unfoldable pub normalise_relative : Text → Result Text
  normalise_relative value =
      if is_ambiguous value
      then err (unsafe_path_error "path must be an unambiguous non-empty relative path")
      else if starts_with (codes "/") value || any is_dot_part (split b'/' value)
      then err (unsafe_path_error "path traversal is not allowed")
      else if any is_sensitive_part (path_parts value)
      then err (unsafe_path_error "sensitive path is never readable")
      else if is_sensitive_name (path_name value)
      then err (unsafe_path_error "sensitive file type is never readable")
      else ok (as_posix value)

  -- `tuple(normalise_relative(item).rstrip("/") for item in allowlist)`
  unfoldable pub normalise_all : List Text → Result (List Text)
  normalise_all [] = ok []
  normalise_all (item ∷ items) = do
    normal ← normalise_relative item
    rest ← normalise_all items
    ok (rstrip b'/' normal ∷ rest)

  unfoldable pub allowed_relative : Text → List Text → Result Text
  unfolding normalise_all within_any
  allowed_relative path allowlist = do
    normal ← normalise_relative path
    prefixes ← normalise_all allowlist
    refuse_if (not (within_any normal prefixes))
        (unsafe_path_error "path is outside this workspace read allowlist")
    ok normal
