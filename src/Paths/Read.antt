-- ===== src/Paths/Read.antt =====
-- src/hermes_local_hands/paths.py, `safe_read`: the walk by descriptors and the bounded, stable read.
-- What the operating system answers is a parameter, by the number of the call.
pub mod Closed
pub mod Finishes
pub mod Traced
pub mod Stable
use hermes_local_hands.Base.{
  Text, split, is_empty, ◌==◌, ltb, ◌||◌, not, ℕ, zero, suc, ◌+◌, ◌-◌, Bool, true, false, List, [],
  ◌∷◌, ◌++◌, last?, length, if◌then◌else◌,
}
use hermes_local_hands.Errors.{
  Error, Result, ok, err, unsafe_path_error, os_error, file_not_found_error, other_error,
}
use hermes_local_hands.Exec.{Exec, pure, lift, raise, raise_if, ◌>>=◌, ◌>>◌}
use hermes_local_hands.Runtime.{Runtime}
use hermes_local_hands.Paths.{StatResult, unchanged, or_empty, allowed_relative}

-- What has been opened, below which descriptor and as which one, and what has been closed.
pub data Event : Type 0 where
  opened_root : Text → ℕ → Event
  opened_directory opened_file : ℕ → Text → ℕ → Event
  closed : ℕ → Event

pub record Os : Type 0 where
  -- `os.name == "posix" and hasattr(os, "O_NOFOLLOW")`
  pub is_supported : Bool
  -- `os.open` with O_NOFOLLOW: of the root, of a directory and of a file below a descriptor
  pub open_root : ℕ → Text → Result ℕ
  pub open_directory : ℕ → ℕ → Text → Result ℕ
  pub open_file : ℕ → ℕ → Text → Result ℕ
  pub fstat : ℕ → ℕ → Result StatResult
  pub read : ℕ → ℕ → ℕ → Result Text
  pub close : ℕ → ℕ → Result (Unit {0})
  -- `stat.S_ISREG`
  pub is_regular : ℕ → Bool

-- The calls so far, the events, the latest first, and the local variables `root_fd` and `opened` as
-- the stack of the directories that are open, the deepest first.
pub record Walk : Type 0 where
  pub calls : ℕ
  pub events : List Event
  pub stack : List ℕ

-- A call, and its answer.
unfoldable pub ask_os : {A : Type 0} → (ℕ → Result A) → Exec Walk A
ask_os answer s = (answer s.calls, record s { calls = s.calls + 1 })

unfoldable pub note : Event → Exec Walk (Unit {0})
note event s = (ok tt, record s { events = event ∷ s.events })

-- A directory is opened and pushed on the stack, one step that nothing can interrupt.
unfoldable pub push_opened : (ℕ → Event) → Result ℕ × Walk → Result ℕ × Walk
push_opened event (err e, s) = (err e, s)
push_opened event (ok fd, s) =
    (ok fd, record s { events = event fd ∷ s.events; stack = fd ∷ s.stack })

unfoldable pub all_but_last : List Text → List Text
all_but_last [] = []
all_but_last (p ∷ []) = []
all_but_last (p ∷ q ∷ ps) = p ∷ all_but_last (q ∷ ps)

-- `min(65_536, limit)`
unfoldable pub chunk_size : ℕ → ℕ
chunk_size limit = if ltb limit 65536 then limit else 65536

-- The message leaves out the number that the source puts into it.
abbrev pub too_large : Error
too_large = unsafe_path_error "file exceeds read limit"

-- `except OSError`
unfoldable pub as_unsafe : Error → Error
as_unsafe (os_error m) = unsafe_path_error "unable to safely open requested file"
as_unsafe (file_not_found_error m) = unsafe_path_error "unable to safely open requested file"
as_unsafe e = e

unfoldable pub after_cleanup {ℓ} :
    {A : Type ℓ} → Result A → Result (Unit {0}) × Walk → Result A × Walk
after_cleanup result (ok a, s) = (result, s)
after_cleanup result (err e, s) = (err e, s)

-- `try: m finally: cleanup`
unfoldable pub finally : {A : Type 0} → Exec Walk A → Exec Walk (Unit {0}) → Exec Walk A
unfolding after_cleanup
finally m cleanup s = let (result, after) = m s in after_cleanup result (cleanup after)

unfoldable pub translate {ℓ} : {A : Type ℓ} → Result A × Walk → Result A × Walk
unfolding as_unsafe
translate (ok a, s) = (ok a, s)
translate (err e, s) = (err (as_unsafe e), s)

-- `except UnsafePathError: raise` and `except OSError`
unfoldable pub refuse_os_errors : {A : Type 0} → Exec Walk A → Exec Walk A
unfolding translate
refuse_os_errors m s = translate (m s)

-- A chunk that was read: the end of the file, one byte too many, or more to come.
unfoldable pub next_chunk : ℕ → Text → (Text → Exec Walk Text) → Text → Exec Walk Text
next_chunk maximum content read_on [] = pure content
next_chunk maximum content read_on (c ∷ cs) = do
  raise_if (ltb maximum (length (content ++ c ∷ cs))) too_large
  read_on (content ++ c ∷ cs)

module _ (os : Os) where
  -- `os.open` of a directory, which goes on the stack
  unfoldable pub open_pushed : (ℕ → Event) → (ℕ → Result ℕ) → Exec Walk ℕ
  unfolding ask_os push_opened
  open_pushed event answer s = push_opened event (ask_os answer s)

  unfoldable pub close_fd : ℕ → Exec Walk (Unit {0})
  close_fd fd = do ask_os (λ n. os.close n fd); note (closed fd)

  -- `for component in components[:-1]`: the descriptor of the deepest directory
  unfoldable pub descend : ℕ → List Text → Exec Walk ℕ
  descend parent [] = pure parent
  descend parent (component ∷ components) = do
    next ←
        open_pushed (opened_directory parent component) (λ n. os.open_directory n parent component)
    descend next components

  -- `while True`: each round but the last reads a byte at least
  unfoldable pub read_chunks : ℕ → ℕ → ℕ → Text → Exec Walk Text
  unfolding next_chunk
  read_chunks zero fd maximum content = raise (other_error "out of fuel")
  read_chunks (suc fuel) fd maximum content = do
    chunk ← ask_os (λ n. os.read n fd (chunk_size (maximum + 1 - length content)))
    next_chunk maximum content (read_chunks fuel fd maximum) chunk

  -- The file behind a descriptor: read between two looks at its state.
  unfoldable pub read_stable : ℕ → ℕ → Exec Walk Text
  read_stable fd maximum = do
    before ← ask_os (λ n. os.fstat n fd)
    raise_if (not (os.is_regular before.st_mode))
        (unsafe_path_error "only regular files can be read")
    raise_if (ltb maximum before.st_size) too_large
    content ← read_chunks (maximum + 2) fd maximum []
    after ← ask_os (λ n. os.fstat n fd)
    raise_if (not (length content == before.st_size) || not (unchanged before after))
        (unsafe_path_error "file changed while it was being read")
    pure content

  -- The file is opened below the deepest directory, read and closed.
  unfoldable pub read_below : ℕ → Text → ℕ → Exec Walk Text
  read_below parent name maximum = do
    fd ← ask_os (λ n. os.open_file n parent name)
    note (opened_file parent name fd)
    finally (read_stable fd maximum) (close_fd fd)

  -- `for descriptor in reversed(opened)`, and the root last
  unfoldable pub close_all : List ℕ → Exec Walk (Unit {0})
  close_all [] = pure tt
  close_all (fd ∷ fds) = do close_fd fd; close_all fds

  unfoldable pub close_stack : Exec Walk (Unit {0})
  close_stack s = close_all s.stack s

  unfoldable pub walk_and_read : Text → Text → ℕ → Exec Walk Text
  walk_and_read root rel maximum = do
    root_fd ← open_pushed (opened_root root) (λ n. os.open_root n root)
    parent ← descend root_fd (all_but_last (split b'/' rel))
    read_below parent (or_empty (last? (split b'/' rel))) maximum

  unfoldable pub safe_read : Runtime → Text → Text → List Text → ℕ → Exec Walk Text
  safe_read py root relative_path allowlist maximum = do
    rel ← lift (allowed_relative py relative_path allowlist)
    raise_if (ltb maximum 1) (unsafe_path_error "read limit must be a positive integer")
    raise_if (not os.is_supported)
        (unsafe_path_error "safe descriptor-relative reads are unsupported on this platform")
    finally (refuse_os_errors (walk_and_read root rel maximum)) close_stack
