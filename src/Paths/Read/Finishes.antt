-- ===== src/Paths/Read/Finishes.antt =====
-- The loop of `safe_read` has fuel enough.
use hermes_local_hands.Base.{
  Text, ltb, ℕ, zero, suc, ◌+◌, ◌≤◌, ◌≡◌, refl, ap, Bool, true, false, List, [], ◌∷◌, ◌++◌, length,
  length-append, arith,
}
use hermes_local_hands.Errors.{
  Error, Result, ok, err, unsafe_path_error, os_error, file_not_found_error,
}
use hermes_local_hands.Errors.Ends.{is_fuel_error, Ends, ends_ok, ends_err}
use hermes_local_hands.Exec.{Exec, pure, lift, raise_if, continue, ◌>>=◌, ◌>>◌}
use hermes_local_hands.Runtime.{Runtime}
use hermes_local_hands.Paths.Ends.{allowed_relative-Ends}
use hermes_local_hands.Paths.Read.{
  Event, Os, Walk, ask_os, note, push_opened, finally, after_cleanup, refuse_os_errors, translate,
  as_unsafe, next_chunk, open_pushed, close_fd, descend, read_chunks, read_stable, read_below,
  close_all, close_stack, walk_and_read, safe_read,
}

-- Code that does not end for want of fuel.
pub record Finishes {A : Type 0} (m : Exec Walk A) : Type 0 where
  pub at : (s : Walk) → Ends (m s).0

Finishes-pure : {A : Type 0} (a : A) → Finishes (pure a)
unfolding ◌>>=◌
Finishes-pure a = record { at = λ s. ends_ok a }

Finishes-raise_if : (b : Bool) (e : Error) → is_fuel_error e ≡ false → Finishes (raise_if b e)
unfolding ◌>>=◌
Finishes-raise_if true e h = record { at = λ s. ends_err e h }
Finishes-raise_if false e h = record { at = λ s. ends_ok tt }

Finishes-lift : {A : Type 0} (r : Result A) → Ends r → Finishes (lift r)
unfolding ◌>>=◌
Finishes-lift r h = record { at = λ s. h }

Finishes-ask_os :
    {A : Type 0} (answer : ℕ → Result A) → ((n : ℕ) → Ends (answer n)) → Finishes (ask_os answer)
unfolding ask_os
Finishes-ask_os answer h = record { at = λ s. h s.calls }

Finishes-note : (e : Event) → Finishes (note e)
unfolding note
Finishes-note e = record { at = λ s. ends_ok tt }

module _ {A B : Type 0} where
  Finishes-bind :
      (m : Exec Walk A) (f : A → Exec Walk B)
      → Finishes m
      → ((a : A) → Finishes (f a))
      → Finishes (m >>= f)
  unfolding ◌>>=◌
  Finishes-bind m f h k = record { at = λ s. go (m s) (h.at s) }
    where
      go : (r : Result A × Walk) → Ends r.0 → Ends (continue f r).0
      go (ok a, t) e = (k a).at t
      go (err x, t) (ends_err y e) = ends_err x e

as_unsafe-kept : (e : Error) → is_fuel_error e ≡ false → is_fuel_error (as_unsafe e) ≡ false
unfolding as_unsafe is_fuel_error
as_unsafe-kept (os_error m) h = refl
as_unsafe-kept (file_not_found_error m) h = refl
as_unsafe-kept e h = h

module _ {A : Type 0} where
  Finishes-finally :
      (m : Exec Walk A) (cleanup : Exec Walk (Unit {0}))
      → Finishes m
      → Finishes cleanup
      → Finishes (finally m cleanup)
  unfolding finally
  Finishes-finally m cleanup h k = record {
    at = λ s. go (m s).0 (h.at s) (cleanup (m s).1) (k.at (m s).1);
  }
    where
      go :
          (r : Result A)
          → Ends r
          → (t : Result (Unit {0}) × Walk) → Ends t.0
          → Ends (after_cleanup r t).0
      go r h (ok a, t) e = h
      go r h (err x, t) (ends_err y e) = ends_err x e

  Finishes-refuse_os_errors : (m : Exec Walk A) → Finishes m → Finishes (refuse_os_errors m)
  unfolding refuse_os_errors
  Finishes-refuse_os_errors m h = record { at = λ s. go (m s) (h.at s) }
    where
      go : (r : Result A × Walk) → Ends r.0 → Ends (translate r).0
      go (ok a, t) e = ends_ok a
      go (err x, t) (ends_err y e) = ends_err (as_unsafe x) (as_unsafe-kept x e)

-- The operating system raises its own errors alone.
pub record Answers (os : Os) : Type 0 where
  pub open_root : (n : ℕ) (root : Text) → Ends (os.open_root n root)
  pub open_directory : (n parent : ℕ) (name : Text) → Ends (os.open_directory n parent name)
  pub open_file : (n parent : ℕ) (name : Text) → Ends (os.open_file n parent name)
  pub fstat : (n fd : ℕ) → Ends (os.fstat n fd)
  pub read : (n fd size : ℕ) → Ends (os.read n fd size)
  pub close : (n fd : ℕ) → Ends (os.close n fd)

next_chunk-Finishes :
    (maximum : ℕ) (content : Text) (read_on : Text → Exec Walk Text) (chunk : Text)
    → ((c : ℕ)
        → (cs : Text) → chunk ≡ c ∷ cs
        → ltb maximum (length (content ++ chunk)) ≡ false
        → Finishes (read_on (content ++ chunk)))
    → Finishes (next_chunk maximum content read_on chunk)
unfolding next_chunk is_fuel_error
next_chunk-Finishes maximum content read_on [] k = Finishes-pure content
next_chunk-Finishes maximum content read_on (c ∷ cs) k =
    go (ltb maximum (length (content ++ c ∷ cs))) (k c cs refl)
  where
    go :
        (b : Bool)
        → (b ≡ false → Finishes (read_on (content ++ c ∷ cs)))
        → Finishes (
            raise_if b (unsafe_path_error "file exceeds read limit") >> read_on (content ++ c ∷ cs))
    go true l = record { at = λ s. unfold ◌>>=◌ in ends_err _ refl }
    go false l = record { at = λ s. unfold ◌>>=◌ in (l refl).at s }

module _ (os : Os) (answers : Answers os) where
  read_chunks-Finishes :
      (fuel fd maximum : ℕ) (content : Text)
      → maximum + 2 ≤ fuel + length content
      → length content ≤ maximum
      → Finishes (read_chunks os fuel fd maximum content)
  unfolding read_chunks
  read_chunks-Finishes zero fd maximum content enough small = absurd (omega (arith, enough, small))
  read_chunks-Finishes (suc fuel) fd maximum content enough small =
      Finishes-bind _ _ (Finishes-ask_os _ (λ n. answers.read n fd _)) (λ chunk.
        next_chunk-Finishes maximum content (read_chunks os fuel fd maximum) chunk (λ c cs e fits.
          read_chunks-Finishes fuel fd maximum (content ++ chunk)
            (omega (arith, enough, length-append content chunk, ap length e))
            (ground (arith, fits))))

  close_fd-Finishes : (fd : ℕ) → Finishes (close_fd os fd)
  unfolding close_fd
  close_fd-Finishes fd =
      Finishes-bind _ _ (Finishes-ask_os _ (λ n. answers.close n fd)) (λ t. Finishes-note _)

  close_all-Finishes : (fds : List ℕ) → Finishes (close_all os fds)
  unfolding close_all
  close_all-Finishes [] = Finishes-pure tt
  close_all-Finishes (fd ∷ fds) =
      Finishes-bind _ _ (close_fd-Finishes fd) (λ t. close_all-Finishes fds)

  close_stack-Finishes : Finishes (close_stack os)
  unfolding close_stack
  close_stack-Finishes = record { at = λ s. (close_all-Finishes s.stack).at s }

  read_stable-Finishes : (fd maximum : ℕ) → Finishes (read_stable os fd maximum)
  unfolding read_stable is_fuel_error
  read_stable-Finishes fd maximum =
      Finishes-bind _ _ (Finishes-ask_os _ (λ n. answers.fstat n fd)) (λ before.
        Finishes-bind _ _ (Finishes-raise_if _ _ refl) (λ _.
          Finishes-bind _ _ (Finishes-raise_if _ _ refl) (λ _.
            Finishes-bind _ _
              (read_chunks-Finishes (maximum + 2) fd maximum [] (omega arith) (omega arith))
              (λ content. Finishes-bind _ _ (Finishes-ask_os _ (λ n. answers.fstat n fd)) (λ after.
                Finishes-bind _ _ (Finishes-raise_if _ _ refl) (λ _. Finishes-pure content))))))

  read_below-Finishes :
      (parent : ℕ) (name : Text) (maximum : ℕ) → Finishes (read_below os parent name maximum)
  unfolding read_below
  read_below-Finishes parent name maximum =
      search
        (
          Finishes-bind, Finishes-note, Finishes-finally, Finishes-ask_os, answers.open_file,
          read_stable-Finishes, close_fd-Finishes,
        )
        depth 10

  open_pushed-Finishes :
      (event : ℕ → Event) (answer : ℕ → Result ℕ)
      → ((n : ℕ) → Ends (answer n))
      → Finishes (open_pushed os event answer)
  unfolding open_pushed
  open_pushed-Finishes event answer h = record { at = λ s. go s (answer s.calls) (h s.calls) }
    where
      go :
          (s : Walk) (r : Result ℕ)
          → Ends r
          → Ends (push_opened event (r, record s { calls = s.calls + 1 })).0
      go s (ok fd) e = ends_ok fd
      go s (err x) (ends_err y e) = ends_err x e

  descend-Finishes : (parent : ℕ) (names : List Text) → Finishes (descend os parent names)
  unfolding descend
  descend-Finishes parent [] = Finishes-pure parent
  descend-Finishes parent (name ∷ names) =
      Finishes-bind _ _ (open_pushed-Finishes _ _ (λ n. answers.open_directory n parent name))
        (λ next. descend-Finishes next names)

  walk_and_read-Finishes :
      (root rel : Text) (maximum : ℕ) → Finishes (walk_and_read os root rel maximum)
  unfolding walk_and_read
  walk_and_read-Finishes root rel maximum =
      Finishes-bind _ _ (open_pushed-Finishes _ _ (λ n. answers.open_root n root)) (λ fd.
        Finishes-bind _ _ (descend-Finishes fd _) (λ parent. read_below-Finishes parent _ maximum))

  pub safe_read-Finishes :
      (py : Runtime) (root path : Text) (allowlist : List Text) (maximum : ℕ)
      → Finishes (safe_read os py root path allowlist maximum)
  unfolding safe_read is_fuel_error
  safe_read-Finishes py root path allowlist maximum =
      search
        (
          Finishes-bind, Finishes-raise_if, Finishes-lift, Finishes-finally,
          Finishes-refuse_os_errors, allowed_relative-Ends, walk_and_read-Finishes,
          close_stack-Finishes, refl,
        )
        depth 20
