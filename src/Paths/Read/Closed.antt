-- ===== src/Paths/Read/Closed.antt =====
-- Every descriptor that `safe_read` opens is closed, however it ends.
use hermes_local_hands.Base.{
  Text, split, last?, ltb, ◌==◌, ==_iff, not, ℕ, zero, suc, ◌+◌, ◌≡◌, refl, sym, ap, ◌∙◌, Bool,
  true, false, List, [], ◌∷◌, if◌then◌else◌,
}
use hermes_local_hands.Errors.{Error, Result, ok, err}
use hermes_local_hands.Exec.{Exec, lift, raise_if, ◌>>=◌, ◌>>◌}
use hermes_local_hands.Exec.Moves.{
  Moves, Moves-bind, IsPreorder, Keeping, Keeping-IsPreorder, moves_rules,
}
use hermes_local_hands.Runtime.{Runtime}
use hermes_local_hands.Paths.{or_empty, allowed_relative}
use hermes_local_hands.Paths.Read.{
  Event, opened_root, opened_directory, opened_file, closed, Os, Walk, ask_os, note, push_opened,
  all_but_last, finally, after_cleanup, refuse_os_errors, translate, next_chunk, open_pushed,
  close_fd, descend, read_chunks, read_stable, read_below, close_all, close_stack, walk_and_read,
  safe_read,
}

-- The descriptors that the events leave open, the one opened last first.
abbrev pub drop_fd : ℕ → List ℕ → List ℕ
drop_fd fd [] = []
drop_fd fd (x ∷ xs) = let rest = drop_fd fd xs in if x == fd then xs else x ∷ rest

abbrev pub open_after : List Event → List ℕ
open_after [] = []
open_after (opened_root root fd ∷ events) = fd ∷ open_after events
open_after (opened_directory parent name fd ∷ events) = fd ∷ open_after events
open_after (opened_file parent name fd ∷ events) = fd ∷ open_after events
open_after (closed fd ∷ events) = drop_fd fd (open_after events)

-- The open descriptors are those on the stack; or a file besides.
Tidy : Walk → Type 0
Tidy s = open_after s.events ≡ s.stack

HasFile : ℕ → Walk → Type 0
HasFile fd s = open_after s.events ≡ fd ∷ s.stack

-- A call changes neither.
record Same (s t : Walk) : Type 0 where
  events : t.events ≡ s.events
  stack : t.stack ≡ s.stack

Same-IsPreorder : IsPreorder Same
Same-IsPreorder = record {
  stay = λ s. record { events = refl; stack = refl };
  follow = λ s t u h k. record { events = k.events ∙ h.events; stack = k.stack ∙ h.stack };
}

ask_os-Same : {A : Type 0} (answer : ℕ → Result A) → Moves Same (ask_os answer)
unfolding ask_os
ask_os-Same answer = record { at = λ s. record { events = refl; stack = refl } }

next_chunk-Same :
    (maximum : ℕ) (content : Text) (read_on : Text → Exec Walk Text) (chunk : Text)
    → ((t : Text) → Moves Same (read_on t))
    → Moves Same (next_chunk maximum content read_on chunk)
unfolding next_chunk
next_chunk-Same maximum content read_on [] k = search (moves_rules, Same-IsPreorder) depth 10
next_chunk-Same maximum content read_on (c ∷ cs) k =
    search (moves_rules, Same-IsPreorder, k) depth 10

module _ (os : Os) where
  read_chunks-Same :
      (fuel fd maximum : ℕ) (content : Text) → Moves Same (read_chunks os fuel fd maximum content)
  unfolding read_chunks
  read_chunks-Same zero fd maximum content = search (moves_rules, Same-IsPreorder) depth 10
  read_chunks-Same (suc fuel) fd maximum content =
      let rest : (t : Text) → Moves Same (read_chunks os fuel fd maximum t) =
        λ t. read_chunks-Same fuel fd maximum t in
      search (moves_rules, Same-IsPreorder, ask_os-Same, next_chunk-Same, rest) depth 10

  read_stable-Same : (fd maximum : ℕ) → Moves Same (read_stable os fd maximum)
  unfolding read_stable
  read_stable-Same fd maximum =
      search (moves_rules, Same-IsPreorder, ask_os-Same, read_chunks-Same) depth 20

  open_pushed-Tidy :
      (event : ℕ → Event) (answer : ℕ → Result ℕ)
      → ((fd : ℕ) (es : List Event) → open_after (event fd ∷ es) ≡ fd ∷ open_after es)
      → Moves (Keeping Tidy) (open_pushed os event answer)
  unfolding open_pushed Tidy
  open_pushed-Tidy event answer k = record { at = λ s. go s (answer s.calls) }
    where
      go :
          (s : Walk) (r : Result ℕ)
          → open_after s.events ≡ s.stack
          → open_after (push_opened event (r, record s { calls = s.calls + 1 })).1.events
            ≡ (push_opened event (r, record s { calls = s.calls + 1 })).1.stack
      go s (err e) h = h
      go s (ok fd) h = k fd s.events ∙ ap (λ (fds : List ℕ). fd ∷ fds) h

  descend-Tidy : (parent : ℕ) (names : List Text) → Moves (Keeping Tidy) (descend os parent names)
  unfolding descend
  descend-Tidy parent [] = search (moves_rules, Keeping-IsPreorder) depth 10
  descend-Tidy parent (name ∷ names) =
      let first =
        open_pushed-Tidy (opened_directory parent name) (λ n. os.open_directory n parent name)
          (λ fd es. refl) in
      let rest : (next : ℕ) → Moves (Keeping Tidy) (descend os next names) =
        λ next. descend-Tidy next names in
      search (moves_rules, Keeping-IsPreorder, first, rest) depth 10

drop_fd-head : (fd : ℕ) (fds : List ℕ) → drop_fd fd (fd ∷ fds) ≡ fds
drop_fd-head fd fds = rw ((==_iff fd fd).1 refl) refl

module _ (os : Os) (closes : (n fd : ℕ) → os.close n fd ≡ ok tt) where
  close_fd-closed :
      (fd : ℕ) (s : Walk)
      → close_fd os fd s ≡ (ok tt, record s { calls = s.calls + 1; events = closed fd ∷ s.events })
  unfolding close_fd ◌>>=◌ ask_os note
  close_fd-closed fd s = rw (closes s.calls fd) refl

  file_closed :
      (fd maximum : ℕ) (s : Walk)
      → open_after s.events ≡ fd ∷ s.stack
      → Tidy (finally (read_stable os fd maximum) (close_fd os fd) s).1
  unfolding Tidy finally
  file_closed fd maximum s h =
      let t : Walk = (read_stable os fd maximum s).1 in
      let k : Same s t = (read_stable-Same os fd maximum).at s in
      let e : open_after t.events ≡ fd ∷ t.stack =
        ap open_after k.events ∙ h ∙ ap (λ (fds : List ℕ). fd ∷ fds) (sym k.stack) in
      rw (close_fd-closed fd t) (ap (drop_fd fd) e ∙ drop_fd-head fd t.stack)

  read_below-Tidy :
      (parent : ℕ) (name : Text) (maximum : ℕ)
      → Moves (Keeping Tidy) (read_below os parent name maximum)
  unfolding read_below ◌>>=◌ ask_os note Tidy
  read_below-Tidy parent name maximum = record {
    at = λ s h. go s h (os.open_file s.calls parent name) refl;
  }
    where
      go :
          (s : Walk)
          → open_after s.events ≡ s.stack
          → (r : Result ℕ) → os.open_file s.calls parent name ≡ r
          → Tidy (read_below os parent name maximum s).1
      go s h (err e) k = rw k h
      go s h (ok fd) k = rw k (
          file_closed fd maximum
            (record {
              calls = s.calls + 1;
              events = opened_file parent name fd ∷ s.events;
              stack = s.stack;
            })
            (ap (λ (fds : List ℕ). fd ∷ fds) h))

  walk_and_read-Tidy :
      (root rel : Text) (maximum : ℕ) → Moves (Keeping Tidy) (walk_and_read os root rel maximum)
  unfolding walk_and_read
  walk_and_read-Tidy root rel maximum =
      let first =
        open_pushed-Tidy os (opened_root root) (λ n. os.open_root n root) (λ fd es. refl) in
      let down : (parent : ℕ)
          → Moves (Keeping Tidy) (descend os parent (all_but_last (split b'/' rel))) =
        λ parent. descend-Tidy os parent (all_but_last (split b'/' rel)) in
      let below : (parent : ℕ)
          → Moves (Keeping Tidy)
              (read_below os parent (or_empty (last? (split b'/' rel))) maximum) =
        λ parent. read_below-Tidy parent (or_empty (last? (split b'/' rel))) maximum in
      Moves-bind (Keeping-IsPreorder Tidy) _ _ first
        (λ fd. Moves-bind (Keeping-IsPreorder Tidy) _ _ (down fd) (λ parent. below parent))

  close_all-open_after :
      (fds : List ℕ) (s : Walk)
      → open_after s.events ≡ fds
      → open_after (close_all os fds s).1.events ≡ []
  unfolding close_all ◌>>=◌
  close_all-open_after [] s h = h
  close_all-open_after (fd ∷ fds) s h = rw (close_fd-closed fd s) (
      close_all-open_after fds (record s { calls = s.calls + 1; events = closed fd ∷ s.events })
        (ap (drop_fd fd) h ∙ drop_fd-head fd fds))

  finally-open_after :
      {A : Type 0} (m : Exec Walk A) (s : Walk)
      → Tidy (m s).1
      → open_after (finally (refuse_os_errors m) (close_stack os) s).1.events ≡ []
  unfolding finally refuse_os_errors close_stack Tidy
  finally-open_after {A = A} m s h = go (m s) h
    where
      cleaned :
          (r : Result A) (t : Result (Unit {0}) × Walk)
          → open_after t.1.events ≡ []
          → open_after (after_cleanup r t).1.events ≡ []
      cleaned r (ok a, t) k = k
      cleaned r (err e, t) k = k

      go :
          (r : Result A × Walk)
          → open_after r.1.events ≡ r.1.stack
          → open_after
              (after_cleanup
                (translate r).0
                (close_all os (translate r).1.stack (translate r).1)).1.events
            ≡ []
      go (ok a, t) k = cleaned (ok a) (close_all os t.stack t) (close_all-open_after t.stack t k)
      go (err e, t) k =
          cleaned (translate (err e, t)).0 (close_all os t.stack t)
            (close_all-open_after t.stack t k)

  abbrev NoneOpen : Walk → Type 0
  NoneOpen s = open_after s.events ≡ []

  lift_then :
      {A B : Type 0} (r : Result A) (f : A → Exec Walk B) (s : Walk)
      → NoneOpen s
      → ((a : A) → NoneOpen (f a s).1)
      → NoneOpen ((lift r >>= f) s).1
  unfolding ◌>>=◌
  lift_then (ok a) f s h k = k a
  lift_then (err e) f s h k = h

  raise_if_then :
      {B : Type 0} (b : Bool) (e : Error) (m : Exec Walk B) (s : Walk)
      → NoneOpen s
      → NoneOpen (m s).1
      → NoneOpen ((raise_if b e >> m) s).1
  unfolding ◌>>=◌
  raise_if_then true e m s h k = h
  raise_if_then false e m s h k = k

  -- If closing never fails, then whatever else the operating system answers and however `safe_read`
  -- ends, every descriptor that it opened has been closed: of its events none leaves one open.
  pub safe_read-closes :
      (py : Runtime) (root relative_path : Text) (allowlist : List Text) (maximum calls : ℕ)
      → open_after
          (safe_read os py root relative_path allowlist maximum
            (record { calls = calls; events = []; stack = [] })).1.events
        ≡ []
  unfolding safe_read
  safe_read-closes py root relative_path allowlist maximum calls =
      let start : Walk = record { calls = calls; events = []; stack = [] } in
      lift_then (allowed_relative py relative_path allowlist) _ start refl (λ rel.
        raise_if_then (ltb maximum 1) _ _ start refl (
          raise_if_then (not os.is_supported) _ _ start refl (
            finally-open_after (walk_and_read os root rel maximum) start
              ((walk_and_read-Tidy root rel maximum).at start (unfold Tidy in refl)))))
