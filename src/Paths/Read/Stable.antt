-- ===== src/Paths/Read/Stable.antt =====
-- What `safe_read` returns.
use mathlib.Core.Path.{subst}
use hermes_local_hands.Base.{
  Text, split, last?, ltb, ◌==◌, ◌||◌, not, ℕ, ◌+◌, ◌≤◌, ◌≡◌, refl, sym, ap, ◌∙◌, true, false, inl,
  inr, ◌⊎◌, List, [], length, arith,
}
use hermes_local_hands.Errors.{Error, Result, ok, err}
use hermes_local_hands.Errors.Ends.{is_fuel_error, Ends, ends_err}
use hermes_local_hands.Exec.{
  Exec, lift, raise_if, bind-eq-ok, lift-eq-ok, lift-state, pure-eq-ok, raise_if-eq-ok,
  raise_if-state,
}
use hermes_local_hands.Runtime.{Runtime}
use hermes_local_hands.Paths.{StatResult, unchanged, or_empty, allowed_relative}
use hermes_local_hands.Paths.Read.Finishes.{Answers, safe_read-Finishes}
use hermes_local_hands.Paths.Read.Traced.{
  ReadsFrom, Descends, ask_os-eq-ok, note-calls, open_pushed-eq-ok, descend-Descends,
  read_chunks-ReadsFrom,
}
use hermes_local_hands.Paths.Read.{
  all_but_last, opened_root, opened_file, Os, Walk, ask_os, note, finally, after_cleanup,
  refuse_os_errors, translate, open_pushed, close_fd, descend, read_chunks, read_stable, read_below,
  close_stack, walk_and_read, safe_read,
}

-- The file at a path below a root, opened and read by the calls from number `start` on. The call that
-- opens it is followed by a look at its state, by the calls that read the content, and by another look.
pub record IsStable (os : Os) (start : ℕ) (root rel : Text) (maximum : ℕ) (content : Text)
    : Type 0 where
  pub root_fd : ℕ
  pub rooted : os.open_root start root ≡ ok root_fd
  pub opening : ℕ
  pub parent : ℕ
  pub reached : Descends os opening parent (start + 1) root_fd (all_but_last (split b'/' rel))
  pub fd : ℕ
  pub opened : os.open_file opening parent (or_empty (last? (split b'/' rel))) ≡ ok fd
  pub before : StatResult
  pub seen_before : os.fstat (opening + 1) fd ≡ ok before
  pub last_look : ℕ
  pub was_read : ReadsFrom os fd last_look (opening + 1 + 1) content
  pub after : StatResult
  pub seen_after : os.fstat last_look fd ≡ ok after
  pub regular : os.is_regular before.st_mode ≡ true
  pub whole : length content ≡ before.st_size
  pub small : length content ≤ maximum
  pub same : unchanged before after ≡ true

-- The part of it that one descriptor has been through, the first look being call number `first`.
record IsRead (os : Os) (fd first maximum : ℕ) (content : Text) : Type 0 where
  before : StatResult
  seen_before : os.fstat first fd ≡ ok before
  last_look : ℕ
  was_read : ReadsFrom os fd last_look (first + 1) content
  after : StatResult
  seen_after : os.fstat last_look fd ≡ ok after
  regular : os.is_regular before.st_mode ≡ true
  whole : length content ≡ before.st_size
  small : length content ≤ maximum
  same : unchanged before after ≡ true

after_cleanup-eq-ok :
    {A : Type 0} (r : Result A) (t : Result (Unit {0}) × Walk) {a : A} {u : Walk}
    → after_cleanup r t ≡ (ok a, u)
    → r ≡ ok a
unfolding after_cleanup
after_cleanup-eq-ok {A = A} r (ok x, t) h = ap (λ (p : Result A × Walk). p.0) h
after_cleanup-eq-ok {A = A} r (err e, t) h = cc (ap (λ (p : Result A × Walk). p.0) h)

translate-eq-ok : {A : Type 0} (t : Result A × Walk) {a : A} → (translate t).0 ≡ ok a → t.0 ≡ ok a
unfolding translate
translate-eq-ok (ok x, t) h = h
translate-eq-ok (err e, t) h = cc

module _ (os : Os) where
  read_stable-IsRead :
      (fd maximum : ℕ) (s t : Walk) {content : Text}
      → read_stable os fd maximum s ≡ (ok content, t)
      → IsRead os fd s.calls maximum content
  unfolding read_stable
  read_stable-IsRead fd maximum s t {content} h =
      let (before, s1, e1, h1) = bind-eq-ok (ask_os (λ n. os.fstat n fd)) _ s h in
      let (_, s2, e2, h2) = bind-eq-ok (raise_if (not (os.is_regular before.st_mode)) _) _ s1 h1 in
      let (_, s3, e3, h3) = bind-eq-ok (raise_if (ltb maximum before.st_size) _) _ s2 h2 in
      let (found, s4, e4, h4) = bind-eq-ok (read_chunks os (maximum + 2) fd maximum []) _ s3 h3 in
      let (after, s5, e5, h5) = bind-eq-ok (ask_os (λ n. os.fstat n fd)) _ s4 h4 in
      let (_, s6, e6, h6) =
        bind-eq-ok
          (raise_if (not (length found == before.st_size) || not (unchanged before after)) _) _ s5
          h5 in
      let (looked, count) = ask_os-eq-ok (λ n. os.fstat n fd) s s1 e1 in
      let (looked_again, _) = ask_os-eq-ok (λ n. os.fstat n fd) s4 s5 e5 in
      let started : s3.calls ≡ s.calls + 1 =
        ap (λ (w : Walk). w.calls) (raise_if-state _ _ s2 e3 ∙ raise_if-state _ _ s1 e2) ∙ count in
      let (more, spelled, read) = read_chunks-ReadsFrom os (maximum + 2) fd maximum [] s3 s4 e4 in
      IsRead-of_tests found more before after s3.calls s4.calls looked looked_again started
        (raise_if-eq-ok _ _ s1 e2) (raise_if-eq-ok _ _ s2 e3) (raise_if-eq-ok _ _ s5 e6) spelled
        read (pure-eq-ok found s6 h6)
    where
      IsRead-of_tests :
          (found more : Text) (before after : StatResult) (first last : ℕ)
          → os.fstat s.calls fd ≡ ok before
          → os.fstat last fd ≡ ok after
          → first ≡ s.calls + 1
          → not (os.is_regular before.st_mode) ≡ false
          → ltb maximum before.st_size ≡ false
          → (not (length found == before.st_size) || not (unchanged before after)) ≡ false
          → found ≡ more
          → ReadsFrom os fd last first more
          → found ≡ content
          → IsRead os fd s.calls maximum content
      IsRead-of_tests found more before after first last looked again start regular small same
            spelled read e =
          let size : length found ≡ before.st_size = ground arith in
          let one : length found ≡ length content = ap length e in
          let from : ReadsFrom os fd last (s.calls + 1) more =
            subst (λ n. ReadsFrom os fd last n more) start read in
          record {
            before = before;
            seen_before = looked;
            last_look = last;
            was_read = subst (ReadsFrom os fd last (s.calls + 1)) (sym spelled ∙ e) from;
            after = after;
            seen_after = again;
            regular = ground arith;
            whole = sym one ∙ size;
            small = ground arith;
            same = ground arith;
          }

  finally-eq-ok :
      {A : Type 0} (m : Exec Walk A) (cleanup : Exec Walk (Unit {0})) (s t : Walk) {a : A}
      → finally m cleanup s ≡ (ok a, t)
      → (m s).0 ≡ ok a
  unfolding finally
  finally-eq-ok m cleanup s t h = after_cleanup-eq-ok (m s).0 (cleanup (m s).1) h

  refuse_os_errors-eq-ok :
      {A : Type 0} (m : Exec Walk A) (s : Walk) {a : A}
      → (refuse_os_errors m s).0 ≡ ok a
      → (m s).0 ≡ ok a
  unfolding refuse_os_errors
  refuse_os_errors-eq-ok m s h = translate-eq-ok (m s) h

  paired : {A : Type 0} (r : Result A × Walk) {a : A} → r.0 ≡ ok a → r ≡ (ok a, r.1)
  paired (x, t) h = rw h refl

  read_below-IsRead :
      (parent : ℕ) (name : Text) (maximum : ℕ) (s t : Walk) {content : Text}
      → read_below os parent name maximum s ≡ (ok content, t)
      → (fd : ℕ) × (os.open_file s.calls parent name ≡ ok fd)
        × IsRead os fd (s.calls + 1) maximum content
  unfolding read_below
  read_below-IsRead parent name maximum s t {content} h =
      let (fd, s1, e1, h1) = bind-eq-ok (ask_os (λ n. os.open_file n parent name)) _ s h in
      let (_, s2, e2, h2) = bind-eq-ok (note (opened_file parent name fd)) _ s1 h1 in
      let (opened, count) = ask_os-eq-ok (λ n. os.open_file n parent name) s s1 e1 in
      let e = finally-eq-ok (read_stable os fd maximum) (close_fd os fd) s2 t h2 in
      (
        fd,
        opened,
        subst (λ n. IsRead os fd n maximum content) (note-calls _ s1 s2 e2 ∙ count)
            (read_stable-IsRead fd maximum s2 (read_stable os fd maximum s2).1 (paired _ e)),
      )

  walk_and_read-IsStable :
      (root rel : Text) (maximum : ℕ) (s t : Walk) {content : Text}
      → walk_and_read os root rel maximum s ≡ (ok content, t)
      → IsStable os s.calls root rel maximum content
  unfolding walk_and_read
  walk_and_read-IsStable root rel maximum s t h =
      let (root_fd, s1, e1, h1) =
        bind-eq-ok (open_pushed os (opened_root root) (λ n. os.open_root n root)) _ s h in
      let (parent, s2, e2, h2) =
        bind-eq-ok (descend os root_fd (all_but_last (split b'/' rel))) _ s1 h1 in
      let (rooted, count) = open_pushed-eq-ok os _ (λ n. os.open_root n root) s s1 e1 in
      let (fd, opened, r) =
        read_below-IsRead parent (or_empty (last? (split b'/' rel))) maximum s2 t h2 in
      record {
        root_fd = root_fd;
        rooted = rooted;
        opening = s2.calls;
        parent = parent;
        reached =
            subst (λ n. Descends os s2.calls parent n root_fd (all_but_last (split b'/' rel))) count
              (descend-Descends os root_fd (all_but_last (split b'/' rel)) s1 s2 e2);
        fd = fd;
        opened = opened;
        before = r.before;
        seen_before = r.seen_before;
        last_look = r.last_look;
        was_read = r.was_read;
        after = r.after;
        seen_after = r.seen_after;
        regular = r.regular;
        whole = r.whole;
        small = r.small;
        same = r.same;
      }

  -- `safe_read` ends whatever the operating system answers, if it raises its own errors alone: with
  -- content or with an exception that is not the one of a loop out of fuel. With content, the path was
  -- allowed, and the calls that follow opened the root, one directory of the path after the other and
  -- the file; a look at the file's state said that it is regular; the next calls read the whole content
  -- to its end, which is as long as that state said and no longer than the limit; and another look,
  -- after the last of them, found the state unchanged.
  pub safe_read-IsStable :
      (answers : Answers os) (py : Runtime) (root path : Text) (allowlist : List Text) (maximum : ℕ)
      (s : Walk)
      → ((content : Text) × (rel : Text) × ((safe_read os py root path allowlist maximum s).0
            ≡ ok content)
          × (allowed_relative py path allowlist ≡ ok rel)
          × IsStable os s.calls root rel maximum content)
        ⊎ ((e : Error) × ((safe_read os py root path allowlist maximum s).0 ≡ err e)
            × (is_fuel_error e ≡ false))
  unfolding safe_read
  safe_read-IsStable answers py root path allowlist maximum s =
      ended (safe_read os py root path allowlist maximum s) refl
        ((safe_read-Finishes os answers py root path allowlist maximum).at s)
    where
      ended :
          (r : Result Text × Walk)
          → safe_read os py root path allowlist maximum s ≡ r
          → Ends r.0
          → ((content : Text) × (rel : Text) × (r.0 ≡ ok content)
              × (allowed_relative py path allowlist ≡ ok rel)
              × IsStable os s.calls root rel maximum content)
            ⊎ ((e : Error) × (r.0 ≡ err e) × (is_fuel_error e ≡ false))
      ended (err e, t) h (ends_err x k) = inr (e, refl, k)
      ended (ok content, t) h k =
          let (rel, s1, e1, h1) = bind-eq-ok (lift (allowed_relative py path allowlist)) _ s h in
          let (_, s2, e2, h2) = bind-eq-ok (raise_if (ltb maximum 1) _) _ s1 h1 in
          let (_, s3, e3, h3) = bind-eq-ok (raise_if (not os.is_supported) _) _ s2 h2 in
          let start : s3.calls ≡ s.calls =
            ap (λ (w : Walk). w.calls)
              (raise_if-state _ _ s2 e3 ∙ raise_if-state _ _ s1 e2 ∙ lift-state _ s e1) in
          let e =
            finally-eq-ok (refuse_os_errors (walk_and_read os root rel maximum)) (close_stack os) s3
              t h3 in
          let f = refuse_os_errors-eq-ok (walk_and_read os root rel maximum) s3 e in
          inl (
            content,
            rel,
            refl,
            lift-eq-ok _ s e1,
            subst (λ n. IsStable os n root rel maximum content) start
                (walk_and_read-IsStable root rel maximum s3 (walk_and_read os root rel maximum s3).1
                  (paired _ f)),
          )
