-- ===== src/Paths/Read/Traced.antt =====
-- What the calls were that opened a path and read a file.
use mathlib.Core.Path.{subst}
use mathlib.Core.List.{append-nil, append_assoc}
use hermes_local_hands.Base.{
  Text, zero, suc, ◌-◌, ◌∷◌, ◌++◌, ltb, ℕ, ◌+◌, ◌≡◌, refl, sym, ap, ◌∙◌, List, [], length,
}
use hermes_local_hands.Errors.{Result, ok, err, other_error}
use hermes_local_hands.Exec.{
  raise_if, bind-eq-ok, pure-eq-ok, pure-state, raise_if-state, raise-ne-ok,
}
use hermes_local_hands.Paths.Read.{
  too_large, Event, opened_directory, push_opened, chunk_size, next_chunk, Os, Walk, ask_os, note,
  open_pushed, descend, read_chunks,
}

-- The calls from number `m` up to `n` read `content` from a descriptor, the last of them its end.
pub data ReadsFrom (os : Os) (fd n : ℕ) : ℕ → Text → Type 0 where
  at_end : {m size : ℕ} → os.read m fd size ≡ ok [] → n ≡ m + 1 → ReadsFrom os fd n m []
  chunk :
      {m size : ℕ} {part rest : Text}
      → os.read m fd size ≡ ok part
      → ReadsFrom os fd n (m + 1) rest
      → ReadsFrom os fd n m (part ++ rest)

-- The calls from number `m` up to `n` open the directories of a path, one below the other.
pub data Descends (os : Os) (n fd : ℕ) : ℕ → ℕ → List Text → Type 0 where
  arrived : {m parent : ℕ} → n ≡ m → fd ≡ parent → Descends os n fd m parent []
  below :
      {m parent next : ℕ} {component : Text} {components : List Text}
      → os.open_directory m parent component ≡ ok next
      → Descends os n fd (m + 1) next components
      → Descends os n fd m parent (component ∷ components)

-- A call that ends well got its answer, and is counted.
pub ask_os-eq-ok :
    {A : Type 0} (answer : ℕ → Result A) (s t : Walk) {a : A}
    → ask_os answer s ≡ (ok a, t)
    → (answer s.calls ≡ ok a) × (t.calls ≡ s.calls + 1)
unfolding ask_os
ask_os-eq-ok {A} answer s t h =
    (ap (λ (p : Result A × Walk). p.0) h, ap (λ (p : Result A × Walk). p.1.calls) (sym h))

pub note-calls : (e : Event) (s t : Walk) {a : Unit {0}} → note e s ≡ (ok a, t) → t.calls ≡ s.calls
unfolding note
note-calls e s t h = ap (λ (p : Result (Unit {0}) × Walk). p.1.calls) (sym h)

pub open_pushed-eq-ok :
    (os : Os) (event : ℕ → Event) (answer : ℕ → Result ℕ) (s t : Walk) {fd : ℕ}
    → open_pushed os event answer s ≡ (ok fd, t)
    → (answer s.calls ≡ ok fd) × (t.calls ≡ s.calls + 1)
unfolding open_pushed ask_os push_opened
open_pushed-eq-ok os event answer s t {fd} h = pushed (answer s.calls) refl h
  where
    pushed :
        (r : Result ℕ)
        → answer s.calls ≡ r
        → push_opened event (r, record s { calls = s.calls + 1 }) ≡ (ok fd, t)
        → (answer s.calls ≡ ok fd) × (t.calls ≡ s.calls + 1)
    pushed (err x) e k = cc (ap (λ (p : Result ℕ × Walk). p.0) k)
    pushed (ok n) e k =
        (e ∙ ap (λ (p : Result ℕ × Walk). p.0) k, ap (λ (p : Result ℕ × Walk). p.1.calls) (sym k))

module _ (os : Os) where
  pub descend-Descends :
      (parent : ℕ) (components : List Text) (s t : Walk) {fd : ℕ}
      → descend os parent components s ≡ (ok fd, t)
      → Descends os t.calls fd s.calls parent components
  unfolding descend
  descend-Descends parent [] s t {fd} h =
      arrived (ap (λ (w : Walk). w.calls) (pure-state parent s h)) (sym (pure-eq-ok parent s h))
  descend-Descends parent (component ∷ components) s t {fd} h =
      let (next, s1, e, h1) =
        bind-eq-ok
          (open_pushed os (opened_directory parent component)
            (λ n. os.open_directory n parent component))
          _ s h in
      let (got, count) = open_pushed-eq-ok os _ _ s s1 e in
      below got (
        subst (λ n. Descends os t.calls fd n next components) count
          (descend-Descends next components s1 t h1))

  pub read_chunks-ReadsFrom :
      (fuel fd maximum : ℕ) (known : Text) (s t : Walk) {content : Text}
      → read_chunks os fuel fd maximum known s ≡ (ok content, t)
      → (more : Text) × (content ≡ known ++ more) × ReadsFrom os fd t.calls s.calls more
  unfolding read_chunks
  read_chunks-ReadsFrom zero fd maximum known s t h =
      absurd (raise-ne-ok (other_error "out of fuel") s h)
  read_chunks-ReadsFrom (suc fuel) fd maximum known s t {content} h =
      let (part, s1, e, h1) =
        bind-eq-ok (ask_os (λ n. os.read n fd (chunk_size (maximum + 1 - length known)))) _ s h in
      let (got, count) = ask_os-eq-ok _ s s1 e in
      more part s1 got count h1 (λ known' s' e. read_chunks-ReadsFrom fuel fd maximum known' s' t e)
    where
      more :
          (part : Text) (s1 : Walk)
          → os.read s.calls fd (chunk_size (maximum + 1 - length known)) ≡ ok part
          → s1.calls ≡ s.calls + 1
          → next_chunk maximum known (read_chunks os fuel fd maximum) part s1 ≡ (ok content, t)
          → ((known' : Text) (s' : Walk)
              → read_chunks os fuel fd maximum known' s' ≡ (ok content, t)
              → (more : Text) × (content ≡ known' ++ more) × ReadsFrom os fd t.calls s'.calls more)
          → (more : Text) × (content ≡ known ++ more) × ReadsFrom os fd t.calls s.calls more
      more [] s1 got count k again = (
        [],
        sym (pure-eq-ok known s1 (unfold next_chunk in k)) ∙ sym (append-nil known),
        at_end got
            (ap (λ (w : Walk). w.calls) (pure-state known s1 (unfold next_chunk in k)) ∙ count),
      )
      more (c ∷ cs) s1 got count k again =
          let (_, s2, e2, k2) =
            bind-eq-ok (raise_if (ltb maximum (length (known ++ c ∷ cs))) too_large) _ s1
              (unfold next_chunk in k) in
          let (rest, e, r) = again (known ++ c ∷ cs) s2 k2 in
          let here : s2.calls ≡ s.calls + 1 =
            ap (λ (w : Walk). w.calls) (raise_if-state _ _ s1 e2) ∙ count in
          (
            (c ∷ cs) ++ rest,
            e ∙ append_assoc known (c ∷ cs) rest,
            chunk got (subst (λ n. ReadsFrom os fd t.calls n rest) here r),
          )
