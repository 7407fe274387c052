-- ===== src/Exec.antt =====
-- State-passing code that may raise: what was written before a raise stays written, unless a
-- transaction takes it back. `Moves R m` says that `m` leads only along the relation `R`.
pub mod Moves
pub mod Yields
use hermes_local_hands.Base.{◌≡◌, refl, ap, Bool, true, false, Option, none, some, List, [], ◌∷◌}
use hermes_local_hands.Errors.{Error, Result, ok, err, ok-injective}

abbrev pub Exec {ℓ} : Type ℓ → Type ℓ → Type ℓ
Exec S A = S → Result A × S

module _ {ℓ} {S A : Type ℓ} where
  -- a reading of the state
  pub gets : (S → A) → Exec S A
  gets read s = (ok (read s), s)

  pub lift : Result A → Exec S A
  lift result s = (result, s)

  pub raise : Error → Exec S A
  raise e s = (err e, s)

  pub pure : A → Exec S A
  pure a s = (ok a, s)

  -- the value of an optional row, or the exception for a missing one
  pub some_or : Option A → Error → Exec S A
  some_or none e s = (err e, s)
  some_or (some a) e s = (ok a, s)

  abbrev pub restore : S → Result A × S → Result A × S
  restore before (ok a, after) = (ok a, after)
  restore before (err e, after) = (err e, before)

  -- `with store.transaction()`: an exception rolls back to the start, at every depth.
  unfoldable pub transaction : Exec S A → Exec S A
  transaction m s = restore s (m s)

  pub lift-eq-ok : (r : Result A) (s : S) {a : A} {t : S} → lift r s ≡ (ok a, t) → r ≡ ok a
  unfolding lift
  lift-eq-ok r s h = ap (λ (p : Result A × S). p.0) h

  pub pure-eq-ok : (a : A) (s : S) {b : A} {t : S} → pure a s ≡ (ok b, t) → a ≡ b
  unfolding pure
  pure-eq-ok a s h = ok-injective (ap (λ (p : Result A × S). p.0) h)

  pub pure-state : (a : A) (s : S) {b : A} {t : S} → pure a s ≡ (ok b, t) → t ≡ s
  unfolding pure
  pure-state a s h = cc (ap (λ (p : Result A × S). p.1) h)

  pub raise-ne-ok : (e : Error) (s : S) {a : A} {t : S} → raise e s ≡ (ok a, t) → ⊥
  unfolding raise
  raise-ne-ok e s h = cc (ap (λ (p : Result A × S). p.0) h)

  -- A transaction that ends well has done what its body did.
  pub restore-eq-ok :
      (before : S) (r : Result A × S) {a : A} {t : S} → restore before r ≡ (ok a, t) → r ≡ (ok a, t)
  restore-eq-ok before (ok a, after) h = h
  restore-eq-ok before (err e, after) h = cc

module _ {S : Type 0} where
  pub modify : (S → S) → Exec S (Unit {0})
  modify f s = (ok tt, f s)

  -- `if test: raise error`
  pub raise_if : Bool → Error → Exec S (Unit {0})
  raise_if true e s = (err e, s)
  raise_if false e s = (ok tt, s)

  pub raise_if-eq-ok :
      (b : Bool) (e : Error) (s : S) {a : Unit {0}} {t : S} → raise_if b e s ≡ (ok a, t) → b ≡ false
  unfolding raise_if
  raise_if-eq-ok true e s h = cc (ap (λ (p : Result (Unit {0}) × S). p.0) h)
  raise_if-eq-ok false e s h = refl

  -- Neither writes the state.
  pub lift-state :
      {A : Type 0} (r : Result A) (s : S) {a : A} {t : S} → lift r s ≡ (ok a, t) → t ≡ s
  unfolding lift
  lift-state {A = A} r s h = cc (ap (λ (p : Result A × S). p.1) h)

  pub raise_if-state :
      (b : Bool) (e : Error) (s : S) {a : Unit {0}} {t : S} → raise_if b e s ≡ (ok a, t) → t ≡ s
  unfolding raise_if
  raise_if-state true e s h = cc (ap (λ (p : Result (Unit {0}) × S). p.0) h)
  raise_if-state false e s h = cc (ap (λ (p : Result (Unit {0}) × S). p.1) h)

module _ {S A B : Type 0} where
  abbrev pub continue : (A → Exec S B) → Result A × S → Result B × S
  continue f (ok a, s) = f a s
  continue f (err e, s) = (err e, s)

  infixl 5 ◌>>=◌ ◌>>◌
  unfoldable pub ◌>>=◌ : Exec S A → (A → Exec S B) → Exec S B
  unfolding pure raise lift gets some_or modify raise_if
  ◌>>=◌ m f s = continue f (m s)

  abbrev pub ◌>>◌ : Exec S A → Exec S B → Exec S B
  m >> n = m >>= λ _. n

  -- What a bind that ends well has run.
  pub bind-eq-ok :
      (m : Exec S A) (f : A → Exec S B) (s : S) {b : B} {t : S}
      → (m >>= f) s ≡ (ok b, t)
      → (a : A) × (u : S) × (m s ≡ (ok a, u)) × (f a u ≡ (ok b, t))
  unfolding ◌>>=◌
  bind-eq-ok m f s {b} {t} h = go (m s) refl h
    where
      go :
          (r : Result A × S)
          → m s ≡ r
          → continue f r ≡ (ok b, t)
          → (a : A) × (u : S) × (m s ≡ (ok a, u)) × (f a u ≡ (ok b, t))
      go (ok a, u) e k = (a, u, e, k)
      go (err x, u) e k = cc (ap (λ (p : Result B × S). p.0) k)

-- `for item in items: body(item)`
unfoldable pub for_each {ℓ} :
    {S : Type 0} {A : Type ℓ} → (A → Exec S (Unit {0})) → List A → Exec S (Unit {0})
unfolding ◌>>=◌
for_each body [] = pure tt
for_each body (x ∷ xs) = do body x; for_each body xs
