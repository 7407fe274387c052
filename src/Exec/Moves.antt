-- ===== src/Exec/Moves.antt =====
-- Where an action can lead, one rule for each way to build an action. With `R s t` as
-- `P s → P t` these are the rules for an invariant `P`.
use hermes_local_hands.Base.{
  ◌≡◌, refl, Bool, true, false, Option, none, some, List, [], ◌∷◌, if◌then◌else◌,
}
use hermes_local_hands.Errors.{Error, Result, ok, err}
use hermes_local_hands.Exec.{
  Exec, pure, raise, lift, gets, some_or, modify, raise_if, restore, transaction, continue,
  for_each, ◌>>=◌,
}

pub record Moves {S A : Type 0} (R : S → S → Type 0) (m : Exec S A) : Type 0 where
  pub at : (s : S) → R s (m s).1

pub record IsPreorder {S : Type 0} (R : S → S → Type 0) : Type 0 where
  pub stay : (s : S) → R s s
  pub follow : (s t u : S) → R s t → R t u → R s u

abbrev pub Keeping : {S : Type 0} → (S → Type 0) → S → S → Type 0
Keeping P s t = P s → P t

pub Keeping-IsPreorder : {S : Type 0} (P : S → Type 0) → IsPreorder (Keeping P)
Keeping-IsPreorder P = record { stay = λ s h. h; follow = λ s t u f g h. g (f h) }

module _ {S A : Type 0} {R : S → S → Type 0} (p : IsPreorder R) where
  pub Moves-pure : (a : A) → Moves R (pure a)
  unfolding pure
  Moves-pure a = record { at = p.stay }

  pub Moves-raise : (e : Error) → Moves R (raise {A = A} e)
  unfolding raise
  Moves-raise e = record { at = p.stay }

  pub Moves-lift : (r : Result A) → Moves R (lift r)
  unfolding lift
  Moves-lift r = record { at = p.stay }

  pub Moves-gets : (f : S → A) → Moves R (gets f)
  unfolding gets
  Moves-gets f = record { at = p.stay }

  pub Moves-some_or : (o : Option A) (e : Error) → Moves R (some_or o e)
  unfolding some_or
  Moves-some_or none e = record { at = p.stay }
  Moves-some_or (some a) e = record { at = p.stay }

  pub Moves-transaction : (m : Exec S A) → Moves R m → Moves R (transaction m)
  unfolding transaction
  Moves-transaction m k = record { at = λ s. go s (m s) (k.at s) }
    where
      go : (s : S) (r : Result A × S) → R s r.1 → R s (restore s r).1
      go s (ok a, t) h = h
      go s (err e, t) h = p.stay s

  pub Moves-if :
      (b : Bool) (m n : Exec S A)
      → (b ≡ true → Moves R m)
      → (b ≡ false → Moves R n)
      → Moves R (if b then m else n)
  Moves-if true m n k l = k refl
  Moves-if false m n k l = l refl

pub Moves-modify :
    {S : Type 0} {R : S → S → Type 0} (f : S → S) → ((s : S) → R s (f s)) → Moves R (modify f)
unfolding modify
Moves-modify f h = record { at = h }

module _ {S : Type 0} {R : S → S → Type 0} (p : IsPreorder R) where
  pub Moves-raise_if : (b : Bool) (e : Error) → Moves R (raise_if b e)
  unfolding raise_if
  Moves-raise_if true e = record { at = p.stay }
  Moves-raise_if false e = record { at = p.stay }

module _ {S A B : Type 0} {R : S → S → Type 0} (p : IsPreorder R) where
  pub Moves-bind :
      (m : Exec S A) (f : A → Exec S B) → Moves R m → ((a : A) → Moves R (f a)) → Moves R (m >>= f)
  unfolding ◌>>=◌
  Moves-bind m f k l = record { at = λ s. go s (m s) (k.at s) }
    where
      go : (s : S) (r : Result A × S) → R s r.1 → R s (continue f r).1
      go s (ok a, t) h = p.follow s t (f a t).1 h ((l a).at t)
      go s (err e, t) h = h

module _ {S A : Type 0} {R : S → S → Type 0} (p : IsPreorder R) where
  pub Moves-for_each :
      (body : A → Exec S (Unit {0})) (xs : List A)
      → ((a : A) → Moves R (body a))
      → Moves R (for_each body xs)
  unfolding for_each
  Moves-for_each body [] k = Moves-pure p tt
  Moves-for_each body (x ∷ xs) k =
      Moves-bind p (body x) (λ _. for_each body xs) (k x) (λ _. Moves-for_each body xs k)

pub ruleset moves_rules = (
  Moves-pure, Moves-raise, Moves-lift, Moves-gets, Moves-some_or, Moves-transaction, Moves-if,
  Moves-raise_if, Moves-modify, Moves-bind, Moves-for_each,
)
