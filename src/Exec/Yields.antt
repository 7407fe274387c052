-- ===== src/Exec/Yields.antt =====
-- What holds of the value of an action that ends well, one rule for each way to build the action.
use mathlib.Core.Path.{subst}
use hermes_local_hands.Base.{◌≡◌, refl, ap}
use hermes_local_hands.Errors.{Error, Result, ok, err}
use hermes_local_hands.Exec.{Exec, pure, raise, continue, ◌>>=◌, bind-eq-ok, pure-eq-ok}
use hermes_local_hands.Exec.Moves.{Moves, IsPreorder}

pub record Yields {S A : Type 0} (P : A → Type 0) (m : Exec S A) : Type 0 where
  pub at : (s t : S) (a : A) → m s ≡ (ok a, t) → P a

module _ {S A : Type 0} (P : A → Type 0) where
  pub Yields-pure : (a : A) → P a → Yields {S = S} P (pure a)
  Yields-pure a h = record { at = λ s t b e. subst P (pure-eq-ok a s e) h }

  pub Yields-raise : (x : Error) → Yields {S = S} P (raise x)
  unfolding raise
  Yields-raise x = record { at = λ s t b e. cc (ap (λ (r : Result A × S). r.0) e) }

module _ {S A B : Type 0} where
  pub Yields-bind :
      (P : B → Type 0) (m : Exec S A) (f : A → Exec S B)
      → ((a : A) → Yields P (f a))
      → Yields P (m >>= f)
  Yields-bind P m f k = record {
    at = λ s t b h. let (a, u, e, l) = bind-eq-ok m f s h in (k a).at u t b l;
  }

  -- The rest of an action may rely on what its beginning yields.
  pub Moves-bind_yielded :
      {R : S → S → Type 0} (p : IsPreorder R) (P : A → Type 0) (m : Exec S A) (f : A → Exec S B)
      → Moves R m
      → Yields P m
      → ((a : A) → P a → Moves R (f a))
      → Moves R (m >>= f)
  unfolding ◌>>=◌
  Moves-bind_yielded {R} p P m f k y l = record { at = λ s. go s (m s) refl (k.at s) }
    where
      go : (s : S) (r : Result A × S) → m s ≡ r → R s r.1 → R s (continue f r).1
      go s (ok a, t) e h = p.follow s t (f a t).1 h ((l a (y.at s t a e)).at t)
      go s (err x, t) e h = h
