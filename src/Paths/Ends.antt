-- ===== src/Paths/Ends.antt =====
-- The path checks raise no error of a loop's fuel.
use hermes_local_hands.Base.{Text, refl, List, [], ◌∷◌}
use hermes_local_hands.Errors.Ends.{
  is_fuel_error, Ends, ends_ok, ends_err, Ends->>=, Ends->>, Ends-refuse_if, Ends-if,
}
use hermes_local_hands.Runtime.{Runtime}
use hermes_local_hands.Paths.{normalise_relative, normalise_all, allowed_relative}

module _ (py : Runtime) where
  pub normalise_relative-Ends : (t : Text) → Ends (normalise_relative py t)
  unfolding normalise_relative is_fuel_error
  normalise_relative-Ends t = search (Ends-if, ends_err, ends_ok, refl) depth 10

  normalise_all-Ends : (ts : List Text) → Ends (normalise_all py ts)
  unfolding normalise_all
  normalise_all-Ends [] = ends_ok []
  normalise_all-Ends (t ∷ ts) =
      let rest = normalise_all-Ends ts in
      search (Ends->>=, normalise_relative-Ends, rest, ends_ok) depth 6

  pub allowed_relative-Ends :
      (path : Text) (allowlist : List Text) → Ends (allowed_relative py path allowlist)
  unfolding allowed_relative is_fuel_error
  allowed_relative-Ends path allowlist =
      search
        (
          Ends->>=, Ends->>, Ends-refuse_if, normalise_relative-Ends, normalise_all-Ends, ends_ok,
          refl,
        )
        depth 10
