-- ===== src/Errors/Ends.antt =====
-- Results that are not the one of a loop that has run out of fuel.
use hermes_local_hands.Base.{◌≡◌, refl, Bool, true, false, if◌then◌else◌}
use hermes_local_hands.Errors.{Error, Result, ok, err, refuse_if, other_error, ◌>>=◌, ◌>>◌}

-- The error that a loop without fuel returns.
unfoldable pub is_fuel_error : Error → Bool
is_fuel_error (other_error m) = true
is_fuel_error _ = false

pub data Ends {ℓ} {A : Type ℓ} : Result A → Type ℓ where
  ends_ok : (a : A) → Ends (ok a)
  ends_err : (e : Error) → is_fuel_error e ≡ false → Ends (err e)

pub Ends->>= {ℓ κ} :
    {A : Type ℓ} {B : Type κ} (first : Result A) (next : A → Result B)
    → Ends first
    → ((a : A) → first ≡ ok a → Ends (next a))
    → Ends (first >>= next)
Ends->>= first next (ends_ok a) k = k a refl
Ends->>= first next (ends_err e h) k = ends_err e h

pub Ends->> {ℓ κ} :
    {A : Type ℓ} {B : Type κ} (first : Result A) (next : Result B)
    → Ends first
    → Ends next
    → Ends (first >> next)
Ends->> first next (ends_ok a) k = k
Ends->> first next (ends_err e h) k = ends_err e h

pub Ends-refuse_if : (b : Bool) (e : Error) → is_fuel_error e ≡ false → Ends (refuse_if b e)
Ends-refuse_if true e h = ends_err e h
Ends-refuse_if false e h = ends_ok tt

pub Ends-if {ℓ} :
    {A : Type ℓ} (b : Bool) (r s : Result A) → Ends r → Ends s → Ends (if b then r else s)
Ends-if true r s h k = h
Ends-if false r s h k = k
