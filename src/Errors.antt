-- ===== src/Errors.antt =====
-- src/hermes_local_hands/errors.py, and Python's exceptions as results of state-passing code.
pub mod Ends
use hermes_local_hands.Base.{◌≡◌, refl, ◌⊎◌, inl, inr, String, Bool, true, false}

-- One constructor for each exception class that the modelled code raises or catches.
pub data Error : Type 0 where
  policy_error authentication_error not_found_error conflict_error : String → Error
  unsafe_path_error execution_error uncertain_execution_error : String → Error
  value_error os_error file_not_found_error other_error : String → Error

-- `isinstance(exc, PolicyError)`: `UnsafePathError` is a subclass.
unfoldable pub is_policy_error : Error → Bool
is_policy_error (policy_error m) = true
is_policy_error (unsafe_path_error m) = true
is_policy_error _ = false

-- `isinstance(exc, ExecutionError)`: `UncertainExecutionError` is a subclass.
unfoldable pub is_execution_error : Error → Bool
is_execution_error (execution_error m) = true
is_execution_error (uncertain_execution_error m) = true
is_execution_error _ = false

pub data Result {ℓ} (A : Type ℓ) : Type ℓ where
  -- the exception that was raised
  err : Error → Result A
  ok : A → Result A

pub Result-cases {ℓ} :
    {A : Type ℓ} (r : Result A) → ((a : A) × (r ≡ ok a)) ⊎ ((e : Error) × (r ≡ err e))
Result-cases (ok a) = inl (a, refl)
Result-cases (err e) = inr (e, refl)

pub ok-injective {ℓ} : {A : Type ℓ} {a b : A} → ok a ≡ ok b → a ≡ b
ok-injective h = cc

pub ok-ne-err {ℓ} : {A : Type ℓ} {a : A} {e : Error} → err e ≡ ok a → ⊥
ok-ne-err h = cc

-- `if test: raise error`
abbrev pub refuse_if : Bool → Error → Result (Unit {0})
refuse_if true e = err e
refuse_if false e = ok tt

-- Pure code that may raise, in `do` blocks.
module _ {ℓ κ} {A : Type ℓ} {B : Type κ} where
  infixl 5 ◌>>=◌ ◌>>◌
  abbrev pub ◌>>=◌ : Result A → (A → Result B) → Result B
  err raised >>= next = err raised
  ok value >>= next = next value

  abbrev pub ◌>>◌ : Result A → Result B → Result B
  first >> second = first >>= λ _. second

  -- A chain that ends well has passed each of its parts.
  pub >>=-eq-ok :
      {b : B} (first : Result A) (next : A → Result B)
      → (first >>= next) ≡ ok b
      → (a : A) × (first ≡ ok a) × (next a ≡ ok b)
  >>=-eq-ok (err raised) next h = cc
  >>=-eq-ok (ok value) next h = (value, refl, h)

pub refuse_if-eq-ok {ℓ} :
    {A : Type ℓ} (b : Bool) (e : Error) (r : Result A) {a : A}
    → (refuse_if b e >> r) ≡ ok a
    → (b ≡ false) × (r ≡ ok a)
refuse_if-eq-ok true e r h = cc
refuse_if-eq-ok false e r h = (refl, h)
