-- ===== src/Models/States.antt =====
-- The life of a request: the transitions that the service makes, and where they can lead.
use hermes_local_hands.Base.{◌≡◌, refl, Bool, true, false, arith}
use hermes_local_hands.Models.{
  RequestState, pending, approved, rejected, executing, succeeded, failed, expired, uncertain,
}

-- `==` of two states
unfoldable pub state_eq : RequestState → RequestState → Bool
state_eq pending pending = true
state_eq approved approved = true
state_eq rejected rejected = true
state_eq executing executing = true
state_eq succeeded succeeded = true
state_eq failed failed = true
state_eq expired expired = true
state_eq uncertain uncertain = true
state_eq _ _ = false

pub state_eq_sound : (a b : RequestState) → state_eq a b ≡ true → a ≡ b
unfolding state_eq
state_eq_sound pending b h = ground arith
state_eq_sound a b h = ground arith

-- One transition of the service.
pub data Next : RequestState → RequestState → Type 0 where
  reject : Next pending rejected
  expire : Next pending expired
  claim : Next pending executing
  succeed : Next executing succeeded
  fail : Next executing failed
  doubt : Next executing uncertain

-- Any number of transitions.
pub data Leads : RequestState → RequestState → Type 0 where
  here : {a : RequestState} → Leads a a
  step : {a b c : RequestState} → Next a b → Leads b c → Leads a c

pub Leads-trans : {a b c : RequestState} → Leads a b → Leads b c → Leads a c
Leads-trans here k = k
Leads-trans (step n h) k = step n (Leads-trans h k)

unfoldable pub is_terminal : RequestState → Bool
is_terminal pending = false
is_terminal executing = false
is_terminal _ = true

-- How far a request has come: it never goes back.
unfoldable pub is_undecided : RequestState → Bool
is_undecided pending = true
is_undecided _ = false

pub Next-not-terminal : {a b : RequestState} → Next a b → is_terminal a ≡ false
unfolding is_terminal
Next-not-terminal reject = refl
Next-not-terminal expire = refl
Next-not-terminal claim = refl
Next-not-terminal succeed = refl
Next-not-terminal fail = refl
Next-not-terminal doubt = refl

pub Leads-terminal : {a b : RequestState} → Leads a b → is_terminal a ≡ true → a ≡ b
Leads-terminal here h = refl
Leads-terminal (step n k) h = cc (Next-not-terminal n)

Next-ne-pending : {a b : RequestState} → Next a b → is_undecided b ≡ false
unfolding is_undecided
Next-ne-pending reject = refl
Next-ne-pending expire = refl
Next-ne-pending claim = refl
Next-ne-pending succeed = refl
Next-ne-pending fail = refl
Next-ne-pending doubt = refl

-- A request that is still pending has never left that state.
pub Leads-pending : {a b : RequestState} → Leads a b → is_undecided b ≡ true → a ≡ b
Leads-pending here h = refl
Leads-pending (step {a} {b} n k) h = let e : b ≡ _ = Leads-pending k h in cc (e, Next-ne-pending n)
