-- ===== src/Auth/Bearer.antt =====
-- Which headers hold a credential.
use hermes_local_hands.Base.{
  Text, String, codes, text_eq, text_eq_iff, is_empty, has_char, ◌==◌, ==_iff, ◌||◌, not, ℕ, ◌≡◌,
  ◌≢◌, ◌↔◌, refl, sym, ap, ◌∙◌, true, false, Bool-cases, inl, inr, Option, none, some, List, [],
  ◌∷◌, ◌++◌, arith,
}
use hermes_local_hands.Errors.{
  Error, ok, err, authentication_error, ◌>>=◌, ok-injective, ok-ne-err, >>=-eq-ok,
}
use hermes_local_hands.Runtime.{Runtime}
use hermes_local_hands.Auth.{
  Header, authorization_values, partition, the_only, bearer_token, bearer_from_headers,
}

-- The headers have one value for "authorization": the scheme, one space and the credential.
pub record IsBearer (py : Runtime) (headers : List Header) (token : Text) : Type 0 where
  pub scheme : Text
  pub only : authorization_values headers ≡ (scheme ++ 32 ∷ token) ∷ []
  pub one_word : has_char 32 scheme ≡ false
  pub named : py.lower scheme ≡ codes "bearer"
  pub full : token ≢ []
  pub stripped : py.strip token ≡ token

partition-append :
    (c : ℕ) (t : Text) → has_char c t ≡ false → (r : Text) → partition c (t ++ c ∷ r) ≡ (t, some r)
unfolding partition has_char
partition-append c [] h r = ground arith
partition-append c (x ∷ t) h r =
    let tail : partition c (t ++ c ∷ r) ≡ (t, some r) = partition-append c t (ground arith) r in
    let other : (x == c) ≡ false = ground arith in rw (tail, other) refl

partition-split :
    (c : ℕ) (t a r : Text) → partition c t ≡ (a, some r) → (t ≡ a ++ c ∷ r) × (has_char c a ≡ false)
unfolding partition has_char
partition-split c [] a r h = absurd (none-ne-some (ap (λ (p : Text × Option Text). p.1) h))
  where
    none-ne-some : {x : Text} → ◌≡◌ {A = Option Text} none (some x) → ⊥
    none-ne-some k = cc
partition-split c (x ∷ t) a r h = elim (Bool-cases (x == c)) [
  | inl same ↦
      let e : ◌≡◌ {A = Text × Option Text} ([], some t) (a, some r) = rw same at h in
      first c x t a r ((==_iff x c).0 same) e
  | inr other ↦
      let e : ◌≡◌ {A = Text × Option Text} (x ∷ (partition c t).0, (partition c t).1) (a, some r) =
        rw other at h in
      let tail : (partition c t).1 ≡ some r = ap (λ (p : Text × Option Text). p.1) e in
      let head : x ∷ (partition c t).0 ≡ a = ap (λ (p : Text × Option Text). p.0) e in
      let (f, g) =
        partition-split c t (partition c t).0 r
          (ap (λ (o : Option Text). ((partition c t).0, o)) tail) in
      later c x t a r (partition c t).0 f g head other
]
  where
    first :
        (c x : ℕ) (t a r : Text)
        → x ≡ c
        → ◌≡◌ {A = Text × Option Text} ([], some t) (a, some r)
        → (x ∷ t ≡ a ++ c ∷ r) × (has_char c a ≡ false)
    first c x t a r s e =
        let p : [] ≡ a = ap (λ (q : Text × Option Text). q.0) e in
        let k : some t ≡ some r = ap (λ (q : Text × Option Text). q.1) e in
        let l : t ≡ r = cc in (rw (sym p, l, s) refl, rw (sym p) refl)

    later :
        (c x : ℕ) (t a r b : Text)
        → t ≡ b ++ c ∷ r
        → has_char c b ≡ false
        → x ∷ b ≡ a
        → (x == c) ≡ false
        → (x ∷ t ≡ a ++ c ∷ r) × (has_char c a ≡ false)
    later c x t a r b f g e o = (rw (sym e) (ap (λ (y : Text). x ∷ y) f), rw (sym e, o) g)

the_only-eq-ok :
    (values : List Text) (value : Text) → the_only values ≡ ok value → values ≡ value ∷ []
unfolding the_only
the_only-eq-ok [] value h = absurd (ok-ne-err h)
the_only-eq-ok (x ∷ []) value h = ap (λ (y : Text). y ∷ []) (ok-injective h)
the_only-eq-ok (x ∷ y ∷ values) value h = absurd (ok-ne-err h)

is_empty_iff : (t : Text) → (is_empty t ≡ false) ↔ (t ≢ [])
unfolding is_empty
is_empty_iff [] = (λ h. cc, λ h. absurd (h refl))
is_empty_iff (x ∷ t) = (λ h. cc, λ h. refl)

module _ (py : Runtime) where
  bearer_token-IsBearer :
      (headers : List Header) (scheme : Text) (rest : Option Text) (token value : Text)
      → authorization_values headers ≡ value ∷ []
      → partition 32 value ≡ (scheme, rest)
      → bearer_token py scheme rest ≡ ok token
      → IsBearer py headers token
  unfolding bearer_token
  bearer_token-IsBearer headers scheme none token value only p h = absurd (ok-ne-err h)
  bearer_token-IsBearer headers scheme (some t) token value only p h =
      elim (Bool-cases (
        not (text_eq (py.lower scheme) (codes "bearer"))
        || is_empty t
        || not (text_eq (py.strip t) t))) [
          | inl bad ↦ absurd (ok-ne-err (rw bad at h))
          | inr good ↦
              let same : t ≡ token = ok-injective (rw good at h) in
              let (spelled, word) = partition-split 32 value scheme t p in
              let scheme_eq : text_eq (py.lower scheme) (codes "bearer") ≡ true = ground arith in
              let strip_eq : text_eq (py.strip t) t ≡ true = ground arith in
              let full : is_empty t ≡ false = ground arith in
              record {
                scheme = scheme;
                only =
                    only
                    ∙ ap (λ (v : Text). v ∷ [])
                        (spelled ∙ ap (λ (u : Text). scheme ++ 32 ∷ u) same);
                one_word = word;
                named = (text_eq_iff (py.lower scheme) (codes "bearer")).0 scheme_eq;
                full = (is_empty_iff token).0 (ap is_empty (sym same) ∙ full);
                stripped = ap py.strip (sym same) ∙ (text_eq_iff (py.strip t) t).0 strip_eq ∙ same;
              }
        ]

  IsBearer-bearer_token :
      (headers : List Header) (token : Text) (b : IsBearer py headers token)
      → bearer_token py b.scheme (some token) ≡ ok token
  unfolding bearer_token
  IsBearer-bearer_token headers token b =
      let scheme_eq = (text_eq_iff (py.lower b.scheme) (codes "bearer")).1 b.named in
      let strip_eq = (text_eq_iff (py.strip token) token).1 b.stripped in
      let full = (is_empty_iff token).1 b.full in rw (scheme_eq, full, strip_eq) refl

  -- `bearer_from_headers` returns a token exactly when there is one header named "authorization", in
  -- any case, and its value is a word that is "bearer" in lower case, one space, and the token, which is
  -- not empty and has no blank at its ends.
  pub bearer_from_headers_iff :
      (headers : List Header) (token : Text)
      → (bearer_from_headers py headers ≡ ok token) ↔ IsBearer py headers token
  unfolding bearer_from_headers the_only
  bearer_from_headers_iff headers token = (
    λ h.
        let (value, e, k) = >>=-eq-ok (the_only (authorization_values headers)) _ h in
        bearer_token-IsBearer headers (partition 32 value).0 (partition 32 value).1 token value
          (the_only-eq-ok (authorization_values headers) value e) refl k,
    λ b.
        rw (b.only, the_only, partition-append 32 b.scheme b.one_word token)
          (IsBearer-bearer_token headers token b),
  )

  -- A refusal is an `AuthenticationError`.
  pub bearer_from_headers-eq_err :
      (headers : List Header) (e : Error)
      → bearer_from_headers py headers ≡ err e
      → (m : String) × (e ≡ authentication_error m)
  unfolding bearer_from_headers bearer_token the_only
  bearer_from_headers-eq_err headers e h = refused (authorization_values headers) h
    where
      no_token :
          (scheme : Text) (rest : Option Text)
          → bearer_token py scheme rest ≡ err e
          → (m : String) × (e ≡ authentication_error m)
      no_token scheme none k = ("a bearer credential is required", cc k)
      no_token scheme (some t) k = ("a bearer credential is required", ground arith)

      refused :
          (values : List Text)
          → (the_only values >>= λ value.
              bearer_token py (partition 32 value).0 (partition 32 value).1)
            ≡ err e
          → (m : String) × (e ≡ authentication_error m)
      refused [] k = ("exactly one bearer credential is required", cc k)
      refused (x ∷ []) k = no_token (partition 32 x).0 (partition 32 x).1 k
      refused (x ∷ y ∷ values) k = ("exactly one bearer credential is required", cc k)
