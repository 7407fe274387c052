-- ===== src/Service/Identifiers.antt =====
-- The patterns of service.py for identifiers, request ids and idempotency keys.
use hermes_local_hands.Base.{
  Text, ◌==◌, leb, ◌||◌, ◌&&◌, not, ℕ, Bool, false, String, [], ◌∷◌, all, length, if◌then◌else◌,
}
use hermes_local_hands.Errors.{Result, ok, err, policy_error}

-- [A-Za-z0-9]
unfoldable pub is_alphanumeric : ℕ → Bool
is_alphanumeric c =
    (leb b'A' c && leb c b'Z') || ((leb b'a' c && leb c b'z') || (leb b'0' c && leb c b'9'))

-- [A-Za-z0-9_.-]
unfoldable pub is_identifier_char : ℕ → Bool
unfolding is_alphanumeric
is_identifier_char c = is_alphanumeric c || (c == b'_' || (c == b'.' || c == b'-'))

-- ^[A-Za-z0-9][A-Za-z0-9_.-]{0,63}$
unfoldable pub is_identifier : Text → Bool
unfolding is_identifier_char
is_identifier [] = false
is_identifier (c ∷ rest) =
    is_alphanumeric c && (all is_identifier_char rest && leb (length rest) 63)

-- ^[A-Za-z0-9][A-Za-z0-9_.:-]{0,199}$
unfoldable pub is_idempotency_key : Text → Bool
unfolding is_identifier_char
is_idempotency_key [] = false
is_idempotency_key (c ∷ rest) =
    is_alphanumeric c
    && (all (λ d. is_identifier_char d || d == b':') rest && leb (length rest) 199)

-- ^[A-Za-z0-9_-]{8,200}$
unfoldable pub is_request_id : Text → Bool
unfolding is_alphanumeric
is_request_id t =
    all (λ c. is_alphanumeric c || (c == b'_' || c == b'-')) t
    && (leb 8 (length t) && leb (length t) 200)

-- The message names the label, "client id", "workspace id" or "check profile".
unfoldable pub validated_identifier : Text → String → Result Text
unfolding is_identifier
validated_identifier value label =
    if not (is_identifier value) then err (policy_error label) else ok value
