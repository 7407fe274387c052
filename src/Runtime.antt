-- ===== src/Runtime.antt =====
-- What the modelled code takes from Python's library and from SQLite, as a parameter: the text and
-- time functions that are not under src/. No law is assumed here; the theorems that need one name it.
use hermes_local_hands.Errors.{Error, Result}
use hermes_local_hands.Base.{Text, Value, Option, ℕ, Bool}

pub record Runtime : Type 0 where
  -- `str.lower`
  pub lower : Text → Text
  -- `str.upper`
  pub upper : Text → Text
  -- `hashlib.sha256(value.encode()).hexdigest()`
  pub sha256 : Text → Text
  -- `json.dumps(value, sort_keys=True, separators=(",", ":"), ensure_ascii=False)`
  pub json_dumps : Value → Text
  -- `datetime.isoformat` of a UTC time, counted in microseconds
  pub isoformat : ℕ → Text
  -- SQLite's `julianday`; `none` is NULL
  pub julianday : Text → Option ℕ
  -- `f"{type(exc).__module__}.{type(exc).__qualname__}:{exc!s}"`
  pub describe : Error → Text
  -- `str.strip`
  pub strip : Text → Text
  -- the three calls of `re.sub` in `_safe_operator_text`, one after the other
  pub redact : Text → Text
  -- `str(value)` and `int(value)` of JSON values that are not texts, or not integers
  pub to_str : Value → Text
  pub to_int : Value → Result ℕ
  -- `bytes.decode("utf-8", "strict")`, `none` where it raises
  pub decode_utf8 : Text → Option Text
  -- `_PRIVATE_KEY.search` and `_KNOWN_SECRET.search`
  pub has_private_key : Text → Bool
  pub has_known_secret : Text → Bool
  -- the value of a decimal digit that is not ASCII: what `\d` matches and `int` reads
  pub decimal : ℕ → Option ℕ
