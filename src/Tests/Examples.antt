-- ===== src/Tests/Examples.antt =====
-- A library of Python, a signer, a database and requests to run the definitions on.
use hermes_local_hands.Base.{
  Text, codes, text_eq, text_eq_refl, Fields, field, end, Value, str, int, dict, ℕ, ◌≡◌, refl, ap,
  List, [], ◌∷◌, ◌++◌, length, Option, none, some, true, false, ◌==◌, if◌then◌else◌, arith,
}
use hermes_local_hands.Runtime.{Runtime}
use hermes_local_hands.Paths.Read.{Os}
use hermes_local_hands.Errors.{ok}
use hermes_local_hands.Models.{
  patch, RequestState, none_left, profile, WorkspacePolicy, PendingRequest,
}
use hermes_local_hands.Storage.{Db, RequestRow, request_fingerprint}
use hermes_local_hands.Storage.Requests.{Limits}
use hermes_local_hands.Receipts.{Signer, receipt_body}
use hermes_local_hands.Receipts.Chain.{BodyIsDetermined}

-- JSON in short: every text and every object behind its length.
abbrev mutual
  pub dump : Value → Text
  dump (str t) = length t ∷ t
  dump (int n) = n ∷ []
  dump (dict d) = length (dump_fields d) ∷ dump_fields d
  dump _ = []

  pub dump_fields : Fields → Text
  dump_fields end = []
  dump_fields (field k v rest) = dump v ++ dump_fields rest

-- The digest is the text itself, and times are one character.
abbrev pub plain : Runtime
plain = record {
  lower = λ t. t;
  upper = λ t. t;
  sha256 = λ t. t;
  json_dumps = dump;
  isoformat = λ n. n ∷ [];
  julianday = λ t. read t;
  describe = λ e. [];
  strip = λ t. t;
  redact = λ t. t;
  to_str = λ v. [];
  to_int = λ v. ok 0;
  decimal = λ c. none;
  decode_utf8 = λ t. some t;
  has_private_key = λ t. false;
  has_known_secret = λ t. false;
}
  where
    read : Text → Option ℕ
    read [] = none
    read (c ∷ cs) = some c

abbrev pub echo : Signer
echo = record { public_key_fingerprint = codes "key"; sign = λ m. m; verify = λ m s. text_eq m s }

pub echo_genuine : (m : Text) → echo.verify m (echo.sign m) ≡ true
echo_genuine m = text_eq_refl m

-- Two texts of one length with rests behind.
prefix_eq : (xs ys r r' : Text) → length xs ≡ length ys → xs ++ r ≡ ys ++ r' → (xs ≡ ys) × (r ≡ r')
prefix_eq [] [] r r' n h = (refl, h)
prefix_eq [] (y ∷ ys) r r' n h = absurd (omega arith)
prefix_eq (x ∷ xs) [] r r' n h = absurd (omega arith)
prefix_eq (x ∷ xs) (y ∷ ys) r r' n h =
    let (e, k) = prefix_eq xs ys r r' (omega arith) (cc) in (cc, k)

-- A text behind its length, with a rest behind.
abbrev frame : Text → Text → Text
frame xs r = length xs ∷ (xs ++ r)

frame_eq : (xs ys r r' : Text) → frame xs r ≡ frame ys r' → (xs ≡ ys) × (r ≡ r')
frame_eq xs ys r r' h = prefix_eq xs ys r r' (cc) (cc)

abbrev skip : Text → Text → Text
skip [] t = t
skip (x ∷ xs) [] = []
skip (x ∷ xs) (y ∷ ys) = skip xs ys

abbrev first : Text → ℕ
first [] = 0
first (x ∷ xs) = x

pub plain-BodyIsDetermined : BodyIsDetermined plain
unfolding receipt_body
plain-BodyIsDetermined s s' i i' t t' e e' p p' h h' k =
    let d = dump_fields p in
    let d' = dump_fields p' in
    let whole : s ∷ frame i (frame t (frame e (frame d (frame h []))))
        ≡ s' ∷ frame i' (frame t' (frame e' (frame d' (frame h' [])))) =
      ap (skip (0 ∷ 0 ∷ codes "hermes-local-hands.receipt")) k in
    let (ids, k1) = frame_eq i i' _ _ (ap (skip (0 ∷ [])) whole) in
    let (times, k2) = frame_eq t t' _ _ k1 in
    let (events, k3) = frame_eq e e' _ _ k2 in
    let (payloads, k4) = frame_eq d d' _ _ k3 in
    let (hashes, k5) = frame_eq h h' _ _ k4 in
    (ap first whole, ids, times, events, ap (λ x. length x ∷ x) payloads, hashes)

-- A file of two bytes, "hi", in a directory: the fifth call reads it, and the next finds its end.
abbrev pub files : Os
files = record {
  is_supported = true;
  open_root = λ n root. ok 3;
  open_directory = λ n parent name. ok 4;
  open_file = λ n parent name. ok 5;
  fstat = λ n fd. ok (record {
    st_dev = 1;
    st_ino = 1;
    st_mode = 1;
    st_size = 2;
    st_mtime_ns = 1;
    st_ctime_ns = 1;
  });
  read = λ n fd size. if n == 4 then ok (codes "hi") else ok [];
  close = λ n fd. ok tt;
  is_regular = λ mode. true;
}

abbrev pub policy : WorkspacePolicy
policy = record {
  workspace_id = codes "app";
  root = codes "/srv/app";
  read_allowlist = codes "docs" ∷ [];
  test_profiles = profile (codes "unit") (codes "make" ∷ []) none_left;
  max_read_bytes = 100;
  write_allowlist = codes "docs" ∷ [];
}

-- A request of the client "ana" under the key "k1".
abbrev pub request_of : Text → RequestState → PendingRequest
request_of id state = record {
  request_id = id;
  kind = patch;
  workspace_id = codes "app";
  payload = end;
  idempotency_key = codes "k1";
  base_head = codes "head";
  policy_hash = codes "p";
  state = state;
  created_at = 1 ∷ [];
  client_id = codes "ana";
  expires_at = 9 ∷ [];
  result = none;
}

abbrev pub row_of : Text → RequestState → RequestRow
row_of id state = record {
  request = request_of id state;
  request_fingerprint = request_fingerprint plain (request_of id state);
}

-- One workspace, granted to "ana", and the rows given.
abbrev pub db_with : List RequestRow → Db
db_with rows = record {
  clients = record { client_id = codes "ana"; token_hash = codes "t"; created_at = 1 ∷ [] } ∷ [];
  workspaces = record { policy = policy; policy_hash = codes "p" } ∷ [];
  grants = record { client_id = codes "ana"; workspace_id = codes "app"; granted_at = 1 ∷ [] } ∷ [];
  requests = rows;
  receipts = [];
  signing_key = some (codes "key");
}

abbrev pub limits : Limits
limits = record {
  max_pending_per_client = 2;
  max_pending_global = 4;
  max_total_per_client = 8;
  max_total_requests = 16;
}
