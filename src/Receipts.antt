-- ===== src/Receipts.antt =====
-- src/hermes_local_hands/receipts.py: the hash-chained, signed ledger over the table `receipts`. The
-- signing key is a parameter; `load_or_create` and the key file are not modelled.
pub mod Chain
use hermes_local_hands.Base.{
  Text, codes, text_eq, is_empty, Fields, field, end, str, int, dict, Value, ◌==◌, ◌||◌, ◌&&◌, ℕ,
  Bool, true, false, not, Option, none, some, List, [], ◌∷◌, ◌++◌, length, if◌then◌else◌,
}
use hermes_local_hands.Errors.{value_error, conflict_error}
use hermes_local_hands.Exec.{Exec, pure, gets, raise_if, transaction, ◌>>=◌, ◌>>◌}
use hermes_local_hands.Runtime.{Runtime}
use hermes_local_hands.Storage.{ReceiptRow, Db, genesis_hash}
use hermes_local_hands.Storage.Receipts.{
  last_receipt_hash, append_receipt, receipt_signing_key_fingerprint, pin_receipt_signing_key,
  assert_integrity, receipt_count,
}

abbrev pub receipt_schema : ℕ
receipt_schema = 1

-- `_RECEIPT_DOMAIN`: the name and a NUL
abbrev pub receipt_domain : Text
receipt_domain = codes "hermes-local-hands.receipt.v1" ++ 0 ∷ []

-- What a `ReceiptSigner` offers: an Ed25519 key of the library `cryptography`.
pub record Signer : Type 0 where
  pub public_key_fingerprint : Text
  pub sign : Text → Text
  -- `ReceiptSigner.verify(signer.public_key_b64, message, signature)`
  pub verify : Text → Text → Bool

pub record Receipt : Type 0 where
  pub receipt_id : Text
  pub sequence : ℕ
  pub occurred_at : Text
  pub event : Text
  pub payload : Fields
  pub previous_hash : Text
  pub receipt_hash : Text
  pub signature : Text
  pub schema : ℕ

-- The body that is hashed and signed.
unfoldable pub receipt_body : ℕ → Text → Text → Text → Fields → Text → Fields
receipt_body schema receipt_id occurred_at event payload previous =
    field (codes "domain") (str (codes "hermes-local-hands.receipt")) (
      field (codes "schema") (int schema) (
        field (codes "receipt_id") (str receipt_id) (
          field (codes "occurred_at") (str occurred_at) (
            field (codes "event") (str event) (
              field (codes "payload") (dict payload)
                (field (codes "previous_hash") (str previous) end))))))

module _ (py : Runtime) where
  unfoldable pub receipt_message : Fields → Text
  receipt_message body = receipt_domain ++ py.json_dumps (dict body)

  -- the message of a stored row, for the hash that should come before it
  unfoldable pub row_message : Text → ReceiptRow → Text
  unfolding receipt_message receipt_body
  row_message previous row =
      receipt_message
        (receipt_body row.schema row.receipt_id row.occurred_at row.event row.payload previous)

  unfoldable pub row_digest : Text → ReceiptRow → Text
  row_digest previous row = py.sha256 (row_message previous row)

is_unpinned : Option Text → Bool
is_unpinned none = true
is_unpinned (some k) = false

module _ (py : Runtime) (signer : Signer) where
  -- the tests of one turn of the loop of `_verify_receipts`
  unfoldable pub row_verifies : Text → ReceiptRow → Bool
  unfolding text_eq
  row_verifies previous row =
      row.schema == receipt_schema
      && text_eq row.previous_hash previous
      && text_eq row.receipt_hash (row_digest py previous row)
      && signer.verify (row_message py previous row) row.signature

  unfoldable pub verify_rows : Text → List ReceiptRow → Bool
  verify_rows previous [] = true
  verify_rows previous (row ∷ rows) =
      row_verifies previous row && verify_rows (row_digest py previous row) rows

  unfoldable pub key_is_pinned : Option Text → Bool
  unfolding text_eq
  key_is_pinned none = false
  key_is_pinned (some pinned) = text_eq pinned signer.public_key_fingerprint

  -- `_verify_receipts(store, signer, require_pinned_key=…)`
  unfoldable pub verify_receipts : Bool → Exec Db Bool
  unfolding verify_rows key_is_pinned
  verify_receipts require_pinned_key = gets (λ db.
      if require_pinned_key && not (key_is_pinned db.signing_key)
      then false
      else verify_rows genesis_hash db.receipts)

  -- The row that `append` writes behind `previous`.
  unfoldable pub signed_row : Text → Text → Text → Fields → Text → ReceiptRow
  unfolding receipt_message receipt_body
  signed_row receipt_id occurred_at event payload previous =
      let message =
        receipt_message py
          (receipt_body receipt_schema receipt_id occurred_at event payload previous) in
      record {
        schema = receipt_schema;
        receipt_id = receipt_id;
        occurred_at = occurred_at;
        event = event;
        payload = payload;
        previous_hash = previous;
        receipt_hash = py.sha256 message;
        signature = signer.sign message;
      }

  receipt_of : ReceiptRow → ℕ → Receipt
  receipt_of row sequence = record {
    receipt_id = row.receipt_id;
    sequence = sequence;
    occurred_at = row.occurred_at;
    event = row.event;
    payload = row.payload;
    previous_hash = row.previous_hash;
    receipt_hash = row.receipt_hash;
    signature = row.signature;
    schema = row.schema;
  }

  -- `ReceiptLedger.append`; the id is `secrets.token_urlsafe(16)`, and the time is given.
  unfoldable pub append : Text → Text → Text → Fields → Exec Db Receipt
  unfolding is_empty receipt_of
  append receipt_id occurred_at event payload = do
    raise_if (is_empty event) (value_error "receipt event is required")
    transaction (do
      previous ← last_receipt_hash
      let row = signed_row receipt_id occurred_at event payload previous
      sequence ← append_receipt row
      pure (receipt_of row sequence))

  -- `ReceiptLedger.verify`
  unfoldable pub verify : Exec Db Bool
  verify = verify_receipts true

  -- `ReceiptLedger.__init__`, with `verify_existing`; `quick_check` is SQLite's answer.
  unfoldable pub open_ledger : Bool → Bool → Exec Db (Unit {0})
  unfolding is_unpinned
  open_ledger quick_check verify_existing = do
    pinned ← receipt_signing_key_fingerprint
    count ← receipt_count
    verified ← verify_receipts false
    raise_if (is_unpinned pinned && not (count == 0) && not verified)
        (conflict_error "signing key cannot verify the existing unpinned ledger")
    pin_receipt_signing_key signer.public_key_fingerprint
    assert_integrity py quick_check
    intact ← verify
    raise_if (verify_existing && not (count == 0) && not intact)
        (conflict_error "existing receipt ledger failed cryptographic verification")
