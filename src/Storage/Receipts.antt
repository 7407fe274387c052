-- ===== src/Storage/Receipts.antt =====
-- The tables `receipts` and `metadata`, and the checks at startup: src/hermes_local_hands/storage.py,
-- `last_receipt_hash` to `assert_integrity`.
use hermes_local_hands.Base.{
  Text, text_eq, ◌==◌, leb, ◌||◌, ◌&&◌, ℕ, Bool, true, not, Option, none, some, List, [], ◌∷◌, ◌++◌,
  any, all, length,
}
use hermes_local_hands.Errors.{value_error, conflict_error}
use hermes_local_hands.Exec.{Exec, gets, modify, raise_if, transaction, ◌>>=◌, ◌>>◌}
use hermes_local_hands.Runtime.{Runtime}
use hermes_local_hands.Storage.{
  GrantRow, RequestRow, ReceiptRow, Db, genesis_hash, request_fingerprint,
}
use hermes_local_hands.Storage.Clients.{client_exists}
use hermes_local_hands.Storage.Workspaces.{workspace_exists}

-- the hash in the last row
unfoldable pub chain_head : List ReceiptRow → Text
chain_head [] = genesis_hash
chain_head (row ∷ []) = row.receipt_hash
chain_head (row ∷ next ∷ rows) = chain_head (next ∷ rows)

unfoldable pub last_receipt_hash : Exec Db Text
unfolding chain_head
last_receipt_hash = gets (λ db. chain_head db.receipts)

-- UNIQUE `receipt_id`, `receipt_hash` and `previous_hash` (the index `receipts_one_child`)
unfoldable pub clashes : ReceiptRow → ReceiptRow → Bool
unfolding text_eq
clashes row old =
    text_eq old.receipt_id row.receipt_id
    || text_eq old.receipt_hash row.receipt_hash
    || text_eq old.previous_hash row.previous_hash

unfoldable pub append_receipt : ReceiptRow → Exec Db ℕ
unfolding last_receipt_hash clashes
append_receipt row = transaction (do
  head ← last_receipt_hash
  raise_if (not (text_eq head row.previous_hash)) (conflict_error "receipt chain head changed")
  clash ← gets (λ db. any (clashes row) db.receipts)
  raise_if clash (conflict_error "receipt chain append conflict")
  modify (λ db. record db { receipts = db.receipts ++ row ∷ [] })
  gets (λ db. length db.receipts))

unfoldable pub receipt_count : Exec Db ℕ
receipt_count = gets (λ db. length db.receipts)

unfoldable pub receipt_signing_key_fingerprint : Exec Db (Option Text)
receipt_signing_key_fingerprint = gets (λ db. db.signing_key)

-- `character in "0123456789abcdef"`
unfoldable pub is_hex_digit : ℕ → Bool
is_hex_digit c = (leb b'0' c && leb c b'9') || (leb b'a' c && leb c b'f')

-- The pinned key is set once, and never replaced.
unfoldable pub pin_or_compare : Text → Option Text → Exec Db (Unit {0})
pin_or_compare fingerprint none = modify (λ db. record db { signing_key = some fingerprint })
pin_or_compare fingerprint (some existing) =
    raise_if (not (text_eq existing fingerprint))
      (conflict_error "receipt signing key does not match the pinned key")

unfoldable pub pin_receipt_signing_key : Text → Exec Db (Unit {0})
unfolding is_hex_digit
pin_receipt_signing_key fingerprint = do
  raise_if (not (length fingerprint == 64) || any (λ c. not (is_hex_digit c)) fingerprint)
      (value_error "invalid signing-key fingerprint")
  transaction (do existing ← receipt_signing_key_fingerprint; pin_or_compare fingerprint existing)

-- The loop over the receipts: each row's `previous_hash` is the hash of the row before.
unfoldable pub is_linked : Text → List ReceiptRow → Bool
unfolding text_eq
is_linked previous [] = true
is_linked previous (row ∷ rows) =
    text_eq row.previous_hash previous && is_linked row.receipt_hash rows

-- `PRAGMA foreign_key_check` finds no row whose parent is missing.
unfoldable pub references_hold : Db → Bool
unfolding client_exists workspace_exists
references_hold db =
    all (λ (g : GrantRow). client_exists g.client_id db && workspace_exists g.workspace_id db)
      db.grants
    && all (λ (r : RequestRow). workspace_exists r.request.workspace_id db) db.requests

-- `quick_check` is the answer of SQLite's own check of the file.
unfoldable pub assert_integrity : Runtime → Bool → Exec Db (Unit {0})
unfolding references_hold is_linked
assert_integrity py quick_check = do
  raise_if (not quick_check) (conflict_error "SQLite integrity check failed")
  references ← gets references_hold
  raise_if (not references) (conflict_error "SQLite foreign-key integrity check failed")
  fingerprints ← gets (λ db.
      all
        (λ (row : RequestRow). text_eq row.request_fingerprint (request_fingerprint py row.request))
        db.requests)
  raise_if (not fingerprints) (conflict_error "stored request fingerprint mismatch")
  linked ← gets (λ db. is_linked genesis_hash db.receipts)
  raise_if (not linked) (conflict_error "stored receipt chain is forked or discontinuous")
