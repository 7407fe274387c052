-- ===== src/Receipts/Chain.antt =====
-- The ledger verifies after every append, and its last hash commits to all of it.
use hermes_local_hands.Base.{
  ◌⊎◌, ◌↔◌, Text, text_eq_iff, text_eq_refl, Fields, dict, ℕ, true, List, [], ◌∷◌, ◌++◌, length,
  ◌≡◌, refl, sym, ◌∙◌, arith, any, Bool-cases, inl, inr, is_empty,
}
use hermes_local_hands.Errors.{ok}
use hermes_local_hands.Exec.{◌>>=◌, transaction}
use hermes_local_hands.Runtime.{Runtime}
use hermes_local_hands.Storage.{ReceiptRow, Db, genesis_hash}
use hermes_local_hands.Storage.Receipts.{append_receipt, chain_head, clashes, last_receipt_hash}
use hermes_local_hands.Receipts.{
  Signer, receipt_domain, receipt_body, receipt_message, row_message, row_digest, row_verifies,
  verify_rows, verify_receipts, key_is_pinned, signed_row, append, verify,
}

module _ (py : Runtime) (signer : Signer) where
  -- the digest that the next row has to name
  end_digest : Text → List ReceiptRow → Text
  end_digest previous [] = previous
  end_digest previous (row ∷ rows) = end_digest (row_digest py previous row) rows

  -- What `row_verifies` says of one row.
  row_facts :
      (previous : Text) (row : ReceiptRow)
      → row_verifies py signer previous row ≡ true
      → (row.previous_hash ≡ previous) × (row.receipt_hash ≡ row_digest py previous row)
  unfolding row_verifies
  row_facts previous row h = (
    (text_eq_iff row.previous_hash previous).0 (ground arith),
    (text_eq_iff row.receipt_hash (row_digest py previous row)).0 (ground arith),
  )

  -- In a ledger that verifies, the stored hash of the last row is the digest of the whole.
  chain_head-eq-end_digest :
      (previous : Text) (row : ReceiptRow) (rows : List ReceiptRow)
      → verify_rows py signer previous (row ∷ rows) ≡ true
      → chain_head (row ∷ rows) ≡ end_digest previous (row ∷ rows)
  unfolding verify_rows chain_head end_digest
  chain_head-eq-end_digest previous row [] h = (row_facts previous row (ground arith)).1
  chain_head-eq-end_digest previous row (next ∷ rows) h =
      chain_head-eq-end_digest (row_digest py previous row) next rows (ground arith)

  head_is_end :
      (rows : List ReceiptRow)
      → verify_rows py signer genesis_hash rows ≡ true
      → chain_head rows ≡ end_digest genesis_hash rows
  head_is_end [] h = unfold chain_head end_digest in refl
  head_is_end (row ∷ rows) h = chain_head-eq-end_digest genesis_hash row rows h

  verify_rows-append :
      (previous : Text) (rows : List ReceiptRow) (row : ReceiptRow)
      → verify_rows py signer previous rows ≡ true
      → row_verifies py signer (end_digest previous rows) row ≡ true
      → verify_rows py signer previous (rows ++ row ∷ []) ≡ true
  unfolding verify_rows end_digest
  verify_rows-append previous [] row h k = ground arith
  verify_rows-append previous (x ∷ xs) row h k =
      ground (arith, verify_rows-append (row_digest py previous x) xs row)

  signed_row-verifies :
      ((m : Text) → signer.verify m (signer.sign m) ≡ true)
      → (id time event : Text) (payload : Fields) (previous : Text)
      → row_verifies py signer previous (signed_row py signer id time event payload previous) ≡ true
  unfolding row_verifies signed_row row_digest row_message
  signed_row-verifies genuine id time event payload previous =
      rw (text_eq_refl previous, text_eq_refl, genuine) refl

  -- An append does nothing, or puts the signed row for the chain's head behind the others.
  append_effect :
      (id time event : Text) (payload : Fields) (db : Db)
      → ((append py signer id time event payload db).1 ≡ db)
        ⊎ ((append py signer id time event payload db).1 ≡ record db {
          receipts =
              db.receipts
              ++ signed_row py signer id time event payload (chain_head db.receipts) ∷ [];
        })
  unfolding append append_receipt last_receipt_hash signed_row ◌>>=◌ transaction
  append_effect id time event payload db = elim (Bool-cases (is_empty event)) [
    | inl empty ↦ inl (rw empty refl)
    | inr full ↦
        elim (Bool-cases (
          any (clashes (signed_row py signer id time event payload (chain_head db.receipts)))
            db.receipts)) [
              | inl clash ↦ inl (rw (full, text_eq_refl, clash) refl)
              | inr free ↦ inr (rw (full, text_eq_refl, free) refl)
            ]
  ]

  pub verify_iff :
      (db : Db)
      → ((verify py signer db).0 ≡ ok true) ↔ (
          (key_is_pinned py signer db.signing_key ≡ true)
          × (verify_rows py signer genesis_hash db.receipts ≡ true))
  unfolding verify verify_receipts ◌>>=◌
  verify_iff db = (λ h. ground arith, λ h. rw (h.0, h.1) refl)

  -- If signatures made by the signer verify, a ledger that verifies still verifies after an append,
  -- whether the append succeeds or is refused.
  pub verify-append :
      ((m : Text) → signer.verify m (signer.sign m) ≡ true)
      → (id time event : Text) (payload : Fields) (db : Db) → (verify py signer db).0 ≡ ok true
      → (verify py signer (append py signer id time event payload db).1).0 ≡ ok true
  verify-append genuine id time event payload db h = elim (append_effect id time event payload db) [
    | inl same ↦ rw same h
    | inr added ↦
        let (pinned, intact) = (verify_iff db).0 h in
        rw added (
          (verify_iff _).1 (
            pinned,
            verify_rows-append genesis_hash db.receipts _ intact (
                rw (← head_is_end db.receipts intact)
                  (signed_row-verifies genuine id time event payload (chain_head db.receipts))),
          ))
  ]

-- What one row says, apart from its signature.
pub record SameContent (py : Runtime) (a b : ReceiptRow) : Type 0 where
  pub schema : a.schema ≡ b.schema
  pub receipt_id : a.receipt_id ≡ b.receipt_id
  pub occurred_at : a.occurred_at ≡ b.occurred_at
  pub event : a.event ≡ b.event
  pub payload : py.json_dumps (dict a.payload) ≡ py.json_dumps (dict b.payload)
  pub previous_hash : a.previous_hash ≡ b.previous_hash
  pub receipt_hash : a.receipt_hash ≡ b.receipt_hash

abbrev pub SameContents : Runtime → List ReceiptRow → List ReceiptRow → Type 0
SameContents py [] [] = Unit
SameContents py (x ∷ xs) (y ∷ ys) = SameContent py x y × SameContents py xs ys
SameContents py [] (y ∷ ys) = ⊥
SameContents py (x ∷ xs) [] = ⊥

-- The canonical JSON text of a receipt's body determines the body's scalars and the canonical text
-- of its payload.
abbrev pub BodyIsDetermined : Runtime → Type 0
BodyIsDetermined py =
    (s s' : ℕ) (i i' t t' e e' : Text) (p p' : Fields) (h h' : Text)
    → py.json_dumps (dict (receipt_body s i t e p h))
      ≡ py.json_dumps (dict (receipt_body s' i' t' e' p' h'))
    → (s ≡ s')
      × (i ≡ i')
      × (t ≡ t')
      × (e ≡ e')
      × (py.json_dumps (dict p) ≡ py.json_dumps (dict p'))
      × (h ≡ h')

append_cancel : (xs ys zs : Text) → xs ++ ys ≡ xs ++ zs → ys ≡ zs
append_cancel [] ys zs h = h
append_cancel (x ∷ xs) ys zs h = append_cancel xs ys zs (cc)

module _ (py : Runtime) (signer signer' : Signer)
    (collision_free : (a b : Text) → py.sha256 a ≡ py.sha256 b → a ≡ b)
    (determined : BodyIsDetermined py) where
  digest_inverse :
      (p q : Text) (x y : ReceiptRow)
      → row_digest py p x ≡ row_digest py q y
      → (x.schema ≡ y.schema)
        × (x.receipt_id ≡ y.receipt_id)
        × (x.occurred_at ≡ y.occurred_at)
        × (x.event ≡ y.event)
        × (py.json_dumps (dict x.payload) ≡ py.json_dumps (dict y.payload))
        × (p ≡ q)
  unfolding row_digest row_message receipt_message
  digest_inverse p q x y h =
      determined _ _ _ _ _ _ _ _ _ _ _ _ (append_cancel receipt_domain _ _ (collision_free _ _ h))

  same_end :
      (p q : Text) (xs ys : List ReceiptRow)
      → verify_rows py signer p xs ≡ true
      → verify_rows py signer' q ys ≡ true
      → length xs ≡ length ys
      → end_digest py signer p xs ≡ end_digest py signer' q ys
      → (p ≡ q) × SameContents py xs ys
  unfolding verify_rows end_digest
  same_end p q [] [] v w n e = (e, tt)
  same_end p q [] (y ∷ ys) v w n e = absurd (omega arith)
  same_end p q (x ∷ xs) [] v w n e = absurd (omega arith)
  same_end p q (x ∷ xs) (y ∷ ys) v w n e =
      let (digests, rest) =
        same_end (row_digest py p x) (row_digest py q y) xs ys (ground arith) (ground arith)
          (omega arith) e in
      let (s, i, t, ev, pl, link) = digest_inverse p q x y digests in
      let (px, hx) = row_facts py signer p x (ground arith) in
      let (qy, hy) = row_facts py signer' q y (ground arith) in
      (
        link,
        (
          record {
            schema = s;
            receipt_id = i;
            occurred_at = t;
            event = ev;
            payload = pl;
            previous_hash = px ∙ link ∙ sym qy;
            receipt_hash = hx ∙ digests ∙ sym hy;
          },
          rest,
        ),
      )

  -- If SHA-256 has no collisions and the canonical JSON text determines a receipt's body, two ledgers
  -- that both verify, hold as many receipts and end in the same hash agree in every receipt: schema,
  -- id, time, event, payload text and both hashes. An edit of history changes the last hash.
  pub chain_head_commits :
      (a b : Db)
      → (verify py signer a).0 ≡ ok true
      → (verify py signer' b).0 ≡ ok true
      → length a.receipts ≡ length b.receipts
      → chain_head a.receipts ≡ chain_head b.receipts
      → SameContents py a.receipts b.receipts
  chain_head_commits a b v w n e =
      let (_, va) = (verify_iff py signer a).0 v in
      let (_, wb) = (verify_iff py signer' b).0 w in
      (same_end genesis_hash genesis_hash a.receipts b.receipts va wb n
        (sym (head_is_end py signer a.receipts va) ∙ e ∙ head_is_end py signer' b.receipts wb)).1
