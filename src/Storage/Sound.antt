-- ===== src/Storage/Sound.antt =====
-- What every operation keeps: the fingerprints are those of the rows, no request id and no client's
-- idempotency key stands twice, and the receipts are linked from the genesis hash on.
pub mod Updates
pub mod Kept
use hermes_local_hands.Base.{
  Text, Fields, Option, none, some, Bool, true, false, not, ◌||◌, ◌&&◌, List, [], ◌∷◌, ◌++◌, ◌≡◌,
  refl, sym, ap, ◌∙◌, arith, any, any-append, or_false, text_eq, text_eq_iff, if◌then◌else◌,
}
use hermes_local_hands.Runtime.{Runtime}
use hermes_local_hands.Models.{RequestState, PendingRequest}
use hermes_local_hands.Storage.{RequestRow, ReceiptRow, Db, genesis_hash, request_fingerprint}
use hermes_local_hands.Storage.Requests.{
  is_request, has_key, of_client, with_state, update_where, new_row,
}
use hermes_local_hands.Storage.Receipts.{is_linked, chain_head}

module _ (py : Runtime) where
  abbrev pub IsSoundRows : List RequestRow → Type 0
  IsSoundRows [] = Unit
  IsSoundRows (x ∷ xs) =
      (x.request_fingerprint ≡ request_fingerprint py x.request)
      × (any (is_request x.request.request_id) xs ≡ false)
      × (any (has_key x.request.client_id x.request.idempotency_key) xs ≡ false)
      × IsSoundRows xs

  pub record IsSound (db : Db) : Type 0 where
    pub rows : IsSoundRows db.requests
    pub linked : is_linked genesis_hash db.receipts ≡ true

any-is_request-update :
    (id : Text) (test : RequestRow → Bool) (s : RequestState) (r : Option Fields)
    (rows : List RequestRow)
    → any (is_request id) (update_where test s r rows) ≡ any (is_request id) rows
unfolding update_where is_request with_state
any-is_request-update id test s r [] = refl
any-is_request-update id test s r (x ∷ xs) = ground (arith, any-is_request-update id test s r xs)

any-has_key-update :
    (c k : Text) (test : RequestRow → Bool) (s : RequestState) (r : Option Fields)
    (rows : List RequestRow)
    → any (has_key c k) (update_where test s r rows) ≡ any (has_key c k) rows
unfolding update_where has_key of_client with_state
any-has_key-update c k test s r [] = refl
any-has_key-update c k test s r (x ∷ xs) = ground (arith, any-has_key-update c k test s r xs)

text_eq_comm : (a b : Text) → text_eq a b ≡ text_eq b a
text_eq_comm a b = ground (arith, text_eq_iff a b, text_eq_iff b a)

is_request_comm :
    (r : PendingRequest) (x : RequestRow)
    → is_request r.request_id x ≡ false
    → text_eq r.request_id x.request.request_id ≡ false
unfolding is_request
is_request_comm r x h = text_eq_comm r.request_id x.request.request_id ∙ h

has_key_comm :
    (r : PendingRequest) (x : RequestRow)
    → has_key r.client_id r.idempotency_key x ≡ false
    → (text_eq r.client_id x.request.client_id
        && text_eq r.idempotency_key x.request.idempotency_key)
      ≡ false
unfolding has_key of_client
has_key_comm r x h = ground (
  arith,
  text_eq_comm r.client_id x.request.client_id,
  text_eq_comm r.idempotency_key x.request.idempotency_key,
)

module _ (py : Runtime) where
  pub update-IsSoundRows :
      (test : RequestRow → Bool) (s : RequestState) (r : Option Fields) (rows : List RequestRow)
      → IsSoundRows py rows
      → IsSoundRows py (update_where test s r rows)
  unfolding update_where with_state request_fingerprint
  update-IsSoundRows test s r [] h = tt
  update-IsSoundRows test s r (x ∷ xs) h = go (test x) (update-IsSoundRows test s r xs h.3)
    where
      go :
          (b : Bool)
          → IsSoundRows py (update_where test s r xs)
          → IsSoundRows py ((if b then with_state s r x else x) ∷ update_where test s r xs)
      go true tail = (h.0, rw any-is_request-update h.1, rw any-has_key-update h.2, tail)
      go false tail = (h.0, rw any-is_request-update h.1, rw any-has_key-update h.2, tail)

  pub append-IsSoundRows :
      (r : PendingRequest) (rows : List RequestRow)
      → IsSoundRows py rows
      → any (is_request r.request_id) rows ≡ false
      → any (has_key r.client_id r.idempotency_key) rows ≡ false
      → IsSoundRows py (rows ++ new_row py r ∷ [])
  unfolding new_row is_request has_key of_client
  append-IsSoundRows r [] h p q = (refl, refl, refl, tt)
  append-IsSoundRows r (x ∷ xs) h p q =
      let (p', ps) = or_false _ _ p in
      let (q', qs) = or_false _ _ q in
      (
        h.0,
        rw (any-append, h.1) (rw (is_request_comm r x p') refl),
        rw (any-append, h.2) (rw (has_key_comm r x q') refl),
        append-IsSoundRows r xs h.3 ps qs,
      )

-- The hash that the next receipt has to name.
unfoldable pub last_link : Text → List ReceiptRow → Text
last_link previous [] = previous
last_link previous (row ∷ rows) = last_link row.receipt_hash rows

pub chain_head-eq-last_link :
    (rows : List ReceiptRow) → chain_head rows ≡ last_link genesis_hash rows
unfolding chain_head last_link
chain_head-eq-last_link [] = refl
chain_head-eq-last_link (row ∷ []) = refl
chain_head-eq-last_link (row ∷ next ∷ rows) = chain_head-eq-last_link (next ∷ rows)

pub is_linked-append :
    (previous : Text) (rows : List ReceiptRow) (row : ReceiptRow)
    → is_linked previous rows ≡ true
    → text_eq (last_link previous rows) row.previous_hash ≡ true
    → is_linked previous (rows ++ row ∷ []) ≡ true
unfolding is_linked last_link
is_linked-append previous [] row h e = ground (arith, text_eq_comm previous row.previous_hash)
is_linked-append previous (x ∷ xs) row h e = ground (arith, is_linked-append x.receipt_hash xs row)
