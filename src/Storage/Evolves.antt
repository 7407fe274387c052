-- ===== src/Storage/Evolves.antt =====
-- How the database may change over time, whatever the operations and their order: requests are only
-- added and moved along their life, receipts are only appended, the pinned key stays.
pub mod Operations
use mathlib.Core.List.{append_assoc, append-nil}
use hermes_local_hands.Base.{
  ◌≡◌, refl, sym, ap, ◌∙◌, Bool, true, false, Text, Fields, Option, some, List, [], ◌∷◌, ◌++◌,
  arith, if◌then◌else◌,
}
use hermes_local_hands.Exec.Moves.{Moves, IsPreorder}
use hermes_local_hands.Models.{RequestState}
use hermes_local_hands.Models.States.{Next}
use hermes_local_hands.Storage.{RequestRow, ReceiptRow, Db}
use hermes_local_hands.Storage.Requests.{with_state, update_where}

-- What becomes of a row: it stays, or it makes a transition, which writes its state and its result
-- and nothing else, and goes on from there.
pub data Follows : RequestRow → RequestRow → Type 0 where
  kept : {a : RequestRow} → Follows a a
  moved :
      {a b : RequestRow} (state : RequestState) (result : Option Fields)
      → Next a.request.state state
      → Follows (with_state state result a) b
      → Follows a b

-- Every row stays where it is and is followed; new rows come behind.
abbrev pub Grows : List RequestRow → List RequestRow → Type 0
Grows [] ys = Unit
Grows (x ∷ xs) [] = ⊥
Grows (x ∷ xs) (y ∷ ys) = Follows x y × Grows xs ys

pub record Evolves (a b : Db) : Type 0 where
  pub requests : Grows a.requests b.requests
  pub receipts : (more : List ReceiptRow) × (b.receipts ≡ a.receipts ++ more)
  pub signing_key : (k : Text) → a.signing_key ≡ some k → b.signing_key ≡ some k

Follows-trans : {a b c : RequestRow} → Follows a b → Follows b c → Follows a c
Follows-trans kept k = k
Follows-trans (moved state result n h) k = moved state result n (Follows-trans h k)

pub Grows-refl : (xs : List RequestRow) → Grows xs xs
Grows-refl [] = tt
Grows-refl (x ∷ xs) = (kept, Grows-refl xs)

Grows-trans : (xs ys zs : List RequestRow) → Grows xs ys → Grows ys zs → Grows xs zs
Grows-trans [] ys zs h k = tt
Grows-trans (x ∷ xs) [] zs h k = absurd h
Grows-trans (x ∷ xs) (y ∷ ys) [] h k = absurd k
Grows-trans (x ∷ xs) (y ∷ ys) (z ∷ zs) h k = (Follows-trans h.0 k.0, Grows-trans xs ys zs h.1 k.1)

pub Grows-append : (xs ys : List RequestRow) → Grows xs (xs ++ ys)
Grows-append [] ys = tt
Grows-append (x ∷ xs) ys = (kept, Grows-append xs ys)

pub Grows-update :
    (test : RequestRow → Bool) (next_state : RequestState) (result : Option Fields)
    → ((row : RequestRow) → test row ≡ true → Next row.request.state next_state)
    → (rows : List RequestRow) → Grows rows (update_where test next_state result rows)
unfolding update_where
Grows-update test next_state result next [] = tt
Grows-update test next_state result next (row ∷ rows) =
    (go (test row) refl, Grows-update test next_state result next rows)
  where
    go :
        (b : Bool)
        → test row ≡ b
        → Follows row (if b then with_state next_state result row else row)
    go true h = moved next_state result (next row h) kept
    go false h = kept

pub Evolves-refl : (a : Db) → Evolves a a
Evolves-refl a = record {
  requests = Grows-refl a.requests;
  receipts = ([], sym (append-nil a.receipts));
  signing_key = λ k h. h;
}

pub Evolves-trans : (a b c : Db) → Evolves a b → Evolves b c → Evolves a c
Evolves-trans a b c h k =
    let (more, e) = h.receipts in
    let (more', e') = k.receipts in
    record {
      requests = Grows-trans a.requests b.requests c.requests h.requests k.requests;
      receipts = (more ++ more', e' ∙ ap (λ l. l ++ more') e ∙ append_assoc a.receipts more more');
      signing_key = λ x p. k.signing_key x (h.signing_key x p);
    }

pub Evolves-IsPreorder : IsPreorder Evolves
Evolves-IsPreorder = record { stay = Evolves-refl; follow = Evolves-trans }
