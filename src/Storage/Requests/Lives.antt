-- ===== src/Storage/Requests/Lives.antt =====
-- One request in a table that changes: its row is found again, and a settled row never changes.
use mathlib.Core.Path.{subst}
use hermes_local_hands.Base.{
  Text, some, true, List, [], ◌∷◌, ◌≡◌, refl, ◌∙◌, find, inl, inr, Bool-cases,
}
use hermes_local_hands.Models.States.{Leads, here, step, is_terminal, Next-not-terminal}
use hermes_local_hands.Storage.{RequestRow}
use hermes_local_hands.Storage.Requests.{is_request, with_state}
use hermes_local_hands.Storage.Evolves.{Follows, kept, moved, Grows}

Follows-is_request :
    (id : Text) {a b : RequestRow} → Follows a b → is_request id b ≡ is_request id a
Follows-is_request id kept = refl
Follows-is_request id (moved s r n h) =
    Follows-is_request id h ∙ unfold is_request with_state in refl

-- The life of a row runs along the transitions of a request.
pub Follows-Leads : {a b : RequestRow} → Follows a b → Leads a.request.state b.request.state
unfolding with_state
Follows-Leads kept = here
Follows-Leads {a} {b} (moved s r n h) = step {c = b.request.state} n (Follows-Leads h)

-- A settled row is never written again.
pub Follows-terminal : {a b : RequestRow} → Follows a b → is_terminal a.request.state ≡ true → b ≡ a
Follows-terminal kept t = refl
Follows-terminal (moved s r n h) t = cc (t, Next-not-terminal n)

-- The row of a request is found again, and follows the one before.
pub find-Grows :
    (id : Text) (rows later : List RequestRow) (row : RequestRow)
    → Grows rows later
    → find (is_request id) rows ≡ some row
    → (row' : RequestRow) × (find (is_request id) later ≡ some row') × Follows row row'
find-Grows id [] later row g h = cc
find-Grows id (x ∷ xs) [] row g h = absurd g
find-Grows id (x ∷ xs) (y ∷ ys) row g h = elim (Bool-cases (is_request id x)) [
  | inl same ↦
      let h' : some x ≡ some row = rw same at h in
      let e : x ≡ row = cc in
      (y, rw (Follows-is_request id g.0 ∙ same) refl, subst (λ z. Follows z y) e g.0)
  | inr other ↦
      let (row', found, f) = find-Grows id xs ys row g.1 (rw other at h) in
      (row', rw (Follows-is_request id g.0 ∙ other) found, f)
]
