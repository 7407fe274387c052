-- ===== src/Tests/Storage.antt =====
-- The store.
use hermes_local_hands.Base.{
  codes, end, ◌≡◌, refl, List, [], ◌∷◌, none, some, find, All, is_empty, text_eq,
}
use hermes_local_hands.Errors.{ok, err, conflict_error}
use hermes_local_hands.Exec.{◌>>=◌, transaction}
use hermes_local_hands.Models.{PendingRequest, pending, rejected, executing, failed}
use hermes_local_hands.Models.States.{is_terminal, fail}
use hermes_local_hands.Storage.{Db, request_fingerprint}
use hermes_local_hands.Storage.Requests.{
  is_request, add_request, has_zero_limit, total_request_count, count_pending_requests,
  insert_request, store_request, new_row, insert_conflicts, claim_request_for_execution,
  is_claimable,
}
use hermes_local_hands.Storage.Receipts.{is_linked}
use hermes_local_hands.Storage.Evolves.{Evolves}
use hermes_local_hands.Storage.History.{
  Operation, KeepsLife, op_add_request, op_claim, op_set_state, op_expire, op_interrupt, history,
  history-Evolves,
}
use hermes_local_hands.Storage.Once.{settled_request_stays, claimed_once}
use hermes_local_hands.Storage.Sound.{IsSound}
use hermes_local_hands.Storage.Sound.Kept.{history-IsSound}
use hermes_local_hands.Storage.Quota.{Added, add_request-Added}
use hermes_local_hands.Storage.Retry.{add_request_twice}
use hermes_local_hands.Tests.Examples.{plain, request_of, row_of, db_with, limits}

abbrev fresh : PendingRequest
fresh = request_of (codes "r1") pending

-- The same content under another request id.
abbrev again : PendingRequest
again = request_of (codes "r2") pending

abbrev ops : List Operation
ops =
    op_add_request limits fresh
    ∷ op_claim (codes "r1") (3 ∷ []) end
    ∷ op_interrupt
    ∷ op_expire (9 ∷ [])
    ∷ op_set_state (codes "r1") executing failed none
    ∷ []

ops-KeepsLife : All KeepsLife ops
ops-KeepsLife = (tt, (tt, (tt, (tt, (fail, tt)))))

abbrev one_row : Db
one_row = db_with (row_of (codes "r1") pending ∷ [])

empty-IsSound : IsSound plain (db_with [])
unfolding is_linked
empty-IsSound = record { rows = tt; linked = refl }

one_row-IsSound : IsSound plain one_row
unfolding is_linked
one_row-IsSound = record { rows = (refl, refl, refl, tt); linked = refl }

history-Evolves_example : Evolves (db_with []) (history plain ops (db_with []))
history-Evolves_example = history-Evolves plain ops ops-KeepsLife (db_with [])

history-IsSound_example : IsSound plain (history plain ops (db_with []))
history-IsSound_example = history-IsSound plain ops (db_with []) empty-IsSound

settled_request_stays_example :
    find
      (is_request (codes "r1"))
      (history plain ops (db_with (row_of (codes "r1") rejected ∷ []))).requests
    ≡ some (row_of (codes "r1") rejected)
settled_request_stays_example =
    settled_request_stays plain ops ops-KeepsLife (db_with (row_of (codes "r1") rejected ∷ []))
      (codes "r1") (row_of (codes "r1") rejected) (unfold is_request in refl)
      (unfold is_terminal in refl)

claim_succeeds : (claim_request_for_execution plain (codes "r1") (3 ∷ []) end one_row).0 ≡ ok tt
unfolding claim_request_for_execution ◌>>=◌ is_claimable
claim_succeeds = refl

claimed_once_example :
    let claimed = (claim_request_for_execution plain (codes "r1") (3 ∷ []) end one_row).1 in
    claim_request_for_execution plain (codes "r1") (4 ∷ []) end (history plain ops claimed) ≡ (
      err (conflict_error "request is no longer eligible for local execution"),
      history plain ops claimed,
    )
claimed_once_example =
    claimed_once plain (codes "r1") (3 ∷ []) (4 ∷ []) end end ops ops-KeepsLife one_row
      one_row-IsSound claim_succeeds

add_succeeds : add_request plain limits fresh (db_with []) ≡ (ok fresh, one_row)
unfolding add_request ◌>>=◌ transaction insert_request store_request total_request_count
    count_pending_requests insert_conflicts new_row
add_succeeds = refl

add_request-Added_example : Added plain limits fresh (db_with []) fresh one_row
add_request-Added_example =
    add_request-Added plain limits fresh fresh (db_with []) one_row add_succeeds

add_request_twice_example : add_request plain limits again one_row ≡ (ok fresh, one_row)
unfolding is_empty has_zero_limit text_eq request_fingerprint
add_request_twice_example =
    add_request_twice plain limits fresh again fresh (db_with []) one_row add_succeeds refl refl
      refl refl refl
