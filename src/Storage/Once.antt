-- ===== src/Storage/Once.antt =====
-- What a client and an operator may rely on while the store is used as the service uses it: settled
-- requests, and claims for execution.
use mathlib.Core.Path.{subst}
use hermes_local_hands.Base.{
  Text, Fields, Option, some, Bool, true, false, List, [], ◌∷◌, ◌≡◌, refl, ap, ◌∙◌, ℕ, ◌==◌, arith,
  find, any, All, keep, length, Bool-cases, inl, inr, text_eq_iff, if◌then◌else◌,
}
use hermes_local_hands.Errors.{Error, ok, err, conflict_error, Result}
use hermes_local_hands.Exec.{◌>>=◌}
use hermes_local_hands.Runtime.{Runtime}
use hermes_local_hands.Models.{RequestState, pending, executing}
use hermes_local_hands.Models.States.{
  is_terminal, is_undecided, Leads, Leads-pending, state_eq, state_eq_sound,
}
use hermes_local_hands.Storage.{RequestRow, Db}
use hermes_local_hands.Storage.Requests.{
  is_request, in_state, with_state, update_where, is_claimable, claim_request_for_execution,
}
use hermes_local_hands.Storage.Requests.Lives.{Follows-Leads, Follows-terminal, find-Grows}
use hermes_local_hands.Storage.History.{
  Operation, KeepsLife, history, history-Evolves, op_claim, perform,
}
use hermes_local_hands.Storage.Sound.{IsSound, IsSoundRows}
use hermes_local_hands.Storage.Sound.Kept.{history-IsSound, perform-IsSound}

-- A request that has been rejected, has expired or has ended is found as it is after any operations
-- of the store that call `set_request_state` only for transitions of a request's life: none of them
-- writes its state, its result or anything else of it.
pub settled_request_stays :
    (py : Runtime) (ops : List Operation)
    → All KeepsLife ops
    → (db : Db) (id : Text) (row : RequestRow) → find (is_request id) db.requests ≡ some row
    → is_terminal row.request.state ≡ true
    → find (is_request id) (history py ops db).requests ≡ some row
settled_request_stays py ops n db id row h t =
    let later = history py ops db in
    let (row', found, f) =
      find-Grows id db.requests later.requests row (history-Evolves py ops n db).requests h in
    found ∙ ap some (Follows-terminal f t)

is_request_same : (id : Text) (x : RequestRow) → is_request id x ≡ true → x.request.request_id ≡ id
unfolding is_request
is_request_same id x h = (text_eq_iff x.request.request_id id).0 h

-- Where no row has the id, no test that asks for the id holds.
keep_none :
    (id : Text) (test : RequestRow → Bool)
    → ((x : RequestRow) → test x ≡ true → is_request id x ≡ true)
    → (rows : List RequestRow) → any (is_request id) rows ≡ false
    → keep test rows ≡ []
keep_none id test needs [] h = refl
keep_none id test needs (x ∷ xs) h = ground (arith, needs x, keep_none id test needs xs)

no_other :
    (id : Text) (x : RequestRow) (xs : List RequestRow)
    → is_request id x ≡ true
    → any (is_request x.request.request_id) xs ≡ false
    → any (is_request id) xs ≡ false
no_other id x xs same h = subst (λ i. any (is_request i) xs ≡ false) (is_request_same id x same) h

is_request-with_state :
    (id : Text) (s : RequestState) (r : Option Fields) (x : RequestRow)
    → is_request id (with_state s r x) ≡ is_request id x
unfolding is_request with_state
is_request-with_state id s r x = refl

pending_undecided : (s : RequestState) → state_eq s pending ≡ true → is_undecided s ≡ true
unfolding is_undecided
pending_undecided s h = rw (state_eq_sound s pending h) refl

claimable_needs :
    (py : Runtime) (id now : Text) (db : Db) (x : RequestRow)
    → is_claimable py id now db x ≡ true
    → (is_request id x ≡ true) × (is_undecided x.request.state ≡ true)
unfolding is_claimable
claimable_needs py id now db x h = (
  unfold is_request in ground arith,
  pending_undecided x.request.state (unfold in_state in ground arith),
)

one_row :
    (n : ℕ) (e : Error)
    → ◌≡◌ {A = Result (Unit {0})} (if n == 1 then ok tt else err e) (ok tt)
    → n ≡ 1
one_row n e h = ground arith

executing_decided : (s : RequestState) → s ≡ executing → is_undecided s ≡ true → ⊥
unfolding is_undecided
executing_decided s e h = ground arith

left_pending :
    (a b : RequestRow)
    → a.request.state ≡ executing
    → Leads a.request.state b.request.state
    → is_undecided b.request.state ≡ false
left_pending a b e l = elim (Bool-cases (is_undecided b.request.state)) [
  | inr closed ↦ closed
  | inl open_still ↦
      let back : a.request.state ≡ b.request.state = Leads-pending l open_still in
      let still : is_undecided a.request.state ≡ true = ap is_undecided back ∙ open_still in
      absurd (executing_decided a.request.state e still)
]

-- An update that no row passes changes nothing.
update-none :
    (test : RequestRow → Bool) (s : RequestState) (r : Option Fields) (rows : List RequestRow)
    → keep test rows ≡ []
    → update_where test s r rows ≡ rows
unfolding update_where
update-none test s r [] h = refl
update-none test s r (x ∷ xs) h = ground (arith, update-none test s r xs)

module _ (py : Runtime) where
  -- An update of one row by a test on the id writes the row that is found by the id.
  find-update :
      (id : Text) (test : RequestRow → Bool)
      → ((x : RequestRow) → test x ≡ true → is_request id x ≡ true)
      → (s : RequestState) (r : Option Fields) (rows : List RequestRow) → IsSoundRows py rows
      → length (keep test rows) ≡ 1
      → (row : RequestRow) × (find (is_request id) (update_where test s r rows) ≡ some row)
        × (row.request.state ≡ s)
  unfolding update_where
  find-update id test needs s r [] h e = absurd (omega arith)
  find-update id test needs s r (x ∷ xs) h e = elim (Bool-cases (test x)) [
    | inl hit ↦ (
      with_state s r x,
      rw (hit, is_request-with_state, needs x hit) refl,
      unfold with_state in refl,
    )
    | inr miss ↦
        let e' : length (keep test xs) ≡ 1 = rw miss at e in
        elim (Bool-cases (is_request id x)) [
          | inl same ↦
              let gone : keep test xs ≡ [] =
                keep_none id test needs xs (no_other id x xs same h.1) in
              absurd (omega (arith, ap length gone))
          | inr other ↦
              let (row, f, st) = find-update id test needs s r xs h.3 e' in
              (row, rw (miss, other) f, st)
        ]
  ]

  -- A row that is found and is not pending leaves nothing to claim.
  nothing_to_claim :
      (id now : Text) (db : Db) (rows : List RequestRow) (row : RequestRow)
      → IsSoundRows py rows
      → find (is_request id) rows ≡ some row
      → is_undecided row.request.state ≡ false
      → keep (is_claimable py id now db) rows ≡ []
  nothing_to_claim id now db [] row h f u = refl
  nothing_to_claim id now db (x ∷ xs) row h f u = elim (Bool-cases (is_request id x)) [
    | inl same ↦
        let f' : some x ≡ some row = rw same at f in
        let e : x ≡ row = cc in
        let closed : is_claimable py id now db x ≡ false = ground (
          arith,
          claimable_needs py id now db x,
          ap (λ (z : RequestRow). is_undecided z.request.state) e,
        ) in
        rw closed (
          keep_none id (is_claimable py id now db) (λ z c. (claimable_needs py id now db z c).0) xs
            (no_other id x xs same h.1))
    | inr other ↦
        let closed : is_claimable py id now db x ≡ false =
          ground (arith, claimable_needs py id now db x) in
        rw closed (nothing_to_claim id now db xs row h.3 (rw other at f) u)
  ]

  -- What a claim does with the number of rows that it may move.
  claim_lem :
      (id now : Text) (result : Fields) (db : Db)
      → claim_request_for_execution py id now result db ≡ (
        (if length (keep (is_claimable py id now db) db.requests) == 1
            then ok tt
            else err (conflict_error "request is no longer eligible for local execution")),
        record db {
          requests = update_where (is_claimable py id now db) executing (some result) db.requests;
        },
      )
  unfolding claim_request_for_execution ◌>>=◌
  claim_lem id now result db =
      elim (Bool-cases (length (keep (is_claimable py id now db) db.requests) == 1)) [
        | inl one ↦ rw one refl
        | inr other ↦ rw other refl
      ]

  -- The row of a request that has just been claimed is executing.
  claimed_row :
      (id now : Text) (result : Fields) (db : Db)
      → IsSound py db
      → (claim_request_for_execution py id now result db).0 ≡ ok tt
      → (row : RequestRow) × (find
            (is_request id)
            (claim_request_for_execution py id now result db).1.requests
          ≡ some row)
        × (row.request.state ≡ executing)
  claimed_row id now result db h e = rw claim_lem (
      find-update id (is_claimable py id now db) (λ z c. (claimable_needs py id now db z c).0)
        executing (some result) db.requests h.rows (one_row _ _ (rw claim_lem at e)))

  claim-IsSound :
      (id now : Text) (result : Fields) (db : Db)
      → IsSound py db
      → IsSound py (claim_request_for_execution py id now result db).1
  unfolding perform
  claim-IsSound id now result db h = perform-IsSound py (op_claim id now result) db h

  -- In a sound database, after a claim of a request has succeeded, and after any further operations of
  -- the store that call `set_request_state` only for transitions of a request's life, every further
  -- claim of it is refused and changes nothing.
  pub claimed_once :
      (id now now' : Text) (result result' : Fields) (ops : List Operation)
      → All KeepsLife ops
      → (db : Db) → IsSound py db
      → (claim_request_for_execution py id now result db).0 ≡ ok tt
      → claim_request_for_execution py id now' result'
          (history py ops (claim_request_for_execution py id now result db).1)
        ≡ (
          err (conflict_error "request is no longer eligible for local execution"),
          history py ops (claim_request_for_execution py id now result db).1,
        )
  claimed_once id now now' result result' ops n db h e =
      let claimed = (claim_request_for_execution py id now result db).1 in
      let later = history py ops claimed in
      let (row, found, running) = claimed_row id now result db h e in
      let (row', found', f) =
        find-Grows id claimed.requests later.requests row
          (history-Evolves py ops n claimed).requests found in
      let sound : IsSound py later =
        history-IsSound py ops claimed (claim-IsSound id now result db h) in
      let none_left : keep (is_claimable py id now' later) later.requests ≡ [] =
        nothing_to_claim id now' later later.requests row' sound.rows found'
          (left_pending row row' running (Follows-Leads f)) in
      claim_lem id now' result' later
      ∙ rw (none_left, update-none _ executing (some result') later.requests none_left) refl
