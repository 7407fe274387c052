-- ===== src/Service/Keeps/Lifted.antt =====
-- From the database to the world: what the helpers of the service keep.
use hermes_local_hands.Base.{Text, Fields, ℕ, Bool, true, false, Option, none, some, List}
use hermes_local_hands.Errors.{Error, Result, ok, err, not_found_error}
use hermes_local_hands.Exec.{Exec}
use hermes_local_hands.Exec.Moves.{Moves, IsPreorder, moves_rules}
use hermes_local_hands.Runtime.{Runtime}
use hermes_local_hands.Storage.{Db}
use hermes_local_hands.Storage.Workspaces
use hermes_local_hands.Storage.Requests
use hermes_local_hands.Receipts.{Signer}
use hermes_local_hands.Service.{
  HostCall, World, Host, on_db, roll_back, transact, handle, attempt, ask, now_micros, now,
  check_patch_applies, apply_patch, draw_token, record_event, record_expired, record_interrupted,
  expire_due, recover_interrupted,
}
use hermes_local_hands.Service.Clients.{workspace_of, deny_unknown, event_if}
use hermes_local_hands.Service.Keeps.{StoreKeeps}

pub record OnDb (R : Db → Db → Type 0) (v w : World) : Type 0 where
  pub on : R v.db w.db

module _ {R : Db → Db → Type 0} (p : IsPreorder R) where
  pub OnDb-IsPreorder : IsPreorder (OnDb R)
  OnDb-IsPreorder = record {
    stay = λ w. record { on = p.stay w.db };
    follow = λ u v w h k. record { on = p.follow u.db v.db w.db h.on k.on };
  }

  pub OnDb-on_db : {A : Type 0} (m : Exec Db A) → Moves R m → Moves (OnDb R) (on_db m)
  unfolding on_db
  OnDb-on_db m k = record { at = λ w. record { on = k.at w.db } }

  pub OnDb-transact :
      {A : Type 0} (m : Exec World A) → Moves (OnDb R) m → Moves (OnDb R) (transact m)
  unfolding transact
  OnDb-transact {A} m k = record { at = λ w. go w (m w) (k.at w) }
    where
      go : (w : World) (r : Result A × World) → OnDb R w r.1 → OnDb R w (roll_back w r).1
      go w (ok a, v) h = h
      go w (err e, v) h = record { on = p.stay w.db }

  pub OnDb-attempt :
      {A : Type 0} (m : Exec World A) (recover : Error → Exec World A)
      → Moves (OnDb R) m
      → ((e : Error) → Moves (OnDb R) (recover e))
      → Moves (OnDb R) (attempt m recover)
  unfolding attempt
  OnDb-attempt {A} m recover k l = record { at = λ w. go w (m w) (k.at w) }
    where
      go : (w : World) (r : Result A × World) → OnDb R w r.1 → OnDb R w (handle recover r).1
      go w (ok a, v) h = h
      go w (err e, v) h = record { on = p.follow w.db v.db (recover e v).1.db h.on ((l e).at v).on }

  pub OnDb-ask :
      {A : Type 0} (call : HostCall) (answer : ℕ → Result A) → Moves (OnDb R) (ask call answer)
  unfolding ask
  OnDb-ask call answer = record { at = λ w. record { on = p.stay w.db } }

  workspace-Moves : (id : Text) → Moves R (Workspaces.workspace id)
  unfolding Workspaces.workspace
  workspace-Moves id = search (moves_rules, p) depth 20

  workspace_for_client-Moves : (c id : Text) → Moves R (Workspaces.workspace_for_client c id)
  unfolding Workspaces.workspace_for_client
  workspace_for_client-Moves c id = search (moves_rules, p) depth 20

  pub request-Moves : (id : Text) (c : Option Text) → Moves R (Requests.request id c)
  unfolding Requests.request
  request-Moves id c = search (moves_rules, p) depth 20

  deny_unknown-Moves : (e : Error) → Moves (OnDb R) (deny_unknown e)
  unfolding deny_unknown
  deny_unknown-Moves (not_found_error m) = search (moves_rules, OnDb-IsPreorder) depth 20
  deny_unknown-Moves e = search (moves_rules, OnDb-IsPreorder) depth 20

  pub workspace_of-Moves : (id : Text) (c : Option Text) → Moves (OnDb R) (workspace_of id c)
  unfolding workspace_of
  workspace_of-Moves id none =
      search (moves_rules, OnDb-IsPreorder, OnDb-on_db, workspace-Moves) depth 20
  workspace_of-Moves id (some c) =
      search
        (
          moves_rules, OnDb-IsPreorder, OnDb-on_db, OnDb-attempt, workspace_for_client-Moves,
          deny_unknown-Moves,
        )
        depth 20

pub ruleset on_db_rules =
    (OnDb-IsPreorder, OnDb-on_db, OnDb-transact, OnDb-attempt, OnDb-ask, moves_rules)

module _ (py : Runtime) (signer : Signer) (host : Host) {R : Db → Db → Type 0}
    (k : StoreKeeps py signer R) where
  pub now_micros-Moves : Moves (OnDb R) (now_micros py signer host)
  unfolding now_micros
  now_micros-Moves = record { at = λ w. record { on = k.preorder.stay w.db } }

  pub draw_token-Moves : Moves (OnDb R) (draw_token py signer host)
  unfolding draw_token
  draw_token-Moves = record { at = λ w. record { on = k.preorder.stay w.db } }

  pub now-Moves : Moves (OnDb R) (now py signer host)
  unfolding now
  now-Moves = search (on_db_rules, k, now_micros-Moves) depth 20

  pub record_event-Moves :
      (event : Text) (d : Fields) → Moves (OnDb R) (record_event py signer host event d)
  unfolding record_event
  record_event-Moves event d =
      search (on_db_rules, k, now-Moves, draw_token-Moves, k.append) depth 20

  pub check_patch_applies-Moves :
      (root text head : Text) (allowlist : List Text)
      → Moves (OnDb R) (check_patch_applies py signer host root text head allowlist)
  unfolding check_patch_applies
  check_patch_applies-Moves root text head allowlist = search (on_db_rules, k) depth 20

  pub apply_patch-Moves : (tree text : Text) → Moves (OnDb R) (apply_patch py signer host tree text)
  unfolding apply_patch
  apply_patch-Moves tree text = search (on_db_rules, k) depth 20

  record_expired-Moves : (id : Text) → Moves (OnDb R) (record_expired py signer host id)
  unfolding record_expired
  record_expired-Moves id = search (on_db_rules, k, record_event-Moves) depth 20

  record_interrupted-Moves : (id : Text) → Moves (OnDb R) (record_interrupted py signer host id)
  unfolding record_interrupted
  record_interrupted-Moves id = search (on_db_rules, k, record_event-Moves) depth 20

  pub expire_due-Moves : Moves (OnDb R) (expire_due py signer host)
  unfolding expire_due
  expire_due-Moves =
      search (on_db_rules, k, now-Moves, k.expire_pending, record_expired-Moves) depth 20

  pub recover_interrupted-Moves : Moves (OnDb R) (recover_interrupted py signer host)
  unfolding recover_interrupted
  recover_interrupted-Moves =
      search
        (
          on_db_rules, k, now-Moves, k.expire_pending, record_expired-Moves,
          record_interrupted-Moves,
        )
        depth 30

  pub event_if-Moves :
      (b : Bool) (event : Text) (d : Fields) → Moves (OnDb R) (event_if py signer host b event d)
  unfolding event_if
  event_if-Moves true event d = search (on_db_rules, k, record_event-Moves) depth 20
  event_if-Moves false event d = search (on_db_rules, k) depth 20
