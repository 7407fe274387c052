-- ===== src/Service/Calls.antt =====
-- What an action of the service asks of Git and of check profiles: a remote client's actions only
-- look at the checkout.
pub mod Served
pub mod Approved
use mathlib.Core.List.{append_assoc, append-nil}
use hermes_local_hands.Base.{
  ℕ, Text, Fields, ◌≡◌, refl, sym, ap, ◌∙◌, Bool, true, false, Option, none, some, List, [], ◌∷◌,
  ◌++◌, all, arith, if◌then◌else◌,
}
use hermes_local_hands.Errors.{Error, Result, ok, err, not_found_error}
use hermes_local_hands.Exec.{Exec}
use hermes_local_hands.Exec.Moves.{Moves, IsPreorder, moves_rules}
use hermes_local_hands.Runtime.{Runtime}
use hermes_local_hands.Models.{RequestKind, PendingRequest}
use hermes_local_hands.Storage.{Db, WorkspaceRow}
use hermes_local_hands.Receipts.{Signer, Receipt}
use hermes_local_hands.Checkout.{Status}
use hermes_local_hands.Service.{
  HostCall, read_status, read_path, check_patch, check_patch_applies, World, Host, on_db, roll_back,
  transact, handle, attempt, ask, now_micros, now, draw_token, record_event, record_expired,
  record_interrupted, expire_due, recover_interrupted,
}
use hermes_local_hands.Service.Clients.{workspace_of, deny_unknown}
use hermes_local_hands.Service.Requests.{
  record_new, save_pending, save_request, propose_patch, link_payload, request_test, repo_status,
  require_clean,
}

-- The calls that create, change and run nothing.
unfoldable pub is_look : HostCall → Bool
is_look (read_status root) = true
is_look (read_path root path) = true
is_look (check_patch root head) = true
is_look _ = false

-- From one world to the other nothing but looks has been asked for.
pub record Looks (v w : World) : Type 0 where
  pub asked : (more : List HostCall) × (w.calls ≡ v.calls ++ more) × (all is_look more ≡ true)

all-append :
    (xs ys : List HostCall)
    → all is_look xs ≡ true
    → all is_look ys ≡ true
    → all is_look (xs ++ ys) ≡ true
all-append [] ys h k = k
all-append (x ∷ xs) ys h k = ground (arith, all-append xs ys)

Looks-same : (v w : World) → w.calls ≡ v.calls → Looks v w
Looks-same v w e = record { asked = ([], e ∙ sym (append-nil v.calls), refl) }

pub Looks-IsPreorder : IsPreorder Looks
Looks-IsPreorder = record {
  stay = λ w. Looks-same w w refl;
  follow = λ u v w h k.
      let (xs, e, a) = h.asked in
      let (ys, e', b) = k.asked in
      record {
        asked =
            (xs ++ ys, e' ∙ ap (λ c. c ++ ys) e ∙ append_assoc u.calls xs ys, all-append xs ys a b);
      };
}

pub Looks-on_db : {A : Type 0} (m : Exec Db A) → Moves Looks (on_db m)
unfolding on_db
Looks-on_db m = record { at = λ w. Looks-same w _ refl }

module _ {A : Type 0} where
  pub Looks-transact : (m : Exec World A) → Moves Looks m → Moves Looks (transact m)
  unfolding transact
  Looks-transact m k = record { at = λ w. go w (m w) (k.at w) }
    where
      go : (w : World) (r : Result A × World) → Looks w r.1 → Looks w (roll_back w r).1
      go w (ok a, v) h = h
      go w (err e, v) h = record { asked = h.asked }

  pub Looks-attempt :
      (m : Exec World A) (recover : Error → Exec World A)
      → Moves Looks m
      → ((e : Error) → Moves Looks (recover e))
      → Moves Looks (attempt m recover)
  unfolding attempt
  Looks-attempt m recover k l = record { at = λ w. go w (m w) (k.at w) }
    where
      go : (w : World) (r : Result A × World) → Looks w r.1 → Looks w (handle recover r).1
      go w (ok a, v) h = h
      go w (err e, v) h = Looks-IsPreorder.follow w v _ h ((l e).at v)

  pub Looks-ask :
      (call : HostCall) (answer : ℕ → Result A)
      → is_look call ≡ true
      → Moves Looks (ask call answer)
  unfolding ask
  Looks-ask call answer h = record { at = λ w. record { asked = (call ∷ [], refl, ground arith) } }

pub ruleset looks_rules =
    (Looks-IsPreorder, Looks-on_db, Looks-transact, Looks-attempt, moves_rules)

module _ (py : Runtime) (signer : Signer) (host : Host) where
  Looks-now_micros : Moves Looks (now_micros py signer host)
  unfolding now_micros
  Looks-now_micros = record { at = λ w. Looks-same w _ refl }

  pub Looks-draw_token : Moves Looks (draw_token py signer host)
  unfolding draw_token
  Looks-draw_token = record { at = λ w. Looks-same w _ refl }

  pub Looks-now : Moves Looks (now py signer host)
  unfolding now
  Looks-now = search (looks_rules, Looks-now_micros) depth 20

  pub Looks-record_event :
      (event : Text) (d : Fields) → Moves Looks (record_event py signer host event d)
  unfolding record_event
  Looks-record_event event d = search (looks_rules, Looks-now, Looks-draw_token) depth 20

  pub Looks-check_patch_applies :
      (root text head : Text) (allowlist : List Text)
      → Moves Looks (check_patch_applies py signer host root text head allowlist)
  unfolding check_patch_applies is_look
  Looks-check_patch_applies root text head allowlist = search (looks_rules, Looks-ask) depth 20

  Looks-record_expired : (id : Text) → Moves Looks (record_expired py signer host id)
  unfolding record_expired
  Looks-record_expired id = search (looks_rules, Looks-record_event) depth 20

  pub Looks-expire_due : Moves Looks (expire_due py signer host)
  unfolding expire_due
  Looks-expire_due = search (looks_rules, Looks-now, Looks-record_expired) depth 20

Looks-deny_unknown : (e : Error) → Moves Looks (deny_unknown e)
unfolding deny_unknown
Looks-deny_unknown (not_found_error m) = search looks_rules depth 20
Looks-deny_unknown e = search looks_rules depth 20

pub Looks-workspace_of : (id : Text) (client : Option Text) → Moves Looks (workspace_of id client)
unfolding workspace_of
Looks-workspace_of id none = search looks_rules depth 20
Looks-workspace_of id (some c) = search (looks_rules, Looks-deny_unknown) depth 20

pub Looks-require_clean : (s : Status) → Moves Looks (require_clean s)
unfolding require_clean
Looks-require_clean s = search looks_rules depth 20

module _ (py : Runtime) (signer : Signer) (host : Host) where
  Looks-record_new : (b : Bool) (r : PendingRequest) → Moves Looks (record_new py signer host b r)
  unfolding record_new
  Looks-record_new false r = search looks_rules depth 20
  Looks-record_new true r = search (looks_rules, Looks-record_event) depth 20

  Looks-save_pending :
      (r : PendingRequest) (t : Text) → Moves Looks (save_pending py signer host r t)
  unfolding save_pending
  Looks-save_pending r t = search (looks_rules, Looks-record_new) depth 30

  Looks-save_request :
      (k : RequestKind) (w : Text) (d : Fields) (key c h p : Text)
      → Moves Looks (save_request py signer host k w d key c h p)
  unfolding save_request
  Looks-save_request k w d key c h p =
      search (looks_rules, Looks-now_micros, Looks-draw_token, Looks-save_pending) depth 30

  pub propose_patch-Looks :
      (id text key client : Text) → Moves Looks (propose_patch py signer host id text key client)
  unfolding propose_patch is_look
  propose_patch-Looks id text key client =
      search
        (
          looks_rules, Looks-ask, Looks-check_patch_applies, Looks-expire_due, Looks-workspace_of,
          Looks-require_clean, Looks-save_request,
        )
        depth 30

  Looks-link_payload :
      (o : Option Text) (c w p h : Text) (d : Fields)
      → Moves Looks (link_payload py signer host o c w p h d)
  unfolding link_payload
  Looks-link_payload none c w p h d = search looks_rules depth 20
  Looks-link_payload (some i) c w p h d = search looks_rules depth 20

  pub request_test-Looks :
      (id name key : Text) (n : ℕ) (client : Text) (linked : Option Text)
      → Moves Looks (request_test py signer host id name key n client linked)
  unfolding request_test is_look
  request_test-Looks id name key n client linked =
      search
        (
          looks_rules, Looks-ask, Looks-expire_due, Looks-workspace_of, Looks-require_clean,
          Looks-link_payload, Looks-save_request,
        )
        depth 30
