-- ===== src/Service.antt =====
-- src/hermes_local_hands/service.py: the approval boundary. The service's actions run over a `World`:
-- the database, which a transaction rolls back, and what it does not roll back, the readings of the
-- clock, the random tokens drawn and the calls made to Git and to check profiles.
pub mod Identifiers
pub mod Clients
pub mod Requests
pub mod Approval
pub mod Patches
pub mod Execution
pub mod Views
pub mod Files
pub mod Policies
pub mod Register
pub mod Remote
pub mod Calls
pub mod Keeps
use hermes_local_hands.Base.{
  Text, codes, text_eq, Fields, field, end, str, ◌==◌, ◌&&◌, ℕ, ◌+◌, Bool, true, false, Option,
  none, some, List, [], ◌∷◌, ◌++◌, length, if◌then◌else◌,
}
use hermes_local_hands.Errors.{Error, Result, ok, err}
use hermes_local_hands.Exec.{Exec, pure, lift, gets, for_each, ◌>>=◌, ◌>>◌}
use hermes_local_hands.Runtime.{Runtime}
use hermes_local_hands.Models.{WorkspacePolicy}
use hermes_local_hands.Storage.{Db}
use hermes_local_hands.Storage.Requests.{expire_pending, mark_executing_uncertain}
use hermes_local_hands.Checkout.{Status, sanitized_status}
use hermes_local_hands.Paths.Read.{Os}
use hermes_local_hands.Patch.Validate.{PatchPlan, default_patch_limits, validate_patch}
use hermes_local_hands.Receipts
use hermes_local_hands.Receipts.{Signer, Receipt}

unfoldable pub texts_eq : List Text → List Text → Bool
unfolding text_eq
texts_eq [] [] = true
texts_eq (x ∷ xs) (y ∷ ys) = text_eq x y && texts_eq xs ys
texts_eq _ _ = false

-- `source_after == source_before`
unfoldable pub status_eq : Status → Status → Bool
unfolding texts_eq
status_eq a b = text_eq a.head b.head && text_eq a.branch b.branch && texts_eq a.changes b.changes

-- What the service asks of gitops.py, as a trace.
pub data HostCall : Type 0 where
  read_status : Text → HostCall
  read_path : Text → Text → HostCall
  check_patch : Text → Text → HostCall
  create_worktree : Text → Text → HostCall
  apply_in_snapshot : Text → Text → HostCall
  run_check : Text → List Text → HostCall

-- The answers of gitops.py, of the clock and of the source of tokens. The answers to `read_status`
-- may differ from call to call: they are indexed by the number of the calls before.
pub record Host : Type 0 where
  -- what `git branch`, `git status` and `git rev-parse` print
  pub git_branch : ℕ → Text → Result Text
  pub git_status : ℕ → Text → Result Text
  pub git_head : ℕ → Text → Result Text
  -- `git read-tree` and `git apply --cached --check` in a temporary index
  pub apply_check : Text → Text → Text → Result (Unit {0})
  pub managed_worktree : Text → Text → Text → Result Text
  -- `git apply --index`
  pub apply_patch : Text → Text → Result (Unit {0})
  pub run_profile : Text → List Text → ℕ → Result Fields
  -- the files of the workspaces, as the n-th call finds them
  pub os : ℕ → Os
  -- the n-th reading of `datetime.now(UTC)`, in microseconds
  pub time : ℕ → ℕ
  -- the n-th result of `secrets.token_urlsafe`
  pub token : ℕ → Text

pub record World : Type 0 where
  pub db : Db
  pub readings : ℕ
  pub drawn : ℕ
  pub calls : List HostCall

-- An operation of the store on the world's database.
unfoldable pub on_db {ℓ} : {A : Type ℓ} → (Db → Result A × Db) → World → Result A × World
on_db m w = let (r, db) = m w.db in (r, record w { db = db })

module _ {A : Type 0} where
  abbrev pub roll_back : World → Result A × World → Result A × World
  roll_back before (ok a, after) = (ok a, after)
  roll_back before (err e, after) = (err e, record after { db = before.db })

  -- `with self.store.transaction()`: an exception takes back the database alone.
  unfoldable pub transact : Exec World A → Exec World A
  transact m w = roll_back w (m w)

  abbrev pub handle : (Error → Exec World A) → Result A × World → Result A × World
  handle recover (ok a, w) = (ok a, w)
  handle recover (err e, w) = recover e w

  -- `try: m except Exception as exc: recover(exc)`
  unfoldable pub attempt : Exec World A → (Error → Exec World A) → Exec World A
  attempt m recover w = handle recover (m w)

-- A call of gitops.py, which is noted, and its answer.
unfoldable pub ask : {A : Type 0} → HostCall → (ℕ → Result A) → Exec World A
ask call answer w = (answer (length w.calls), record w { calls = w.calls ++ call ∷ [] })

module _ (py : Runtime) (signer : Signer) (host : Host) where
  -- `sanitized_status`, as the call with this number answers it
  unfoldable pub checkout_status : ℕ → Text → Result Status
  checkout_status n root =
      sanitized_status py (host.git_branch n root) (host.git_status n root) (host.git_head n root)

  -- `datetime.now(UTC)`
  unfoldable pub now_micros : Exec World ℕ
  now_micros w = (ok (host.time w.readings), record w { readings = w.readings + 1 })

  -- `_now()`
  unfoldable pub now : Exec World Text
  now = do micros ← now_micros; gets (λ w. py.isoformat micros)

  -- `secrets.token_urlsafe`
  unfoldable pub draw_token : Exec World Text
  draw_token w = (ok (host.token w.drawn), record w { drawn = w.drawn + 1 })

  -- `self.ledger.append(event, payload)`
  unfoldable pub record_event : Text → Fields → Exec World Receipt
  record_event event payload = do
    occurred_at ← now
    receipt_id ← draw_token
    on_db (Receipts.append py signer receipt_id occurred_at event payload)

  -- `check_patch_applies`, for a commit that is given
  unfoldable pub check_patch_applies : Text → Text → Text → List Text → Exec World PatchPlan
  check_patch_applies root text base_head allowlist = do
    plan ← lift (validate_patch py default_patch_limits (some allowlist) text)
    ask (check_patch root base_head) (λ n. host.apply_check root text base_head)
    pure plan

  -- `apply_patch`
  unfoldable pub apply_patch : Text → Text → Exec World (Unit {0})
  apply_patch worktree text = do
    lift (validate_patch py default_patch_limits none text)
    ask (apply_in_snapshot worktree text) (λ n. host.apply_patch worktree text)

  unfoldable pub record_expired : Text → Exec World (Unit {0})
  record_expired request_id = do
    record_event (codes "request.expired") (
        field (codes "request_id") (str request_id)
          (field (codes "reason") (str (codes "approval window expired")) end))
    gets (λ w. tt)

  unfoldable pub record_interrupted : Text → Exec World (Unit {0})
  record_interrupted request_id = do
    record_event (codes "request.uncertain") (
        field (codes "request_id") (str request_id)
          (field (codes "reason") (str (codes "execution was interrupted")) end))
    gets (λ w. tt)

  -- `_expire_due`
  unfoldable pub expire_due : Exec World (List Text)
  expire_due = transact (do
    t ← now
    expired ← on_db (expire_pending t)
    for_each record_expired expired
    gets (λ w. expired))

  -- `recover_interrupted`: the ids that expired, and those whose execution was interrupted
  unfoldable pub recover_interrupted : Exec World (List Text × List Text)
  recover_interrupted = transact (do
    t ← now
    expired ← on_db (expire_pending t)
    interrupted ← on_db mark_executing_uncertain
    for_each record_expired expired
    for_each record_interrupted interrupted
    gets (λ w. (expired, interrupted)))
