-- ===== src/Tests/Service.antt =====
-- The service: a patch is proposed by a remote client, and approved and rejected by the operator.
use hermes_local_hands.Base.{
  Text, codes, end, ◌≡◌, refl, true, List, [], ◌∷◌, Fields, field, str, int, some,
}
use hermes_local_hands.Errors.{ok}
use hermes_local_hands.Exec.{◌>>=◌}
use hermes_local_hands.Runtime.{Runtime}
use hermes_local_hands.Models.{pending, succeeded, test, PendingRequest}
use hermes_local_hands.Storage.Requests
use hermes_local_hands.Storage.Receipts.{is_linked}
use hermes_local_hands.Service.Views.{request_view}
use hermes_local_hands.Service.Keeps.Histories.{HasHistory, act_all-HasHistory}
use hermes_local_hands.Storage.Sound.{IsSound}
use hermes_local_hands.Receipts.{verify, verify_receipts}
use hermes_local_hands.Service.{World, Host}
use hermes_local_hands.Service.Execution.{approve}
use hermes_local_hands.Service.Remote.{ToolCall, propose_patch, request_status, serve_all}
use hermes_local_hands.Service.Calls.{Looks}
use hermes_local_hands.Service.Calls.Served.{serve_all-Looks}
use hermes_local_hands.Service.Keeps
use hermes_local_hands.Service.Keeps.{Action, act_all}
use hermes_local_hands.Service.Keeps.Ledger.{ledger_stays_intact}
use hermes_local_hands.Service.Keeps.Sound.{database_stays-IsSound}
use hermes_local_hands.Tests.Examples.{
  plain, files, echo, echo_genuine, request_of, row_of, db_with,
}

abbrev host : Host
host = record {
  git_branch = λ n root. ok (codes "main");
  git_status = λ n root. ok [];
  git_head = λ n root. ok (codes "0123456789012345678901234567890123456789");
  apply_check = λ root text head. ok tt;
  managed_worktree = λ root id head. ok (codes "/state/tree");
  apply_patch = λ tree text. ok tt;
  run_profile = λ tree argv seconds. ok end;
  os = λ n. files;
  time = λ n. 2;
  token = λ n. codes "token";
}

abbrev world : World
world = record {
  db = db_with (row_of (codes "r1") pending ∷ []);
  readings = 0;
  drawn = 0;
  calls = [];
}

abbrev calls : List (Text × ToolCall)
calls =
    (codes "ana", propose_patch (codes "app") (codes "+x") (codes "k2"))
    ∷ (codes "ana", request_status (codes "r1"))
    ∷ []

abbrev actions : List Action
actions =
    Keeps.remote (codes "ana", propose_patch (codes "app") (codes "+x") (codes "k2"))
    ∷ Keeps.approve (codes "r1") (codes "no")
    ∷ Keeps.reject (codes "r1") (codes "not now")
    ∷ Keeps.recover_interrupted
    ∷ []

serve_all-Looks_example : Looks world (serve_all plain echo host calls world)
serve_all-Looks_example = serve_all-Looks plain echo host calls world

-- A digest whose first twelve characters the operator can type, and a check that waits for them.
abbrev typed : Runtime
typed = record plain { sha256 = λ t. codes "0123456789abcdef" }

abbrev waiting_world : World
waiting_world = record world {
  db = db_with (
      record {
        request = record (request_of (codes "r1") pending) {
          kind = test;
          payload =
              field (codes "profile") (str (codes "unit"))
                (field (codes "timeout_seconds") (int 5) end);
        };
        request_fingerprint = codes "0123456789abcdef";
      }
      ∷ []);
}

world_verifies : (verify plain echo world.db).0 ≡ ok true
unfolding verify verify_receipts ◌>>=◌
world_verifies = refl

ledger_stays_intact_example :
    (verify plain echo (act_all plain echo host actions world).db).0 ≡ ok true
ledger_stays_intact_example =
    ledger_stays_intact plain echo echo_genuine host actions world world_verifies

world-IsSound : IsSound plain world.db
unfolding is_linked
world-IsSound = record { rows = (refl, refl, refl, tt); linked = refl }

database_stays-IsSound_example : IsSound plain (act_all plain echo host actions world).db
database_stays-IsSound_example = database_stays-IsSound plain echo host actions world world-IsSound

act_all-HasHistory_example : HasHistory plain world.db (act_all plain echo host actions world).db
act_all-HasHistory_example = act_all-HasHistory plain echo host actions world

-- A check that has succeeded, with its output stored beside what may be shown.
abbrev checked : PendingRequest
checked = record (request_of (codes "r1") succeeded) {
  kind = test;
  payload = field (codes "profile") (str (codes "unit")) end;
  result =
      some (field (codes "output") (str (codes "secret")) (field (codes "exit_code") (int 0) end));
}

abbrev checked_world : World
checked_world = record world {
  db = db_with (record { request = checked; request_fingerprint = [] } ∷ []);
}

abbrev shown : Fields
shown = request_view checked (field (codes "profile") (str (codes "unit")) end)
