-- ===== src/Tests/Receipts.antt =====
-- The ledger.
use hermes_local_hands.Base.{codes, end, ◌≡◌, refl, [], true}
use hermes_local_hands.Errors.{ok}
use hermes_local_hands.Exec.{◌>>=◌}
use hermes_local_hands.Storage.{Db}
use hermes_local_hands.Receipts.{verify, verify_receipts, append}
use hermes_local_hands.Receipts.Chain.{verify-append, chain_head_commits, SameContents}
use hermes_local_hands.Tests.Examples.{plain, echo, echo_genuine, plain-BodyIsDetermined, db_with}

-- A ledger of one receipt.
abbrev ledger : Db
ledger = (append plain echo (codes "i") (codes "t") (codes "client.created") end (db_with [])).1

empty_verifies : (verify plain echo (db_with [])).0 ≡ ok true
unfolding verify verify_receipts ◌>>=◌
empty_verifies = refl

ledger_verifies : (verify plain echo ledger).0 ≡ ok true
ledger_verifies =
    verify-append plain echo echo_genuine (codes "i") (codes "t") (codes "client.created") end
      (db_with []) empty_verifies

verify-append_example :
    (verify plain echo
      (append plain echo (codes "j") (codes "u") (codes "request.pending") end ledger).1).0
    ≡ ok true
verify-append_example =
    verify-append plain echo echo_genuine (codes "j") (codes "u") (codes "request.pending") end
      ledger ledger_verifies

chain_head_commits_example : SameContents plain ledger.receipts ledger.receipts
chain_head_commits_example =
    chain_head_commits plain echo echo (λ a b h. h) plain-BodyIsDetermined ledger ledger
      ledger_verifies ledger_verifies refl refl
