-- ===== src/Lib.antt =====
-- Hermes Local Hands: the approval boundary, its store and its ledger.
--
-- The program lets remote clients ask for patches and checks of a registered checkout, and executes
-- a request only when the operator approves it locally. The remote tools (mcp_server.py) call the
-- service (service.py); the service keeps requests, clients and grants in the store (storage.py),
-- writes a signed receipt for what it does (receipts.py), decides on paths (paths.py) and has Git and
-- check profiles run (gitops.py). The paths below are those of src/hermes_local_hands/.
--
-- Base, Errors and Exec: texts as lists of code points, `dict` and JSON values (Base), the exceptions
--   of errors.py (Errors), and state-passing code that may raise (Exec), with `transaction` for
--   `Store.transaction`. Exec.Moves has the rules that show along which relation code leads.
-- Runtime: what is taken of Python's library and of SQLite's time functions, without a law.
-- Models: models.py. Models.States has the life of a request: the transitions between its states.
-- Paths: paths.py. Paths.Read has `safe_read`, over what the operating system answers (`Os`); a `Walk`
--   is its events and its local variables.
-- Patch: gitops.py, `validate_patch`. Patch.Headers, Patch.Hunks and Patch.Validate are the parser,
--   whose position is the list of the lines that are left; Patch.Grammar describes patches without it,
--   Patch.Sound and Patch.Ends have the proofs.
-- Checkout: gitops.py, `_parse_porcelain_status`, `sanitized_status` and `head`, of what Git prints.
-- Snapshot: gitops.py, `_archive_relative` and `_snapshot_plan`, of what Git prints; how Python reads
--   an integer from bytes is a parameter.
-- Storage: storage.py. A table is the list of its rows in insertion order, a database a record of
--   tables; an operation of `Store` is the function of its name, and SQL constraints are tests that
--   refuse the row. Storage.Clients, Storage.Workspaces, Storage.Requests and Storage.Receipts hold
--   the operations; Storage.History has them as data and runs any sequence of them; its
--   `KeepsLife` is the condition on `set_request_state`, which takes any two states.
-- Receipts: receipts.py. `append` hashes and signs over the last hash, `verify` walks the chain.
-- Service: service.py. A `World` is the database together with what a rollback does not take back:
--   the readings of the clock, the random tokens drawn and the calls made to gitops.py. Service.Clients,
--   Service.Register, Service.Requests, Service.Approval, Service.Execution, Service.Views and
--   Service.Files hold the actions, Service.Remote the tools of `MCPAdapter`. Service.Policies has the
--   checks of a policy that is registered; the parameter `Places` is the file system they ask.
--   Service.Keeps has the actions as data; its record `StoreKeeps` is what the service asks of the
--   store for a relation that all actions keep.
-- Auth: auth.py. A `Connection` is the world with the context variable and the messages sent; the ASGI
--   application behind the guard is any function on connections.
-- Tests: the theorems at concrete inputs, and runs of the definitions.
--
-- Bounds: recursion is on the structure of lists, but for three loops with fuel. Those over sections
-- and over hunks take one more unit than there are lines, and each round takes a line at least; that
-- of `safe_read` takes two more than the limit, and each round reads a byte at least. Two results below
-- show that they never run out. Numbers are natural
-- numbers without a width, as in Python; times are counted in microseconds.
--
-- Not modelled: what Git and check processes do and print, the clock and the source of tokens, which
-- are the parameter `Host`; the library functions of `Runtime`; the Ed25519 key, which is the parameter
-- `Signer`; opening, migrating and protecting the database file and the key file; the writing of
-- snapshots and their deletion; hermes_config.py, doctor.py, demo.py and cli.py, which are input and output or stand around
-- this core.
pub mod Base
pub mod Errors
pub mod Exec
pub mod Runtime
pub mod Models
pub mod Paths
pub mod Patch
pub mod Checkout
pub mod Snapshot
pub mod Storage
pub mod Receipts
pub mod Service
pub mod Auth
pub mod Tests
