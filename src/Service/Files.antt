-- ===== src/Service/Files.antt =====
-- Reading a file of a workspace: service.py, `read_file`.
pub mod Bounded
use hermes_local_hands.Base.{Text, has_char, ◌||◌, ℕ, Bool, Option, none, some, [], length}
use hermes_local_hands.Errors.{Result, ok, err, policy_error}
use hermes_local_hands.Exec.{Exec, pure, lift, raise_if, ◌>>=◌, ◌>>◌}
use hermes_local_hands.Runtime.{Runtime}
use hermes_local_hands.Models.{WorkspacePolicy}
use hermes_local_hands.Paths.{allowed_relative}
use hermes_local_hands.Paths.Read.{Walk, safe_read}
use hermes_local_hands.Receipts.{Signer}
use hermes_local_hands.Service.{World, Host, ask, read_path}
use hermes_local_hands.Service.Clients.{workspace_of}

-- What `read_file` returns.
pub record FileContent : Type 0 where
  pub path : Text
  pub content : Text
  pub bytes : ℕ

-- Nothing has been opened.
abbrev pub idle : Walk
idle = record { calls = 0; events = []; stack = [] }

module _ (py : Runtime) where
  -- `content.decode("utf-8", "strict")`
  unfoldable pub decoded : Text → Result Text
  decoded content = elim (py.decode_utf8 content) [
    | none ↦ err (policy_error "only strict UTF-8 text files are returned")
    | some text ↦ ok text
  ]

  -- `_contains_high_confidence_secret`
  unfoldable pub contains_high_confidence_secret : Text → Bool
  contains_high_confidence_secret text = py.has_private_key text || py.has_known_secret text

module _ (py : Runtime) (signer : Signer) (host : Host) where
  -- `safe_read`, on the files as the call with this number finds them
  unfoldable pub file_answer : WorkspacePolicy → Text → ℕ → Result Text
  file_answer policy path n =
      (safe_read (host.os n) py policy.root path policy.read_allowlist policy.max_read_bytes idle).0

  unfoldable pub read_file : Text → Text → Option Text → Exec World FileContent
  read_file workspace_id relative_path client_id = do
    workspace ← workspace_of workspace_id client_id
    path ← lift (allowed_relative py relative_path workspace.policy.read_allowlist)
    content ← ask (read_path workspace.policy.root path) (file_answer workspace.policy path)
    raise_if (has_char 0 content) (policy_error "binary files are not returned")
    text ← lift (decoded py content)
    raise_if (contains_high_confidence_secret py text)
        (policy_error "file appears to contain credential material and was not returned")
    pure (record { path = path; content = text; bytes = length content })
