-- ===== src/Service/Files/Bounded.antt =====
-- What a client that reads a file is given.
use mathlib.Core.Path.{subst}
use hermes_local_hands.Base.{
  Text, has_char, ℕ, ◌≡◌, refl, sym, ap, ◌∙◌, false, inl, inr, Option, some, length, arith,
}
use hermes_local_hands.Errors.{Result, ok, ok-injective, ok-ne-err}
use hermes_local_hands.Exec.{
  lift, raise_if, bind-eq-ok, lift-eq-ok, lift-state, pure-eq-ok, raise_if-eq-ok,
}
use hermes_local_hands.Runtime.{Runtime}
use hermes_local_hands.Models.{WorkspacePolicy}
use hermes_local_hands.Paths.{allowed_relative}
use hermes_local_hands.Paths.Allowed.{allowed_relative-IsBelow}
use hermes_local_hands.Paths.Read.Finishes.{Answers}
use hermes_local_hands.Paths.Read.Stable.{IsStable, safe_read-IsStable}
use hermes_local_hands.Storage.{WorkspaceRow}
use hermes_local_hands.Receipts.{Signer}
use hermes_local_hands.Service.{HostCall, World, Host, ask, read_path}
use hermes_local_hands.Service.Clients.{workspace_of}
use hermes_local_hands.Service.Files.{
  FileContent, idle, decoded, contains_high_confidence_secret, file_answer, read_file,
}

module _ (py : Runtime) (signer : Signer) (host : Host) where
  -- A file that was given for a path, of the workspace that the client reads in the world `w`. It was
  -- read by the calls of the operating system that answer the next call of the service.
  pub record Given (workspace_id relative_path : Text) (client : Option Text) (w : World)
      (f : FileContent) : Type 0 where
    pub workspace : WorkspaceRow
    pub after : World
    pub found : workspace_of workspace_id client w ≡ (ok workspace, after)
    pub same_path : f.path ≡ relative_path
    pub allowed :
        allowed_relative py relative_path workspace.policy.read_allowlist ≡ ok relative_path
    pub content : Text
    pub stable :
        IsStable
          (host.os (length after.calls))
          0
          workspace.policy.root
          relative_path
          workspace.policy.max_read_bytes
          content
    pub is_text : has_char 0 content ≡ false
    pub decodes : py.decode_utf8 content ≡ some f.content
    pub no_secret : contains_high_confidence_secret py f.content ≡ false
    pub size : f.bytes ≡ length content

  decoded-eq-ok :
      (content text : Text) → decoded py content ≡ ok text → py.decode_utf8 content ≡ some text
  unfolding decoded
  decoded-eq-ok content text h = ground arith

  ask-eq-ok :
      {A : Type 0} (call : HostCall) (answer : ℕ → Result A) (w v : World) {a : A}
      → ask call answer w ≡ (ok a, v)
      → answer (length w.calls) ≡ ok a
  unfolding ask
  ask-eq-ok {A = A} call answer w v h = ap (λ (p : Result A × World). p.0) h

  file_answer-IsStable :
      (answers : (n : ℕ) → Answers (host.os n)) (policy : WorkspacePolicy) (path content : Text)
      (n : ℕ)
      → file_answer py signer host policy path n ≡ ok content
      → IsStable (host.os n) 0 policy.root path policy.max_read_bytes content
  unfolding file_answer
  file_answer-IsStable answers policy path content n h =
      elim (safe_read-IsStable (host.os n) (answers n) py policy.root path policy.read_allowlist
        policy.max_read_bytes idle) [
          | inl (found, rel, e, allowed, stable) ↦
              let same : rel ≡ path =
                (allowed_relative-IsBelow py path policy.read_allowlist rel allowed).0 in
              let one : found ≡ content = ok-injective (sym e ∙ h) in
              subst
                (λ (p : Text). IsStable (host.os n) 0 policy.root p policy.max_read_bytes content)
                same
                (subst (IsStable (host.os n) 0 policy.root rel policy.max_read_bytes) one stable)
          | inr (x, e, f) ↦ absurd (ok-ne-err (sym e ∙ h))
        ]

  -- If `read_file` ends well, then the path is the one that was asked for, and the read allowlist of the
  -- workspace that this client reads in the given world allows it; the text is the UTF-8 decoding of
  -- content without a NUL byte, and holds no secret that the service knows. The content is that of the
  -- file at the path below the workspace's root, opened by one descriptor after the other: it was read
  -- to its end, it is no longer than the limit of the workspace, and the file's state was looked at
  -- directly before it was read, when it was regular, and directly after, when it was unchanged. It
  -- supposes that the operating system raises its own errors alone.
  pub read_file-Given :
      (answers : (n : ℕ) → Answers (host.os n)) (workspace_id relative_path : Text)
      (client : Option Text) (w v : World) (f : FileContent)
      → read_file py signer host workspace_id relative_path client w ≡ (ok f, v)
      → Given workspace_id relative_path client w f
  unfolding read_file
  read_file-Given answers workspace_id relative_path client w v f h =
      let (workspace, w1, e1, h1) = bind-eq-ok (workspace_of workspace_id client) _ w h in
      let (path, w2, e2, h2) =
        bind-eq-ok (lift (allowed_relative py relative_path workspace.policy.read_allowlist)) _ w1
          h1 in
      let (content, w3, e3, h3) =
        bind-eq-ok
          (ask (read_path workspace.policy.root path)
            (file_answer py signer host workspace.policy path))
          _ w2 h2 in
      let (_, w4, e4, h4) = bind-eq-ok (raise_if (has_char 0 content) _) _ w3 h3 in
      let (text, w5, e5, h5) = bind-eq-ok (lift (decoded py content)) _ w4 h4 in
      let (_, w6, e6, h6) =
        bind-eq-ok (raise_if (contains_high_confidence_secret py text) _) _ w5 h5 in
      let stable =
        file_answer-IsStable answers workspace.policy path content (length w2.calls)
          (ask-eq-ok _ _ w2 w3 e3) in
      let here : length w2.calls ≡ length w1.calls =
        ap (λ (u : World). length u.calls) (lift-state _ w1 e2) in
      given workspace w1 e1 path (lift-eq-ok _ w1 e2) content
        (subst
          (λ n.
            IsStable (host.os n) 0 workspace.policy.root path workspace.policy.max_read_bytes
              content)
          here stable)
        (raise_if-eq-ok _ _ w3 e4) text (decoded-eq-ok content text (lift-eq-ok _ w4 e5))
        (raise_if-eq-ok _ _ w5 e6) (pure-eq-ok _ w6 h6)
    where
      given :
          (workspace : WorkspaceRow) (after : World)
          → workspace_of workspace_id client w ≡ (ok workspace, after)
          → (path : Text)
          → allowed_relative py relative_path workspace.policy.read_allowlist ≡ ok path
          → (content : Text)
          → IsStable
              (host.os (length after.calls))
              0
              workspace.policy.root
              path
              workspace.policy.max_read_bytes
              content
          → has_char 0 content ≡ false
          → (text : Text) → py.decode_utf8 content ≡ some text
          → contains_high_confidence_secret py text ≡ false
          → ◌≡◌ {A = FileContent} (record { path = path; content = text; bytes = length content }) f
          → Given workspace_id relative_path client w f
      given workspace after found path allowed content stable nul text decodes secret e =
          let same : path ≡ relative_path =
            (allowed_relative-IsBelow py relative_path workspace.policy.read_allowlist path
              allowed).0 in
          subst (Given workspace_id relative_path client w) e (record {
            workspace = workspace;
            after = after;
            found = found;
            same_path = same;
            allowed = allowed ∙ ap (λ (p : Text). ok p) same;
            content = content;
            stable =
                subst
                  (λ (p : Text).
                    IsStable (host.os (length after.calls)) 0 workspace.policy.root p
                      workspace.policy.max_read_bytes content)
                  same stable;
            is_text = nul;
            decodes = decodes;
            no_secret = secret;
            size = refl;
          })
