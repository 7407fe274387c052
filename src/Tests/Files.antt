-- ===== src/Tests/Files.antt =====
-- A file that is read.
use hermes_local_hands.Base.{
  Text, codes, ends_with, has_char, is_empty, join, mem_text, rstrip, split, starts_with, text_eq,
  ◌≡◌, refl, ◌⊎◌, ◌==◌, false, some, [], ◌∷◌,
}
use hermes_local_hands.Errors.{Error, ok, err}
use hermes_local_hands.Errors.Ends.{is_fuel_error, ends_ok, Ends-if}
use hermes_local_hands.Exec.{◌>>=◌}
use hermes_local_hands.Paths.{
  normalise_relative, allowed_relative, is_ambiguous, is_control, is_dot_part, is_sensitive_part,
  is_sensitive_name, path_parts, path_name, as_posix, or_empty, normalise_all, is_within,
  within_any, unchanged,
}
use hermes_local_hands.Paths.Read.{
  ask_os, note, push_opened, all_but_last, chunk_size, after_cleanup, finally, translate,
  refuse_os_errors, next_chunk, open_pushed, close_fd, descend, read_chunks, read_stable,
  read_below, close_all, close_stack, walk_and_read, safe_read,
}
use hermes_local_hands.Paths.Read.Closed.{open_after, safe_read-closes}
use hermes_local_hands.Paths.Read.Finishes.{Answers}
use hermes_local_hands.Paths.Read.Stable.{IsStable, safe_read-IsStable}
use hermes_local_hands.Storage.Workspaces
use hermes_local_hands.Service.{on_db, attempt, ask}
use hermes_local_hands.Service.Identifiers.{validated_identifier, is_identifier}
use hermes_local_hands.Service.Clients.{workspace_of}
use hermes_local_hands.Service.Files.{
  FileContent, idle, decoded, contains_high_confidence_secret, file_answer, read_file,
}
use hermes_local_hands.Service.Files.Bounded.{Given, read_file-Given}
use hermes_local_hands.Tests.Examples.{plain, echo, files}
use hermes_local_hands.Tests.Boundary.{host, world}

files-Answers : Answers files
files-Answers = record {
  open_root = λ n root. ends_ok 3;
  open_directory = λ n parent name. ends_ok 4;
  open_file = λ n parent name. ends_ok 5;
  fstat = λ n fd. ends_ok _;
  read = λ n fd size. Ends-if (n == 4) _ _ (ends_ok (codes "hi")) (ends_ok []);
  close = λ n fd. ends_ok tt;
}

safe_read-closes_example :
    open_after
      (safe_read files plain (codes "/srv") (codes "docs/a") (codes "docs" ∷ []) 100 idle).1.events
    ≡ []
safe_read-closes_example =
    safe_read-closes files (λ n fd. refl) plain (codes "/srv") (codes "docs/a") (codes "docs" ∷ [])
      100 0

safe_read-IsStable_example :
    ((content : Text) × (rel : Text) × ((safe_read files plain
          (codes "/srv")
          (codes "docs/a")
          (codes "docs" ∷ [])
          100
          idle).0
        ≡ ok content)
      × (allowed_relative plain (codes "docs/a") (codes "docs" ∷ []) ≡ ok rel)
      × IsStable files 0 (codes "/srv") rel 100 content)
    ⊎ ((e : Error) × ((safe_read files plain
            (codes "/srv")
            (codes "docs/a")
            (codes "docs" ∷ [])
            100
            idle).0
          ≡ err e)
        × (is_fuel_error e ≡ false))
safe_read-IsStable_example =
    safe_read-IsStable files files-Answers plain (codes "/srv") (codes "docs/a") (codes "docs" ∷ [])
      100 idle

abbrev given : FileContent
given = record { path = codes "docs/a"; content = codes "hi"; bytes = 2 }

file_is_given :
    read_file plain echo host (codes "app") (codes "docs/a") (some (codes "ana")) world ≡ (
      ok given,
      (read_file plain echo host (codes "app") (codes "docs/a") (some (codes "ana")) world).1,
    )
unfolding read_file file_answer safe_read walk_and_read read_below read_stable read_chunks
    next_chunk descend open_pushed close_fd close_all close_stack refuse_os_errors translate finally
    after_cleanup chunk_size all_but_last push_opened note ask_os unchanged decoded
    contains_high_confidence_secret workspace_of validated_identifier is_identifier on_db attempt
    ask ◌>>=◌ Workspaces.workspace_for_client normalise_relative allowed_relative is_ambiguous
    is_control is_dot_part is_sensitive_part is_sensitive_name path_parts path_name as_posix
    or_empty normalise_all is_within within_any ends_with has_char is_empty join mem_text rstrip
    split starts_with text_eq
file_is_given = refl

read_file-Given_example :
    Given plain echo host (codes "app") (codes "docs/a") (some (codes "ana")) world given
read_file-Given_example =
    read_file-Given plain echo host (λ n. files-Answers) (codes "app") (codes "docs/a")
      (some (codes "ana")) world
      (read_file plain echo host (codes "app") (codes "docs/a") (some (codes "ana")) world).1 given
      file_is_given
