-- ===== src/Snapshot/Planned.antt =====
-- What is true of a plan of a snapshot.
use hermes_local_hands.Base.{
  Text, codes, text_eq, text_eq_iff, mem_text, is_empty, has_char, starts_with, split, leb, ltb,
  ◌||◌, not, ℕ, ◌+◌, ◌≤◌, ◌≡◌, refl, sym, ap, ◌∙◌, Bool, true, false, Bool-cases, inl, inr, Option,
  none, some, List, [], ◌∷◌, ◌++◌, any, any-append, All, any-eq-false, length, length-append, arith,
}
use mathlib.Core.Path.{subst}
use hermes_local_hands.Errors.{
  Result, ok, err, ok-injective, ok-ne-err, >>=-eq-ok, refuse_if-eq-ok, policy_error,
}
use hermes_local_hands.Runtime.{Runtime}
use hermes_local_hands.Paths.{is_control, is_dot_part, path_parts, as_posix}
use hermes_local_hands.Paths.Accepted.{
  IsPlainChar, plain_chars_iff, path_parts-eq-split, as_posix-eq_self,
}
use hermes_local_hands.Patch.Grammar.{IsDistinct}
use hermes_local_hands.Snapshot.{
  max_snapshot_files, max_snapshot_file_bytes, max_snapshot_total_bytes, SnapshotFile, Entry, Plan,
  paths, is_object_id, is_file_mode, is_reserved_part, checked_path, archive_relative, parse_line,
  add_file, add_line, add_lines, snapshot_plan,
}

abbrev markers : List Text
markers = codes ".deletion-pending" ∷ codes ".deletion-complete" ∷ []

-- A path within the snapshot: relative, of printable characters without a backslash, no component
-- empty, a dot, two dots or a spelling of ".git", and not one of the two markers of a deletion.
pub record IsArchivePath (py : Runtime) (p : Text) : Type 0 where
  pub nonempty : is_empty p ≡ false
  pub relative : starts_with (codes "/") p ≡ false
  pub characters : All IsPlainChar p
  pub no_dots : All (λ part. is_dot_part part ≡ false) (split b'/' p)
  pub no_git : All (λ part. text_eq (py.lower part) (codes ".git") ≡ false) (split b'/' p)
  pub no_marker : mem_text p markers ≡ false

-- An entry whose path and object are as they should be, and whose size is within the limit.
pub record IsEntry (py : Runtime) (object_format : Text) (e : Entry) : Type 0 where
  pub path : IsArchivePath py e.0
  pub object : is_object_id object_format e.1.object_id ≡ true
  pub small : e.1.size ≤ max_snapshot_file_bytes

abbrev pub total_size : List Entry → ℕ
total_size [] = 0
total_size (e ∷ es) = e.1.size + total_size es

pub record IsPlanned (py : Runtime) (object_format : Text) (es : List Entry) : Type 0 where
  pub entries : All (IsEntry py object_format) es
  pub distinct : IsDistinct (paths es)
  pub few : length es ≤ max_snapshot_files
  pub total_small : total_size es ≤ max_snapshot_total_bytes

-- A plan on the way: its total is that of its files.
record IsPlan (py : Runtime) (object_format : Text) (plan : Plan) : Type 0 where
  planned : IsPlanned py object_format plan.entries
  counted : plan.total ≡ total_size plan.entries

All-snoc {ℓ κ} :
    {A : Type ℓ} (P : A → Type κ) (xs : List A) (y : A) → All P xs → P y → All P (xs ++ y ∷ [])
All-snoc P [] y h k = (k, tt)
All-snoc P (x ∷ xs) y h k = (h.0, All-snoc P xs y h.1 k)

total_size-snoc :
    (es : List Entry) (e : Entry) → total_size (es ++ e ∷ []) ≡ total_size es + e.1.size
total_size-snoc [] e = omega arith
total_size-snoc (x ∷ es) e = omega (arith, total_size-snoc es e)

paths-snoc : (es : List Entry) (e : Entry) → paths (es ++ e ∷ []) ≡ paths es ++ e.0 ∷ []
paths-snoc [] e = refl
paths-snoc (x ∷ es) e = rw (paths-snoc es e) refl

text_eq_comm-false : (p q : Text) → text_eq q p ≡ false → text_eq p q ≡ false
text_eq_comm-false p q h = elim (Bool-cases (text_eq p q)) [
  | inr other ↦ other
  | inl same ↦ let k = (text_eq_iff q p).1 (sym ((text_eq_iff p q).0 same)) in cc
]

IsDistinct-snoc :
    (ps : List Text) (q : Text) → IsDistinct ps → mem_text q ps ≡ false → IsDistinct (ps ++ q ∷ [])
unfolding mem_text
IsDistinct-snoc [] q d h = (refl, tt)
IsDistinct-snoc (p ∷ ps) q d h = (
  any-append (text_eq p) ps (q ∷ []) ∙ ground (arith, d.0, text_eq_comm-false p q (ground arith)),
  IsDistinct-snoc ps q d.1 (ground arith),
)

module _ (py : Runtime) where
  checked_path-IsArchivePath : (v p : Text) → checked_path py v ≡ ok p → IsArchivePath py p
  unfolding checked_path is_reserved_part
  checked_path-IsArchivePath v p h =
      let (plain, h1) =
        refuse_if-eq-ok
          (is_empty v
            || starts_with (codes "/") v
            || (has_char b'\\' v || has_char 0 v || any is_control v))
          _ _ h in
      let (dots, h2) = refuse_if-eq-ok (any is_dot_part (split b'/' v)) _ _ h1 in
      let (git, h3) = refuse_if-eq-ok (any (is_reserved_part py) (path_parts v)) _ _ h2 in
      let (marker, h4) =
        refuse_if-eq-ok (mem_text (as_posix v) markers)
          (policy_error "snapshot tree contains a reserved deletion marker path") (ok (as_posix v))
          h3 in
      let same : as_posix v ≡ v = as_posix-eq_self v (ground (arith, plain)) dots in
      subst (IsArchivePath py) (sym same ∙ ok-injective h4) (record {
        nonempty = ground (arith, plain);
        relative = ground (arith, plain);
        characters = (plain_chars_iff v).0 (ground (arith, plain));
        no_dots = any-eq-false is_dot_part (split b'/' v) dots;
        no_git =
            any-eq-false (is_reserved_part py) (split b'/' v)
              (ap (any (is_reserved_part py)) (sym (path_parts-eq-split v dots)) ∙ git);
        no_marker = ap (λ t. mem_text t markers) (sym same) ∙ marker;
      })

  archive_relative-IsArchivePath :
      (raw p : Text) → archive_relative py raw false ≡ ok p → IsArchivePath py p
  unfolding archive_relative
  archive_relative-IsArchivePath raw p h = decoded (py.decode_utf8 raw) h
    where
      decoded :
          (o : Option Text)
          → (elim o [
            | none ↦ err (policy_error "snapshot contains a non-UTF-8 path")
            | some value ↦ checked_path py value
          ])
            ≡ ok p
          → IsArchivePath py p
      decoded none k = absurd (ok-ne-err k)
      decoded (some value) k = checked_path-IsArchivePath value p k

  module _ (int_of_bytes : Text → Option (Bool × ℕ)) (object_format : Text) where
    add_file-IsPlan :
        (plan longer : Plan) (path : Text) (negative : Bool) (file : SnapshotFile)
        → IsPlan py object_format plan
        → IsArchivePath py path
        → is_object_id object_format file.object_id ≡ true
        → add_file py int_of_bytes plan path negative file ≡ ok longer
        → IsPlan py object_format longer
    unfolding add_file
    add_file-IsPlan plan longer path negative file v safe object h =
        let (fresh, h1) = refuse_if-eq-ok (mem_text path (paths plan.entries)) _ _ h in
        let (size, h2) =
          refuse_if-eq-ok (negative || ltb max_snapshot_file_bytes file.size) _ _ h1 in
        let (room, h3) =
          refuse_if-eq-ok
            (leb max_snapshot_files (length plan.entries)
              || ltb max_snapshot_total_bytes (plan.total + file.size))
            _ _ h2 in
        subst (IsPlan py object_format) (ok-injective h3) (record {
          planned = record {
            entries =
                All-snoc (IsEntry py object_format) plan.entries (path, file) v.planned.entries
                  (record { path = safe; object = object; small = ground (arith, size) });
            distinct =
                subst IsDistinct (sym (paths-snoc plan.entries (path, file)))
                  (IsDistinct-snoc (paths plan.entries) path v.planned.distinct fresh);
            few = ground (arith, room, length-append plan.entries ((path, file) ∷ []));
            total_small =
                ground (arith, room, v.counted, total_size-snoc plan.entries (path, file));
          };
          counted = omega (arith, v.counted, total_size-snoc plan.entries (path, file));
        })

    add_line-IsPlan :
        (plan longer : Plan) (line : Text)
        → IsPlan py object_format plan
        → add_line py int_of_bytes object_format plan line ≡ ok longer
        → IsPlan py object_format longer
    unfolding add_line
    add_line-IsPlan plan longer line v h =
        let (tree, e, h1) = >>=-eq-ok (parse_line py int_of_bytes line) _ h in
        let (blob, h2) =
          refuse_if-eq-ok
            (not (text_eq tree.object_type (codes "blob")) || not (is_file_mode tree.mode)) _ _
            h1 in
        let (path, safe, h3) = >>=-eq-ok (archive_relative py tree.path false) _ h2 in
        let (ascii, h4) = refuse_if-eq-ok (any (leb 128) tree.object_id) _ _ h3 in
        let (object, h5) =
          refuse_if-eq-ok (not (is_object_id object_format (py.lower tree.object_id))) _ _ h4 in
        add_file-IsPlan plan longer path tree.is_negative _ v
          (archive_relative-IsArchivePath tree.path path safe) (ground (arith, object)) h5

    add_lines-IsPlan :
        (plan longer : Plan) (lines : List Text)
        → IsPlan py object_format plan
        → add_lines py int_of_bytes object_format plan lines ≡ ok longer
        → IsPlan py object_format longer
    unfolding add_lines
    add_lines-IsPlan plan longer [] v h = subst (IsPlan py object_format) (ok-injective h) v
    add_lines-IsPlan plan longer ([] ∷ lines) v h = add_lines-IsPlan plan longer lines v h
    add_lines-IsPlan plan longer ((c ∷ cs) ∷ lines) v h =
        let (next, e, h1) = >>=-eq-ok (add_line py int_of_bytes object_format plan (c ∷ cs)) _ h in
        add_lines-IsPlan next longer lines (add_line-IsPlan plan next (c ∷ cs) v e) h1

  -- If Git names the object format and lists the tree, every entry of a plan has a path within the
  -- snapshot, an object identifier of that format and a size of at most 20 MiB; no path occurs twice;
  -- there are at most 25000 entries, and together they have at most 256 MiB.
  pub snapshot_plan-IsPlanned :
      (int_of_bytes : Text → Option (Bool × ℕ)) (object_format : Text) (tree : Result Text)
      (entries : List Entry)
      → snapshot_plan py int_of_bytes (ok object_format) tree ≡ ok entries
      → IsPlanned py object_format entries
  unfolding snapshot_plan
  snapshot_plan-IsPlanned int_of_bytes object_format tree entries h =
      let (known, h1) =
        refuse_if-eq-ok
          (not (text_eq object_format (codes "sha1") || text_eq object_format (codes "sha256"))) _ _
          h in
      let (raw, e, h2) = >>=-eq-ok tree _ h1 in
      let empty : Plan = record { entries = []; total = 0 } in
      let (plan, e3, h3) =
        >>=-eq-ok (add_lines py int_of_bytes object_format empty (split 0 raw)) _ h2 in
      subst (IsPlanned py object_format) (ok-injective h3)
        (add_lines-IsPlan int_of_bytes object_format empty plan (split 0 raw)
          (record {
            planned = record {
              entries = tt;
              distinct = tt;
              few = omega arith;
              total_small = omega arith;
            };
            counted = refl;
          })
          e3).planned
