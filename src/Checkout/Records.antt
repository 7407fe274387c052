-- ===== src/Checkout/Records.antt =====
-- Which records are read, and as what.
use mathlib.Core.Path.{subst₂}
use hermes_local_hands.Base.{
  Text, is_empty, split, ◌==◌, ==_iff, ◌||◌, ◌&&◌, not, ltb, ℕ, ◌≡◌, ◌↔◌, refl, sym, ap, Bool, true,
  false, Bool-cases, inl, inr, List, [], ◌∷◌, arith, if◌then◌else◌,
}
use hermes_local_hands.Errors.{Result, ok, ok-injective, ok-ne-err, >>=-eq-ok, refuse_if-eq-ok}
use hermes_local_hands.Checkout.{
  is_status_letter, is_rename, record_code, parse_records, parse_porcelain_status,
}

-- Two letters of a change, of the source of no rename, or of one.
pub record IsCode (x y : ℕ) (rename : Bool) : Type 0 where
  pub first : is_status_letter x ≡ true
  pub second : is_status_letter y ≡ true
  pub kind : is_rename x y ≡ rename

-- The records, and the changes that they hold: blank records hold none, a rename is followed by a
-- record that is not blank, and of no record more than its two letters is kept.
pub data Reads : List Text → List Text → Type 0 where
  reads_nothing : Reads [] []
  reads_blank : (records changes : List Text) → Reads records changes → Reads ([] ∷ records) changes
  reads_change :
      (x y p : ℕ) (path : Text) (records changes : List Text)
      → IsCode x y false
      → Reads records changes
      → Reads ((x ∷ y ∷ 32 ∷ p ∷ path) ∷ records) ((x ∷ y ∷ []) ∷ changes)
  reads_rename :
      (x y p s : ℕ) (path source : Text) (records changes : List Text)
      → IsCode x y true
      → Reads records changes
      → Reads ((x ∷ y ∷ 32 ∷ p ∷ path) ∷ (s ∷ source) ∷ records) ((x ∷ y ∷ []) ∷ changes)

letter_is_ascii : (x : ℕ) → is_status_letter x ≡ true → ltb x 128 ≡ true
unfolding is_status_letter
letter_is_ascii x h = ground arith

-- A record that is read is its two letters, a blank and a text that is not empty.
record ReadRecord (record_text : Text) (x y : ℕ) : Type 0 where
  p : ℕ
  path : Text
  spelled : record_text ≡ x ∷ y ∷ 32 ∷ p ∷ path
  first : is_status_letter x ≡ true
  second : is_status_letter y ≡ true

record_code-ReadRecord : (t : Text) (x y : ℕ) → record_code t ≡ ok (x, y) → ReadRecord t x y
unfolding record_code
record_code-ReadRecord [] x y h = absurd (ok-ne-err h)
record_code-ReadRecord (a ∷ []) x y h = absurd (ok-ne-err h)
record_code-ReadRecord (a ∷ b ∷ []) x y h = absurd (ok-ne-err h)
record_code-ReadRecord (a ∷ b ∷ c ∷ []) x y h = absurd (ok-ne-err h)
record_code-ReadRecord (a ∷ b ∷ c ∷ p ∷ path) x y h =
    elim (Bool-cases (not (c == 32) || not (ltb a 128 && ltb b 128))) [
      | inl bad ↦ absurd (ok-ne-err (rw bad at h))
      | inr good ↦ elim (Bool-cases (not (is_status_letter a && is_status_letter b))) [
        | inl odd ↦ absurd (ok-ne-err (rw (good, odd) at h))
        | inr letters ↦
            let same : ◌≡◌ {A = ℕ × ℕ} (a, b) (x, y) = ok-injective (rw (good, letters) at h) in
            let e : a ≡ x = ap (λ (q : ℕ × ℕ). q.0) same in
            let f : b ≡ y = ap (λ (q : ℕ × ℕ). q.1) same in
            let g : c ≡ 32 = (==_iff c 32).0 (ground arith) in
            let la : is_status_letter a ≡ true = ground arith in
            let lb : is_status_letter b ≡ true = ground arith in
            record {
              p = p;
              path = path;
              spelled = rw (e, f, g) refl;
              first = rw e at la;
              second = rw f at lb;
            }
      ]
    ]

record_code-letters :
    (x y p : ℕ) (path : Text)
    → is_status_letter x ≡ true
    → is_status_letter y ≡ true
    → record_code (x ∷ y ∷ 32 ∷ p ∷ path) ≡ ok (x, y)
unfolding record_code
record_code-letters x y p path h k = rw (letter_is_ascii x h, letter_is_ascii y k, h, k) refl

abbrev Sound : List Text → Type 0
Sound records = (changes : List Text) → parse_records records ≡ ok changes → Reads records changes

-- One record in front of others that are read soundly.
Reads-last :
    (t : Text) (x y : ℕ) (changes : List Text)
    → ReadRecord t x y
    → is_rename x y ≡ false
    → (x ∷ y ∷ []) ∷ [] ≡ changes
    → Reads (t ∷ []) changes
Reads-last t x y changes r single e = subst₂ Reads (ap (λ (u : Text). u ∷ []) (sym r.spelled)) e (
    reads_change x y r.p r.path [] [] (record { first = r.first; second = r.second; kind = single })
      reads_nothing)

Reads-step :
    (t source : Text) (records : List Text) (x y : ℕ) (changes rest : List Text)
    → ReadRecord t x y
    → (is_rename x y && is_empty source) ≡ false
    → (if is_rename x y then parse_records records else parse_records (source ∷ records)) ≡ ok rest
    → (x ∷ y ∷ []) ∷ rest ≡ changes
    → Sound records
    → Sound (source ∷ records)
    → Reads (t ∷ source ∷ records) changes
unfolding is_empty
Reads-step t source records x y changes rest r full h e skip follow =
    elim (Bool-cases (is_rename x y)) [
      | inr single ↦ subst₂ Reads (ap (λ (u : Text). u ∷ source ∷ records) (sym r.spelled)) e (
          reads_change x y r.p r.path (source ∷ records) rest
            (record { first = r.first; second = r.second; kind = single })
            (follow rest (rw single at h)))
      | inl double ↦ renamed source (rw double at full) double
    ]
  where
    renamed :
        (s : Text) → is_empty s ≡ false → is_rename x y ≡ true → Reads (t ∷ s ∷ records) changes
    renamed [] k double = cc
    renamed (c ∷ s) k double =
        subst₂ Reads (ap (λ (u : Text). u ∷ (c ∷ s) ∷ records) (sym r.spelled)) e (
          reads_rename x y r.p c r.path s records rest
            (record { first = r.first; second = r.second; kind = double })
            (skip rest (rw double at h)))

parse_records-Reads : (records : List Text) → Sound records
unfolding parse_records
parse_records-Reads [] changes h = rw (sym (ok-injective h)) reads_nothing
parse_records-Reads ([] ∷ records) changes h =
    reads_blank records changes (parse_records-Reads records changes h)
parse_records-Reads ((c ∷ cs) ∷ []) changes h =
    let ((x, y), e, h1) = >>=-eq-ok (record_code (c ∷ cs)) _ h in
    let (single, h2) = refuse_if-eq-ok (is_rename x y) _ _ h1 in
    Reads-last (c ∷ cs) x y changes (record_code-ReadRecord (c ∷ cs) x y e) single (ok-injective h2)
parse_records-Reads ((c ∷ cs) ∷ source ∷ records) changes h =
    let ((x, y), e, h1) = >>=-eq-ok (record_code (c ∷ cs)) _ h in
    let (full, h2) = refuse_if-eq-ok (is_rename x y && is_empty source) _ _ h1 in
    let (rest, f, h3) =
      >>=-eq-ok (if is_rename x y then parse_records records else parse_records (source ∷ records))
        _ h2 in
    Reads-step (c ∷ cs) source records x y changes rest (record_code-ReadRecord (c ∷ cs) x y e) full
      f (ok-injective h3) (parse_records-Reads records) (parse_records-Reads (source ∷ records))

Reads-parse_records :
    (records changes : List Text) → Reads records changes → parse_records records ≡ ok changes
unfolding parse_records is_empty
Reads-parse_records records changes reads_nothing = refl
Reads-parse_records records changes (reads_blank rs cs r) = Reads-parse_records rs cs r
Reads-parse_records records changes (reads_change x y p path [] cs c r) =
    let rest : ◌≡◌ {A = Result (List Text)} (ok []) (ok cs) = Reads-parse_records [] cs r in
    rw (record_code-letters x y p path c.first c.second, c.kind)
      (ap (λ (o : List Text). ok ((x ∷ y ∷ []) ∷ o)) (ok-injective rest))
Reads-parse_records records changes (reads_change x y p path (t ∷ rs) cs c r) =
    rw (record_code-letters x y p path c.first c.second, c.kind, Reads-parse_records (t ∷ rs) cs r)
      refl
Reads-parse_records records changes (reads_rename x y p s path source rs cs c r) =
    rw (record_code-letters x y p path c.first c.second, c.kind, Reads-parse_records rs cs r) refl

-- `_parse_porcelain_status` returns exactly the changes that the records of the output hold: of each
-- record its two letters, both known ones, in order, and none of the paths; the record behind a rename
-- is taken with it, and any other output is refused.
pub parse_porcelain_status_iff :
    (raw : Text) (changes : List Text)
    → (parse_porcelain_status raw ≡ ok changes) ↔ Reads (split 0 raw) changes
unfolding parse_porcelain_status
parse_porcelain_status_iff raw changes =
    (parse_records-Reads (split 0 raw) changes, Reads-parse_records (split 0 raw) changes)
