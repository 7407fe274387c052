-- ===== src/Patch/Sound/Bodies.antt =====
-- The lines of a hunk that has been read.
use hermes_local_hands.Base.{
  Text, text_eq, text_eq_iff, ltb, ◌==◌, ==_iff, ◌||◌, ℕ, ◌+◌, ◌≤◌, ◌≡◌, refl, ap, Bool, true,
  false, Bool-cases, inl, inr, List, [], ◌∷◌, ◌++◌, map, arith,
}
use hermes_local_hands.Errors.{ok, ok-injective, ok-ne-err}
use hermes_local_hands.Patch.Hunks.{
  no_newline_text, Marker, context, removed, added, no_newline, invalid, marker_of, hunk_body,
}
use hermes_local_hands.Patch.Grammar.{
  Item, kept, deleted, inserted, newline_marker, item_text, old_count, new_count, changes, IsMarked,
}

-- What the lines read so far leave of a hunk.
pub record Body (old new old_seen new_seen : ℕ) (allowed : Bool) (changed : ℕ) (lines : List Text)
    (r : ℕ × List Text) : Type 0 where
  pub items : List Item
  pub spelled : lines ≡ map item_text items ++ r.1
  pub old_lines : old_seen + old_count items ≡ old
  pub new_lines : new_seen + new_count items ≡ new
  pub total : r.0 ≡ changed + changes items
  pub marked : IsMarked allowed items

-- The item that a line spells.
pub data Spells : Marker → Text → Type 0 where
  spells_context : (t : Text) → Spells context (b' ' ∷ t)
  spells_removed : (t : Text) → Spells removed (b'-' ∷ t)
  spells_added : (t : Text) → Spells added (b'+' ∷ t)
  spells_marker : Spells no_newline no_newline_text
  spells_none : (line : Text) → Spells invalid line

marker_of-Spells : (line : Text) → Spells (marker_of line) line
unfolding marker_of
marker_of-Spells [] = spells_none []
marker_of-Spells (c ∷ cs) = elim (Bool-cases (c == b' ')) [
  | inl e ↦ rw ((==_iff c b' ').0 e) (spells_context cs)
  | inr e ↦ elim (Bool-cases (c == b'-')) [
    | inl f ↦ rw ((==_iff c b'-').0 f) (spells_removed cs)
    | inr f ↦ elim (Bool-cases (c == b'+')) [
      | inl g ↦ rw ((==_iff c b'+').0 g) (spells_added cs)
      | inr g ↦ elim (Bool-cases (text_eq (c ∷ cs) no_newline_text)) [
        | inl k ↦ rw (e, f, g, k) (rw ((text_eq_iff (c ∷ cs) no_newline_text).0 k) spells_marker)
        | inr k ↦ rw (e, f, g, k) (spells_none (c ∷ cs))
      ]
    ]
  ]
]

module _ (old new : ℕ) (r : ℕ × List Text) where
  -- What the recursion says of the lines behind.
  abbrev Rest : List Text → Type 0
  Rest lines =
      (os ns : ℕ) (a : Bool) (ch : ℕ)
      → os ≤ old
      → ns ≤ new
      → hunk_body old new os ns a ch lines ≡ ok r
      → Body old new os ns a ch lines r

  step-Body :
      (os ns : ℕ) (a : Bool) (ch : ℕ) {k : Marker} (line : Text) (lines : List Text)
      → os ≤ old
      → ns ≤ new
      → Rest lines
      → (ltb os old || ltb ns new) ≡ true
      → marker_of line ≡ k
      → Spells k line
      → hunk_body old new os ns a ch (line ∷ lines) ≡ ok r
      → Body old new os ns a ch (line ∷ lines) r
  unfolding hunk_body
  step-Body os ns a ch line lines p q ih more e (spells_context t) h =
      elim (Bool-cases (ltb old (os + 1) || ltb new (ns + 1))) [
        | inl over ↦ absurd (ok-ne-err (rw (hunk_body, more, over) at h))
        | inr fits ↦
            let b : Body old new (os + 1) (ns + 1) true ch lines r =
              ih (os + 1) (ns + 1) true ch (ground arith) (ground arith)
                (rw (hunk_body, more, fits) at h) in
            record {
              items = kept t ∷ b.items;
              spelled = ap (λ (ls : List Text). (b' ' ∷ t) ∷ ls) b.spelled;
              old_lines = omega (arith, b.old_lines);
              new_lines = omega (arith, b.new_lines);
              total = omega (arith, b.total);
              marked = b.marked;
            }
      ]
  step-Body os ns a ch line lines p q ih more e (spells_removed t) h =
      elim (Bool-cases (ltb old (os + 1) || ltb new ns)) [
        | inl over ↦ absurd (ok-ne-err (rw (hunk_body, more, over) at h))
        | inr fits ↦
            let b : Body old new (os + 1) ns true (ch + 1) lines r =
              ih (os + 1) ns true (ch + 1) (ground arith) (ground arith)
                (rw (hunk_body, more, fits) at h) in
            record {
              items = deleted t ∷ b.items;
              spelled = ap (λ (ls : List Text). (b'-' ∷ t) ∷ ls) b.spelled;
              old_lines = omega (arith, b.old_lines);
              new_lines = omega (arith, b.new_lines);
              total = omega (arith, b.total);
              marked = b.marked;
            }
      ]
  step-Body os ns a ch line lines p q ih more e (spells_added t) h =
      elim (Bool-cases (ltb old os || ltb new (ns + 1))) [
        | inl over ↦ absurd (ok-ne-err (rw (hunk_body, more, over) at h))
        | inr fits ↦
            let b : Body old new os (ns + 1) true (ch + 1) lines r =
              ih os (ns + 1) true (ch + 1) (ground arith) (ground arith)
                (rw (hunk_body, more, fits) at h) in
            record {
              items = inserted t ∷ b.items;
              spelled = ap (λ (ls : List Text). (b'+' ∷ t) ∷ ls) b.spelled;
              old_lines = omega (arith, b.old_lines);
              new_lines = omega (arith, b.new_lines);
              total = omega (arith, b.total);
              marked = b.marked;
            }
      ]
  step-Body os ns true ch line lines p q ih more e spells_marker h =
      let b : Body old new os ns false ch lines r =
        ih os ns false ch p q (rw (hunk_body, more) at h) in
      record {
        items = newline_marker ∷ b.items;
        spelled = ap (λ (ls : List Text). no_newline_text ∷ ls) b.spelled;
        old_lines = b.old_lines;
        new_lines = b.new_lines;
        total = b.total;
        marked = (refl, b.marked);
      }
  step-Body os ns false ch line lines p q ih more e spells_marker h =
      absurd (ok-ne-err (rw (hunk_body, more) at h))
  step-Body os ns a ch line lines p q ih more e (spells_none l) h =
      absurd (ok-ne-err (rw (hunk_body, more, e) at h))

  done-Body :
      (os ns : ℕ) (a : Bool) (ch : ℕ) (lines : List Text)
      → os ≤ old
      → ns ≤ new
      → (ltb os old || ltb ns new) ≡ false
      → (ch, lines) ≡ r
      → Body old new os ns a ch lines r
  done-Body os ns a ch lines p q full e = record {
    items = [];
    spelled = ap (λ (x : ℕ × List Text). x.1) e;
    old_lines = ground arith;
    new_lines = ground arith;
    total = omega (arith, ap (λ (x : ℕ × List Text). x.0) e);
    marked = tt;
  }

  pub hunk_body-Body : (lines : List Text) → Rest lines
  unfolding hunk_body
  hunk_body-Body [] os ns a ch p q h = elim (Bool-cases (ltb os old || ltb ns new)) [
    | inl more ↦ absurd (ok-ne-err (rw more at h))
    | inr full ↦ done-Body os ns a ch [] p q full (ok-injective (rw full at h))
  ]
  hunk_body-Body (line ∷ lines) os ns a ch p q h = elim (Bool-cases (ltb os old || ltb ns new)) [
    | inl more ↦
        step-Body os ns a ch line lines p q (hunk_body-Body lines) more refl (marker_of-Spells line)
          h
    | inr full ↦
        done-Body os ns a ch (line ∷ lines) p q full (ok-injective (rw (hunk_body, full) at h))
  ]
