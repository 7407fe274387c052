-- ===== src/Paths/Allowed.antt =====
-- What `allowed_relative` returns: the path itself, safe, and below an allowlist entry by whole
-- components.
use mathlib.Core.Path.{subst₂}
use mathlib.Core.List.{Memᴰ, append-nil, append_assoc}
use hermes_local_hands.Base.{
  Text, codes, is_empty, split, split-append, text_eq_iff, starts_with-append, ◌≡◌, refl, sym, ap,
  ap₂, ◌∙◌, Bool, true, false, not, List, [], ◌∷◌, ◌++◌, any, All, arith, rstrip, last?, ℕ,
  Bool-cases, inl, inr, strip_one, text_eq, StartsPart, push_char, split_nonempty, ◌==◌,
  if◌then◌else◌,
}
use hermes_local_hands.Errors.{>>=-eq-ok, refuse_if-eq-ok, ok-injective, ok}
use hermes_local_hands.Runtime.{Runtime}
use hermes_local_hands.Paths.{
  or_empty, normalise_relative, normalise_all, is_within, within_any, allowed_relative,
}
use hermes_local_hands.Paths.Accepted.{IsSafePart, IsSafePath, normalise_relative_iff}

abbrev EndsFull : List Text → Type 0
EndsFull ps = is_empty (or_empty (last? ps)) ≡ false

EndsFull-tail :
    (c x y : ℕ) (ps : List Text)
    → StartsPart ps
    → EndsFull (push_char x (if y == c then [] ∷ ps else push_char y ps))
    → EndsFull (if y == c then [] ∷ ps else push_char y ps)
unfolding is_empty or_empty
EndsFull-tail c x y [] s h = absurd s
EndsFull-tail c x y (p ∷ []) s h = ground arith
EndsFull-tail c x y (p ∷ q ∷ ps) s h = ground arith

EndsFull-cons : (ps : List Text) → StartsPart ps → EndsFull ([] ∷ ps) → EndsFull ps
EndsFull-cons [] s h = absurd s
EndsFull-cons (p ∷ ps) s h = h

EndsFull-next : (c x y : ℕ) (t : Text) → EndsFull (split c (x ∷ y ∷ t)) → EndsFull (split c (y ∷ t))
unfolding split
EndsFull-next c x y t h = elim (Bool-cases (x == c)) [
  | inl same ↦
      EndsFull-cons (unfold split in split c (y ∷ t)) (split_nonempty c (y ∷ t)) (rw same at h)
  | inr other ↦ EndsFull-tail c x y (split c t) (split_nonempty c t) (rw other at h)
]

rstrip-eq_self : (c : ℕ) (t : Text) → EndsFull (split c t) → rstrip c t ≡ t
unfolding rstrip split is_empty or_empty
rstrip-eq_self c [] h = refl
rstrip-eq_self c (x ∷ []) h = ground arith
rstrip-eq_self c (x ∷ y ∷ t) h =
    ap (strip_one c x) (rstrip-eq_self c (y ∷ t) (EndsFull-next c x y t h))

-- The first components of `normal` are those of `prefix`.
abbrev pub IsBelow : Text → Text → Type 0
IsBelow normal prefix = (rest : List Text) × (split b'/' normal ≡ split b'/' prefix ++ rest)

pub within-IsBelow : (normal prefix : Text) → is_within normal prefix ≡ true → IsBelow normal prefix
unfolding is_within
within-IsBelow normal prefix h = elim (Bool-cases (text_eq normal prefix)) [
  | inl same ↦ ([], ap (split b'/') ((text_eq_iff normal prefix).0 same) ∙ sym (append-nil _))
  | inr other ↦
      let (r, e) = starts_with-append (prefix ++ codes "/") normal (rw other at h) in
      (
        split b'/' r,
        ap (split b'/') (e ∙ append_assoc prefix (codes "/") r) ∙ split-append b'/' prefix r,
      )
]

pub any-mem {ℓ} :
    {A : Type ℓ} (p : A → Bool) (xs : List A) → any p xs ≡ true → (x : A) × Memᴰ x xs × (p x ≡ true)
any-mem p [] h = cc
any-mem p (x ∷ xs) h = elim (Bool-cases (p x)) [
  | inl holds ↦ (x, Memᴰ.head refl, holds)
  | inr fails ↦ let (y, m, k) = any-mem p xs (rw fails at h) in (y, Memᴰ.tail m, k)
]

module _ (py : Runtime) where
  EndsFull-of_parts : (ps : List Text) → StartsPart ps → All (IsSafePart py) ps → EndsFull ps
  unfolding is_empty or_empty
  EndsFull-of_parts [] n h = absurd n
  EndsFull-of_parts ([] ∷ []) n h = absurd (h.0.nonempty refl)
  EndsFull-of_parts ((x ∷ p) ∷ []) n h = refl
  EndsFull-of_parts (p ∷ q ∷ ps) n h = EndsFull-of_parts (q ∷ ps) tt h.1

  safe-rstrip : (v : Text) → IsSafePath py v → rstrip b'/' v ≡ v
  safe-rstrip v s =
      rstrip-eq_self b'/' v (EndsFull-of_parts (split b'/' v) (split_nonempty b'/' v) s.parts)

  normalise_all-eq_self :
      (items ps : List Text)
      → normalise_all py items ≡ ok ps
      → (ps ≡ items) × All (IsSafePath py) items
  unfolding normalise_all
  normalise_all-eq_self [] ps h = (ground arith, tt)
  normalise_all-eq_self (item ∷ items) ps h =
      let (n, q, h') = >>=-eq-ok (normalise_relative py item) _ h in
      let (ns, r, e) = >>=-eq-ok (normalise_all py items) _ h' in
      let (same, safe) = (normalise_relative_iff py item n).0 q in
      let (sames, safes) = normalise_all-eq_self items ns r in
      (
        sym (ok-injective e) ∙ ap₂ ◌∷◌ (ap (rstrip b'/') same ∙ safe-rstrip item safe) sames,
        (safe, safes),
      )

  -- If `allowed_relative` returns `w` for `path`, then `w` is `path`, it is a safe path, and some
  -- entry of the allowlist, itself a safe path, is made of its first components.
  pub allowed_relative-IsBelow :
      (path : Text) (allowlist : List Text) (w : Text)
      → allowed_relative py path allowlist ≡ ok w
      → (w ≡ path)
        × IsSafePath py path
        × ((entry : Text) × Memᴰ entry allowlist × IsBelow path entry)
        × All (IsSafePath py) allowlist
  unfolding allowed_relative
  allowed_relative-IsBelow path allowlist w h =
      let (n, q, h') = >>=-eq-ok (normalise_relative py path) _ h in
      let (ps, r, h'') = >>=-eq-ok (normalise_all py allowlist) _ h' in
      let (below, e) = refuse_if-eq-ok (not (within_any n ps)) _ (ok n) h'' in
      let (same, safe) = (normalise_relative_iff py path n).0 q in
      let (sames, safes) = normalise_all-eq_self allowlist ps r in
      let found : within_any path allowlist ≡ true =
        subst₂ (λ a bs. within_any a bs ≡ true) same sames (ground arith) in
      let (entry, m, k) = any-mem (is_within path) allowlist (unfold within_any in found) in
      (sym (ok-injective e) ∙ same, safe, (entry, m, within-IsBelow path entry k), safes)
