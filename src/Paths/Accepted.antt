-- ===== src/Paths/Accepted.antt =====
-- Which spellings `normalise_relative` and `allowed_relative` accept, and what they return.
use hermes_local_hands.Base.{
  ℕ, ◌||◌, has_char, ◌≤◌, Text, codes, mem_text, is_empty, starts_with, split, join-split,
  text_eq_iff, ◌≡◌, refl, sym, ◌∙◌, ◌↔◌, ◌≢◌, Bool, true, false, not, List, [], ◌∷◌, any, keep,
  last?, All, any-eq-false, arith,
}
use hermes_local_hands.Errors.{ok}
use hermes_local_hands.Runtime.{Runtime}
use hermes_local_hands.Paths.{
  is_control, is_ambiguous, is_dot_part, path_parts, path_name, as_posix, or_empty,
  is_sensitive_part, is_sensitive_name, normalise_relative, sensitive_parts,
}

keep-eq_self {ℓ} :
    {A : Type ℓ} (p : A → Bool) (xs : List A) → All (λ x. p x ≡ true) xs → keep p xs ≡ xs
keep-eq_self p [] h = refl
keep-eq_self p (x ∷ xs) h = rw (h.0, keep-eq_self p xs h.1) refl

All-imp {ℓ κ ι} :
    {A : Type ℓ} (P : A → Type κ) (Q : A → Type ι)
    → ((x : A) → P x → Q x)
    → (xs : List A) → All P xs
    → All Q xs
All-imp P Q f [] h = tt
All-imp P Q f (x ∷ xs) h = (f x h.0, All-imp P Q f xs h.1)

dot_part-kept : (p : Text) → is_dot_part p ≡ false → not (mem_text p ([] ∷ codes "." ∷ [])) ≡ true
unfolding is_dot_part
dot_part-kept p h = ground arith

pub path_parts-eq-split :
    (v : Text) → any is_dot_part (split b'/' v) ≡ false → path_parts v ≡ split b'/' v
unfolding path_parts
path_parts-eq-split v h =
    keep-eq_self _ (split b'/' v)
      (All-imp _ _ dot_part-kept (split b'/' v) (any-eq-false is_dot_part (split b'/' v) h))

pub as_posix-eq_self :
    (v : Text) → is_empty v ≡ false → any is_dot_part (split b'/' v) ≡ false → as_posix v ≡ v
unfolding as_posix
as_posix-eq_self v n h = rw (path_parts-eq-split v h, join-split, n) refl

-- One component of a path, in words of the component alone.
pub record IsSafePart (py : Runtime) (p : Text) : Type 0 where
  pub nonempty : p ≢ []
  pub not_dot : p ≢ codes "."
  pub not_dot_dot : p ≢ codes ".."
  pub not_sensitive : mem_text (py.lower p) sensitive_parts ≡ false

dot_part_iff :
    (p : Text) → (is_dot_part p ≡ false) ↔ ((p ≢ []) × (p ≢ codes ".") × (p ≢ codes ".."))
unfolding is_dot_part mem_text
dot_part_iff p = (
  λ h. ground (arith, text_eq_iff p [], text_eq_iff p (codes "."), text_eq_iff p (codes "..")),
  λ h. ground (arith, text_eq_iff p [], text_eq_iff p (codes "."), text_eq_iff p (codes "..")),
)

IsSafePart-iff :
    (py : Runtime) (p : Text)
    → ((is_dot_part p ≡ false) × (is_sensitive_part py p ≡ false)) ↔ IsSafePart py p
unfolding is_sensitive_part
IsSafePart-iff py p = (
  λ h.
      let (a, b, c) = (dot_part_iff p).0 h.0 in
      record { nonempty = a; not_dot = b; not_dot_dot = c; not_sensitive = h.1 },
  λ s. ((dot_part_iff p).1 (s.nonempty, s.not_dot, s.not_dot_dot), s.not_sensitive),
)

-- Printable, and no backslash.
pub record IsPlainChar (c : ℕ) : Type 0 where
  pub printable : 32 ≤ c
  pub not_delete : c ≢ 127
  pub not_backslash : c ≢ b'\\'

-- A path that may be named: no ambiguous spelling, every component safe, and the last one not of
-- a sensitive file type.
pub record IsSafePath (py : Runtime) (v : Text) : Type 0 where
  pub nonempty : v ≢ []
  pub relative : starts_with (codes "/") v ≡ false
  pub characters : All IsPlainChar v
  pub parts : All (IsSafePart py) (split b'/' v)
  pub ending : is_sensitive_name py (or_empty (last? (split b'/' v))) ≡ false

All-of-any {ℓ} :
    {A : Type ℓ} (p : A → Bool) (xs : List A) → All (λ x. p x ≡ false) xs → any p xs ≡ false
All-of-any p [] h = refl
All-of-any p (x ∷ xs) h = rw (h.0, All-of-any p xs h.1) refl

All-zip {ℓ κ ι} :
    {A : Type ℓ} (P : A → Type κ) (Q : A → Type ι) (xs : List A)
    → All P xs
    → All Q xs
    → All (λ x. P x × Q x) xs
All-zip P Q [] h k = tt
All-zip P Q (x ∷ xs) h k = ((h.0, k.0), All-zip P Q xs h.1 k.1)

pub plain_chars_iff :
    (v : Text)
    → ((has_char 0 v || (has_char b'\\' v || any is_control v)) ≡ false) ↔ All IsPlainChar v
unfolding has_char is_control
plain_chars_iff [] = (λ h. tt, λ h. refl)
plain_chars_iff (c ∷ v) = (
  λ h. (
    record { printable = ground arith; not_delete = ground arith; not_backslash = ground arith },
    (plain_chars_iff v).0 (ground arith),
  ),
  λ h. ground (arith, h.0.printable, h.0.not_delete, h.0.not_backslash, (plain_chars_iff v).1 h.1),
)

is_empty_iff : (v : Text) → (is_empty v ≡ false) ↔ (v ≢ [])
unfolding is_empty
is_empty_iff [] = (λ h. cc, λ h. absurd (h refl))
is_empty_iff (x ∷ v) = (λ h. cc, λ h. refl)

plain_iff :
    (v : Text)
    → (is_ambiguous v ≡ false)
      ↔ ((v ≢ []) × (starts_with (codes "/") v ≡ false) × All IsPlainChar v)
unfolding is_ambiguous
plain_iff v = (
  λ h. ((is_empty_iff v).0 (ground arith), ground arith, (plain_chars_iff v).0 (ground arith)),
  λ h. ground (arith, (is_empty_iff v).1 h.0, h.1, (plain_chars_iff v).1 h.2),
)

module _ (py : Runtime) where
  -- What the tests of `normalise_relative` say when all pass.
  normalise_tests :
      (v w : Text)
      → normalise_relative py v ≡ ok w
      → (is_ambiguous v ≡ false)
        × (any is_dot_part (split b'/' v) ≡ false)
        × (any (is_sensitive_part py) (path_parts v) ≡ false)
        × (is_sensitive_name py (path_name v) ≡ false)
        × (as_posix v ≡ w)
  unfolding normalise_relative
  normalise_tests v w h = ground arith

  normalise-IsSafePath : (v w : Text) → normalise_relative py v ≡ ok w → IsSafePath py v
  unfolding path_name
  normalise-IsSafePath v w h =
      let (plain, dots, hidden, ending, same) = normalise_tests v w h in
      let e : path_parts v ≡ split b'/' v = path_parts-eq-split v dots in
      let (full, relative, chars) = (plain_iff v).0 plain in
      record {
        nonempty = full;
        relative = relative;
        characters = chars;
        parts =
            All-imp _ _ (λ p k. (IsSafePart-iff py p).0 k) (split b'/' v)
              (All-zip _ _ (split b'/' v) (any-eq-false is_dot_part (split b'/' v) dots)
                (any-eq-false (is_sensitive_part py) (split b'/' v) (rw e at hidden)));
        ending = rw e at ending;
      }

  normalise-eq_self : (v w : Text) → normalise_relative py v ≡ ok w → w ≡ v
  normalise-eq_self v w h =
      let (plain, dots, hidden, ending, same) = normalise_tests v w h in
      sym same ∙ as_posix-eq_self v ((is_empty_iff v).1 ((plain_iff v).0 plain).0) dots

  IsSafePath-normalise : (v : Text) → IsSafePath py v → normalise_relative py v ≡ ok v
  unfolding normalise_relative path_name
  IsSafePath-normalise v s =
      let dots : any is_dot_part (split b'/' v) ≡ false =
        All-of-any is_dot_part (split b'/' v)
          (All-imp _ _ (λ p k. ((IsSafePart-iff py p).1 k).0) (split b'/' v) s.parts) in
      let hidden : any (is_sensitive_part py) (split b'/' v) ≡ false =
        All-of-any (is_sensitive_part py) (split b'/' v)
          (All-imp _ _ (λ p k. ((IsSafePart-iff py p).1 k).1) (split b'/' v) s.parts) in
      let plain : is_ambiguous v ≡ false = (plain_iff v).1 (s.nonempty, s.relative, s.characters) in
      let full : is_empty v ≡ false = (is_empty_iff v).1 s.nonempty in
      rw
        (
          plain,
          s.relative,
          dots,
          path_parts-eq-split v dots,
          hidden,
          s.ending,
          as_posix-eq_self v full dots,
        )
        refl

  -- `normalise_relative` returns `w` for `v` exactly when `w` is `v` and `v` is a safe path.
  pub normalise_relative_iff :
      (v w : Text) → (normalise_relative py v ≡ ok w) ↔ ((w ≡ v) × IsSafePath py v)
  normalise_relative_iff v w = (
    λ h. (normalise-eq_self v w h, normalise-IsSafePath v w h),
    λ h. rw h.0 (IsSafePath-normalise v h.1),
  )
