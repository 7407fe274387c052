-- ===== src/Base/Texts.antt =====
-- Python's `str` as the list of its code points: equality, order, search, split and join.
use Prim.Native.Nat.{ℕ}
use Prim.Native.Char.{code}
use Prim.Native.String.{String}
use mathlib.Core.Path.{◌≡◌, refl}
use mathlib.Core.Logic.{◌↔◌}
use mathlib.Core.Bool.{Bool, true, false, ◌&&◌, ◌||◌}
use mathlib.Core.List.{List, [], ◌∷◌, ◌++◌}
use native.Mathlib.Omega.{arith}
use hermes_local_hands.Base.Tests.{ltb, ◌==◌, if◌then◌else◌}
use hermes_local_hands.Base.Lists.{any}

abbrev pub Text : Type 0
Text = List ℕ

abbrev pub codes : String → Text
codes String.[] = []
codes (String.◌∷◌ c s) = code c ∷ codes s

unfoldable pub text_eq : Text → Text → Bool
text_eq [] [] = true
text_eq (x ∷ xs) (y ∷ ys) = x == y && text_eq xs ys
text_eq _ _ = false

text_eq_sound : (a b : Text) → text_eq a b ≡ true → a ≡ b
unfolding text_eq
text_eq_sound [] [] h = refl
text_eq_sound (x ∷ xs) (y ∷ ys) h =
    let tail : xs ≡ ys = text_eq_sound xs ys (ground arith) in ground arith
text_eq_sound [] (y ∷ ys) h = cc
text_eq_sound (x ∷ xs) [] h = cc

pub text_eq_refl : (a : Text) → text_eq a a ≡ true
unfolding text_eq
text_eq_refl [] = refl
text_eq_refl (x ∷ xs) = ground (arith, text_eq_refl xs)

pub text_eq_iff : (a b : Text) → (text_eq a b ≡ true) ↔ (a ≡ b)
text_eq_iff a b = (text_eq_sound a b, λ e. cc (e, text_eq_refl a))

-- `value in {…}`
unfoldable pub mem_text : Text → List Text → Bool
unfolding text_eq
mem_text t ts = any (text_eq t) ts

-- Comparison of texts by code points, which is also SQLite's BINARY order of the UTF-8 bytes.
unfoldable pub text_le : Text → Text → Bool
text_le [] ys = true
text_le (x ∷ xs) [] = false
text_le (x ∷ xs) (y ∷ ys) = ltb x y || (x == y && text_le xs ys)

unfoldable pub is_empty : Text → Bool
is_empty [] = true
is_empty (x ∷ xs) = false

-- `character in value`
unfoldable pub has_char : ℕ → Text → Bool
has_char c t = any (λ x. x == c) t

-- `value.startswith(prefix)`
unfoldable pub starts_with : Text → Text → Bool
starts_with [] t = true
starts_with (x ∷ xs) [] = false
starts_with (x ∷ xs) (y ∷ ys) = x == y && starts_with xs ys

-- `value.endswith(suffix)`
unfoldable pub ends_with : Text → Text → Bool
unfolding text_eq
ends_with s [] = text_eq s []
ends_with s (y ∷ ys) = text_eq s (y ∷ ys) || ends_with s ys

-- `value.split(separator)` for a separator of one character: never empty
abbrev pub push_char : ℕ → List Text → List Text
push_char x [] = (x ∷ []) ∷ []
push_char x (p ∷ ps) = (x ∷ p) ∷ ps

unfoldable pub split : ℕ → Text → List Text
split c [] = [] ∷ []
split c (x ∷ xs) = let parts = split c xs in if x == c then [] ∷ parts else push_char x parts

-- `separator.join(parts)`
unfoldable pub join : ℕ → List Text → Text
join c [] = []
join c (p ∷ []) = p
join c (p ∷ q ∷ ps) = p ++ c ∷ join c (q ∷ ps)

abbrev pub StartsPart : List Text → Type 0
StartsPart [] = ⊥
StartsPart (p ∷ ps) = Unit

pub split_nonempty : (c : ℕ) (t : Text) → StartsPart (split c t)
unfolding split
split_nonempty c [] = tt
split_nonempty c (x ∷ xs) = ground (arith, split_nonempty c xs)

join-nil_part : (c : ℕ) (ps : List Text) → StartsPart ps → join c ([] ∷ ps) ≡ c ∷ join c ps
unfolding join
join-nil_part c [] h = absurd h
join-nil_part c (p ∷ ps) h = refl

join-push_char :
    (c x : ℕ) (ps : List Text) → StartsPart ps → join c (push_char x ps) ≡ x ∷ join c ps
unfolding join
join-push_char c x [] h = absurd h
join-push_char c x (p ∷ []) h = refl
join-push_char c x (p ∷ q ∷ ps) h = refl

pub join-split : (c : ℕ) (t : Text) → join c (split c t) ≡ t
unfolding split
join-split c [] = unfold join in refl
join-split c (x ∷ xs) = ground (
  arith,
  join-split c xs,
  split_nonempty c xs,
  join-nil_part c (split c xs) (split_nonempty c xs),
  join-push_char c x (split c xs) (split_nonempty c xs),
)

-- `value.rstrip(character)` for one character
abbrev pub strip_one : ℕ → ℕ → Text → Text
strip_one c x [] = if x == c then [] else x ∷ []
strip_one c x (y ∷ ys) = x ∷ y ∷ ys

unfoldable pub rstrip : ℕ → Text → Text
rstrip c [] = []
rstrip c (x ∷ xs) = strip_one c x (rstrip c xs)

push_char-append :
    (x : ℕ) (ps qs : List Text) → StartsPart ps → push_char x (ps ++ qs) ≡ push_char x ps ++ qs
push_char-append x [] qs h = absurd h
push_char-append x (p ∷ ps) qs h = refl

pub split-append : (c : ℕ) (t u : Text) → split c (t ++ c ∷ u) ≡ split c t ++ split c u
unfolding split
split-append c [] u = ground arith
split-append c (x ∷ xs) u = ground (
  arith,
  split-append c xs u,
  split_nonempty c xs,
  push_char-append x (split c xs) (split c u) (split_nonempty c xs),
)

-- A text that starts with another is that other with a rest.
pub starts_with-append : (p t : Text) → starts_with p t ≡ true → (r : Text) × (t ≡ p ++ r)
unfolding starts_with
starts_with-append [] t h = (t, refl)
starts_with-append (x ∷ xs) [] h = cc
starts_with-append (x ∷ xs) (y ∷ ys) h =
    let (r, e) = starts_with-append xs ys (ground arith) in (r, ground arith)

pub starts_with_refl : (p r : Text) → starts_with p (p ++ r) ≡ true
unfolding starts_with
starts_with_refl [] r = refl
starts_with_refl (x ∷ xs) r = ground (arith, starts_with_refl xs r)
