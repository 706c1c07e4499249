-- ===== src/Prelude/Text.antt =====
-- Go strings as their code points, and the functions of strings and unicode that deej calls.
use Prim.Native.Char.{code}
use Prim.Native.String.{String}
use Prim.Native.Nat.{ℕ, ◌+◌, ◌<◌}
use mathlib.Core.Path.{◌≡◌, refl}
use mathlib.Core.Logic.{◌↔◌, inl, inr}
use mathlib.Core.Bool.{Bool, true, false, ◌&&◌, ◌||◌}
use mathlib.Core.Option.{Option, none, some}
use mathlib.Core.List.{List, [], ◌∷◌, ◌++◌, map}
use native.Mathlib.Omega.{arith}
use deej.Prelude.Tests.{leb, ◌==◌, if◌then◌else◌, Bool-cases}
use deej.Prelude.Lists.{All}

abbrev pub Text : Type 0
Text = List ℕ

-- The code points of a literal.
abbrev pub codes : String → Text
codes String.[] = []
codes (String.◌∷◌ c s) = code c ∷ codes s

abbrev pub ascii_lower : ℕ → ℕ
ascii_lower c = if leb b'A' c && leb c b'Z' then c + 32 else c

-- The tables of package unicode. `lower` is unicode.ToLower; two runes are equal under
-- strings.EqualFold exactly when `fold` sends them to one representative.
pub record Unicode : Type 0 where
  pub lower : ℕ → ℕ
  pub fold : ℕ → ℕ
  pub lower_ascii : (c : ℕ) → c < 128 → lower c ≡ ascii_lower c
  pub lower_idem : (c : ℕ) → lower (lower c) ≡ lower c

pub ascii_lower_idem : (c : ℕ) → ascii_lower (ascii_lower c) ≡ ascii_lower c
ascii_lower_idem c = ground arith

-- Tables that only know the ASCII letters.
abbrev pub ascii : Unicode
ascii = record {
  lower = ascii_lower;
  fold = ascii_lower;
  lower_ascii = λ c h. refl;
  lower_idem = ascii_lower_idem;
}

unfoldable pub text_eq : Text → Text → Bool
text_eq [] [] = true
text_eq (a ∷ s) (b ∷ t) = (a == b) && text_eq s t
text_eq _ _ = false

pub text_eq_iff : (s t : Text) → (text_eq s t ≡ true) ↔ (s ≡ t)
unfolding text_eq
text_eq_iff [] [] = ground arith
text_eq_iff [] (b ∷ t) = ground arith
text_eq_iff (a ∷ s) [] = ground arith
text_eq_iff (a ∷ s) (b ∷ t) = ground (arith, text_eq_iff s t)

pub text_eq_self : (s : Text) → text_eq s s ≡ true
text_eq_self s = (text_eq_iff s s).1 refl

-- slices.Contains
unfoldable pub contains : List Text → Text → Bool
unfolding text_eq
contains [] s = false
contains (t ∷ ts) s = text_eq t s || contains ts s

-- strings.ToLower, strings.EqualFold
abbrev pub to_lower : Unicode → Text → Text
to_lower u = map u.lower

unfoldable pub equal_fold : Unicode → Text → Text → Bool
equal_fold u s t = text_eq (map u.fold s) (map u.fold t)

pub to_lower_idem : (u : Unicode) (s : Text) → to_lower u (to_lower u s) ≡ to_lower u s
to_lower_idem u [] = refl
to_lower_idem u (c ∷ s) = cc (u.lower_idem c, to_lower_idem u s)

-- unicode.IsSpace
unfoldable pub is_space : ℕ → Bool
is_space c =
    (leb 9 c && leb c 13)
    || (c == 32)
    || (c == 0x85)
    || (c == 0xa0)
    || (c == 0x1680)
    || (leb 0x2000 c && leb c 0x200a)
    || (c == 0x2028)
    || (c == 0x2029)
    || (c == 0x202f)
    || (c == 0x205f)
    || (c == 0x3000)

unfoldable pub is_digit : ℕ → Bool
is_digit c = leb b'0' c && leb c b'9'

-- strings.HasPrefix and the text after the prefix; none when it is not there.
unfoldable pub cut_prefix : Text → Text → Option Text
cut_prefix [] s = some s
cut_prefix (p ∷ ps) [] = none
cut_prefix (p ∷ ps) (c ∷ s) = if p == c then cut_prefix ps s else none

pub cut_prefix-append : (p s : Text) → cut_prefix p (p ++ s) ≡ some s
unfolding cut_prefix
cut_prefix-append [] s = refl
cut_prefix-append (c ∷ p) s = ground (arith, cut_prefix-append p s)

pub cut_prefix-eq : (p s : Text) {r : Text} → cut_prefix p s ≡ some r → s ≡ p ++ r
unfolding cut_prefix
cut_prefix-eq [] s h = ground arith
cut_prefix-eq (c ∷ p) [] h = cc
cut_prefix-eq (c ∷ p) (d ∷ s) {r} h = ground (arith, cut_prefix-eq p s {r = r})

-- strings.TrimPrefix
abbrev pub or_whole : Text → Option Text → Text
or_whole s none = s
or_whole s (some r) = r

abbrev pub trim_prefix : Text → Text → Text
trim_prefix p s = or_whole s (cut_prefix p s)

abbrev pub has_prefix : Text → Text → Bool
has_prefix p s = elim (cut_prefix p s) [ none ↦ false | some r ↦ true ]

-- strings.TrimSpace
unfoldable pub trim_left : Text → Text
unfolding is_space
trim_left [] = []
trim_left (c ∷ s) = let rest = trim_left s in if is_space c then rest else c ∷ s

abbrev pub cons_trimmed : ℕ → Text → Text
cons_trimmed c [] = if is_space c then [] else c ∷ []
cons_trimmed c (d ∷ s) = c ∷ d ∷ s

unfoldable pub trim_right : Text → Text
unfolding is_space
trim_right [] = []
trim_right (c ∷ s) = cons_trimmed c (trim_right s)

unfoldable pub trim_space : Text → Text
unfolding trim_left trim_right
trim_space s = trim_right (trim_left s)

trim_right_idem : (s : Text) → trim_right (trim_right s) ≡ trim_right s
unfolding trim_right
trim_right_idem [] = refl
trim_right_idem (c ∷ s) = ground (arith, trim_right_idem s)

trim_left-cons_trimmed :
    (c : ℕ) (s : Text) → is_space c ≡ false → trim_left (cons_trimmed c s) ≡ cons_trimmed c s
unfolding trim_left
trim_left-cons_trimmed c [] h = rw (h, h)
trim_left-cons_trimmed c (d ∷ s) h = rw h

-- Trimming the right end of a text that starts with no space keeps its start.
trim_left-trim_right : (s : Text) → trim_left (trim_right (trim_left s)) ≡ trim_right (trim_left s)
unfolding trim_left trim_right
trim_left-trim_right [] = refl
trim_left-trim_right (c ∷ s) = elim (Bool-cases (is_space c)) [
  | inl e ↦ rw e (trim_left-trim_right s)
  | inr e ↦ rw e (trim_left-cons_trimmed c (trim_right s) e)
]

pub trim_space_idem : (s : Text) → trim_space (trim_space s) ≡ trim_space s
unfolding trim_space
trim_space_idem s = rw (trim_left-trim_right s) (trim_right_idem (trim_left s))

-- strings.TrimSuffix, of a suffix that is not empty
unfoldable pub trim_suffix : Text → Text → Text
trim_suffix suffix [] = []
trim_suffix suffix (c ∷ s) =
    let rest = c ∷ trim_suffix suffix s in if text_eq (c ∷ s) suffix then [] else rest

abbrev pub NoSpace : Text → Type 0
NoSpace = All (λ c. is_space c ≡ false)

trim_left-NoSpace : (s : Text) → NoSpace s → trim_left s ≡ s
unfolding trim_left
trim_left-NoSpace [] h = refl
trim_left-NoSpace (c ∷ s) h = ground arith

cons_trimmed-NoSpace : (c : ℕ) (s : Text) → is_space c ≡ false → cons_trimmed c s ≡ c ∷ s
cons_trimmed-NoSpace c [] h = rw h
cons_trimmed-NoSpace c (d ∷ s) h = refl

trim_right-NoSpace : (s : Text) → NoSpace s → trim_right s ≡ s
unfolding trim_right
trim_right-NoSpace [] h = refl
trim_right-NoSpace (c ∷ s) h = rw (trim_right-NoSpace s h.1) (cons_trimmed-NoSpace c s h.0)

pub trim_space-NoSpace : (s : Text) → NoSpace s → trim_space s ≡ s
unfolding trim_space
trim_space-NoSpace s h = rw (trim_left-NoSpace s h) (trim_right-NoSpace s h)

cons_trimmed-cons :
    (c : ℕ) (w : Text) (d : ℕ) (s : Text) → cons_trimmed c (w ++ d ∷ s) ≡ c ∷ w ++ d ∷ s
cons_trimmed-cons c [] d s = refl
cons_trimmed-cons c (b ∷ w) d s = refl

trim_right-append :
    (w : Text) (d : ℕ) (s : Text) → NoSpace (d ∷ s) → trim_right (w ++ d ∷ s) ≡ w ++ d ∷ s
unfolding trim_right
trim_right-append [] d s h = trim_right-NoSpace (d ∷ s) h
trim_right-append (c ∷ w) d s h = rw (trim_right-append w d s h) (cons_trimmed-cons c w d s)

-- A text that starts with no space and ends in one without any is not trimmed.
pub trim_space-append :
    (c : ℕ) (w : Text) (d : ℕ) (s : Text)
    → is_space c ≡ false
    → NoSpace (d ∷ s)
    → trim_space (c ∷ w ++ d ∷ s) ≡ c ∷ w ++ d ∷ s
unfolding trim_space trim_left
trim_space-append c w d s h k = rw h (trim_right-append (c ∷ w) d s k)

pub trim_space-nil : trim_space [] ≡ []
unfolding trim_space
trim_space-nil = refl
