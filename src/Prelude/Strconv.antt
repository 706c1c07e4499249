-- ===== src/Prelude/Strconv.antt =====
-- strings.Split, strings.Join, strconv.Itoa, strconv.Atoi and strconv.ParseUint as deej calls them.
use Prim.Native.Nat.{ℕ, zero, suc, ◌+◌, ◌-◌, ◌*◌, ◌/◌, ◌%◌, ◌≤◌, ◌<◌}
use mathlib.Core.Path.{◌≡◌, refl, ap, ◌∙◌}
use mathlib.Core.Logic.{inl, inr}
use mathlib.Core.Bool.{Bool, true, false, ◌&&◌}
use mathlib.Core.Option.{Option, none, some}
use mathlib.Core.List.{List, [], ◌∷◌, ◌++◌}
use native.Mathlib.Omega.{arith}
use deej.Prelude.Tests.{ltb, leb, ◌==◌, if◌then◌else◌, Bool-cases}
use deej.Prelude.Lists.{All, length, length-append}
use deej.Prelude.Int.{ℤ, pos, negsuc}
use deej.Prelude.Text.{Text, is_digit, is_space, NoSpace}

abbrev pub cons_first : ℕ → List Text → List Text
cons_first c [] = (c ∷ []) ∷ []
cons_first c (w ∷ ws) = (c ∷ w) ∷ ws

-- strings.Split at a separator of one character
unfoldable pub split : ℕ → Text → List Text
split sep [] = [] ∷ []
split sep (c ∷ s) = let rest = split sep s in if c == sep then [] ∷ rest else cons_first c rest

-- strings.Join with a separator of one character
unfoldable pub join : ℕ → List Text → Text
join sep [] = []
join sep (w ∷ []) = w
join sep (w ∷ v ∷ ws) = w ++ sep ∷ join sep (v ∷ ws)

abbrev pub Without : ℕ → Text → Type 0
Without sep = All (λ c. (c == sep) ≡ false)

split-Without : (sep : ℕ) (w : Text) → Without sep w → split sep w ≡ w ∷ []
unfolding split
split-Without sep [] h = refl
split-Without sep (c ∷ w) h = rw (h.0) (rw (split-Without sep w h.1))

split-append_sep :
    (sep : ℕ) (w s : Text) → Without sep w → split sep (w ++ sep ∷ s) ≡ w ∷ split sep s
unfolding split
split-append_sep sep [] s h = ground arith
split-append_sep sep (c ∷ w) s h = rw (h.0) (rw (split-append_sep sep w s h.1))

-- Splitting undoes joining, where no part holds the separator.
pub split-join :
    (sep : ℕ) (w : Text) (ws : List Text)
    → All (Without sep) (w ∷ ws)
    → split sep (join sep (w ∷ ws)) ≡ w ∷ ws
unfolding join
split-join sep w [] h = split-Without sep w h.0
split-join sep w (v ∷ ws) h =
    split-append_sep sep w (join sep (v ∷ ws)) h.0 ∙ ap (◌∷◌ w) (split-join sep v ws h.1)

unfoldable pub all_digits : Text → Bool
unfolding is_digit
all_digits [] = true
all_digits (c ∷ s) = is_digit c && all_digits s

-- The number that decimal digits stand for, behind those read so far.
unfoldable pub digits_value : ℕ → Text → ℕ
digits_value acc [] = acc
digits_value acc (c ∷ s) = digits_value (acc * 10 + (c - b'0')) s

unfoldable pub itoa_fuel : ℕ → ℕ → Text
itoa_fuel zero n = []
itoa_fuel (suc f) n =
    let high = itoa_fuel f (n / 10) in
    if ltb n 10 then (b'0' + n) ∷ [] else high ++ (b'0' + n % 10) ∷ []

-- strconv.Itoa and %d, of a number that is not negative. A number has no more digits than units.
unfoldable pub itoa : ℕ → Text
unfolding itoa_fuel
itoa n = itoa_fuel (suc n) n

digits_value-append :
    (acc : ℕ) (s : Text) (c : ℕ)
    → digits_value acc (s ++ c ∷ []) ≡ digits_value acc s * 10 + (c - b'0')
unfolding digits_value
digits_value-append acc [] c = refl
digits_value-append acc (d ∷ s) c = digits_value-append (acc * 10 + (d - b'0')) s c

digits_value-itoa_fuel : (f n : ℕ) → n < f → digits_value 0 (itoa_fuel f n) ≡ n
unfolding itoa_fuel
digits_value-itoa_fuel zero n h = elim h [ ]
digits_value-itoa_fuel (suc f) n h = elim (Bool-cases (ltb n 10)) [
  | inl e ↦ rw e (unfold digits_value in omega arith)
  | inr e ↦ rw e (
      rw (digits_value-append 0 (itoa_fuel f (n / 10)) (b'0' + n % 10))
        (rw (digits_value-itoa_fuel f (n / 10) (ground arith)) (omega arith)))
]

-- Reading undoes printing.
pub digits_value-itoa : (n : ℕ) → digits_value 0 (itoa n) ≡ n
unfolding itoa
digits_value-itoa n = digits_value-itoa_fuel (suc n) n (omega arith)

all_digits-append :
    (s : Text) (c : ℕ) → is_digit c ≡ true → all_digits s ≡ true → all_digits (s ++ c ∷ []) ≡ true
unfolding all_digits
all_digits-append [] c h k = rw h
all_digits-append (d ∷ s) c h k = ground (arith, all_digits-append s c h)

all_digits-itoa_fuel : (f n : ℕ) → all_digits (itoa_fuel f n) ≡ true
unfolding itoa_fuel
all_digits-itoa_fuel zero n = unfold all_digits in refl
all_digits-itoa_fuel (suc f) n = elim (Bool-cases (ltb n 10)) [
  | inl e ↦ rw e (unfold all_digits in ground arith)
  | inr e ↦ rw e (
      all_digits-append (itoa_fuel f (n / 10)) _ (unfold is_digit in ground arith)
        (all_digits-itoa_fuel f (n / 10)))
]

pub all_digits-itoa : (n : ℕ) → all_digits (itoa n) ≡ true
unfolding itoa
all_digits-itoa n = all_digits-itoa_fuel (suc n) n

length-itoa_fuel-pos : (f n : ℕ) → 0 < length (itoa_fuel (suc f) n)
unfolding itoa_fuel
length-itoa_fuel-pos f n =
    ground (arith, length-append (itoa_fuel f (n / 10)) ((b'0' + n % 10) ∷ []))

length-itoa_fuel-digit : (f n : ℕ) → n < 10 → length (itoa_fuel f n) ≤ 1
unfolding itoa_fuel
length-itoa_fuel-digit zero n h = omega arith
length-itoa_fuel-digit (suc f) n h = ground arith

-- One more digit covers ten times as many numbers.
length-itoa_fuel-step :
    (b d : ℕ)
    → ((f n : ℕ) → n < b → length (itoa_fuel f n) ≤ d)
    → (f n : ℕ) → n < 10 * b
    → length (itoa_fuel f n) ≤ suc d
unfolding itoa_fuel
length-itoa_fuel-step b d shorter zero n h = omega arith
length-itoa_fuel-step b d shorter (suc f) n h = ground (
  arith,
  shorter f (n / 10) (omega arith),
  length-append (itoa_fuel f (n / 10)) ((b'0' + n % 10) ∷ []),
)

-- A number below 10000 has one to four digits.
pub length-itoa : (n : ℕ) → n < 10000 → (0 < length (itoa n)) × (length (itoa n) ≤ 4)
unfolding itoa
length-itoa n h = (
  length-itoa_fuel-pos n n,
  length-itoa_fuel-step 1000 3
      (length-itoa_fuel-step 100 2 (length-itoa_fuel-step 10 1 length-itoa_fuel-digit)) (suc n) n h,
)

-- strconv.Atoi: an optional sign, then decimal digits, within 64 bits.
abbrev pub max_int : ℕ
max_int = 9223372036854775807

abbrev in_range : ℕ → ℤ → ℕ → Option ℤ
in_range limit z n = if leb n limit then some z else none

abbrev negate : ℕ → ℤ
negate zero = pos 0
negate (suc n) = negsuc n

parse_signed : Bool → Text → Option ℤ
unfolding all_digits digits_value
parse_signed neg [] = none
parse_signed neg (c ∷ s) =
    let n = digits_value 0 (c ∷ s) in
    if all_digits (c ∷ s)
    then (if neg then in_range (max_int + 1) (negate n) n else in_range max_int (pos n) n)
    else none

unfoldable pub atoi : Text → Option ℤ
unfolding parse_signed
atoi [] = none
atoi (c ∷ s) =
    if c == b'-'
    then parse_signed true s
    else if c == b'+'
    then parse_signed false s
    else parse_signed false (c ∷ s)

-- Printed numbers are read back.
atoi_digits :
    (c : ℕ) (s : Text)
    → all_digits (c ∷ s) ≡ true
    → digits_value 0 (c ∷ s) ≤ max_int
    → atoi (c ∷ s) ≡ some (pos (digits_value 0 (c ∷ s)))
unfolding atoi all_digits
atoi_digits c s h k = ground arith

pub atoi_of_digits :
    (s : Text)
    → 0 < length s
    → all_digits s ≡ true
    → digits_value 0 s ≤ max_int
    → atoi s ≡ some (pos (digits_value 0 s))
atoi_of_digits [] p h k = absurd (omega arith)
atoi_of_digits (c ∷ s) p h k = atoi_digits c s h k

pub itoa-ne-nil : (n : ℕ) → 0 < length (itoa n)
unfolding itoa
itoa-ne-nil n = length-itoa_fuel-pos n n

pub atoi-itoa : (n : ℕ) → n ≤ max_int → atoi (itoa n) ≡ some (pos n)
atoi-itoa n h =
    atoi_of_digits (itoa n) (itoa-ne-nil n) (all_digits-itoa n) (omega (arith, digits_value-itoa n))
    ∙ ap (λ m. some (pos m)) (digits_value-itoa n)

-- The value of a hexadecimal digit.
unfoldable pub hex_digit : ℕ → Option ℕ
hex_digit c =
    if leb b'0' c && leb c b'9'
    then some (c - b'0')
    else if leb b'a' c && leb c b'f'
    then some (c - b'a' + 10)
    else if leb b'A' c && leb c b'F'
    then some (c - b'A' + 10)
    else none

unfoldable pub hex_value : ℕ → Text → Option ℕ
hex_value acc [] = some acc
hex_value acc (c ∷ s) = elim (hex_digit c) [ none ↦ none | some d ↦ hex_value (acc * 16 + d) s ]

-- strconv.ParseUint at base 16 and 16 bits.
unfoldable pub parse_uint16_hex : Text → Option ℕ
parse_uint16_hex [] = none
parse_uint16_hex (c ∷ s) = elim (hex_value 0 (c ∷ s)) [
  | none ↦ none
  | some n ↦ if leb n 65535 then some n else none
]

pub hex_value-cons :
    (acc c d : ℕ) (s : Text)
    → hex_digit c ≡ some d
    → hex_value acc (c ∷ s) ≡ hex_value (acc * 16 + d) s
unfolding hex_value
hex_value-cons acc c d s h = rw (h, hex_value)

pub parse_uint16_hex-value :
    (c : ℕ) (s : Text) (n : ℕ)
    → hex_value 0 (c ∷ s) ≡ some n
    → n ≤ 65535
    → parse_uint16_hex (c ∷ s) ≡ some n
unfolding parse_uint16_hex
parse_uint16_hex-value c s n h k = rw (h, parse_uint16_hex) (ground arith)

pub all_digits-NoSpace : (s : Text) → all_digits s ≡ true → NoSpace s
unfolding all_digits is_space
all_digits-NoSpace [] h = tt
all_digits-NoSpace (c ∷ s) h = (ground arith, all_digits-NoSpace s (ground arith))
