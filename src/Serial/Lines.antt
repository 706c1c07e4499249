-- ===== src/Serial/Lines.antt =====
-- The lines of the hardware mixer: what is printed is read back, and what is read is in scale.
use deej.Prelude.{
  ℕ, suc, ◌+◌, ◌≤◌, ◌<◌, ◌≡◌, refl, ap, ◌∙◌, inl, inr, true, false, List, [], ◌∷◌, ◌++◌, map, some,
  arith, length, All, Bool-cases, Option-cases, length-append, if◌then◌else◌,
}
use mathlib.Core.List.{append_assoc}
use deej.Prelude.Text.{Text, text_eq, text_eq_iff, trim_suffix}
use deej.Prelude.Strconv.{
  split, join, itoa, atoi, atoi-itoa, all_digits, all_digits-itoa, length-itoa, split-join, Without,
}
use deej.Serial.Protocol.{
  crlf, match_groups, expected_line_pattern, in_scale, read_values, parse_line, print_line,
}

abbrev pub InScale : List ℕ → Type 0
InScale = All (λ n. n ≤ 1023)

-- Digits leave the matcher in its group.
match_groups-digits :
    (k : ℕ) (w s : Text)
    → all_digits w ≡ true
    → k + length w ≤ 4
    → match_groups k (w ++ s) ≡ match_groups (k + length w) s
unfolding match_groups all_digits
match_groups-digits k [] s d h =
    let e : k ≡ k + 0 = omega arith in ap (λ (n : ℕ). match_groups n s) e
match_groups-digits k (c ∷ w) s d h =
    let e : suc k + length w ≡ k + suc (length w) = omega arith in
    ground (arith, match_groups-digits (suc k) w s, ap (λ (n : ℕ). match_groups n s) e)

match_groups-crlf : (k : ℕ) → 0 < k → match_groups k crlf ≡ true
unfolding match_groups text_eq
match_groups-crlf k h = ground arith

match_groups-bar : (k : ℕ) (s : Text) → 0 < k → match_groups k (b'|' ∷ s) ≡ match_groups 0 s
unfolding match_groups
match_groups-bar k s h = ground arith

match_groups-itoa :
    (n : ℕ) (s : Text) → n ≤ 1023 → match_groups 0 (itoa n ++ s) ≡ match_groups (length (itoa n)) s
match_groups-itoa n s h =
    match_groups-digits 0 (itoa n) s (all_digits-itoa n)
      (omega (arith, (length-itoa n (omega arith)).1))
    ∙ (let e : 0 + length (itoa n) ≡ length (itoa n) = omega arith in
        ap (λ (k : ℕ). match_groups k s) e)

match_groups-print :
    (n : ℕ) (ns : List ℕ)
    → InScale (n ∷ ns)
    → match_groups 0 (join b'|' (map itoa (n ∷ ns)) ++ crlf) ≡ true
unfolding join
match_groups-print n [] h =
    match_groups-itoa n crlf h.0
    ∙ match_groups-crlf (length (itoa n)) (length-itoa n (omega arith)).0
match_groups-print n (m ∷ ns) h = rw append_assoc (
    match_groups-itoa n (b'|' ∷ join b'|' (map itoa (m ∷ ns)) ++ crlf) h.0
    ∙ match_groups-bar (length (itoa n)) _ (length-itoa n (omega arith)).0
    ∙ match_groups-print m ns h.1)

Without-digits : (w : Text) → all_digits w ≡ true → Without b'|' w
unfolding all_digits
Without-digits [] h = tt
Without-digits (c ∷ w) h = (ground arith, Without-digits w (ground arith))

Without-itoa : (ns : List ℕ) → All (Without b'|') (map itoa ns)
Without-itoa [] = tt
Without-itoa (n ∷ ns) = (Without-digits (itoa n) (all_digits-itoa n), Without-itoa ns)

read_values-itoa : (ns : List ℕ) → InScale ns → read_values (map itoa ns) ≡ some ns
unfolding read_values
read_values-itoa [] h = refl
read_values-itoa (n ∷ ns) h = ground (arith, atoi-itoa n (omega arith), read_values-itoa ns h.1)

-- A text is its own suffix at the place where the suffix starts, and at no longer part.
text_eq-longer : (c : ℕ) (w s : Text) → text_eq (c ∷ w ++ s) s ≡ false
text_eq-longer c w s = elim (Bool-cases (text_eq (c ∷ w ++ s) s)) [
  | inl e ↦ absurd (omega (arith, ap length ((text_eq_iff _ s).0 e), length-append w s))
  | inr e ↦ e
]

trim_suffix-append : (w : Text) → trim_suffix crlf (w ++ crlf) ≡ w
unfolding trim_suffix
trim_suffix-append [] = unfold text_eq in refl
trim_suffix-append (c ∷ w) = rw (text_eq-longer c w crlf) (ap (◌∷◌ c) (trim_suffix-append w))

-- The client reads back every line that the firmware prints, for at least one reading and all of
-- them of the 10-bit converter, 1023 at most.
pub parse_line-print_line :
    (n : ℕ) (ns : List ℕ) → InScale (n ∷ ns) → parse_line (print_line (n ∷ ns)) ≡ some (n ∷ ns)
unfolding parse_line print_line expected_line_pattern
parse_line-print_line n ns h =
    rw (match_groups-print n ns h, trim_suffix-append (join b'|' (map itoa (n ∷ ns))))
      (rw (split-join b'|' (itoa n) (map itoa ns) (Without-itoa (n ∷ ns)))
        (read_values-itoa (n ∷ ns) h))

in_scale-le : (w : Text) {n : ℕ} → in_scale (atoi w) ≡ some n → n ≤ 1023
in_scale-le w h = ground arith

read_values-cons :
    (w : Text) (ws : List Text) {ns : List ℕ}
    → read_values (w ∷ ws) ≡ some ns
    → (m : ℕ) × (ms : List ℕ) × (in_scale (atoi w) ≡ some m)
      × (read_values ws ≡ some ms)
      × (ns ≡ m ∷ ms)
unfolding read_values
read_values-cons w ws h = elim (Option-cases (in_scale (atoi w))) [
  | inl e ↦ absurd (ground (arith, rw (e, read_values) at h))
  | inr (m, e) ↦ elim (Option-cases (read_values ws)) [
    | inl e' ↦ absurd (ground arith)
    | inr (ms, e') ↦ (m, ms, e, e', ground arith)
  ]
]

read_values-InScale :
    (ws : List Text) {ns : List ℕ} → read_values ws ≡ some ns → InScale ns × (length ns ≡ length ws)
read_values-InScale [] {ns} h =
    let e : ns ≡ [] = unfold read_values in ground arith in rw e (tt, refl)
read_values-InScale (w ∷ ws) {ns} h =
    let (m, ms, one, rest, e) = read_values-cons w ws h in
    let (small, same) = read_values-InScale ws rest in
    rw e ((in_scale-le w one, small), ap suc same)

length-split-pos : (sep : ℕ) (s : Text) → 0 < length (split sep s)
unfolding split
length-split-pos sep [] = omega arith
length-split-pos sep (c ∷ s) = ground arith

-- What a line is read as: at least one reading, and all of them on the scale.
pub parse_line-InScale :
    (line : Text) {ns : List ℕ} → parse_line line ≡ some ns → InScale ns × (0 < length ns)
unfolding parse_line
parse_line-InScale line {ns} h = elim (Bool-cases (expected_line_pattern line)) [
  | inl e ↦
      let (small, same) =
        read_values-InScale (split b'|' (trim_suffix crlf line)) (rw (e, if◌then◌else◌) at h) in
      (small, omega (arith, length-split-pos b'|' (trim_suffix crlf line)))
  | inr e ↦ absurd (ground arith)
]
