-- ===== src/Config/Hex.antt =====
-- internal/config/model.go: HexWord, a 16-bit value as hexadecimal text.
use deej.Prelude.{
  ℕ, ◌+◌, ◌/◌, ◌%◌, ◌<◌, ◌≤◌, ◌≡◌, refl, ap, ◌∙◌, inl, inr, Bool, true, false, [], ◌∷◌, Option,
  none, some, arith, ltb, ◌==◌, if◌then◌else◌, ◌-◌, ◌*◌, Option-cases, Bool-cases,
}
use deej.Prelude.Text.{
  Text, codes, Unicode, ascii_lower, to_lower, trim_space, trim_prefix, text_eq, is_space,
  trim_space-NoSpace, cut_prefix,
}
use deej.Prelude.Strconv.{
  hex_digit, hex_value, hex_value-cons, parse_uint16_hex, parse_uint16_hex-value,
}

-- `Value`
unfoldable pub value : Unicode → Text → Option ℕ
value u h = parse_uint16_hex (trim_prefix (codes "0x") (to_lower u (trim_space h)))

abbrev hex_char : ℕ → ℕ
hex_char d = if ltb d 10 then b'0' + d else b'A' + d - 10

-- `fmt.Sprintf("%04X", n)` of a 16-bit value
unfoldable pub format_hex : ℕ → Text
format_hex n =
    hex_char (n / 4096 % 16)
    ∷ hex_char (n / 256 % 16)
    ∷ hex_char (n / 16 % 16)
    ∷ hex_char (n % 16)
    ∷ []

abbrev or_default : Text → Option ℕ → Text × Bool
or_default def none = (def, false)
or_default def (some n) = (format_hex n, true)

-- `canonical`
unfoldable pub canonical : Unicode → Text → Text → Text × Bool
canonical u h def = if text_eq (trim_space h) [] then (def, true) else or_default def (value u h)

hex_char_facts :
    (u : Unicode) (d : ℕ)
    → d < 16
    → (is_space (hex_char d) ≡ false)
      × (hex_digit (u.lower (hex_char d)) ≡ some d)
      × ((b'x' == u.lower (hex_char d)) ≡ false)
unfolding is_space hex_digit
hex_char_facts u d h =
    let e : u.lower (hex_char d) ≡ ascii_lower (hex_char d) =
      u.lower_ascii (hex_char d) (ground arith) in
    (ground arith, rw e (ground arith), rw e (ground arith))

trim_prefix-hex :
    (c d : ℕ) (s : Text) → (b'x' == d) ≡ false → trim_prefix (codes "0x") (c ∷ d ∷ s) ≡ c ∷ d ∷ s
unfolding cut_prefix
trim_prefix-hex c d s h = ground arith

hex_value_of_digits :
    (p q r s a b c d : ℕ)
    → hex_digit p ≡ some a
    → hex_digit q ≡ some b
    → hex_digit r ≡ some c
    → hex_digit s ≡ some d
    → hex_value 0 (p ∷ q ∷ r ∷ s ∷ []) ≡ some (((a * 16 + b) * 16 + c) * 16 + d)
hex_value_of_digits p q r s a b c d ha hb hc hd =
    hex_value-cons 0 p a (q ∷ r ∷ s ∷ []) ha
    ∙ hex_value-cons (0 * 16 + a) q b (r ∷ s ∷ []) hb
    ∙ hex_value-cons ((0 * 16 + a) * 16 + b) r c (s ∷ []) hc
    ∙ hex_value-cons (((0 * 16 + a) * 16 + b) * 16 + c) s d [] hd
    ∙ unfold hex_value in ground arith

-- Four digits of hexadecimal text, read as `Value` reads them.
value_of_digits :
    (u : Unicode) (a b c d : ℕ)
    → a < 16
    → b < 16
    → c < 16
    → d < 16
    → ((a * 16 + b) * 16 + c) * 16 + d ≤ 65535
    → value u (hex_char a ∷ hex_char b ∷ hex_char c ∷ hex_char d ∷ [])
      ≡ some (((a * 16 + b) * 16 + c) * 16 + d)
unfolding value
value_of_digits u a b c d ha hb hc hd small =
    let (sa, va, xa) = hex_char_facts u a ha in
    let (sb, vb, xb) = hex_char_facts u b hb in
    let (sc, vc, xc) = hex_char_facts u c hc in
    let (sd, vd, xd) = hex_char_facts u d hd in
    rw
      (trim_space-NoSpace (hex_char a ∷ hex_char b ∷ hex_char c ∷ hex_char d ∷ [])
        (sa, (sb, (sc, (sd, tt)))))
      (rw (trim_prefix-hex _ _ (to_lower u (hex_char c ∷ hex_char d ∷ [])) xb) (
        parse_uint16_hex-value _ (to_lower u (hex_char b ∷ hex_char c ∷ hex_char d ∷ [])) _
          (hex_value_of_digits _ _ _ _ a b c d va vb vc vd) small))

-- Printing a value of 16 bits and reading it gives it back.
pub value-format_hex : (u : Unicode) (n : ℕ) → n ≤ 65535 → value u (format_hex n) ≡ some n
unfolding format_hex
value-format_hex u n h =
    value_of_digits u (n / 4096 % 16) (n / 256 % 16) (n / 16 % 16) (n % 16) (omega arith)
      (omega arith) (omega arith) (omega arith) (omega arith)
    ∙ ap some (omega arith)

parse_uint16_hex-le : (s : Text) {n : ℕ} → parse_uint16_hex s ≡ some n → n ≤ 65535
unfolding parse_uint16_hex
parse_uint16_hex-le [] h = cc
parse_uint16_hex-le (c ∷ s) h = ground arith

pub value-le : (u : Unicode) (h : Text) {n : ℕ} → value u h ≡ some n → n ≤ 65535
unfolding value
value-le u h e = parse_uint16_hex-le _ e

-- The text is the printed form of a 16-bit value.
abbrev pub IsWord : Text → Type 0
IsWord h = (n : ℕ) × (n ≤ 65535) × (h ≡ format_hex n)

-- `canonical` turns every text, malformed ones included, into the printed form of a 16-bit value
-- when the default is one.
pub canonical-IsWord : (u : Unicode) (h def : Text) → IsWord def → IsWord (canonical u h def).0
unfolding canonical
canonical-IsWord u h def w = elim (Bool-cases (text_eq (trim_space h) [])) [
  | inl e ↦ rw e w
  | inr e ↦ elim (Option-cases (value u h)) [
    | inl v ↦ rw (e, v) w
    | inr (n, v) ↦ rw (e, v) (n, value-le u h v, refl)
  ]
]

trim_space-format_hex : (u : Unicode) (n : ℕ) → trim_space (format_hex n) ≡ format_hex n
unfolding format_hex
trim_space-format_hex u n = trim_space-NoSpace _ (
  (hex_char_facts u (n / 4096 % 16) (omega arith)).0,
  (
    (hex_char_facts u (n / 256 % 16) (omega arith)).0,
    (
      (hex_char_facts u (n / 16 % 16) (omega arith)).0,
      ((hex_char_facts u (n % 16) (omega arith)).0, tt),
    ),
  ),
)

text_eq-format_hex : (n : ℕ) → text_eq (format_hex n) [] ≡ false
unfolding text_eq format_hex
text_eq-format_hex n = refl

canonical-format_hex :
    (u : Unicode) (n : ℕ) (def : Text)
    → n ≤ 65535
    → canonical u (format_hex n) def ≡ (format_hex n, true)
unfolding canonical
canonical-format_hex u n def h =
    rw (trim_space-format_hex u n, text_eq-format_hex n, value-format_hex u n h)

-- A canonical text is kept, and not reported.
pub canonical_of_IsWord : (u : Unicode) (h def : Text) → IsWord h → canonical u h def ≡ (h, true)
canonical_of_IsWord u h def (n, small, e) = rw e (canonical-format_hex u n def small)
