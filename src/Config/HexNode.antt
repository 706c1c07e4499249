-- ===== src/Config/HexNode.antt =====
-- internal/config/model.go: HexWord as a YAML scalar, written and read.
use deej.Prelude.{
  ℕ, ◌≤◌, ◌≡◌, refl, ap, sym, ◌∙◌, Bool, true, false, ◌++◌, [], Option, none, some, arith, ltb,
  if◌then◌else◌, Bool-cases, inl, inr,
}
use deej.Prelude.Text.{
  Text, Unicode, codes, text_eq, text_eq_iff, trim_space, to_lower, trim_prefix, cut_prefix,
}
use deej.Prelude.Strconv.{parse_uint16_hex}
use deej.Config.Hex.{value, format_hex, canonical, value-le}

-- What MarshalYAML hands to the encoder: a string, or a scalar with its tag and its text.
pub data HexNode : Type 0 where
  plain : Text → HexNode
  tagged : Text → Text → HexNode

abbrev pub word_node : Option ℕ → Text → HexNode
word_node none h = HexNode.plain h
word_node (some n) h = HexNode.tagged (codes "!!int") (codes "0x" ++ format_hex n)

-- `MarshalYAML`
unfoldable pub marshal_hex : Unicode → Text → HexNode
unfolding value format_hex
marshal_hex u h = word_node (value u h) h

-- node.Decode into a number of 64 bits, and into a string.
pub record Decoder : Type 0 where
  pub decode_number : HexNode → Option ℕ
  pub decode_string : HexNode → Option Text

abbrev pub number_word : ℕ → Option Text
number_word n = if ltb 65535 n then none else some (format_hex n)

-- `UnmarshalYAML`; `none` is an error.
unfoldable pub unmarshal_hex : Decoder → HexNode → Option Text
unfolding format_hex
unmarshal_hex d node = elim (d.decode_number node) [
  | some n ↦ number_word n
  | none ↦ d.decode_string node
]

-- The decoder reads an integer that is written with four hexadecimal digits.
abbrev pub ReadsHex : Decoder → Type 0
ReadsHex d =
    (n : ℕ)
    → n ≤ 65535
    → d.decode_number (HexNode.tagged (codes "!!int") (codes "0x" ++ format_hex n)) ≡ some n

value-blank : (u : Unicode) (h : Text) → trim_space h ≡ [] → value u h ≡ none
unfolding value parse_uint16_hex cut_prefix
value-blank u h e = ap (λ (s : Text). parse_uint16_hex (trim_prefix (codes "0x") (to_lower u s))) e

canonical-value :
    (u : Unicode) (h def : Text) {n : ℕ}
    → value u h ≡ some n
    → canonical u h def ≡ (format_hex n, true)
unfolding canonical
canonical-value u h def v = elim (Bool-cases (text_eq (trim_space h) [])) [
  | inl e ↦ absurd (cc (v, value-blank u h ((text_eq_iff (trim_space h) []).0 e)))
  | inr e ↦ rw (e, v) refl
]

unmarshal_hex-number :
    (d : Decoder) (node : HexNode) (n : ℕ)
    → d.decode_number node ≡ some n
    → n ≤ 65535
    → unmarshal_hex d node ≡ some (format_hex n)
unfolding unmarshal_hex
unmarshal_hex-number d node n e h =
    let small : ltb 65535 n ≡ false = ground (arith, h) in
    ap (λ (o : Option ℕ). elim o [ some m ↦ number_word m | none ↦ d.decode_string node ]) e
    ∙ rw small refl

-- A word that `Value` reads, in any of its spellings, is written as an integer and comes back in its canonical
-- form, the one that the rules of the settings give it, without a report.
pub unmarshal_hex-marshal_hex :
    (u : Unicode) (d : Decoder) (h def : Text) (n : ℕ)
    → ReadsHex d
    → value u h ≡ some n
    → (unmarshal_hex d (marshal_hex u h) ≡ some (canonical u h def).0)
      × ((canonical u h def).1 ≡ true)
unfolding marshal_hex
unmarshal_hex-marshal_hex u d h def n reads v =
    let canon = canonical-value u h def v in
    (
      ap (λ (o : Option ℕ). unmarshal_hex d (word_node o h)) v
          ∙ unmarshal_hex-number d (word_node (some n) h) n (reads n (value-le u h v))
              (value-le u h v)
          ∙ ap (λ (r : Text × Bool). some r.0) (sym canon),
      ap (λ (r : Text × Bool). r.1) canon,
    )
