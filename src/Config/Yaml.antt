-- ===== src/Config/Yaml.antt =====
-- internal/config/mapping.go: the slider mapping as a YAML node, read leniently and written. A node is what
-- go.yaml.in/yaml parsed: keys by their text, values and items as far as the code looks at them.
use deej.Prelude.{
  suc, ◌<◌, ◌≡◌, refl, ap, ◌∙◌, false, ◌&&◌, not, List, [], ◌∷◌, Option, none, some, arith,
  if◌then◌else◌, length, All,
}
use deej.Prelude.Int.{ℤ, pos, negsuc, is_neg, ltb_ℤ}
use deej.Prelude.Text.{Text, codes, text_eq}
use deej.Prelude.Strconv.{itoa, atoi, atoi-itoa, max_int}
use deej.Config.Model.{SliderMappingEntry, SliderMappings}
use deej.Config.Mapping.Canonical.{IsKept, IsCanonical}
use deej.Config.Rules.{is_nil}

pub data Item : Type 0 where
  item_scalar : Text → Text → Item
  item_other : Item

-- A scalar has a tag and a text.
pub data NodeValue : Type 0 where
  scalar : Text → Text → NodeValue
  sequence : List Item → NodeValue
  other_value : NodeValue

pub data Node : Type 0 where
  mapping : List (Text × NodeValue) → Node
  other_node : Node

unfoldable pub item_targets : List Item → List Text
unfolding text_eq
item_targets [] = []
item_targets (item_other ∷ items) = item_targets items
item_targets (item_scalar tag text ∷ items) =
    let rest = item_targets items in if text_eq tag (codes "!!null") then rest else text ∷ rest

unfoldable pub node_targets : NodeValue → List Text
unfolding item_targets text_eq
node_targets (scalar tag text) =
    if not (text_eq tag (codes "!!null")) && not (text_eq text []) then text ∷ [] else []
node_targets (sequence items) = item_targets items
node_targets other_value = []

abbrev pub with_slider : Option ℤ → List Text → SliderMappings → SliderMappings
with_slider none targets rest = rest
with_slider (some n) targets rest = record { slider = n; targets = targets } ∷ rest

unfoldable pub read_pairs : List (Text × NodeValue) → SliderMappings
unfolding atoi node_targets
read_pairs [] = []
read_pairs ((key, value) ∷ pairs) = with_slider (atoi key) (node_targets value) (read_pairs pairs)

-- `UnmarshalYAML`
unfoldable pub unmarshal : Node → SliderMappings
unfolding read_pairs
unmarshal (mapping pairs) = read_pairs pairs
unmarshal other_node = []

abbrev pub yaml_int : ℤ → Text
yaml_int (pos n) = itoa n
yaml_int (negsuc n) = b'-' ∷ itoa (suc n)

abbrev pub yaml_items : List Text → List Item
yaml_items [] = []
yaml_items (t ∷ ts) = item_scalar (codes "!!str") t ∷ yaml_items ts

abbrev pub yaml_value : List Text → NodeValue
yaml_value (t ∷ []) = scalar (codes "!!str") t
yaml_value ts = sequence (yaml_items ts)

unfoldable pub write_pairs : SliderMappings → List (Text × NodeValue)
unfolding itoa
write_pairs [] = []
write_pairs (e ∷ es) =
    let rest = write_pairs es in
    if is_nil e.targets then rest else (yaml_int e.slider, yaml_value e.targets) ∷ rest

-- `MarshalYAML`
unfoldable pub marshal : SliderMappings → Node
unfolding write_pairs
marshal m = mapping (write_pairs m)

item_targets-yaml_items : (ts : List Text) → item_targets (yaml_items ts) ≡ ts
unfolding item_targets text_eq
item_targets-yaml_items [] = refl
item_targets-yaml_items (t ∷ ts) = ap (λ (r : List Text). t ∷ r) (item_targets-yaml_items ts)

given_targets : (ts : List Text) → 0 < length ts → is_nil ts ≡ false
given_targets [] h = absurd (omega arith)
given_targets (t ∷ ts) h = refl

node_targets-yaml_value :
    (ts : List Text) → All (λ t. text_eq t [] ≡ false) ts → node_targets (yaml_value ts) ≡ ts
unfolding node_targets
node_targets-yaml_value [] h = item_targets-yaml_items []
node_targets-yaml_value (t ∷ []) h = rw h.0 refl
node_targets-yaml_value (t ∷ s ∷ ts) h = item_targets-yaml_items (t ∷ s ∷ ts)

-- The slider is not above the largest int.
abbrev pub IsInt : SliderMappingEntry → Type 0
IsInt e = ltb_ℤ (pos max_int) e.slider ≡ false

atoi-yaml_int :
    (n : ℤ) → is_neg n ≡ false → ltb_ℤ (pos max_int) n ≡ false → atoi (yaml_int n) ≡ some n
atoi-yaml_int (pos n) h k = atoi-itoa n (ground arith)
atoi-yaml_int (negsuc n) h k = absurd (cc)

read_pairs-write_pairs :
    (m : SliderMappings) → All IsKept m → All IsInt m → read_pairs (write_pairs m) ≡ m
unfolding write_pairs read_pairs
read_pairs-write_pairs [] h k = refl
read_pairs-write_pairs (e ∷ es) ((sign, some_target, full), h) (small, k) =
    let given : is_nil e.targets ≡ false = given_targets e.targets some_target in
    rw given (
      ap
        (λ (o : Option ℤ).
          with_slider o (node_targets (yaml_value e.targets)) (read_pairs (write_pairs es)))
        (atoi-yaml_int e.slider sign small)
      ∙ ap (λ (ts : List Text). with_slider (some e.slider) ts (read_pairs (write_pairs es)))
          (node_targets-yaml_value e.targets full)
      ∙ ap (λ (r : SliderMappings). e ∷ r) (read_pairs-write_pairs es h k))

-- A canonical mapping whose sliders are ints is read back from the node that is written for it.
pub unmarshal-marshal :
    (m : SliderMappings) → IsCanonical m → All IsInt m → unmarshal (marshal m) ≡ m
unfolding unmarshal marshal
unmarshal-marshal m h k = read_pairs-write_pairs m h.1 k
