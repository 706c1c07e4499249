-- ===== src/Serial/Port.antt =====
-- internal/serial/client.go: which port `dial` opens. The ports come from the enumerator of go.bug.st/serial.
use deej.Prelude.{
  ℕ, ◌+◌, ◌*◌, ◌≡◌, ap, sym, ◌∙◌, Bool, true, false, ◌&&◌, List, [], ◌∷◌, Option, none, some,
  if◌then◌else◌, ltb, ◌==◌, Bool-cases, inl, inr, ◌⊎◌,
}
use deej.Prelude.Text.{Text, Unicode, codes, text_eq, text_eq_self}
use deej.Prelude.Strconv.{hex_digit}
use deej.Config.Model.{ComSettings}
use deej.Config.Hex.{value}

pub record PortDetails : Type 0 where
  pub name : Text
  pub is_usb : Bool
  pub vid : Text
  pub pid : Text

pub data DialError : Type 0 where
  no_serial_ports auto_port_not_found : DialError

-- strconv.ParseUint of base 16 and 16 bits behind some digits, without its error: 0 for a character that
-- is no digit, the largest value when the digits leave the range.
unfoldable pub parse_digits : ℕ → Text → ℕ
unfolding hex_digit
parse_digits n [] = n
parse_digits n (c ∷ s) = elim (hex_digit c) [
  | none ↦ 0
  | some d ↦
      let rest = parse_digits (n * 16 + d) s in if ltb 65535 (n * 16 + d) then 65535 else rest
]

-- An empty text is 0, too.
unfoldable pub port_number : Text → ℕ
unfolding parse_digits
port_number s = parse_digits 0 s

abbrev pub or_zero : Option ℕ → ℕ
or_zero none = 0
or_zero (some n) = n

unfoldable pub matches : ℕ → ℕ → PortDetails → Bool
unfolding port_number
matches vid pid p = p.is_usb && (port_number p.vid == vid && port_number p.pid == pid)

abbrev pub auto_port : Text
auto_port = codes "auto"

-- The loop over the ports
unfoldable pub find_port : ℕ → ℕ → List PortDetails → Text
unfolding matches
find_port vid pid [] = auto_port
find_port vid pid (p ∷ ps) =
    let rest = find_port vid pid ps in if matches vid pid p then p.name else rest

abbrev pub PortChoice : Type 0
PortChoice = DialError ⊎ Text

abbrev pub found_port : Text → PortChoice
found_port name = if text_eq name auto_port then inl auto_port_not_found else inr name

abbrev pub detect : ℕ → ℕ → Option (List PortDetails) → PortChoice
detect vid pid none = inl no_serial_ports
detect vid pid (some []) = inl no_serial_ports
detect vid pid (some (p ∷ ps)) = found_port (find_port vid pid (p ∷ ps))

-- What `dial` opens; no list of ports is an error of the enumerator.
unfoldable pub choose_port : Unicode → ComSettings → Option (List PortDetails) → PortChoice
unfolding value find_port text_eq
choose_port u settings ports =
    if text_eq settings.port auto_port
    then detect (or_zero (value u settings.vid)) (or_zero (value u settings.pid)) ports
    else inr settings.port

-- A USB port of the list that has the ids and the name.
pub data IsDetected (vid pid : ℕ) (name : Text) : List PortDetails → Type 0 where
  here :
      (p : PortDetails) (ps : List PortDetails)
      → matches vid pid p ≡ true
      → p.name ≡ name
      → IsDetected vid pid name (p ∷ ps)
  later :
      (p : PortDetails) (ps : List PortDetails)
      → matches vid pid p ≡ false
      → IsDetected vid pid name ps
      → IsDetected vid pid name (p ∷ ps)

find_port-IsDetected :
    (vid pid : ℕ) (name : Text) (ps : List PortDetails)
    → text_eq name auto_port ≡ false
    → find_port vid pid ps ≡ name
    → IsDetected vid pid name ps
unfolding find_port
find_port-IsDetected vid pid name [] h e =
    let auto : text_eq auto_port auto_port ≡ true = text_eq_self auto_port in
    let same : text_eq auto_port auto_port ≡ text_eq name auto_port =
      ap (λ (x : Text). text_eq x auto_port) e in
    absurd (cc)
find_port-IsDetected vid pid name (p ∷ ps) h e = elim (Bool-cases (matches vid pid p)) [
  | inl m ↦ here p ps m (rw m at e)
  | inr m ↦ later p ps m (find_port-IsDetected vid pid name ps h (rw m at e))
]

found_port-named : (found name : Text) → found_port found ≡ inr name → found ≡ name
found_port-named found name e = elim (Bool-cases (text_eq found auto_port)) [
  | inl f ↦ absurd (cc (rw f at e))
  | inr f ↦ cc (rw f at e)
]

found_port-other :
    (found name : Text) → found_port found ≡ inr name → text_eq name auto_port ≡ false
found_port-other found name e = elim (Bool-cases (text_eq found auto_port)) [
  | inl f ↦ absurd (cc (rw f at e))
  | inr f ↦ ap (λ (x : Text). text_eq x auto_port) (sym (found_port-named found name e)) ∙ f
]

-- A detected port is the first USB port in the list that has the ids of the settings.
choose_port-IsDetected :
    (u : Unicode) (settings : ComSettings) (p : PortDetails) (ps : List PortDetails) (name : Text)
    → text_eq settings.port auto_port ≡ true
    → choose_port u settings (some (p ∷ ps)) ≡ inr name
    → IsDetected (or_zero (value u settings.vid)) (or_zero (value u settings.pid)) name (p ∷ ps)
unfolding choose_port
choose_port-IsDetected u settings p ps name auto e =
    let vid = or_zero (value u settings.vid) in
    let pid = or_zero (value u settings.pid) in
    let found : found_port (find_port vid pid (p ∷ ps)) ≡ inr name = rw auto at e in
    find_port-IsDetected vid pid name (p ∷ ps)
      (found_port-other (find_port vid pid (p ∷ ps)) name found)
      (found_port-named (find_port vid pid (p ∷ ps)) name found)
