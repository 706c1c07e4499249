-- ===== src/Serial/Watch.antt =====
-- internal/serial/client.go: the loop of `watch`, which cuts the bytes of a connection into lines until it
-- fails and hands each line over.
use deej.Prelude.{
  ℕ, ◌≡◌, refl, ap, sym, ◌∙◌, Bool, true, false, List, [], ◌∷◌, ◌++◌, map, Option, none, some,
  arith, ◌==◌, All, length, ◌<◌,
}
use mathlib.Core.List.{append_assoc}
use deej.Prelude.Text.{Text, is_digit}
use deej.Prelude.Strconv.{join, itoa, all_digits, all_digits-itoa, Without}
use deej.Serial.Protocol.{
  SliderState, SliderMoveEvent, apply_readings, handle_line, print_line, crlf,
}
use deej.Serial.Lines.{InScale, parse_line-print_line}

-- ReadString('\n') again and again, behind what the reader holds of the current line. What comes after
-- the last newline is lost with the error that ends the loop.
unfoldable pub read_lines : Text → Text → List Text
read_lines held [] = []
read_lines held (c ∷ s) = elim (c == 10) [
  | true ↦ (held ++ c ∷ []) ∷ read_lines [] s
  | false ↦ read_lines (held ++ c ∷ []) s
]

abbrev pub then_moves :
    List SliderMoveEvent
    → Option (SliderState × List SliderMoveEvent)
    → Option (SliderState × List SliderMoveEvent)
then_moves es none = none
then_moves es (some (s, fs)) = some (s, es ++ fs)

-- What follows a line, by what the line gave.
abbrev pub go_on :
    (SliderState → Option (SliderState × List SliderMoveEvent))
    → Option (SliderState × List SliderMoveEvent)
    → Option (SliderState × List SliderMoveEvent)
go_on next none = none
go_on next (some (t, es)) = then_moves es (next t)

-- The lines one after the other; the events of all of them in order.
unfoldable pub handle_lines :
    Bool → Text → List Text → SliderState → Option (SliderState × List SliderMoveEvent)
unfolding handle_line
handle_lines invert noise [] s = some (s, [])
handle_lines invert noise (l ∷ ls) s =
    go_on (handle_lines invert noise ls) (handle_line invert noise s l)

-- `watch`
unfoldable pub watch :
    Bool → Text → Text → SliderState → Option (SliderState × List SliderMoveEvent)
unfolding read_lines handle_lines
watch invert noise bytes s = handle_lines invert noise (read_lines [] bytes) s

-- What readings do, one after the other.
unfoldable pub apply_all :
    Bool → Text → List (List ℕ) → SliderState → Option (SliderState × List SliderMoveEvent)
unfolding apply_readings
apply_all invert noise [] s = some (s, [])
apply_all invert noise (ns ∷ nss) s =
    go_on (apply_all invert noise nss) (apply_readings invert noise s ns)

abbrev pub concat : List Text → Text
concat [] = []
concat (w ∷ ws) = w ++ concat ws

read_lines-other :
    (held : Text) (c : ℕ) (s : Text)
    → (c == 10) ≡ false
    → read_lines held (c ∷ s) ≡ read_lines (held ++ c ∷ []) s
unfolding read_lines
read_lines-other held c s e =
    ap
      (λ (b : Bool). elim b [
        | true ↦ (held ++ c ∷ []) ∷ read_lines [] s
        | false ↦ read_lines (held ++ c ∷ []) s
      ])
      e

read_lines-line :
    (held w s : Text)
    → Without 10 w
    → read_lines held (w ++ 10 ∷ s) ≡ (held ++ w ++ 10 ∷ []) ∷ read_lines [] s
unfolding read_lines
read_lines-line held [] s h =
    ap (λ (x : Text). x ∷ read_lines [] s) (sym (append_assoc held [] (10 ∷ [])))
read_lines-line held (c ∷ w) s h =
    read_lines-other held c (w ++ 10 ∷ s) h.0
    ∙ read_lines-line (held ++ c ∷ []) w s h.1
    ∙ ap (λ (x : Text). (x ++ 10 ∷ []) ∷ read_lines [] s) (append_assoc held (c ∷ []) w)

Without-append : (sep : ℕ) (v w : Text) → Without sep v → Without sep w → Without sep (v ++ w)
Without-append sep [] w h k = k
Without-append sep (c ∷ v) w h k = (h.0, Without-append sep v w h.1 k)

Without-digits : (w : Text) → all_digits w ≡ true → Without 10 w
unfolding all_digits is_digit
Without-digits [] h = tt
Without-digits (c ∷ w) h = (ground arith, Without-digits w (ground arith))

Without-join : (ns : List ℕ) → Without 10 (join b'|' (map itoa ns))
unfolding join
Without-join [] = tt
Without-join (n ∷ []) = Without-digits (itoa n) (all_digits-itoa n)
Without-join (n ∷ m ∷ ns) =
    Without-append 10 (itoa n) (b'|' ∷ join b'|' (map itoa (m ∷ ns)))
      (Without-digits (itoa n) (all_digits-itoa n)) (refl, Without-join (m ∷ ns))

-- Readings as the firmware takes them: at least one, of 10 bits each.
abbrev pub IsReading : List ℕ → Type 0
IsReading ns = InScale ns × (0 < length ns)

read_lines-print_line :
    (ns : List ℕ) (s : Text) → read_lines [] (print_line ns ++ s) ≡ print_line ns ∷ read_lines [] s
unfolding print_line
read_lines-print_line ns s =
    let body = join b'|' (map itoa ns) in
    ap (read_lines []) (append_assoc body crlf s ∙ sym (append_assoc body (13 ∷ []) (10 ∷ s)))
    ∙ read_lines-line [] (body ++ 13 ∷ []) s
        (Without-append 10 body (13 ∷ []) (Without-join ns) (refl, tt))
    ∙ ap (λ (x : Text). x ∷ read_lines [] s) (append_assoc body (13 ∷ []) (10 ∷ []))

handle_line-print_line :
    (invert : Bool) (noise : Text) (s : SliderState) (ns : List ℕ)
    → IsReading ns
    → handle_line invert noise s (print_line ns) ≡ apply_readings invert noise s ns
unfolding handle_line
handle_line-print_line invert noise s [] h = absurd (omega (arith, h.1))
handle_line-print_line invert noise s (n ∷ ns) h =
    ap
      (λ (o : Option (List ℕ)). elim o [
        | none ↦ some (s, [])
        | some ms ↦ apply_readings invert noise s ms
      ])
      (parse_line-print_line n ns h.0)

read_lines-rest : (held w : Text) → Without 10 w → read_lines held w ≡ []
unfolding read_lines
read_lines-rest held [] h = refl
read_lines-rest held (c ∷ w) h =
    read_lines-other held c w h.0 ∙ read_lines-rest (held ++ c ∷ []) w h.1

read_lines-concat :
    (nss : List (List ℕ)) (rest : Text)
    → Without 10 rest
    → read_lines [] (concat (map print_line nss) ++ rest) ≡ map print_line nss
read_lines-concat [] rest h = read_lines-rest [] rest h
read_lines-concat (ns ∷ nss) rest h =
    ap (read_lines []) (append_assoc (print_line ns) (concat (map print_line nss)) rest)
    ∙ read_lines-print_line ns (concat (map print_line nss) ++ rest)
    ∙ ap (◌∷◌ (print_line ns)) (read_lines-concat nss rest h)

go_on-same :
    (f g : SliderState → Option (SliderState × List SliderMoveEvent))
    (o : Option (SliderState × List SliderMoveEvent))
    → ((t : SliderState) → f t ≡ g t)
    → go_on f o ≡ go_on g o
go_on-same f g none h = refl
go_on-same f g (some (t, es)) h = ap (then_moves es) (h t)

handle_lines-print_line :
    (invert : Bool) (noise : Text) (nss : List (List ℕ)) (s : SliderState)
    → All IsReading nss
    → handle_lines invert noise (map print_line nss) s ≡ apply_all invert noise nss s
unfolding handle_lines apply_all
handle_lines-print_line invert noise [] s h = refl
handle_lines-print_line invert noise (ns ∷ nss) s h =
    ap (go_on (handle_lines invert noise (map print_line nss)))
      (handle_line-print_line invert noise s ns h.0)
    ∙ go_on-same (handle_lines invert noise (map print_line nss)) (apply_all invert noise nss)
        (apply_readings invert noise s ns) (λ t. handle_lines-print_line invert noise nss t h.1)

-- The bytes that the firmware prints for readings, and the part of a line on which the connection fails, have
-- exactly the effect of the readings one after the other: the same sliders and the same events.
pub watch-print_line :
    (invert : Bool) (noise : Text) (nss : List (List ℕ)) (rest : Text) (s : SliderState)
    → All IsReading nss
    → Without 10 rest
    → watch invert noise (concat (map print_line nss) ++ rest) s ≡ apply_all invert noise nss s
unfolding watch
watch-print_line invert noise nss rest s h k =
    ap (λ (ls : List Text). handle_lines invert noise ls s) (read_lines-concat nss rest k)
    ∙ handle_lines-print_line invert noise nss s h
