-- ===== src/Serial/Tests.antt =====
-- Runs of the serial client's code at concrete lines.
use deej.Prelude.{ℕ, ◌≡◌, refl, inr, true, false, List, [], ◌∷◌, some, arith, All, All₂, ◌++◌, map}
use deej.Prelude.Int.{pos}
use deej.Prelude.Text.{
  Text, codes, text_eq, ascii, trim_space, trim_left, trim_right, is_space, cut_prefix,
}
use deej.Serial.Noise.{normalize_scalar, level_threshold, threshold, significantly_different}
use deej.Serial.Protocol.{
  parse_line, SliderMoveEvent, SliderState, scaled, move_sliders, resize, apply_readings,
  handle_line, print_line,
}
use deej.Serial.Lines.{InScale, parse_line-print_line}
use deej.Serial.Sliders.{Tracks, Reports}
use deej.Config.Model.{ComSettings, default_com}
use deej.Config.Hex.{value}
use deej.Prelude.Strconv.{hex_digit, hex_value, parse_uint16_hex}
use deej.Serial.Port.{PortDetails, parse_digits, port_number, matches, find_port, choose_port}
use deej.Serial.Watch.{watch, concat, apply_all, watch-print_line}
use deej.Serial.Handler.{handle_line-some, handle_line-Tracks}

abbrev readings : List ℕ
readings = 512 ∷ 1023 ∷ []

abbrev line : Text
line = print_line readings

abbrev quiet : Text
quiet = codes "high"

-- Both sliders were counted, one of them a little away.
abbrev before : SliderState
before = record { num_sliders = 2; values = pos 520 ∷ pos 3 ∷ [] }

abbrev behind : SliderState
behind = record { num_sliders = 2; values = pos 520 ∷ pos 1023 ∷ [] }

abbrev full : SliderMoveEvent
full = record { slider_id = 1; percent = 100 }

readings-InScale : InScale readings
readings-InScale = (omega arith, (omega arith, tt))

parse_line-print_line_example : parse_line (print_line (512 ∷ 1023 ∷ [])) ≡ some (512 ∷ 1023 ∷ [])
parse_line-print_line_example = parse_line-print_line 512 (1023 ∷ []) readings-InScale

abbrev IsRead : Type 0
IsRead = parse_line line ≡ some readings

line_is_read : IsRead
line_is_read = parse_line-print_line 512 (1023 ∷ []) readings-InScale

handle_line-Tracks_example :
    (t : SliderState) × (es : List SliderMoveEvent) × (handle_line true quiet before line
      ≡ some (t, es))
    × (t.num_sliders ≡ 2)
    × All₂ (Tracks quiet) readings t.values
    × All (Reports true 0 t.values) es
handle_line-Tracks_example =
    handle_line-Tracks true quiet before line readings (inr refl) line_is_read

abbrev one_slider : SliderState
one_slider = record { num_sliders = 1; values = pos 512 ∷ [] }

-- The first slider moved too little, the second is at its end.
handled : handle_line false quiet before line ≡ some (behind, full ∷ [])
unfolding apply_readings resize move_sliders significantly_different threshold level_threshold
    scaled normalize_scalar text_eq
handled = handle_line-some false quiet before line line_is_read

abbrev adapter : PortDetails
adapter = record { name = codes "COM7"; is_usb = true; vid = codes "1a86"; pid = codes "7523" }

abbrev com_default : ComSettings
com_default = default_com

chosen : choose_port ascii com_default (some (adapter ∷ [])) ≡ inr (codes "COM7")
unfolding choose_port find_port matches port_number parse_digits hex_digit hex_value
    parse_uint16_hex value text_eq trim_space trim_left trim_right is_space cut_prefix
chosen = refl

watch-print_line_example :
    watch false []
      (concat (map print_line ((0 ∷ 512 ∷ []) ∷ (1023 ∷ 512 ∷ []) ∷ [])) ++ codes "10|5")
      (record { num_sliders = 0; values = [] })
    ≡ apply_all false []
        ((0 ∷ 512 ∷ []) ∷ (1023 ∷ 512 ∷ []) ∷ [])
        (record { num_sliders = 0; values = [] })
watch-print_line_example =
    watch-print_line false [] ((0 ∷ 512 ∷ []) ∷ (1023 ∷ 512 ∷ []) ∷ []) (codes "10|5")
      (record { num_sliders = 0; values = [] })
      (
        ((omega arith, (omega arith, tt)), omega arith),
        (((omega arith, (omega arith, tt)), omega arith), tt),
      )
      (refl, (refl, (refl, (refl, tt))))
