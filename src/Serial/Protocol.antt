-- ===== src/Serial/Protocol.antt =====
-- internal/serial/protocol.go. The line of readings and what it does to the sliders. The outer
-- `none` of a handler is Go's panic on an index out of range.
use deej.Prelude.{
  ℕ, zero, suc, ◌-◌, Bool, false, ◌&&◌, List, [], ◌∷◌, ◌++◌, map, Option, none, some, ltb, leb,
  ◌==◌, if◌then◌else◌, replicate, length,
}
use deej.Prelude.Int.{ℤ, pos, negsuc}
use deej.Prelude.Text.{Text, text_eq, is_digit, trim_suffix}
use deej.Prelude.Strconv.{split, join, itoa, atoi}
use deej.Serial.Noise.{normalize_scalar, significantly_different}

-- "\r\n"
abbrev pub crlf : Text
crlf = 13 ∷ 10 ∷ []

-- `^\d{1,4}(\|\d{1,4})*\r\n$`, behind `k` digits of the current group.
unfoldable pub match_groups : ℕ → Text → Bool
unfolding is_digit
match_groups k [] = false
match_groups k (c ∷ s) =
    let more = match_groups (suc k) s in
    let next = match_groups zero s in
    if is_digit c
    then ltb k 4 && more
    else if c == b'|'
    then leb 1 k && next
    else leb 1 k && text_eq (c ∷ s) crlf

unfoldable pub expected_line_pattern : Text → Bool
unfolding match_groups
expected_line_pattern s = match_groups zero s

abbrev pub in_scale : Option ℤ → Option ℕ
in_scale none = none
in_scale (some (negsuc n)) = none
in_scale (some (pos n)) = if leb n 1023 then some n else none

-- The loop that validates every reading before anything changes.
unfoldable pub read_values : List Text → Option (List ℕ)
unfolding atoi
read_values [] = some []
read_values (w ∷ ws) = elim (in_scale (atoi w)) [
  | none ↦ none
  | some n ↦ elim (read_values ws) [ none ↦ none | some ns ↦ some (n ∷ ns) ]
]

-- The readings of a line, or none where `handleLine` ignores it.
unfoldable pub parse_line : Text → Option (List ℕ)
unfolding expected_line_pattern read_values split trim_suffix
parse_line line =
    if expected_line_pattern line then read_values (split b'|' (trim_suffix crlf line)) else none

pub record SliderMoveEvent : Type 0 where
  pub slider_id : ℕ
  pub percent : ℕ

-- `lastKnownNumSliders` and `currentSliderValues`
pub record SliderState : Type 0 where
  pub num_sliders : ℕ
  pub values : List ℤ

-- The position that a consumer is told, from 0 to 100.
unfoldable pub scaled : Bool → ℕ → ℕ
unfolding normalize_scalar
scaled invert n = if invert then 100 - normalize_scalar n else normalize_scalar n

-- The sentinel of a slider that has not been read.
abbrev pub unread : ℤ
unread = negsuc 1022

abbrev pub prepend_move :
    Bool
    → Text
    → ℕ
    → ℕ
    → ℤ
    → Option (List ℤ × List SliderMoveEvent)
    → Option (List ℤ × List SliderMoveEvent)
prepend_move invert noise i n old none = none
prepend_move invert noise i n old (some (vs, es)) =
    if significantly_different old (pos n) noise
    then some (pos n ∷ vs, record { slider_id = i; percent = scaled invert n } ∷ es)
    else some (old ∷ vs, es)

-- The loop over the readings, from slider `i` on, beside the saved values from there on.
unfoldable pub move_sliders :
    Bool → Text → ℕ → List ℕ → List ℤ → Option (List ℤ × List SliderMoveEvent)
unfolding scaled significantly_different
move_sliders invert noise i [] vs = some (vs, [])
move_sliders invert noise i (n ∷ ns) [] = none
move_sliders invert noise i (n ∷ ns) (old ∷ vs) =
    prepend_move invert noise i n old (move_sliders invert noise (suc i) ns vs)

-- A line with another number of sliders starts them afresh.
unfoldable pub resize : ℕ → SliderState → SliderState
resize n s =
    if n == s.num_sliders then s else record { num_sliders = n; values = replicate n unread }

abbrev with_values :
    SliderState
    → Option (List ℤ × List SliderMoveEvent)
    → Option (SliderState × List SliderMoveEvent)
with_values s none = none
with_values s (some (vs, es)) = some (record s { values = vs }, es)

unfoldable pub apply_readings :
    Bool → Text → SliderState → List ℕ → Option (SliderState × List SliderMoveEvent)
unfolding resize
apply_readings invert noise s ns =
    let t = resize (length ns) s in with_values t (move_sliders invert noise 0 ns t.values)

unfoldable pub handle_line :
    Bool → Text → SliderState → Text → Option (SliderState × List SliderMoveEvent)
unfolding apply_readings
handle_line invert noise s line = elim (parse_line line) [
  | none ↦ some (s, [])
  | some ns ↦ apply_readings invert noise s ns
]

-- The delivery: every consumer receives all events, in order.
unfoldable pub deliver {ℓ} :
    {C : Type ℓ} → List C → List SliderMoveEvent → List (C × SliderMoveEvent)
deliver [] es = []
deliver (c ∷ cs) es = map (λ e. (c, e)) es ++ deliver cs es

-- `CurrentSliderPercentValues`
unfoldable pub current_percent : Bool → ℤ → ℕ
unfolding scaled
current_percent invert (negsuc n) = 0
current_percent invert (pos n) = scaled invert n

-- What `setupOnConfigReload` does to the sliders: the next line reports all of them.
unfoldable pub forget_count : SliderState → SliderState
forget_count s = record s { num_sliders = 0 }

-- The line that the firmware sends.
unfoldable pub print_line : List ℕ → Text
unfolding join
print_line ns = join b'|' (map itoa ns) ++ crlf
