-- ===== src/Serial/Handler.antt =====
-- `handleLine` on every line: it never panics, keeps the saved values near the readings, and says
-- all of them after a change of the number of sliders or of the configuration.
use deej.Prelude.{
  ℕ, ◌<◌, ◌≡◌, ◌≢◌, ◌∙◌, ◌⊎◌, inl, inr, Bool, List, [], map, none, some, arith, length, All, All₂,
  All₂-get, All₂-length, subst, Option-cases, replicate, length-replicate, get_elem?,
}
use deej.Prelude.Int.{pos}
use deej.Prelude.Text.{Text}
use deej.Serial.Noise.{threshold_at_ends, normalize_scalar}
use deej.Serial.Protocol.{
  parse_line, SliderMoveEvent, SliderState, scaled, unread, resize, apply_readings, handle_line,
  current_percent, forget_count,
}
use deej.Serial.Lines.{parse_line-InScale}
use deej.Serial.Sliders.{
  Tracks, IsSized, Reports, all_moves, move_sliders-Moved, move_sliders-quiet, move_sliders-unread,
}

resize-IsSized :
    (n : ℕ) (s : SliderState)
    → 0 < n
    → IsSized s
    → (length (resize n s).values ≡ n) × ((resize n s).num_sliders ≡ n)
unfolding resize
resize-IsSized n s p h = ground (arith, length-replicate n unread)

handle_line-none :
    (invert : Bool) (noise : Text) (s : SliderState) (line : Text)
    → parse_line line ≡ none
    → handle_line invert noise s line ≡ some (s, [])
unfolding handle_line
handle_line-none invert noise s line h = rw (h, handle_line)

pub handle_line-some :
    (invert : Bool) (noise : Text) (s : SliderState) (line : Text) {ns : List ℕ}
    → parse_line line ≡ some ns
    → handle_line invert noise s line ≡ apply_readings invert noise s ns
unfolding handle_line
handle_line-some invert noise s line h = rw (h, handle_line)

-- From sized values, on a well-formed line the handler ends without a panic: each slider of the
-- line then has a saved value that is nearer to its reading than the noise threshold, and each
-- event tells what `CurrentSliderPercentValues` then says of its slider.
pub handle_line-Tracks :
    (invert : Bool) (noise : Text) (s : SliderState) (line : Text) (ns : List ℕ)
    → IsSized s
    → parse_line line ≡ some ns
    → (t : SliderState) × (es : List SliderMoveEvent) × (handle_line invert noise s line
        ≡ some (t, es))
      × (t.num_sliders ≡ length ns)
      × All₂ (Tracks noise) ns t.values
      × All (Reports invert 0 t.values) es
unfolding apply_readings
handle_line-Tracks invert noise s line ns sized h =
    let (small, some_read) = parse_line-InScale line h in
    let (long, count) = resize-IsSized (length ns) s some_read sized in
    let ((vs, es), e, (near, same, told)) =
      move_sliders-Moved invert noise 0 ns (resize (length ns) s).values long in
    (
      record (resize (length ns) s) { values = vs },
      es,
      handle_line-some invert noise s line h ∙ rw e,
      count,
      near,
      told,
    )

-- From sized values, the handler never indexes the saved ones out of range, whatever the line, and
-- keeps them sized.
handle_line-IsSized :
    (invert : Bool) (noise : Text) (s : SliderState) (line : Text)
    → IsSized s
    → (t : SliderState) × (es : List SliderMoveEvent) × (handle_line invert noise s line
        ≡ some (t, es))
      × IsSized t
handle_line-IsSized invert noise s line sized = elim (Option-cases (parse_line line)) [
  | inl e ↦ (s, [], handle_line-none invert noise s line e, sized)
  | inr (ns, e) ↦
      let (t, es, ran, count, near, told) = handle_line-Tracks invert noise s line ns sized e in
      (t, es, ran, inr (All₂-length (Tracks noise) ns t.values near ∙ (omega arith)))
]

resize-ne :
    (n : ℕ) (s : SliderState)
    → n ≢ s.num_sliders
    → resize n s ≡ record { num_sliders = n; values = replicate n unread }
unfolding resize
resize-ne n s h = ground arith

-- A well-formed line with another number of sliders than the last one reports every slider, in
-- order, and saves every reading.
handle_line-new_count :
    (invert : Bool) (noise : Text) (s : SliderState) (line : Text) (ns : List ℕ)
    → parse_line line ≡ some ns
    → length ns ≢ s.num_sliders
    → handle_line invert noise s line
      ≡ some (record { num_sliders = length ns; values = map pos ns }, all_moves invert 0 ns)
unfolding apply_readings
handle_line-new_count invert noise s line ns h ne =
    handle_line-some invert noise s line h
    ∙ rw (resize-ne (length ns) s ne) (rw (move_sliders-unread invert noise 0 ns))

-- The first well-formed line after a reload of the configuration, which forgets the number of
-- sliders, reports every slider, in order.
handle_line-forget_count :
    (invert : Bool) (noise : Text) (s : SliderState) (line : Text) (ns : List ℕ)
    → parse_line line ≡ some ns
    → handle_line invert noise (forget_count s) line
      ≡ some (record { num_sliders = length ns; values = map pos ns }, all_moves invert 0 ns)
unfolding forget_count
handle_line-forget_count invert noise s line ns h =
    handle_line-new_count invert noise _ line ns h (omega (arith, (parse_line-InScale line h).1))

apply_readings-settled :
    (invert : Bool) (noise : Text) (s : SliderState) (ns : List ℕ)
    → s.num_sliders ≡ length ns
    → All₂ (Tracks noise) ns s.values
    → apply_readings invert noise s ns ≡ some (s, [])
unfolding apply_readings resize
apply_readings-settled invert noise s ns count near =
    ground (arith, move_sliders-quiet invert noise 0 ns s.values near)

-- From sized values, a line that was handled changes nothing and reports nothing when it comes
-- again.
handle_line_again :
    (invert : Bool) (noise : Text) (s t : SliderState) (line : Text) (es : List SliderMoveEvent)
    → IsSized s
    → handle_line invert noise s line ≡ some (t, es)
    → handle_line invert noise t line ≡ some (t, [])
handle_line_again invert noise s t line es sized h = elim (Option-cases (parse_line line)) [
  | inl e ↦ handle_line-none invert noise t line e
  | inr (ns, e) ↦
      let (t', es', ran, count, near, told) = handle_line-Tracks invert noise s line ns sized e in
      let same : t' ≡ t = cc in
      handle_line-some invert noise t line e
      ∙ subst (λ (x : SliderState). apply_readings invert noise x ns ≡ some (x, [])) same
          (apply_readings-settled invert noise t' ns count near)
]

at_end :
    (invert : Bool) (noise : Text) (n m : ℕ)
    → (n ≡ 0) ⊎ (n ≡ 1023)
    → Tracks noise n (pos m)
    → scaled invert m ≡ scaled invert n
unfolding scaled normalize_scalar
at_end invert noise n m (inl e) near = ground (arith, threshold_at_ends noise n)
at_end invert noise n m (inr e) near = ground (arith, threshold_at_ends noise n)

-- From sized values, a slider at an end of its travel is reported there exactly, at every noise
-- level: once a saved value has been read at all, then after a line that puts its slider at an end
-- it stands for the same share as the reading.
handle_line_at_end :
    (invert : Bool) (noise : Text) (s t : SliderState) (line : Text) (ns : List ℕ)
    (es : List SliderMoveEvent) (i n m : ℕ)
    → IsSized s
    → parse_line line ≡ some ns
    → handle_line invert noise s line ≡ some (t, es)
    → get_elem? ns i ≡ some n
    → get_elem? t.values i ≡ some (pos m)
    → (n ≡ 0) ⊎ (n ≡ 1023)
    → current_percent invert (pos m) ≡ scaled invert n
unfolding current_percent
handle_line_at_end invert noise s t line ns es i n m sized h ran at saved end =
    let (t', es', ran', count, near, told) = handle_line-Tracks invert noise s line ns sized h in
    let same : t' ≡ t = cc in
    let near' = subst (λ (x : SliderState). All₂ (Tracks noise) ns x.values) same near in
    at_end invert noise n m end (All₂-get (Tracks noise) ns t.values i at saved near')
