-- ===== src/Serial/Sliders.antt =====
-- What lines of readings do to the saved slider values and which moves they report.
use deej.Prelude.{
  ℕ, suc, ◌+◌, ◌<◌, ◌≡◌, refl, ap, ◌⊎◌, inl, inr, Bool, List, [], ◌∷◌, map, some, arith, length,
  All, All₂, Bool-cases, replicate, get_elem?, leb,
}
use deej.Prelude.Int.{ℤ, pos, dist}
use deej.Prelude.Text.{Text}
use deej.Serial.Noise.{threshold, threshold_bounds, significantly_different}
use deej.Serial.Protocol.{
  SliderMoveEvent, SliderState, scaled, unread, prepend_move, move_sliders, current_percent,
}

-- The saved value is within the noise threshold of the reading.
abbrev pub Tracks : Text → ℕ → ℤ → Type 0
Tracks noise n v = dist v (pos n) < threshold noise (pos n)

-- No slider has been counted yet, or each counted one has a saved value.
abbrev pub IsSized : SliderState → Type 0
IsSized s = (s.num_sliders ≡ 0) ⊎ (length s.values ≡ s.num_sliders)

-- The event tells what `CurrentSliderPercentValues` then says of its slider, the first being `i`.
abbrev pub Reports : Bool → ℕ → List ℤ → SliderMoveEvent → Type 0
Reports invert i vs e =
    (j : ℕ) × (z : ℤ) × (get_elem? vs j ≡ some z)
    × (e.slider_id ≡ i + j)
    × (e.percent ≡ current_percent invert z)

-- One move for every reading.
abbrev pub all_moves : Bool → ℕ → List ℕ → List SliderMoveEvent
all_moves invert i [] = []
all_moves invert i (n ∷ ns) =
    record { slider_id = i; percent = scaled invert n } ∷ all_moves invert (suc i) ns

abbrev pub Moved : Bool → Text → ℕ → List ℕ → List ℤ × List SliderMoveEvent → Type 0
Moved invert noise i ns r =
    All₂ (Tracks noise) ns r.0 × (length r.0 ≡ length ns) × All (Reports invert i r.0) r.1

Reports-cons :
    (invert : Bool) (i : ℕ) (v : ℤ) (vs : List ℤ) (es : List SliderMoveEvent)
    → All (Reports invert (suc i) vs) es
    → All (Reports invert i (v ∷ vs)) es
Reports-cons invert i v vs [] h = tt
Reports-cons invert i v vs (e ∷ es) ((j, z, at, id, p), h) =
    ((suc j, z, at, omega arith, p), Reports-cons invert i v vs es h)

Tracks-self : (noise : Text) (n : ℕ) → Tracks noise n (pos n)
Tracks-self noise n = omega (arith, threshold_bounds noise (pos n))

prepend_move-Moved :
    (invert : Bool) (noise : Text) (i n : ℕ) (ns : List ℕ) (old : ℤ)
    (r : List ℤ × List SliderMoveEvent)
    → Moved invert noise (suc i) ns r
    → (t : List ℤ × List SliderMoveEvent) × (prepend_move invert noise i n old (some r) ≡ some t)
      × Moved invert noise i (n ∷ ns) t
unfolding significantly_different current_percent
prepend_move-Moved invert noise i n ns old (vs, es) (near, same, told) =
    elim (Bool-cases (leb (threshold noise (pos n)) (dist old (pos n)))) [
      | inl e ↦ (
        (pos n ∷ vs, record { slider_id = i; percent = scaled invert n } ∷ es),
        rw e,
        (
          (Tracks-self noise n, near),
          ap suc same,
          ((0, pos n, refl, omega arith, refl), Reports-cons invert i (pos n) vs es told),
        ),
      )
      | inr e ↦ (
        (old ∷ vs, es),
        rw e,
        ((ground arith, near), ap suc same, Reports-cons invert i old vs es told),
      )
    ]

-- With a saved value for each reading the loop ends without a panic.
pub move_sliders-Moved :
    (invert : Bool) (noise : Text) (i : ℕ) (ns : List ℕ) (vs : List ℤ)
    → length vs ≡ length ns
    → (t : List ℤ × List SliderMoveEvent) × (move_sliders invert noise i ns vs ≡ some t)
      × Moved invert noise i ns t
unfolding move_sliders
move_sliders-Moved invert noise i [] [] h = (([], []), refl, (tt, refl, tt))
move_sliders-Moved invert noise i [] (v ∷ vs) h = absurd (omega arith)
move_sliders-Moved invert noise i (n ∷ ns) [] h = absurd (omega arith)
move_sliders-Moved invert noise i (n ∷ ns) (old ∷ vs) h =
    let (r, e, moved) = move_sliders-Moved invert noise (suc i) ns vs (omega arith) in
    rw e (prepend_move-Moved invert noise i n ns old r moved)

-- A saved value that tracks its reading stays, and nothing is reported.
pub move_sliders-quiet :
    (invert : Bool) (noise : Text) (i : ℕ) (ns : List ℕ) (vs : List ℤ)
    → All₂ (Tracks noise) ns vs
    → move_sliders invert noise i ns vs ≡ some (vs, [])
unfolding move_sliders significantly_different
move_sliders-quiet invert noise i [] [] h = refl
move_sliders-quiet invert noise i [] (v ∷ vs) h = absurd h
move_sliders-quiet invert noise i (n ∷ ns) [] h = absurd h
move_sliders-quiet invert noise i (n ∷ ns) (old ∷ vs) h =
    rw (move_sliders-quiet invert noise (suc i) ns vs h.1) (ground arith)

-- From the sentinel every reading is a move.
pub move_sliders-unread :
    (invert : Bool) (noise : Text) (i : ℕ) (ns : List ℕ)
    → move_sliders invert noise i ns (replicate (length ns) unread)
      ≡ some (map pos ns, all_moves invert i ns)
unfolding move_sliders significantly_different
move_sliders-unread invert noise i [] = refl
move_sliders-unread invert noise i (n ∷ ns) =
    rw (move_sliders-unread invert noise (suc i) ns)
      (ground (arith, threshold_bounds noise (pos n)))
