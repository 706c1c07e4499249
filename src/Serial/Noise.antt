-- ===== src/Serial/Noise.antt =====
-- internal/serial/noise.go. A slider position is a reading of 0 to 1023; a share of the full volume
-- is held in hundredths, which is what `normalizeScalar` rounds to.
use deej.Prelude.{ℕ, ◌+◌, ◌*◌, ◌/◌, ◌≤◌, ◌<◌, Bool, ◌&&◌, ◌||◌, arith, ltb, leb, if◌then◌else◌}
use deej.Prelude.Int.{ℤ, pos, dist, ltb_ℤ}
use deej.Prelude.Text.{Text, codes, text_eq}

-- `normalizeScalar(float32(raw) / 1023)`, in hundredths. No reading lies near a rounding boundary:
-- raw * 200 is even and 1023 * (2 k + 1) is odd, so the float rounding of the quotient cannot
-- change the hundredth.
unfoldable pub normalize_scalar : ℕ → ℕ
normalize_scalar raw = (raw * 200 + 1023) / 2046

unfoldable pub level_threshold : Text → ℕ
level_threshold level =
    if text_eq level (codes "high")
    then 20
    else if text_eq level (codes "low")
    then 5
    else if text_eq level (codes "none")
    then 1
    else 10

unfoldable pub threshold : Text → ℤ → ℕ
threshold level new =
    let t = level_threshold level in
    if (ltb_ℤ new (pos 10) || ltb_ℤ (pos 1013) new) && ltb 5 t then 5 else t

unfoldable pub significantly_different : ℤ → ℤ → Text → Bool
significantly_different old new level = leb (threshold level new) (dist old new)

level_threshold_bounds : (level : Text) → (1 ≤ level_threshold level) × (level_threshold level ≤ 20)
unfolding level_threshold
level_threshold_bounds level = ground arith

pub threshold_bounds :
    (level : Text) (new : ℤ) → (1 ≤ threshold level new) × (threshold level new ≤ 20)
unfolding threshold
threshold_bounds level new = ground (arith, level_threshold_bounds level)

-- Near the ends of the travel a change of five is enough at every level.
pub threshold_at_ends :
    (level : Text) (n : ℕ)
    → n ≤ 1023
    → (n < 10 → threshold level (pos n) ≤ 5) × (1013 < n → threshold level (pos n) ≤ 5)
unfolding threshold
threshold_at_ends level n h = (
  λ k. ground (arith, level_threshold_bounds level),
  λ k. ground (arith, level_threshold_bounds level),
)

normalize_scalar-le : (raw : ℕ) → raw ≤ 1023 → normalize_scalar raw ≤ 100
unfolding normalize_scalar
normalize_scalar-le raw h = omega arith
