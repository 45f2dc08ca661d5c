-- ===== src/NewTask/Scores.antt =====
-- The bars that compare the models (apps/web/src/components/model-selector.tsx), which have ten
-- segments each.
use native.Mathlib.Nat.{div-lt_iff_lt-mul, le-div_iff_mul-le, div-mul-le_self}
use lgtm.Prelude.{ℕ, ◌+◌, ◌*◌, ◌/◌, ◌≤◌, ◌<◌, ◌≡◌, map, arith}
use lgtm.NewTask.Models.{LlmModel, models, maximum, score, combined_price, cost_score}

score_mono : (v w most : ℕ) → 0 < most → v ≤ w → score v most ≤ score w most
unfolding score
score_mono v w most pos h =
    let q = (20 * v + most) / (2 * most) in
    let down : q * (2 * most) ≤ 20 * v + most = div-mul-le_self (20 * v + most) (2 * most) in
    let up : q ≤ (20 * w + most) / (2 * most) =
      (le-div_iff_mul-le {k = 2 * most} (omega arith)).1 (omega (arith, down)) in
    omega (arith, up)

pub score-le : (v most : ℕ) → 0 < most → v ≤ most → score v most ≤ 10
unfolding score
score-le v most pos h =
    let q : (20 * v + most) / (2 * most) < 11 =
      (div-lt_iff_lt-mul {k = 2 * most} (omega arith)).1 (omega arith) in
    omega (arith, q)

score_best : (most : ℕ) → 0 < most → score most most ≡ 10
unfolding score
score_best most pos =
    let low : 10 ≤ (20 * most + most) / (2 * most) =
      (le-div_iff_mul-le {k = 2 * most} (omega arith)).1 (omega arith) in
    let high : (20 * most + most) / (2 * most) < 11 =
      (div-lt_iff_lt-mul {k = 2 * most} (omega arith)).1 (omega arith) in
    omega (arith, low, high)

-- Of values up to a positive maximum, each has a bar of one to ten segments, the maximum one of
-- ten, and a value no smaller than another has a bar that is no shorter.
pub score_bounds :
    (v w most : ℕ)
    → 0 < most
    → w ≤ most
    → v ≤ w
    → (1 ≤ score v most)
      × (score v most ≤ score w most)
      × (score w most ≤ 10)
      × (score most most ≡ 10)
score_bounds v w most pos h k = (
  unfold score in omega arith,
  score_mono v w most pos k,
  score-le w most pos h,
  score_best most pos,
)

abbrev most_expensive : ℕ
most_expensive = maximum (map combined_price models)

most_expensive_pos : 0 < most_expensive
unfolding maximum models
most_expensive_pos = omega arith

-- Of two models that cost no more than the most expensive one offered, the cheaper has no shorter
-- a bar for its cost, and both have one to ten segments.
pub cost_score-order :
    (a b : LlmModel)
    → combined_price a ≤ combined_price b
    → combined_price b ≤ most_expensive
    → (1 ≤ cost_score b) × (cost_score b ≤ cost_score a) × (cost_score a ≤ 10)
unfolding cost_score
cost_score-order a b h k =
    let (one, mono, ten, _) =
      score_bounds (combined_price a) (combined_price b) most_expensive most_expensive_pos k h in
    (omega arith, omega (arith, mono), omega (arith, one))
