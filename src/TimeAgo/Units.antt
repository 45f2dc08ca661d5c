-- ===== src/TimeAgo/Units.antt =====
-- The long form of a time (apps/web/src/components/time-ago.tsx).
use lgtm.Prelude.{ℕ, ◌+◌, ◌*◌, ◌≤◌, ◌<◌, ◌≢◌, List, [], ◌∷◌, Text, arith}
use lgtm.TimeAgo.{units_of, nonzero_units}

-- the seconds of days, hours and minutes
abbrev unit_seconds : List (ℕ × Text) → List ℕ → ℕ
unit_seconds ((n, _) ∷ units) (size ∷ sizes) = n * size + unit_seconds units sizes
unit_seconds _ _ = 0

abbrev pub told : ℕ → ℕ
told seconds = unit_seconds (units_of seconds) (86400 ∷ 3600 ∷ 60 ∷ [])

-- From a minute on the long form names at least one unit, and the days, hours and minutes that it
-- names fall short of the time by less than a minute.
pub units-told :
    (seconds : ℕ)
    → 60 ≤ seconds
    → (nonzero_units seconds ≢ []) × (told seconds ≤ seconds) × (seconds < told seconds + 60)
units-told seconds h = (ground arith, omega arith, omega arith)
