-- ===== src/TimeAgo.antt =====
-- apps/web/src/components/time-ago.tsx: how long ago something was, and the ticker that all
-- timestamps share. `Intl.DateTimeFormat` and the calendar year are the runtime's.
pub mod Ticker
pub mod Units
mod Tests
use lgtm.Prelude.{
  ℕ, ◌-◌, ◌/◌, ◌%◌, List, [], ◌∷◌, ◌++◌, Text, text, decimal, join, keep, map, ltb, ◌==◌,
  if◌then◌else◌,
}

-- `Math.max(0, Math.floor((reference - at) / 1000))`: a time ahead of the clock is no time ago
abbrev pub seconds_ago : ℕ → ℕ → ℕ
seconds_ago at reference = (reference - at) / 1000

module _ (year : ℕ → ℕ) (month_day month_day_year : ℕ → Text) where
  unfoldable pub short : ℕ → ℕ → Text
  short at reference =
      let seconds = seconds_ago at reference in
      let minutes = seconds / 60 in
      let hours = minutes / 60 in
      if ltb seconds 1
      then text "Just now"
      else if ltb seconds 60
      then decimal seconds ++ text "s ago"
      else if ltb minutes 60
      then decimal minutes ++ text "m ago"
      else if ltb hours 24
      then decimal hours ++ text "h ago"
      else if year at == year reference
      then month_day at
      else month_day_year at

unfoldable pub plural : ℕ → Text → Text
plural n unit = decimal n ++ text " " ++ unit ++ (if n == 1 then [] else text "s")

-- `units`
abbrev pub units_of : ℕ → List (ℕ × Text)
units_of seconds =
    (seconds / 86400, text "day")
    ∷ ((seconds % 86400) / 3600, text "hour")
    ∷ ((seconds % 3600) / 60, text "minute")
    ∷ []

-- the units that are not zero
abbrev pub nonzero_units : ℕ → List (ℕ × Text)
nonzero_units seconds = keep (λ unit. ltb 0 unit.0) (units_of seconds)

unfoldable pub long : ℕ → ℕ → Text
unfolding plural
long at reference =
    let seconds = seconds_ago at reference in
    if ltb seconds 60
    then (if ltb seconds 1 then text "just now" else plural seconds (text "second") ++ text " ago")
    else join (text ", ") (map (λ unit. plural unit.0 unit.1) (nonzero_units seconds))
      ++ text " ago"
