-- ===== src/TimeAgo/Tests.antt =====
-- A span of time in words (apps/web/src/components/time-ago.tsx).
use lgtm.Prelude.{◌≡◌, refl, [], ◌∷◌, text}
use lgtm.TimeAgo.{nonzero_units}

nonzero_units-names :
    nonzero_units 90061 ≡ (1, text "day") ∷ (1, text "hour") ∷ (1, text "minute") ∷ []
nonzero_units-names = refl
