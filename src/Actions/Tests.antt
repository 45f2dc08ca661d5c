-- ===== src/Actions/Tests.antt =====
-- An action whose refetch fails (apps/web/src/hooks/use-action.ts), and presses of an armed button
-- (apps/web/src/hooks/use-armed-confirm.ts).
use lgtm.Prelude.{◌≡◌, refl, true, false, some, List, [], ◌∷◌, text}
use lgtm.Actions.{success, failure, mounted, busy, run}
use lgtm.Actions.Outcome.{refetch_fails, events, run-ending}
use lgtm.Actions.Confirm.{Event, press, pointer_down, step, pressed, fires}

run-ending_example :
    let s' =
      run (events (text "archive") (text "Archived") (refetch_fails (text "offline"))) mounted in
    (busy s' ≡ false)
    × (s'.resolved ≡ some false)
    × (s'.toasts ≡ success (text "Archived") ∷ failure (text "offline") ∷ [])
run-ending_example =
    run-ending (text "archive") (text "Archived") (refetch_fails (text "offline")) mounted refl

abbrev twice : List Event
twice = press ∷ pointer_down true ∷ press ∷ press ∷ []

twice-fires : fires twice false ≡ 1
unfolding fires step pressed
twice-fires = refl
