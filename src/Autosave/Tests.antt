-- ===== src/Autosave/Tests.antt =====
-- Runs of the save loop (apps/web/src/routes/scratchpads_.$id.tsx) with the request that the page
-- of a scratchpad makes.
use lgtm.Prelude.{◌≡◌, refl, none, some, List, [], ◌∷◌, ◌++◌, arith, Text, text}
use lgtm.Server.{ApiCall}
use lgtm.Server.Calls.{no_scratchpad_patch, update_scratchpad}
use lgtm.Autosave.{
  Document, Event, markdown, resolved, saved_shown, open_document, save_round, save, on_markdown,
  land, fail, settle, step, run,
}
use lgtm.Autosave.Order.{IsConsistent, run-IsConsistent}
use lgtm.Autosave.Latest.{latest_wins}
use lgtm.Autosave.Failure.{fail_strands_parked}

abbrev write : Text → ApiCall
write content =
    update_scratchpad (text "p1") (record no_scratchpad_patch { content = some content })

abbrev first : Text
first = b'a' ∷ []

abbrev second : Text
second = b'a' ∷ b'b' ∷ []

abbrev third : Text
third = b'c' ∷ []

-- two edits while the first is being written
abbrev busy : Document ApiCall
busy = run write (markdown first ∷ markdown second ∷ []) (open_document [])

abbrev both_land : List Event
both_land = resolved ∷ resolved ∷ saved_shown ∷ []

busy-sent : busy.sent ≡ write first ∷ []
unfolding run step on_markdown save save_round open_document
busy-sent = refl

landed-sent : (run write both_land busy).sent ≡ write first ∷ write second ∷ []
unfolding run step on_markdown save save_round open_document land settle
landed-sent = refl

latest_wins_example :
    let d' = run write both_land (on_markdown write third busy) in
    (d'.in_flight ≡ none) × (d'.queued ≡ none) × (d'.sent ≡ busy.sent ++ write third ∷ [])
latest_wins_example = latest_wins write busy third both_land refl (omega arith)

run-IsConsistent_example :
    IsConsistent (run write (markdown first ∷ markdown second ∷ resolved ∷ []) (open_document []))
run-IsConsistent_example =
    run-IsConsistent write [] (markdown first ∷ markdown second ∷ resolved ∷ [])

fail_strands_parked_example :
    let d' =
      run write (saved_shown ∷ []) (fail write (text "offline") (on_markdown write third busy)) in
    (d'.sent ≡ write first ∷ []) × (d'.queued ≡ some third) × (d'.in_flight ≡ none)
unfolding run step on_markdown save save_round open_document
fail_strands_parked_example =
    fail_strands_parked write busy first third (text "offline") (saved_shown ∷ []) refl refl
