-- ===== src/Todos/Tests.antt =====
-- Edits of a description while it is being written (apps/web/src/routes/todos_.$id.tsx).
use lgtm.Prelude.{◌≡◌, refl, false, text_eq, join, none, some, List, [], ◌∷◌, Text, text, last_or}
use lgtm.Types.{str}
use lgtm.Autosave.{saved}
use lgtm.Editor
use lgtm.Editor.{update, timeout, blur}
use lgtm.Todos.Description as Todos
use lgtm.Todos.Description.{Description}
use lgtm.Todos.Description.Stored.{description_saver, description_kept}
use lgtm.Writer.Saver
use lgtm.Writer.Saver.{PageEvent, edited, SavedPage}
use lgtm.Server.{ApiCall, Member}
use lgtm.Server.Calls.{no_todo_patch, update_todo}
use lgtm.Todos.Description.{Event, markdown, resolved, open_description, run}
use lgtm.Todos.Description.Latest.{description_latest}

abbrev write : Text → ApiCall
write md = update_todo (text "d1") (record no_todo_patch { description = some md })

abbrev session : List Event
session = markdown (text "one") ∷ markdown (text "two") ∷ resolved ∷ markdown (text "three") ∷ []

description_latest_example :
    let d = run write (resolved ∷ resolved ∷ []) (run write session (open_description [])) in
    (last_or (write []) d.sent ≡ write (text "three")) × (d.in_flight ≡ none)
description_latest_example = description_latest write [] session refl

-- what a request makes of the description: its first member that is a text
abbrev first_text : List Member → Text → Text
first_text [] old = old
first_text ((_, some (str s)) ∷ _) old = s
first_text (_ ∷ members) old = first_text members old

abbrev description_of : ApiCall → Text → Text
description_of call old = elim call.body [ some members ↦ first_text members old | none ↦ old ]

writes : (md old : Text) → description_of (write md) old ≡ md
unfolding update_todo
writes md old = refl

-- an edit that fails, another one, and its request
abbrev stormy : List PageEvent
stormy =
    edited (update (text "one") [])
    ∷ edited timeout
    ∷ PageEvent.rejected (text "offline") false
    ∷ edited (update (text "two") [])
    ∷ edited blur
    ∷ PageEvent.resolved
    ∷ []

abbrev after_storm : SavedPage (Description ApiCall)
after_storm =
    let S = description_saver write in
    Saver.run S write description_of stormy (Saver.open_page S write description_of [])

storm-saved : (after_storm.store.state ≡ saved) × (after_storm.view.timer ≡ false)
unfolding Todos.land Todos.send Todos.save Todos.fail Editor.step Editor.flush text text_eq
    Editor.mount Editor.signature join Editor.read_headings open_description Saver.run
    Saver.open_page Saver.step
storm-saved = (refl, refl)

description_kept_example : after_storm.kept ≡ text "two"
description_kept_example =
    description_kept write description_of writes [] stormy storm-saved.0 storm-saved.1
