-- ===== src/Writer/Tests.antt =====
-- Sessions with a failing request, as what a writer does (apps/web/src/routes/scratchpads_.$id.tsx,
-- apps/web/src/routes/todos_.$id.tsx).
use lgtm.Prelude.{some, List, [], ◌∷◌, Text, text}
use lgtm.Server.{ApiCall}
use lgtm.Server.Calls.{no_scratchpad_patch, update_scratchpad, no_todo_patch, update_todo}
use lgtm.Autosave
use lgtm.Todos.Description
use lgtm.Writer.Documents
use lgtm.Writer.Descriptions

abbrev write_pad : Text → ApiCall
write_pad content =
    update_scratchpad (text "p1") (record no_scratchpad_patch { content = some content })

abbrev write_todo : Text → ApiCall
write_todo md = update_todo (text "d1") (record no_todo_patch { description = some md })

abbrev pad_session : List Autosave.Event
pad_session =
    Autosave.markdown (text "one")
    ∷ Autosave.markdown (text "two")
    ∷ Autosave.rejected (text "offline")
    ∷ Autosave.markdown (text "three")
    ∷ Autosave.resolved
    ∷ []

abbrev todo_session : List Description.Event
todo_session =
    Description.markdown (text "one")
    ∷ Description.markdown (text "two")
    ∷ Description.resolved
    ∷ Description.rejected (text "offline")
    ∷ []
