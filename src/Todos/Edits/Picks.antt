-- ===== src/Todos/Edits/Picks.antt =====
-- What an edit of a todo puts on the wire (apps/web/src/components/todo-chips.tsx, todo-row.tsx and
-- apps/web/src/lib/lgtm/server.ts).
use lgtm.Prelude.{◌≡◌, refl, Option, some, List, [], ◌∷◌, Text, text}
use lgtm.Types.{Todo, TodoStatus, TodoPriority, JsonValue, str}
use lgtm.Server.{ApiCall, http_request, wire_members}
use lgtm.Server.Calls.{no_todo_patch, update_todo, status_value, priority_value, texts_value}
use lgtm.Todos.Edits.{on_status, on_priority}

-- the members of the body that `fetch` is given
abbrev pub body_of : Text → Text → ApiCall → Option (List (Text × JsonValue))
body_of orchestrator token call = (http_request orchestrator token call).body

-- An edit of a todo sends a request whose body has the one member that it changes and no other, so
-- it leaves the rest of the todo as the orchestrator has it: the status, the priority, the title,
-- the description or the tags.
pub edit-one_member :
    (orchestrator token : Text) (todo : Todo) (status : TodoStatus) (priority : TodoPriority)
    (content : Text) (tags : List Text)
    → let body = body_of orchestrator token in
      (body (on_status todo status).call ≡ some ((text "status", status_value status) ∷ []))
      × (body (on_priority todo priority).call
          ≡ some ((text "priority", priority_value priority) ∷ []))
      × (body (update_todo todo.id (record no_todo_patch { title = some content }))
          ≡ some ((text "title", str content) ∷ []))
      × (body (update_todo todo.id (record no_todo_patch { description = some content }))
          ≡ some ((text "description", str content) ∷ []))
      × (body (update_todo todo.id (record no_todo_patch { tags = some tags }))
          ≡ some ((text "tags", texts_value tags) ∷ []))
unfolding http_request wire_members update_todo on_status on_priority
edit-one_member orchestrator token todo status priority content tags =
    (refl, refl, refl, refl, refl)
