-- ===== src/Todos/Edits.antt =====
-- What can be done to a todo beside its description: the chips of its page
-- (apps/web/src/components/todo-chips.tsx, apps/web/src/routes/todos_.$id.tsx) and the menu of its
-- row (apps/web/src/components/todo-row.tsx).
pub mod Blocking
pub mod Menu
pub mod Picks
use lgtm.Prelude.{
  ℕ, ◌+◌, Bool, true, false, ◌&&◌, Option, none, some, List, [], ◌∷◌, ◌++◌, map, Text, text,
  text_eq, any, keep, length, leb, if◌then◌else◌,
}
use lgtm.Types.{Todo, TodoStatus, open_, in_progress, TodoPriority}
use lgtm.Server.Calls.{no_todo_patch, update_todo, delete_todo}
use lgtm.Documents.{Run}

-- the labels of the table `MARK`
unfoldable pub mark_label : TodoStatus → Text
mark_label open_ = text "Open"
mark_label in_progress = text "In progress"
mark_label TodoStatus.done = text "Done"

unfoldable pub priority_text : TodoPriority → Text
priority_text TodoPriority.low = text "low"
priority_text TodoPriority.medium = text "medium"
priority_text TodoPriority.high = text "high"

-- the labels of the table `PRIORITY`
unfoldable pub priority_label : TodoPriority → Text
priority_label TodoPriority.low = text "Low priority"
priority_label TodoPriority.medium = text "Medium priority"
priority_label TodoPriority.high = text "High priority"

-- `toLowerCase` of a text of ASCII characters
abbrev pub to_lower : Text → Text
to_lower s = map (λ c. if leb b'A' c && leb c b'Z' then c + 32 else c) s

-- the handlers of the page and of the menu
unfoldable pub on_status : Todo → TodoStatus → Run
unfolding mark_label
on_status todo status = record {
  action = text "patch";
  call = update_todo todo.id (record no_todo_patch { status = some status });
  message = text "Marked " ++ to_lower (mark_label status);
}

unfoldable pub on_priority : Todo → TodoPriority → Run
unfolding priority_text
on_priority todo priority = record {
  action = text "patch";
  call = update_todo todo.id (record no_todo_patch { priority = some priority });
  message = text "Priority set to " ++ priority_text priority;
}

abbrev pub same_status : TodoStatus → TodoStatus → Bool
same_status open_ open_ = true
same_status in_progress in_progress = true
same_status TodoStatus.done TodoStatus.done = true
same_status _ _ = false

abbrev pub same_priority : TodoPriority → TodoPriority → Bool
same_priority TodoPriority.low TodoPriority.low = true
same_priority TodoPriority.medium TodoPriority.medium = true
same_priority TodoPriority.high TodoPriority.high = true
same_priority _ _ = false

-- `Picker` of the chips: picking the value that is there does nothing
unfoldable pub pick_status : Todo → TodoStatus → Option Run
unfolding on_status
pick_status todo next = if same_status next todo.status then none else some (on_status todo next)

unfoldable pub pick_priority : Todo → TodoPriority → Option Run
unfolding on_priority
pick_priority todo next =
    if same_priority next todo.priority then none else some (on_priority todo next)

-- a press of Delete in the menu: whether the next press deletes, and the action; the start of the
-- action disarms, and so does closing or opening the menu
unfoldable pub on_delete : Todo → Bool → Bool × Option Run
on_delete todo armed =
    if armed
    then (
      false,
      some (record {
        action = text "delete";
        call = delete_todo todo.id;
        message = text "Todo deleted";
      }),
    )
    else (true, none)

-- what the items of the menu copy, with the message for it
unfoldable pub copies : Text → Todo → List (Text × Text)
copies origin todo =
    (todo.display_id, text "Copied ID")
    ∷ (todo.title, text "Copied title")
    ∷ (origin ++ text "/todos/" ++ todo.id, text "Copied link")
    ∷ []

-- `blocking` of the loader: how many todos name the todo of an id among their blockers
abbrev pub includes : List Text → Text → Bool
includes ids id = any (λ i. text_eq i id) ids

unfoldable pub blocking : Text → List Todo → ℕ
blocking id all = length (keep (λ (other : Todo). includes other.blockers id) all)
