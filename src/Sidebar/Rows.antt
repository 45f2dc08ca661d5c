-- ===== src/Sidebar/Rows.antt =====
-- The menus of the rows of the sidebar: apps/web/src/components/row-menu.tsx, chat-item.tsx and
-- project-item.tsx. `entered` is what `window.prompt` returns, `none` when it was cancelled, and an
-- ending says how the awaited call and the refetch of the route settle.
pub mod Reports
pub mod Marks
use lgtm.Prelude.{
  ℕ, ◌-◌, Bool, true, ◌||◌, Option, none, some, List, [], ◌∷◌, ◌++◌, Text, text, text_eq, trim,
  is_empty, length, take, ltb, decimal, if◌then◌else◌,
}
use lgtm.Types.{Chat, Task, TaskStatus, awaiting_review, failed, runner_lost, timed_out, Project}
use lgtm.Actions.{Toast, success, failure}
use lgtm.Server.{ApiCall}
use lgtm.Server.Calls.{update_chat, update_task, update_project_prefix}
use lgtm.Tasks.Status.{task_title}

pub data Ending : Type 0 where
  both_resolve : Ending
  refused refetch_fails : Text → Ending

pub record Effects : Type 0 where
  pub calls : List ApiCall
  pub toasts : List Toast

abbrev pub nothing : Effects
nothing = record { calls = []; toasts = [] }

-- the new name of a row, if there is one
unfoldable pub renamed : Text → Option Text → Option Text
renamed title none = none
renamed title (some entered) =
    let next = trim entered in if is_empty next || text_eq next title then none else some next

abbrev pub reported : Ending → List Toast
reported both_resolve = []
reported (refused reason) = failure reason ∷ []
reported (refetch_fails reason) = failure reason ∷ []

-- `update`, which catches what its call and its refetch throw
unfoldable pub update : ApiCall → Ending → Effects
update call ending = record { calls = call ∷ []; toasts = reported ending }

abbrev on_name : (Text → ApiCall) → Option Text → Ending → Effects
on_name call none ending = nothing
on_name call (some title) ending = record { calls = call title ∷ []; toasts = reported ending }

unfoldable pub rename_chat : Chat → Option Text → Ending → Effects
unfolding renamed
rename_chat chat entered ending =
    on_name (λ title. update_chat chat.id (some title) none) (renamed chat.title entered) ending

-- `archive` awaits `update` and then tells of its success
unfoldable pub archive_chat : Chat → Ending → Effects
unfolding update
archive_chat chat ending =
    let e = update (update_chat chat.id none (some true)) ending in
    record e { toasts = e.toasts ++ success (text "Chat archived") ∷ [] }

unfoldable pub rename_task : Task → Option Text → Ending → Effects
unfolding renamed
rename_task task entered ending =
    on_name (λ title. update_task task.id (some title) none) (renamed (task_title task) entered)
      ending

unfoldable pub archive_task : Task → Ending → Effects
unfolding update
archive_task task ending =
    let e = update (update_task task.id none (some true)) ending in
    record e { toasts = e.toasts ++ success (text "Task archived") ∷ [] }

-- the mark behind a task that needs a person
pub data Mark : Type 0 where
  review broken : Mark

unfoldable pub attention : TaskStatus → Option Mark
attention awaiting_review = some review
attention failed = some broken
attention runner_lost = some broken
attention timed_out = some broken
attention _ = none

abbrev pub preview : ℕ
preview = 5

-- the tasks under a project and the label of the button that folds them, if there is one
unfoldable pub shown_tasks : Bool → List Task → List Task
shown_tasks expanded tasks = if expanded then tasks else take preview tasks

unfoldable pub fold_button : Bool → List Task → Option Text
fold_button expanded tasks =
    if ltb preview (length tasks)
    then some (
        if expanded
        then text "Show less"
        else text "Show " ++ decimal (length tasks - preview) ++ text " more")
    else none

-- the project after the change of its prefix, or why there is none
pub data Changed : Type 0 where
  changed : Text → Ending → Changed
  not_changed : Text → Changed

abbrev prefix_toasts : Changed → List Toast
prefix_toasts (changed prefix ending) =
    success (text "Prefix is now " ++ prefix ++ text " — todo ids follow it") ∷ reported ending
prefix_toasts (not_changed reason) = failure reason ∷ []

abbrev on_prefix : Project → Option Text → Changed → Effects
on_prefix project none answer = nothing
on_prefix project (some prefix) answer = record {
  calls = update_project_prefix project.id prefix ∷ [];
  toasts = prefix_toasts answer;
}

unfoldable pub change_prefix : Option Project → Option Text → Changed → Effects
unfolding renamed
change_prefix none entered answer = nothing
change_prefix (some project) entered answer =
    on_prefix project (renamed project.prefix entered) answer
