-- ===== src/Todos/Edits/Menu.antt =====
-- The menu of a todo's row over its life (apps/web/src/components/todo-row.tsx, with
-- apps/web/src/hooks/use-action.ts). Its items are disabled while an action is under way, except
-- those that copy, which change nothing here. The toasts are in Actions.antt.
pub mod Confirmed
use lgtm.Prelude.{
  Bool, true, false, not, ◌&&◌, Option, none, some, List, [], ◌∷◌, ◌++◌, if◌then◌else◌,
}
use lgtm.Types.{Todo, TodoStatus, TodoPriority}
use lgtm.Documents.{Run}
use lgtm.Todos.Edits.{on_status, on_priority, on_delete}

pub record TodoMenu : Type 0 where
  pub is_open : Bool
  pub armed : Bool
  -- the action that `useAction` runs
  pub under_way : Option Run
  -- every action that was started, in order
  pub started : List Run

abbrev pub todo_menu : TodoMenu
todo_menu = record { is_open = false; armed = false; under_way = none; started = [] }

abbrev is_some : Option Run → Bool
is_some none = false
is_some (some _) = true

abbrev pub is_running : TodoMenu → Bool
is_running m = is_some m.under_way

-- `run`, with `disarm` as `onStart`
unfoldable pub start_action : Run → TodoMenu → TodoMenu
start_action run m = record m {
  armed = false;
  under_way = some run;
  started = m.started ++ run ∷ [];
}

-- `onOpenChange` disarms, whichever way the menu goes
unfoldable pub set_open : Bool → TodoMenu → TodoMenu
set_open open_ m = record m { is_open = open_; armed = false }

pub data TodoMenuEvent : Type 0 where
  opening closing : TodoMenuEvent
  status_picked : TodoStatus → TodoMenuEvent
  priority_picked : TodoPriority → TodoMenuEvent
  delete_pressed : TodoMenuEvent
  -- the action has ended, and its `finally` has run
  action_ended : TodoMenuEvent

-- an item that starts an action, and closes the menu
unfoldable pub press_choice : Run → TodoMenu → TodoMenu
unfolding start_action set_open
press_choice run m =
    if m.is_open && not (is_running m) then set_open false (start_action run m) else m

-- what a press of the item that deletes comes to
unfoldable pub answer_press : Bool × Option Run → TodoMenu → TodoMenu
unfolding press_choice
answer_press (armed, none) m =
    if m.is_open && not (is_running m) then record m { armed = armed } else m
answer_press (_, some run) m = press_choice run m

module _ (todo : Todo) where
  -- the item that deletes, which closes the menu exactly if it was armed
  unfoldable pub press_removal : TodoMenu → TodoMenu
  unfolding answer_press on_delete
  press_removal m = answer_press (on_delete todo m.armed) m

  unfoldable pub step : TodoMenuEvent → TodoMenu → TodoMenu
  unfolding set_open press_choice press_removal
  step opening m = set_open true m
  step closing m = set_open false m
  step (status_picked status) m = press_choice (on_status todo status) m
  step (priority_picked priority) m = press_choice (on_priority todo priority) m
  step delete_pressed m = press_removal m
  step action_ended m = record m { under_way = none }

  unfoldable pub run : List TodoMenuEvent → TodoMenu → TodoMenu
  unfolding step
  run [] m = m
  run (e ∷ es) m = run es (step e m)
