-- ===== src/Todos/Edits/Menu/Confirmed.antt =====
-- What the menu of a todo's row starts (apps/web/src/components/todo-row.tsx).
use lgtm.Prelude.{
  ℕ, ◌+◌, ◌*◌, ◌≤◌, ◌≡◌, refl, true, false, List, [], ◌∷◌, length, length-append, if◌then◌else◌,
  arith, text, Bool-cases, inl, inr, ap, text_eq,
}
use lgtm.Types.{Todo, TodoStatus, TodoPriority}
use lgtm.Server.Calls.{delete_todo}
use lgtm.Documents.{Run}
use lgtm.Documents.Menu.{is_delete}
use lgtm.Documents.Menu.Deleting.{bit, deletes, deletes-append}
use lgtm.Todos.Edits.{on_status, on_priority, on_delete}
use lgtm.Todos.Edits.Menu.{
  TodoMenu, todo_menu, is_running, start_action, set_open, TodoMenuEvent, opening, closing,
  status_picked, priority_picked, delete_pressed, action_ended, press_choice, answer_press,
  press_removal, step, run,
}

-- the presses of Delete
abbrev pub removals : List TodoMenuEvent → ℕ
removals [] = 0
removals (delete_pressed ∷ es) = 1 + removals es
removals (_ ∷ es) = removals es

-- the actions that have ended
abbrev pub endings : List TodoMenuEvent → ℕ
endings [] = 0
endings (action_ended ∷ es) = 1 + endings es
endings (_ ∷ es) = endings es

removals-cons :
    (e : TodoMenuEvent) (es : List TodoMenuEvent)
    → removals (e ∷ es) ≡ removals (e ∷ []) + removals es
removals-cons opening es = omega arith
removals-cons closing es = omega arith
removals-cons (status_picked status) es = omega arith
removals-cons (priority_picked priority) es = omega arith
removals-cons delete_pressed es = omega arith
removals-cons action_ended es = omega arith

endings-cons :
    (e : TodoMenuEvent) (es : List TodoMenuEvent) → endings (e ∷ es) ≡ endings (e ∷ []) + endings es
endings-cons opening es = omega arith
endings-cons closing es = omega arith
endings-cons (status_picked status) es = omega arith
endings-cons (priority_picked priority) es = omega arith
endings-cons delete_pressed es = omega arith
endings-cons action_ended es = omega arith

-- what a press of an item starts
press_choice-deletes :
    (r : Run) (m : TodoMenu)
    → let m' = press_choice r m in
      2 * deletes m'.started + bit m'.armed
      ≤ 2 * deletes m.started + 2 * bit (is_delete r) + (if is_delete r then 0 else bit m.armed)
unfolding press_choice set_open start_action
press_choice-deletes r m = ground (arith, deletes-append m.started r)

press_choice-started :
    (r : Run) (m : TodoMenu)
    → let m' = press_choice r m in
      length m'.started + bit (is_running m) ≡ length m.started + bit (is_running m')
unfolding press_choice set_open start_action
press_choice-started r m = ground (arith, length-append m.started (r ∷ []))

abbrev removal : Todo → Run
removal todo = record {
  action = text "delete";
  call = delete_todo todo.id;
  message = text "Todo deleted";
}

module _ (todo : Todo) where
  status-spares : (status : TodoStatus) → is_delete (on_status todo status) ≡ false
  unfolding on_status text_eq text
  status-spares status = refl

  priority-spares : (priority : TodoPriority) → is_delete (on_priority todo priority) ≡ false
  unfolding on_priority text_eq text
  priority-spares priority = refl

  press_removal-armed :
      (m : TodoMenu) → m.armed ≡ true → press_removal todo m ≡ press_choice (removal todo) m
  unfolding press_removal answer_press on_delete
  press_removal-armed m e = ap (λ armed. answer_press (on_delete todo armed) m) e

  step-presses :
      (e : TodoMenuEvent) (m : TodoMenu)
      → 2 * deletes (step todo e m).started + bit (step todo e m).armed
        ≤ 2 * deletes m.started + bit m.armed + removals (e ∷ [])
  unfolding step set_open press_removal answer_press on_delete
  step-presses opening m = ground arith
  step-presses closing m = ground arith
  step-presses (status_picked status) m =
      ground (arith, press_choice-deletes (on_status todo status) m, status-spares status)
  step-presses (priority_picked priority) m =
      ground (arith, press_choice-deletes (on_priority todo priority) m, priority-spares priority)
  step-presses delete_pressed m = elim (Bool-cases m.armed) [
    | inl e ↦ rw (e) (ground (arith, press_choice-deletes (removal todo) m, e))
    | inr e ↦ rw (e) (ground (arith, e))
  ]
  step-presses action_ended m = omega arith

  step-started :
      (e : TodoMenuEvent) (m : TodoMenu)
      → length (step todo e m).started + bit (is_running m)
        ≤ length m.started + bit (is_running (step todo e m)) + endings (e ∷ [])
  unfolding step set_open press_removal answer_press on_delete
  step-started opening m = omega arith
  step-started closing m = omega arith
  step-started (status_picked status) m =
      omega (arith, press_choice-started (on_status todo status) m)
  step-started (priority_picked priority) m =
      omega (arith, press_choice-started (on_priority todo priority) m)
  step-started delete_pressed m = elim (Bool-cases m.armed) [
    | inl e ↦ omega (
      arith,
      press_choice-started (removal todo) m,
      ap (λ m'. length m'.started) (press_removal-armed m e),
      ap (λ m'. bit (is_running m')) (press_removal-armed m e),
    )
    | inr e ↦ rw (e) (ground (arith, e))
  ]
  step-started action_ended m = ground arith

  run-IsConfirmed_from :
      (es : List TodoMenuEvent) (m : TodoMenu)
      → let m' = run todo es m in
        (2 * deletes m'.started ≤ 2 * deletes m.started + bit m.armed + removals es)
        × (length m'.started + bit (is_running m)
            ≤ length m.started + bit (is_running m') + endings es)
  unfolding run
  run-IsConfirmed_from [] m = (omega arith, omega arith)
  run-IsConfirmed_from (e ∷ es) m =
      let (confirmed, one_by_one) = run-IsConfirmed_from es (step todo e m) in
      (
        omega (arith, confirmed, step-presses e m, removals-cons e es),
        omega (arith, one_by_one, step-started e m, endings-cons e es),
      )

  -- Whatever is done with the menu of a todo's row, a deletion is started at most once for every
  -- two presses of Delete, and no action is started before the one ahead of it has ended.
  run-IsConfirmed :
      (es : List TodoMenuEvent)
      → let m = run todo es todo_menu in
        (2 * deletes m.started ≤ removals es) × (length m.started ≤ bit (is_running m) + endings es)
  run-IsConfirmed es =
      let (confirmed, one_by_one) = run-IsConfirmed_from es todo_menu in
      (omega (arith, confirmed), omega (arith, one_by_one))
