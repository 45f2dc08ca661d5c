-- ===== src/Tasks/Composer/Visit.antt =====
-- The panel that retries a task, from its first render until it is left (`RetryPanel` of
-- apps/web/src/components/task-composer.tsx): the machines that it fetches, the choices, and the
-- retry from one `await` to the next.
use lgtm.Prelude.{
  ◌≡◌, ◌≢◌, refl, ◌∙◌, sym, Bool, true, false, not, ◌||◌, Option, none, some, List, [], ◌∷◌, ◌++◌,
  Text, text, is_empty, arith, if◌then◌else◌,
}
use mathlib.Core.Path.{subst}
use lgtm.Types.{Task, Executor, claude, codex, RunnerStatus}
use lgtm.Server.{ApiCall}
use lgtm.Server.Calls.{retry_task}
use lgtm.Actions.{Actions, busy, Event, begin, success}
use lgtm.Actions as Action
use lgtm.Tasks.Composer.Retry.{
  Choice, routed_runner, retry_compatible, change_runner, change_executor, change_runner-compatible,
}

pub record RetryPanel : Type 0 where
  -- the flag of the effect that fetches the machines
  pub active : Bool
  pub runners : List RunnerStatus
  pub choice : Choice
  pub action : Actions Unit
  pub calls : List ApiCall

-- the first render and its effect
abbrev pub mounted : RetryPanel
mounted = record {
  active = true;
  runners = [];
  choice = record { runner_name = []; executor = none };
  action = Action.mounted;
  calls = [];
}

pub data PanelEvent : Type 0 where
  fetched : List RunnerStatus → PanelEvent
  fetch_refused : PanelEvent
  left : PanelEvent
  picked_runner picked_executor : Text → PanelEvent
  submitted : PanelEvent
  -- what the retry under way comes to
  answered : Event Unit → PanelEvent

-- `runnerName || undefined`
abbrev pub or_undefined : Text → Option Text
or_undefined name = if is_empty name then none else some name

abbrev pub retry_call : Task → Choice → ApiCall
retry_call task choice = retry_task task.id choice.executor (or_undefined choice.runner_name)

-- the button that submits the form is disabled while the panel is busy, and where the executor does
-- not fit the machine, which also keeps the Enter key from submitting
unfoldable pub submit : Task → RetryPanel → RetryPanel
submit task s =
    if busy s.action || not (retry_compatible task.spec s.runners s.choice) then s else record s {
      action = begin tt (text "Task requeued") s.action;
      calls = s.calls ++ retry_call task s.choice ∷ [];
    }

unfoldable pub step : Task → PanelEvent → RetryPanel → RetryPanel
unfolding submit
step task (fetched runners) s = if s.active then record s { runners = runners } else s
step task fetch_refused s = if s.active then record s { runners = [] } else s
step task left s = record s { active = false }
step task (picked_runner name) s =
    if busy s.action
    then s
    else record s { choice = change_runner task.spec s.runners name s.choice }
step task (picked_executor name) s =
    if busy s.action then s else record s { choice = change_executor name s.choice }
step task submitted s = submit task s
step task (answered e) s = record s { action = Action.step e s.action }

unfoldable pub run : Task → List PanelEvent → RetryPanel → RetryPanel
unfolding step
run task [] s = s
run task (e ∷ es) s = run task es (step task e s)

abbrev last_used : Option Text → Text
last_used none = text "Automatic routing"
last_used (some runner) =
    if is_empty runner then text "Automatic routing" else text "Automatic · last used " ++ runner

unfoldable pub same_runner_label : Task → Text
same_runner_label task = elim task.spec.runner [
  | none ↦ last_used task.runner
  | some name ↦ if is_empty name then last_used task.runner else text "Same machine · " ++ name
]

unfoldable pub executor_label : Executor → Text
executor_label claude = text "Claude"
executor_label codex = text "Codex"

submit-sends :
    (task : Task) (s : RetryPanel)
    → busy s.action ≡ false
    → retry_compatible task.spec s.runners s.choice ≡ true
    → ((submit task s).calls ≡ s.calls ++ retry_call task s.choice ∷ [])
      × (busy (submit task s).action ≡ true)
unfolding submit begin
submit-sends task s idle fits = ground (arith, idle, fits)

picks :
    (task : Task) (name : Text) (s : RetryPanel)
    → busy s.action ≡ false
    → step task (picked_runner name) s
      ≡ record s { choice = change_runner task.spec s.runners name s.choice }
unfolding step
picks task name s idle = simp idle

-- In a panel that is not busy, whatever was chosen before: picking a machine, or taking the pick of
-- one back, and then submitting sends a retry with that pick, provided that the machine then in
-- force, if it is known, has an executor at all.
pub picked-sends :
    (task : Task) (name : Text) (s : RetryPanel)
    → busy s.action ≡ false
    → ((r : RunnerStatus)
        → routed_runner task.spec s.runners (change_runner task.spec s.runners name s.choice)
          ≡ some r
        → r.info.executors ≢ [])
    → let sent = run task (picked_runner name ∷ submitted ∷ []) s in
      (sent.calls
        ≡ s.calls ++ retry_call task (change_runner task.spec s.runners name s.choice) ∷ [])
      × (busy sent.action ≡ true)
unfolding run step
picked-sends task name s idle has =
    let choice = change_runner task.spec s.runners name s.choice in
    let sent =
      submit-sends task (record s { choice = choice }) idle
        (change_runner-compatible task.spec s.runners name s.choice has) in
    subst
      (λ (p : RetryPanel).
        ((submit task p).calls ≡ s.calls ++ retry_call task choice ∷ [])
        × (busy (submit task p).action ≡ true))
      (sym (picks task name s idle)) sent

step-active :
    (task : Task) (e : PanelEvent) (s : RetryPanel)
    → s.active ≡ false
    → ((step task e s).active ≡ false) × ((step task e s).runners ≡ s.runners)
unfolding step submit
step-active task (fetched runners) s h = ground (arith, h)
step-active task fetch_refused s h = ground (arith, h)
step-active task left s h = (refl, refl)
step-active task (picked_runner name) s h = ground (arith, h)
step-active task (picked_executor name) s h = ground (arith, h)
step-active task submitted s h = ground (arith, h)
step-active task (answered e) s h = (h, refl)

-- Answers of the orchestrator that come after the panel is left change none of its machines.
pub left-keeps :
    (task : Task) (es : List PanelEvent) (s : RetryPanel)
    → s.active ≡ false
    → (run task es s).runners ≡ s.runners
unfolding run
left-keeps task [] s h = refl
left-keeps task (e ∷ es) s h =
    let (out, same) = step-active task e s h in left-keeps task es (step task e s) out ∙ same
