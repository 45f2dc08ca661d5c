-- ===== src/Tasks/Composer.antt =====
-- apps/web/src/components/task-composer.tsx: what can be done to a task, by its status, and the
-- panel that retries one on another machine or executor.
pub mod Offers
pub mod Retry
pub mod Visit
use lgtm.Prelude.{
  Bool, true, false, not, ◌||◌, Option, none, some, List, [], ◌∷◌, Text, text, trim, is_empty, any,
  if◌then◌else◌,
}
use lgtm.Types.{
  Task, TaskStatus, queued, running, awaiting_review, changes_requested, conflicted, failed,
  timed_out, runner_lost, cancelled,
}

abbrev pub same_status : TaskStatus → TaskStatus → Bool
same_status queued queued = true
same_status running running = true
same_status awaiting_review awaiting_review = true
same_status changes_requested changes_requested = true
same_status conflicted conflicted = true
same_status TaskStatus.approved TaskStatus.approved = true
same_status TaskStatus.merged TaskStatus.merged = true
same_status TaskStatus.rejected TaskStatus.rejected = true
same_status failed failed = true
same_status timed_out timed_out = true
same_status runner_lost runner_lost = true
same_status cancelled cancelled = true
same_status _ _ = false

abbrev pub includes : List TaskStatus → TaskStatus → Bool
includes list status = any (same_status status) list

abbrev pub reviewable_statuses : List TaskStatus
reviewable_statuses = awaiting_review ∷ conflicted ∷ []

abbrev pub retryable_statuses : List TaskStatus
retryable_statuses = failed ∷ timed_out ∷ runner_lost ∷ cancelled ∷ []

abbrev pub respondable_statuses : List TaskStatus
respondable_statuses = awaiting_review ∷ conflicted ∷ changes_requested ∷ []

unfoldable pub placeholder_for : Task → Text
placeholder_for task =
    if same_status task.status conflicted
    then text "Tell the agent how to resolve the conflict…"
    else if includes respondable_statuses task.status
    then text "Ask for a change…"
    else text "The agent is working…"

-- what stands at the foot of a task's page
pub data Panel : Type 0 where
  retry_panel : Panel
  nothing : Panel
  -- whether the box takes text, and whether Approve and Reject stand beside it
  composer : Bool → Bool → Panel

unfoldable pub panel_for : TaskStatus → Panel
panel_for status =
    let reviewable = includes reviewable_statuses status in
    let respondable = includes respondable_statuses status in
    let retryable = includes retryable_statuses status in
    let working = same_status status queued || same_status status running in
    if retryable
    then retry_panel
    else if not (respondable || working)
    then nothing
    else composer respondable reviewable

-- the follow-up that a press of Enter or of the button sends, if any
unfoldable pub follow_up : Bool → Text → Option Text
follow_up busy content =
    let body = trim content in if is_empty body || busy then none else some body

-- a press of Reject: the first arms, the second rejects
pub data Press : Type 0 where
  arm reject : Press

unfoldable pub press_reject : Bool → Press
press_reject armed = if armed then reject else arm
