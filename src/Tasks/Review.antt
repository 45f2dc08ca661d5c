-- ===== src/Tasks/Review.antt =====
-- The foot of a task's page (apps/web/src/components/task-composer.tsx): the box for a follow-up with
-- Approve and Reject beside it, over apps/web/src/hooks/use-action.ts and use-armed-confirm.ts, while
-- the page goes from task to task (apps/web/src/routes/tasks.$id.tsx). Whether the router mounts the
-- page anew for another task is an argument.
pub mod Rejecting
pub mod Carried
use lgtm.Prelude.{
  Bool, true, false, not, ◌&&◌, ◌||◌, none, some, List, [], ◌∷◌, ◌++◌, Text, text, text_eq,
  if◌then◌else◌,
}
use lgtm.Types.{TaskStatus}
use lgtm.Actions
use lgtm.Actions.{busy}
use lgtm.Server.Calls.{approve_task, reject_task}
use lgtm.Tasks.Composer.{includes, reviewable_statuses, respondable_statuses}
use lgtm.Drafts
use lgtm.Drafts.{Action, Box, follow_up_action}

pub record Review : Type 0 where
  pub id : Text
  pub status : TaskStatus
  pub box : Box Text
  -- whether Reject is armed
  pub armed : Bool
  -- the names of the actions that were started, on the pages mounted before too
  pub started : List Text

unfoldable pub mounted : Text → TaskStatus → Review
mounted id status = record {
  id = id;
  status = status;
  box = record { draft = []; actions = Actions.mounted; calls = [] };
  armed = false;
  started = [];
}

abbrev pub is_reviewable : Review → Bool
is_reviewable s = includes reviewable_statuses s.status

abbrev pub is_respondable : Review → Bool
is_respondable s = includes respondable_statuses s.status

unfoldable pub approve_of : Text → Action
approve_of id = record {
  name = text "approve";
  call = approve_task id;
  message = text "Task approved — branch pushed";
}

unfoldable pub reject_of : Text → Action
reject_of id = record {
  name = text "reject";
  call = reject_task id;
  message = text "Task rejected — worktree discarded";
}

abbrev pub own : Text
own = text "follow-up"

-- `run`, with `disarm` as `onStart`; every control is disabled while the page is busy
unfoldable pub begin : Action → Review → Review
begin a s = if busy s.box.actions then s else record s {
  box = Drafts.start own [] (follow_up_action s.id) a s.box;
  armed = false;
  started = s.started ++ a.name ∷ [];
}

-- a box that takes no text submits none
unfoldable pub submit : Review → Review
unfolding begin
submit s =
    if is_respondable s
    then elim (follow_up_action s.id s.box.draft) [ none ↦ s | some a ↦ begin a s ]
    else s

unfoldable pub approve : Review → Review
unfolding begin
approve s = if is_reviewable s then begin (approve_of s.id) s else s

unfoldable pub reject : Review → Review
unfolding begin
reject s =
    if not (is_reviewable s) || busy s.box.actions
    then s
    else if s.armed
    then begin (reject_of s.id) s
    else record s { armed = true }

unfoldable pub change_text : Text → Review → Review
change_text content s =
    if is_respondable s && not (busy s.box.actions)
    then record s { box = record s.box { draft = content } }
    else s

-- the page is given a task: the same one refetched, or another
unfoldable pub show : Bool → Text → TaskStatus → Review → Review
unfolding mounted
show remounts id status s =
    if remounts && not (text_eq id s.id)
    then record (mounted id status) { started = s.started }
    else record s { id = id; status = status }

pub data ReviewEvent : Type 0 where
  changed_text : Text → ReviewEvent
  submitted approved rejected : ReviewEvent
  -- a pointer on the armed button or elsewhere, a key that is Escape or not, and the timeout
  pointed keyed : Bool → ReviewEvent
  expired : ReviewEvent
  settled : Actions.Event Text → ReviewEvent
  shown : Text → TaskStatus → ReviewEvent

unfoldable pub step : Bool → ReviewEvent → Review → Review
unfolding change_text submit approve reject show
step remounts (changed_text content) s = change_text content s
step remounts submitted s = submit s
step remounts approved s = approve s
step remounts rejected s = reject s
step remounts (pointed inside) s = record s { armed = s.armed && inside }
step remounts (keyed escape) s = record s { armed = s.armed && not escape }
step remounts expired s = record s { armed = false }
step remounts (settled e) s = record s {
  box = Drafts.settle own [] (follow_up_action s.id) e s.box;
}
step remounts (shown id status) s = show remounts id status s

unfoldable pub run : Bool → List ReviewEvent → Review → Review
unfolding step
run remounts [] s = s
run remounts (e ∷ es) s = run remounts es (step remounts e s)
