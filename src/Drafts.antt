-- ===== src/Drafts.antt =====
-- The boxes of the web app whose text is handed to `useAction` and which are emptied only when the
-- action succeeded: the follow-up of a task (apps/web/src/components/task-composer.tsx), the
-- comment on a todo (apps/web/src/components/todo-activity.tsx), the title of a todo
-- (apps/web/src/routes/todos_.$id.tsx) and the text of a memory (apps/web/src/routes/memories.tsx).
pub mod Endings
pub mod Writes
mod Tests
use lgtm.Prelude.{
  Bool, true, false, ◌&&◌, ◌||◌, not, Option, none, some, List, [], ◌∷◌, ◌++◌, Text, text, text_eq,
  trim, is_empty, if◌then◌else◌,
}
use lgtm.Types.{Memory, agent_proposed, user_approved}
use lgtm.Actions
use lgtm.Actions.{Actions, busy}
use lgtm.Server.{ApiCall}
use lgtm.Server.Calls.{
  send_follow_up, comment_on_todo, no_todo_patch, update_todo, update_memory, approve_memory,
  delete_memory,
}
use lgtm.Tasks.Composer.{follow_up}

-- an action of the page: its name, its call and the toast for its success
pub record Action : Type 0 where
  pub name : Text
  pub call : ApiCall
  pub message : Text

pub record Box (D : Type 0) : Type 0 where
  pub draft : D
  pub actions : Actions Text
  pub calls : List ApiCall

pub data Event (D : Type 0) : Type 0 where
  -- the box is disabled while the page is busy, and so are the buttons
  typed : D → Event D
  submitted : Event D
  -- another action of the page
  other : Action → Event D
  settled : Actions.Event Text → Event D

-- the name of the action under way
abbrev pub is_pending : Text → Actions Text → Bool
is_pending name s = elim s.pending [ none ↦ false | some a ↦ text_eq a name ]

abbrev has_resolved : Actions Text → Bool
has_resolved s = elim s.resolved [ none ↦ false | some ok ↦ ok ]

-- `own` is the name of the box's action, `cleared` the draft of an empty box, and `prepare` what
-- the box hands to `run`, if it does
module _ {D : Type 0} (own : Text) (cleared : D) (prepare : D → Option Action) where
  unfoldable pub start : Action → Box D → Box D
  start a s = if busy s.actions then s else record s {
    actions = Actions.begin a.name a.message s.actions;
    calls = s.calls ++ a.call ∷ [];
  }

  unfoldable pub submit : Box D → Box D
  unfolding start
  submit s = elim (prepare s.draft) [ none ↦ s | some a ↦ start a s ]

  -- what goes on behind the `await` of `run`: the box is emptied if its action succeeded
  unfoldable pub settle : Actions.Event Text → Box D → Box D
  settle e s =
      let next = Actions.step e s.actions in
      record s {
        actions = next;
        draft =
            if is_pending own s.actions && not (busy next) && has_resolved next
            then cleared
            else s.draft;
      }

  unfoldable pub step : Event D → Box D → Box D
  unfolding start submit settle
  step (typed d) s = if busy s.actions then s else record s { draft = d }
  step submitted s = submit s
  step (other a) s = start a s
  step (settled e) s = settle e s

  unfoldable pub run : List (Event D) → Box D → Box D
  run [] s = s
  run (e ∷ es) s = run es (step e s)

abbrev pub as_action : Text → (Text → ApiCall) → Text → Option Text → Option Action
as_action name call message none = none
as_action name call message (some body) =
    some (record { name = name; call = call body; message = message })

-- the follow-up of the task of an id; `run` is told that nothing is under way
unfoldable pub follow_up_action : Text → Text → Option Action
follow_up_action id body =
    as_action (text "follow-up") (send_follow_up id)
      (text "Follow-up sent — the agent resumes with it") (follow_up false body)

unfoldable pub comment_action : Text → Text → Option Action
comment_action id body =
    as_action (text "comment") (comment_on_todo id) (text "Comment added")
      (if is_empty (trim body) then none else some (trim body))

-- the title is sent as it was typed; no draft is the read mode
unfoldable pub title_action : Text → Option Text → Option Action
title_action id none = none
title_action id (some next) =
    as_action (text "patch") (λ title. update_todo id (record no_todo_patch { title = some title }))
      (text "Title updated") (if is_empty (trim next) then none else some next)

abbrev pub is_proposed : Memory → Bool
is_proposed memory = elim memory.verification [ agent_proposed ↦ true | user_approved ↦ false ]

abbrev or_empty : Option Text → Text
or_empty none = []
or_empty (some s) = s

-- the orchestrator treats an edit as sign-off, so the message says so
unfoldable pub memory_action : Memory → Option Text → Option Action
memory_action memory draft =
    let edited = trim (or_empty draft) in
    as_action (text "save") (update_memory memory.id)
      (if is_proposed memory then text "Memory updated and approved" else text "Memory updated")
      (if is_empty edited || text_eq edited memory.content then none else some edited)

-- the other actions of a memory's row
abbrev pub approve_action : Memory → Action
approve_action memory = record {
  name = text "approve";
  call = approve_memory memory.id;
  message = text "Memory approved";
}

abbrev pub delete_action : Memory → Action
delete_action memory = record {
  name = text "delete";
  call = delete_memory memory.id;
  message = text "Memory deleted";
}
