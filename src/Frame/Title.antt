-- ===== src/Frame/Title.antt =====
-- The heading of a page and the pill of a task: `useTitle` and `StatusPill` of
-- apps/web/src/components/site-header.tsx. The router's `matchRoute` is a parameter: for a route's
-- path it gives the value of its `id`, empty if it has none, or nothing if the route does not match.
pub mod Distinct
use lgtm.Prelude.{
  Option, none, some, List, [], ◌∷◌, ◌++◌, map, Text, text, text_eq, find, ◌==◌, if◌then◌else◌,
}
use lgtm.Types.{
  Task, Chat, TaskStatus, queued, running, awaiting_review, changes_requested, conflicted, approved,
  merged, rejected, failed, timed_out, runner_lost, cancelled,
}
use lgtm.Tasks.Status.{task_title}

abbrev pub titles : List (Text × Text)
titles =
    (text "/tasks", text "Tasks")
    ∷ (text "/runners", text "Runners")
    ∷ (text "/todos", text "Todos")
    ∷ (text "/memories", text "Memories")
    ∷ (text "/scratchpads", text "Scratchpads")
    ∷ (text "/activity", text "Activity")
    ∷ []

module _ (match_route : Text → Option Text) where
  -- the loop over `TITLES`
  unfoldable pub title_among : List (Text × Text) → Text
  title_among [] = text "LGTM"
  title_among ((to, title) ∷ rest) =
      let later = title_among rest in elim (match_route to) [ none ↦ later | some _ ↦ title ]

  abbrev pub task_heading : Option Task → Text → Text
  task_heading none id = text "Task " ++ id
  task_heading (some task) id = task_title task

  abbrev pub chat_heading : Option Chat → Text
  chat_heading none = text "Chat"
  chat_heading (some chat) = chat.title

  abbrev pub page_heading : Text
  page_heading = elim (match_route (text "/todos/$id")) [
    | some _ ↦ text "Todo"
    | none ↦ elim (match_route (text "/scratchpads/$id")) [
      | some _ ↦ text "Scratchpad"
      | none ↦ title_among titles
    ]
  ]

  unfoldable pub use_title : List Task → List Chat → Text
  unfolding title_among
  use_title tasks chats = elim (match_route (text "/")) [
    | some _ ↦ text "New task"
    | none ↦ elim (match_route (text "/tasks/$id")) [
      | some id ↦ task_heading (find (λ t. text_eq t.id id) tasks) id
      | none ↦ elim (match_route (text "/chats/$id")) [
        | some id ↦ chat_heading (find (λ c. text_eq c.id id) chats)
        | none ↦ page_heading
      ]
    ]
  ]

-- the name that the wire has for a status
abbrev pub status_name : TaskStatus → Text
status_name queued = text "queued"
status_name running = text "running"
status_name awaiting_review = text "awaiting_review"
status_name changes_requested = text "changes_requested"
status_name conflicted = text "conflicted"
status_name approved = text "approved"
status_name merged = text "merged"
status_name rejected = text "rejected"
status_name failed = text "failed"
status_name timed_out = text "timed_out"
status_name runner_lost = text "runner_lost"
status_name cancelled = text "cancelled"

-- `status.replace(/_/g, " ")`
unfoldable pub status_words : TaskStatus → Text
status_words status = map (λ c. if c == b'_' then b' ' else c) (status_name status)

pub data PillTone : Type 0 where
  emerald amber muted destructive sky : PillTone

-- the table `STATUS_TONE`
unfoldable pub status_tone : TaskStatus → PillTone
status_tone approved = emerald
status_tone awaiting_review = amber
status_tone cancelled = muted
status_tone changes_requested = amber
status_tone conflicted = amber
status_tone failed = destructive
status_tone merged = emerald
status_tone queued = muted
status_tone rejected = destructive
status_tone runner_lost = destructive
status_tone running = sky
status_tone timed_out = destructive
