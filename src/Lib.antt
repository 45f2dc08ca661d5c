-- ===== src/Lib.antt =====
-- The web app of lgtm (apps/web): its state, its decisions and its calls of the orchestrator. The
-- app is a set of pages over one HTTP client. A page loads records from the orchestrator through
-- the server functions, shows them, and writes back through the server functions; the long-lived
-- state is in the orchestrator, and what a page keeps is the state of its React components.
--
-- Types (apps/web/src/lib/lgtm/types.ts): the records that the orchestrator sends.
-- Server (apps/web/src/lib/lgtm/server.ts): `api` builds a request, receives the answer and
--   refuses; Server/Calls has one definition for each server function, by its name in snake case.
--   Server/Errors and Server/Address are about `api`.
-- Editor (apps/web/src/components/markdown-editor.tsx): the debounced markdown editor. `flush`,
--   `sync_headings` and `on_update` are the callbacks of those names, and `step` is the event that
--   calls them.
-- Autosave (apps/web/src/routes/scratchpads_.$id.tsx, apps/web/src/routes/skills_.$id.tsx): the
--   save loop of a document. The refs `latest`, `queued` and `inFlight` and the state `saveState`
--   are fields of a record. The loop runs from one `await` to the next as one step: `save` begins
--   it, `land` and `fail` go on when the awaited request settles.
-- Page: an editor whose `onMarkdown` is the document's, the two state machines together.
-- Transcript (apps/web/src/components/task-transcript.tsx): Events and Lifecycle turn a stored
--   event into a row, Feed folds output into the row before it, Grouping collapses tool work.
-- Tasks (apps/web/src/components/task-list.tsx, task-triage.tsx, task-composer.tsx and
--   task-summary-panel.tsx, apps/web/src/lib/utils.ts): Status, Triage, Composer and Summary, one
--   for each file in that order, Status with the task titles too; Composer/Visit is the panel
--   that retries a task over its life, Review the box with Approve and Reject over theirs.
--   Summary/Panel has the sections of the summary, FilePath is apps/web/src/components/file-path.tsx.
-- Documents (the same two routes): the other callbacks of a document's page; Pad has those of a
--   scratchpad, Skills those of a skill and how its file is taken apart. Menu is the menu with its
--   armed Delete and the actions that the page starts, Details what the page shows beside the text.
-- Actions (apps/web/src/hooks/use-action.ts, use-armed-confirm.ts): the life of an action, and the
--   two-press button in Confirm.
-- TimeAgo (apps/web/src/components/time-ago.tsx): the wording of a time, and Ticker, the interval
--   that all timestamps share.
-- NewTask (apps/web/src/routes/index.tsx, apps/web/src/components/model-selector.tsx): the page on
--   which a task is composed; Stored is what it keeps in `localStorage`, Efforts the reasoning
--   efforts that are set, Models the models.
--   Session is a visit to the page with the chat that it can open
--   (apps/web/src/components/workspace-chat.tsx), Scores the bars that compare the models, Branches
--   the switcher of the branch, Session/Buttons which buttons are enabled, Pickers the pickers of
--   the project and the runner, Selector the selector of the model.
-- Projects (apps/web/src/components/app-sidebar.tsx): the projects of the sidebar.
-- Sidebar (apps/web/src/components/app-sidebar.tsx, row-menu.tsx, chat-item.tsx, project-item.tsx):
--   OpenMap has which groups are open and their storage, Adding the form for a new project, Rows
--   what can be done to a row.
-- Todos (apps/web/src/routes/todos_.$id.tsx): Description is the save loop of a todo's description,
--   which differs from Autosave in what it sends next; Edits has the chips
--   (apps/web/src/components/todo-chips.tsx) and the menu (apps/web/src/components/todo-row.tsx),
--   which Edits/Menu follows from press to press.
-- Writer: the abstract writer that both save loops are; its traces are what a save loop may do.
--   Saver is the interface of a save loop to the page that mounts an editor on it, with the text that
--   the orchestrator keeps; Page/Stored and Todos/Description/Stored fill it.
-- Drafts (apps/web/src/components/task-composer.tsx, todo-activity.tsx,
--   apps/web/src/routes/todos_.$id.tsx, memories.tsx): the boxes whose text is an action of
--   Actions, over the draft's type and what the box hands over; the instances are the functions
--   that end in `_action`.
-- Chats (apps/web/src/routes/chats.$id.tsx, apps/web/src/components/workspace-chat.tsx,
--   answer-references.tsx): an open chat; Shown has the rows of the conversation, References what
--   an answer refers to, with the two regular expressions run by hand; Moves has the page while its
--   reader goes elsewhere in the app, where what a callback waits for goes on.
-- Creation (apps/web/src/routes/scratchpads.tsx, skills.tsx): the titles and names of new documents,
--   and in Visit what becomes of the calls that create them.
-- Toc (apps/web/src/components/editor-toc.tsx): the outline beside a document; Scroller finds
--   what scrolls it and follows the scrolling, Drawing has the rows and the line beside them.
-- Listing (apps/web/src/routes/memories.tsx, apps/web/src/routes/todos.tsx): the records of a page
--   in groups, over the map of Prelude/Groups; Scratchpads has the sections of
--   apps/web/src/routes/scratchpads.tsx.
-- Frame: Polling (apps/web/src/routes/tasks.$id.tsx, chats.$id.tsx) is the effect that refetches a
--   page, Panel (apps/web/src/components/app-shell.tsx) the right-hand column, Title
--   (apps/web/src/components/site-header.tsx) the heading, Theme
--   (apps/web/src/components/account-menu.tsx, apps/web/src/routes/__root.tsx) the theme, Runners
--   (apps/web/src/components/runner-list.tsx) the cards of the machines, Activity
--   (apps/web/src/routes/activity.tsx) the feed. `localStorage` may throw at each access, as an
--   argument says; `matchRoute` is a parameter. Remembered is the interface of a choice that is kept
--   there, which the theme, the column and the item of StretchText fill.
-- Stretch (apps/web/src/lib/lgtm/debug.ts): the debugging aid that replaces the texts of a page, with
--   the records of its observer; Filler is what it writes. `Math.random` is an argument.
-- Tags (apps/web/src/components/tags-row.tsx): the edits of the tags and the loop that folds them.
--   Tags.Row is the row over its life: its field, its layout effects and the observer of its width.
-- Prelude: Boolean tests, lists measured by native numbers, JavaScript strings as lists of
--   UTF-16 code units, and a stable sort.
--
-- Numbers of the source that are counts, times in milliseconds or sizes are natural numbers.
-- The loops of the source are structural recursions over a list or a number; `decimal` writes a
-- number out with one unit of fuel more than the number, and it has fewer digits than that;
-- `free_name` tries one name more than there are names that are taken.
-- `fetch` and `JSON.parse` are fields of the runtime that `api` takes, an edit's request is a
-- function that the save loop takes, what the orchestrator makes of a text is another, and the order
-- of `localeCompare` is an argument too. Where `localStorage` may throw, the model says so.
--
-- Not modelled: the markup that the components return, which is most of what is left of the files
-- above, the animations, and the components that are markup only (icons.tsx, priority-icon.tsx,
-- page-heading.tsx, list-group.tsx, action-icon.tsx, not-found.tsx, orchestrator-error.tsx; in
-- diff-view.tsx a package parses and draws the diff). The generic widgets under
-- apps/web/src/components/ui and aicss are taken over from component kits, and the route tree is
-- generated.
-- The crates of the repository (the orchestrator, the agents and the command line) are outside:
-- the web app sees them as the answers to its requests.
pub mod Prelude
pub mod Types
pub mod Server
pub mod Tasks
pub mod Transcript
pub mod Autosave
pub mod Editor
pub mod Page
pub mod Documents
pub mod Actions
pub mod TimeAgo
pub mod Tags
pub mod Projects
pub mod NewTask
pub mod Todos
pub mod Listing
pub mod Writer
pub mod Creation
pub mod Chats
pub mod Sidebar
pub mod Toc
pub mod Drafts
pub mod Frame
pub mod Stretch
