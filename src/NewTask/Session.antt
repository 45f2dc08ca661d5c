-- ===== src/NewTask/Session.antt =====
-- A visit to the page of apps/web/src/routes/index.tsx, with the chat that it can open
-- (`useWorkspaceChat` of apps/web/src/components/workspace-chat.tsx), from one `await` to the next.
pub mod Buttons
pub mod Requests
pub mod Asking
use lgtm.Prelude.{
  ℕ, suc, Bool, ◌||◌, Option, none, some, List, [], ◌∷◌, ◌++◌, Text, trim, is_empty, if◌then◌else◌,
}
use lgtm.Types.{RunnerStatus}
use lgtm.Server.{ApiCall}
use lgtm.Server.Calls.{create_chat, create_task}
use lgtm.NewTask.{Page, Pending, ask, enhance, submit, busy, enhance_call, submission}

pub data Mode : Type 0 where
  chat task : Mode

pub record Home : Type 0 where
  pub page : Page
  pub mode : Mode
  -- the question that is being asked
  pub asked : Text
  pub calls : List ApiCall
  -- how many of the calls have been answered or refused
  pub answered : ℕ
  pub toasts : List Text
  -- the chat or the task for which the page is left
  pub opened : Option Text

pub data Event : Type 0 where
  typed : Text → Event
  press_ask press_enhance press_submit : Event
  -- Enter in the box, with Shift, and with Command or Control
  enter : Bool → Bool → Event
  to_task to_chat : Event
  -- the answer to the call: the id of what was created, or the prompt, or the reason of a refusal
  resolved rejected : Text → Event

abbrev with_draft : Text → Page → Page
with_draft draft p = record p { draft = draft }

abbrev with_pending : Option Pending → Page → Page
with_pending pending p = record p { pending = pending }

-- `ask` of the page and of the hook, which sends nothing for an empty question or a busy page
unfoldable pub begin_ask : Home → Home
begin_ask s =
    let asked = trim s.page.draft in
    if is_empty asked || busy s.page
    then record s { page = with_draft asked s.page }
    else record s {
      page = with_pending (some ask) (with_draft [] s.page);
      asked = asked;
      calls = s.calls ++ create_chat asked ∷ [];
    }

unfoldable pub begin_enhance : Home → Home
begin_enhance s = elim (enhance_call s.page) [
  | none ↦ s
  | some call ↦ record s { page = with_pending (some enhance) s.page; calls = s.calls ++ call ∷ [] }
]

module _ (runners : List RunnerStatus) where
  unfoldable pub begin_submit : Home → Home
  begin_submit s = elim (submission runners s.page) [
    | none ↦ s
    | some spec ↦ record s {
      page = with_pending (some submit) s.page;
      calls = s.calls ++ create_task spec ∷ [];
    }
  ]

  -- `submitOnShortcut`
  unfoldable pub on_enter : Bool → Bool → Home → Home
  unfolding begin_ask begin_submit
  on_enter shift command s = elim s.mode [
    | chat ↦ if shift then s else begin_ask s
    | task ↦ if command then begin_submit s else s
  ]

  unfoldable pub on_resolved : Text → Home → Home
  on_resolved answer s = elim s.page.pending [
    | none ↦ s
    | some p ↦ elim p [
      | ask ↦ record s {
        page = with_pending none s.page;
        answered = suc s.answered;
        opened = some answer;
      }
      | enhance ↦ record s {
        page = with_pending none (with_draft answer s.page);
        answered = suc s.answered;
      }
      -- the page stays busy until it is left
      | submit ↦ record s { answered = suc s.answered; opened = some answer }
    ]
  ]

  unfoldable pub on_rejected : Text → Home → Home
  on_rejected reason s = elim s.page.pending [
    | none ↦ s
    | some p ↦ elim p [
      | ask ↦ record s {
        page = with_pending none (with_draft s.asked s.page);
        answered = suc s.answered;
        toasts = s.toasts ++ reason ∷ [];
      }
      | enhance ↦ record s {
        page = with_pending none s.page;
        answered = suc s.answered;
        toasts = s.toasts ++ reason ∷ [];
      }
      | submit ↦ record s {
        page = with_pending none s.page;
        answered = suc s.answered;
        toasts = s.toasts ++ reason ∷ [];
      }
    ]
  ]

  -- the buttons that change the mode are disabled while the page is busy
  unfoldable pub handle : Event → Home → Home
  unfolding begin_ask begin_enhance begin_submit on_enter on_resolved on_rejected
  handle (typed draft) s = record s { page = with_draft draft s.page }
  handle press_ask s = begin_ask s
  handle press_enhance s = begin_enhance s
  handle press_submit s = begin_submit s
  handle (enter shift command) s = on_enter shift command s
  handle to_task s = if busy s.page then s else record s { mode = task }
  handle to_chat s = if busy s.page then s else record s { mode = chat }
  handle (resolved answer) s = on_resolved answer s
  handle (rejected reason) s = on_rejected reason s

  -- a page that is left does nothing any more
  unfoldable pub step : Event → Home → Home
  unfolding handle
  step e s = elim s.opened [ none ↦ handle e s | some _ ↦ s ]

  unfoldable pub run : List Event → Home → Home
  run [] s = s
  run (e ∷ es) s = run es (step e s)
