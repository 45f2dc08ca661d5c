-- ===== src/NewTask/Session/Buttons.antt =====
-- What the page of apps/web/src/routes/index.tsx says and which of its buttons are enabled.
use lgtm.Prelude.{
  suc, ◌≡◌, ◌↔◌, Bool, true, false, not, ◌&&◌, ◌||◌, Option, none, some, List, [], ◌∷◌, Text, text,
  trim, is_empty, length, length-append, arith, if◌then◌else◌, Bool-cases, Option-cases, inl, inr,
}
use lgtm.Types.{RunnerStatus}
use lgtm.Server.Calls.{create_chat, create_task}
use lgtm.NewTask.{Page, busy, is_blocked, enhance_call, submission}
use lgtm.NewTask.Session.{Home, Mode, chat, task, begin_ask, begin_enhance, begin_submit}

-- `project` is the name of the one that is picked
unfoldable pub heading : Mode → Option Text → Text
heading chat none = text "What should we work on?"
heading chat (some project) =
    if is_empty project then text "What should we work on?" else text "What should we work on in"
heading task none = text "Choose a project to get started"
heading task (some project) =
    if is_empty project
    then text "Choose a project to get started"
    else text "What should we build in"

abbrev is_chat : Mode → Bool
is_chat chat = true
is_chat task = false

-- whether the round button is enabled
unfoldable pub can_send : Home → Bool
can_send s =
    not (busy s.page)
    && not (is_empty (trim s.page.draft))
    && (is_chat s.mode || not (is_empty s.page.repository))

-- whether the button Enhance is enabled
unfoldable pub can_enhance : Home → Bool
can_enhance s = not (busy s.page || is_empty (trim s.page.draft) || is_empty s.page.repository)

-- a press of the round button
unfoldable pub send : List RunnerStatus → Home → Home
send runners s = elim s.mode [ chat ↦ begin_ask s | task ↦ begin_submit runners s ]

-- whether there is one call more
abbrev pub CallsOnce : Home → Home → Type 0
CallsOnce before after = length after.calls ≡ suc (length before.calls)

ask-calls :
    (s : Home)
    → CallsOnce s (begin_ask s) ↔ ((not (busy s.page) && not (is_empty (trim s.page.draft))) ≡ true)
unfolding begin_ask
ask-calls s = elim (Bool-cases (is_empty (trim s.page.draft) || busy s.page)) [
  | inl e ↦ ground (arith, e)
  | inr e ↦ ground (arith, e, length-append s.calls (create_chat (trim s.page.draft) ∷ []))
]

abbrev is_none : {A : Type 0} → Option A → Bool
is_none none = true
is_none (some _) = false

submission-is_blocked :
    (runners : List RunnerStatus) (p : Page) → is_none (submission runners p) ≡ is_blocked p
unfolding submission
submission-is_blocked runners p = elim (Bool-cases (is_blocked p)) [
  | inl e ↦ ground (arith, e)
  | inr e ↦ ground (arith, e)
]

enhance_call-is_blocked : (p : Page) → is_none (enhance_call p) ≡ is_blocked p
unfolding enhance_call
enhance_call-is_blocked p = elim (Bool-cases (is_blocked p)) [
  | inl e ↦ ground (arith, e)
  | inr e ↦ ground (arith, e)
]

submit-calls :
    (runners : List RunnerStatus) (s : Home)
    → CallsOnce s (begin_submit runners s) ↔ (is_none (submission runners s.page) ≡ false)
unfolding begin_submit
submit-calls runners s = elim (Option-cases (submission runners s.page)) [
  | inl e ↦ ground (arith, e)
  | inr (spec, e) ↦ ground (arith, e, length-append s.calls (create_task spec ∷ []))
]

enhance-calls : (s : Home) → CallsOnce s (begin_enhance s) ↔ (is_none (enhance_call s.page) ≡ false)
unfolding begin_enhance
enhance-calls s = elim (Option-cases (enhance_call s.page)) [
  | inl e ↦ ground (arith, e)
  | inr (call, e) ↦ ground (arith, e, length-append s.calls (call ∷ []))
]

send-calls :
    (runners : List RunnerStatus) (s : Home) → CallsOnce s (send runners s) ↔ (can_send s ≡ true)
unfolding send can_send
send-calls runners s =
    ground (arith, ask-calls s, submit-calls runners s, submission-is_blocked runners s.page)

-- On the home page, in either mode, the round button is enabled exactly if pressing it makes one
-- call of the orchestrator, and the button Enhance exactly if pressing that one does.
pub buttons-call :
    (runners : List RunnerStatus) (s : Home)
    → (CallsOnce s (send runners s) ↔ (can_send s ≡ true))
      × (CallsOnce s (begin_enhance s) ↔ (can_enhance s ≡ true))
unfolding can_enhance
buttons-call runners s =
    (send-calls runners s, ground (arith, enhance-calls s, enhance_call-is_blocked s.page))
