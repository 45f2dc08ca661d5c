-- ===== src/NewTask/Session/Requests.antt =====
-- The requests of a visit to the page of apps/web/src/routes/index.tsx.
use lgtm.Prelude.{
  ℕ, ◌+◌, ◌≡◌, Bool, true, Option, none, some, List, [], ◌∷◌, length, length-append, Text, trim,
  Option-cases, inl, inr, arith,
}
use lgtm.Types.{RunnerStatus}
use lgtm.Server.Calls.{create_chat, create_task}
use lgtm.NewTask.{Pending, busy, enhance_call, submission}
use lgtm.NewTask.Session.{
  Home, Event, typed, press_ask, press_enhance, press_submit, enter, to_task, to_chat, resolved,
  rejected, begin_ask, begin_enhance, begin_submit, on_enter, on_resolved, on_rejected, handle,
  step, run,
}

abbrev pub one : Option Pending → ℕ
one none = 0
one (some _) = 1

-- the calls that wait for their answer
abbrev pub outstanding : Home → ℕ
outstanding s = elim s.opened [ none ↦ one s.page.pending | some _ ↦ 0 ]

abbrev pub Balances : Home → Type 0
Balances s = length s.calls ≡ s.answered + outstanding s

module _ (runners : List RunnerStatus) where
  ask-Balances : (s : Home) → s.opened ≡ none → Balances s → Balances (begin_ask s)
  unfolding begin_ask
  ask-Balances s here h =
      ground (arith, here, h, length-append s.calls (create_chat (trim s.page.draft) ∷ []))

  blocked-when_busy : (s : Home) → busy s.page ≡ true → enhance_call s.page ≡ none
  unfolding enhance_call
  blocked-when_busy s h = ground (arith, h)

  unsent-when_busy : (s : Home) → busy s.page ≡ true → submission runners s.page ≡ none
  unfolding submission
  unsent-when_busy s h = ground (arith, h)

  enhance-Balances : (s : Home) → s.opened ≡ none → Balances s → Balances (begin_enhance s)
  unfolding begin_enhance
  enhance-Balances s here h = elim (Option-cases (enhance_call s.page)) [
    | inl blocked ↦ ground (arith, here, h, blocked)
    | inr (call, made) ↦
        ground (arith, here, h, made, blocked-when_busy s, length-append s.calls (call ∷ []))
  ]

  submit-Balances : (s : Home) → s.opened ≡ none → Balances s → Balances (begin_submit runners s)
  unfolding begin_submit
  submit-Balances s here h = elim (Option-cases (submission runners s.page)) [
    | inl blocked ↦ ground (arith, here, h, blocked)
    | inr (spec, made) ↦
        ground
          (arith, here, h, made, unsent-when_busy s, length-append s.calls (create_task spec ∷ []))
  ]

  enter-Balances :
      (shift command : Bool) (s : Home)
      → s.opened ≡ none
      → Balances s
      → Balances (on_enter runners shift command s)
  unfolding on_enter
  enter-Balances shift command s here h =
      ground (arith, here, h, ask-Balances s here, submit-Balances s here)

  resolved-Balances :
      (answer : Text) (s : Home)
      → s.opened ≡ none
      → Balances s
      → Balances (on_resolved runners answer s)
  unfolding on_resolved
  resolved-Balances answer s here h = ground (arith, here, h)

  rejected-Balances :
      (reason : Text) (s : Home)
      → s.opened ≡ none
      → Balances s
      → Balances (on_rejected runners reason s)
  unfolding on_rejected
  rejected-Balances reason s here h = ground (arith, here, h)

  handle-Balances :
      (e : Event) (s : Home) → s.opened ≡ none → Balances s → Balances (handle runners e s)
  unfolding handle
  handle-Balances (typed draft) s here h = h
  handle-Balances press_ask s here h = ask-Balances s here h
  handle-Balances press_enhance s here h = enhance-Balances s here h
  handle-Balances press_submit s here h = submit-Balances s here h
  handle-Balances (enter shift command) s here h = enter-Balances shift command s here h
  handle-Balances to_task s here h = ground (arith, h)
  handle-Balances to_chat s here h = ground (arith, h)
  handle-Balances (resolved answer) s here h = resolved-Balances answer s here h
  handle-Balances (rejected reason) s here h = rejected-Balances reason s here h

  step-Balances : (e : Event) (s : Home) → Balances s → Balances (step runners e s)
  unfolding step
  step-Balances e s h = elim (Option-cases s.opened) [
    | inl here ↦ rw (step_here e s here) (handle-Balances e s here h)
    | inr (id, left) ↦ rw (step_left e s id left) h
  ]
    where
      step_here : (e : Event) (s : Home) → s.opened ≡ none → step runners e s ≡ handle runners e s
      step_here e s here = ground (arith, here)

      step_left : (e : Event) (s : Home) (id : Text) → s.opened ≡ some id → step runners e s ≡ s
      step_left e s id left = ground (arith, left)

  -- Whatever is typed and pressed on the page, by button or by key, and however its calls are
  -- answered, the page has at most one call that waits for its answer, be it a question, an
  -- enhancement or a task, and it has one exactly while it is busy and has not been left.
  pub run-Balances : (es : List Event) (s : Home) → Balances s → Balances (run runners es s)
  unfolding run
  run-Balances [] s h = h
  run-Balances (e ∷ es) s h = run-Balances es (step runners e s) (step-Balances e s h)
