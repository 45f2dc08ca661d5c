-- ===== src/NewTask/Session/Asking.antt =====
-- A question that is asked on the page of apps/web/src/routes/index.tsx (`ask` there, and in
-- apps/web/src/components/workspace-chat.tsx).
use lgtm.Prelude.{
  ◌≡◌, refl, ap, ◌∙◌, false, none, some, List, [], ◌∷◌, ◌++◌, map, Text, trim, is_empty, last_or,
  arith,
}
use lgtm.Types.{RunnerStatus}
use lgtm.Server.Calls.{create_chat}
use lgtm.NewTask.{ask, busy}
use lgtm.NewTask.Session.{
  Home, Event, typed, press_ask, resolved, rejected, begin_ask, on_resolved, on_rejected, handle,
  step, run,
}

module _ (runners : List RunnerStatus) where
  typing :
      (texts : List Text) (s : Home)
      → s.opened ≡ none
      → run runners (map typed texts) s
        ≡ record s { page = record s.page { draft = last_or s.page.draft texts } }
  unfolding run step handle
  typing [] s here = refl
  typing (t ∷ texts) s here =
      ap (run runners (map typed texts)) (step_typed t s here)
      ∙ typing texts (record s { page = record s.page { draft = t } }) here
    where
      step_typed :
          (t : Text) (s : Home)
          → s.opened ≡ none
          → step runners (typed t) s ≡ record s { page = record s.page { draft = t } }
      step_typed t s here = ground (arith, here)

  run-append :
      (es fs : List Event) (s : Home) → run runners (es ++ fs) s ≡ run runners fs (run runners es s)
  unfolding run
  run-append [] fs s = refl
  run-append (e ∷ es) fs s = run-append es fs (step runners e s)

  abbrev asking : Home → Home
  asking s = record s {
    page = record s.page { draft = []; pending = some ask };
    asked = trim s.page.draft;
    calls = s.calls ++ create_chat (trim s.page.draft) ∷ [];
  }

  press_ask-asking :
      (s : Home)
      → s.opened ≡ none
      → is_empty (trim s.page.draft) ≡ false
      → busy s.page ≡ false
      → step runners press_ask s ≡ asking s
  unfolding step handle begin_ask
  press_ask-asking s here full free = ground (arith, here, full, free)

  ask-typing :
      (texts : List Text) (answer : Event) (s : Home)
      → s.opened ≡ none
      → is_empty (trim s.page.draft) ≡ false
      → busy s.page ≡ false
      → run runners (press_ask ∷ (map typed texts ++ answer ∷ [])) s
        ≡ run runners
            (answer ∷ [])
            (record (asking s) { page = record (asking s).page { draft = last_or [] texts } })
  ask-typing texts answer s here full free =
      unfold run in
      ap (run runners (map typed texts ++ answer ∷ [])) (press_ask-asking s here full free)
      ∙ run-append (map typed texts) (answer ∷ []) (asking s)
      ∙ ap (run runners (answer ∷ [])) (typing texts (asking s) here)

  -- A question that is asked on a page at rest takes the page to the chat that is opened with it,
  -- or, if it is refused, is in the box again, trimmed, in place of what was typed since, with the
  -- reason shown; the page is at rest either way.
  pub ask-ending :
      (texts : List Text) (id reason : Text) (s : Home)
      → s.opened ≡ none
      → is_empty (trim s.page.draft) ≡ false
      → busy s.page ≡ false
      → let opened = run runners (press_ask ∷ (map typed texts ++ resolved id ∷ [])) s in
        let refused = run runners (press_ask ∷ (map typed texts ++ rejected reason ∷ [])) s in
        (opened.opened ≡ some id)
        × (busy opened.page ≡ false)
        × (refused.opened ≡ none)
        × (busy refused.page ≡ false)
        × (refused.page.draft ≡ trim s.page.draft)
        × (refused.toasts ≡ s.toasts ++ reason ∷ [])
  ask-ending texts id reason s here full free =
      rw
        (
          ask-typing texts (resolved id) s here full free,
          ask-typing texts (rejected reason) s here full free,
        )
        (unfold run step handle on_resolved on_rejected in
          rw here (refl, refl, refl, refl, refl, refl))
