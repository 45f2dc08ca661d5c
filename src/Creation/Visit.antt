-- ===== src/Creation/Visit.antt =====
-- `create` of apps/web/src/routes/scratchpads.tsx and apps/web/src/routes/skills.tsx, from one
-- `await` to the next; its button is disabled while it runs.
use lgtm.Prelude.{
  ◌≡◌, refl, ap, ◌∙◌, append-nil, append_assoc, Bool, true, false, List, [], ◌∷◌, ◌++◌, map, Text,
  arith, if◌then◌else◌,
}
use lgtm.Server.{ApiCall}

pub data Stage : Type 0 where
  resting calling : Stage
  -- the router goes to the page of the document with this id
  opening : Text → Stage

pub record Visit : Type 0 where
  pub creating : Bool
  pub stage : Stage
  pub calls : List ApiCall
  -- the documents whose pages were opened, and the reasons shown
  pub opened : List Text
  pub reasons : List Text

abbrev pub mounted : Visit
mounted = record { creating = false; stage = resting; calls = []; opened = []; reasons = [] }

pub data VisitEvent : Type 0 where
  -- the button is pressed, when this is the call to make
  pressed : ApiCall → VisitEvent
  created refused : Text → VisitEvent
  navigated : VisitEvent
  navigation_refused : Text → VisitEvent

unfoldable pub press : ApiCall → Visit → Visit
press call s =
    if s.creating
    then s
    else record s { creating = true; stage = calling; calls = s.calls ++ call ∷ [] }

-- the `catch` and the `finally`
abbrev pub give_up : Text → Visit → Visit
give_up reason s = record s {
  creating = false;
  stage = resting;
  reasons = s.reasons ++ reason ∷ [];
}

unfoldable pub step : VisitEvent → Visit → Visit
unfolding press
step (pressed call) s = press call s
step (created id) s = elim s.stage [
  | calling ↦ record s { stage = opening id }
  | resting ↦ s
  | opening _ ↦ s
]
step (refused reason) s = elim s.stage [ calling ↦ give_up reason s | resting ↦ s | opening _ ↦ s ]
step navigated s = elim s.stage [
  | opening id ↦ record s { creating = false; stage = resting; opened = s.opened ++ id ∷ [] }
  | resting ↦ s
  | calling ↦ s
]
step (navigation_refused reason) s = elim s.stage [
  | opening _ ↦ give_up reason s
  | resting ↦ s
  | calling ↦ s
]

unfoldable pub run : List VisitEvent → Visit → Visit
unfolding step
run [] s = s
run (e ∷ es) s = run es (step e s)

-- how a call goes on: the page of the document with this id is opened, the orchestrator refuses
-- with a reason, or the document is created and the router does not get to its page
pub data Ending : Type 0 where
  opens declines : Text → Ending
  strands : Text → Text → Ending

-- a press that makes a call, the presses while the button is disabled, and the ending
pub record Attempt : Type 0 where
  pub call : ApiCall
  pub ignored : List ApiCall
  pub ending : Ending

abbrev pub ends : Ending → List VisitEvent
ends (opens id) = created id ∷ navigated ∷ []
ends (declines reason) = refused reason ∷ []
ends (strands id reason) = created id ∷ navigation_refused reason ∷ []

abbrev pub events_of : List Attempt → List VisitEvent
events_of [] = []
events_of (a ∷ attempts) =
    pressed a.call ∷ (map pressed a.ignored ++ (ends a.ending ++ events_of attempts))

-- the documents whose pages the endings open, and the reasons that they show
abbrev pub page_of : Ending → List Text
page_of (opens id) = id ∷ []
page_of (declines reason) = []
page_of (strands id reason) = []

abbrev pub reason_of : Ending → List Text
reason_of (opens id) = []
reason_of (declines reason) = reason ∷ []
reason_of (strands id reason) = reason ∷ []

abbrev pub pages_of : List Attempt → List Text
pages_of [] = []
pages_of (a ∷ attempts) = page_of a.ending ++ pages_of attempts

abbrev pub reasons_of : List Attempt → List Text
reasons_of [] = []
reasons_of (a ∷ attempts) = reason_of a.ending ++ reasons_of attempts

-- the page after a call, at rest with what came of it
abbrev rested : Attempt → Visit → Visit
rested a s = record {
  creating = false;
  stage = resting;
  calls = s.calls ++ a.call ∷ [];
  opened = s.opened ++ page_of a.ending;
  reasons = s.reasons ++ reason_of a.ending;
}

run-ignored :
    (ignored : List ApiCall) (es : List VisitEvent) (s : Visit)
    → s.creating ≡ true
    → run (map pressed ignored ++ es) s ≡ run es s
unfolding run step press
run-ignored [] es s h = refl
run-ignored (call ∷ ignored) es s h =
    ap (run (map pressed ignored ++ es)) (rw (h) refl) ∙ run-ignored ignored es s h

-- the page while a call is under way
abbrev call_made : ApiCall → Visit → Visit
call_made call s = record s { creating = true; stage = calling; calls = s.calls ++ call ∷ [] }

press-call_made :
    (call : ApiCall) (s : Visit) → s.creating ≡ false → press call s ≡ call_made call s
unfolding press
press-call_made call s h = rw (h) refl

run-ends :
    (call : ApiCall) (ignored : List ApiCall) (ending : Ending) (es : List VisitEvent) (s : Visit)
    → run (ends ending ++ es) (call_made call s)
      ≡ run es (rested (record { call = call; ignored = ignored; ending = ending }) s)
unfolding run step
run-ends call ignored (opens id) es s = rw (append-nil s.reasons) refl
run-ends call ignored (declines reason) es s = rw (append-nil s.opened) refl
run-ends call ignored (strands id reason) es s = rw (append-nil s.opened) refl

run-attempt :
    (a : Attempt) (es : List VisitEvent) (s : Visit)
    → s.creating ≡ false
    → run (pressed a.call ∷ (map pressed a.ignored ++ (ends a.ending ++ es))) s
      ≡ run es (rested a s)
unfolding run step
run-attempt a es s h =
    ap (run (map pressed a.ignored ++ (ends a.ending ++ es))) (press-call_made a.call s h)
    ∙ run-ignored a.ignored (ends a.ending ++ es) (call_made a.call s) refl
    ∙ run-ends a.call a.ignored a.ending es s

-- Whichever calls the button makes one after the other, however each ends, and however often the
-- button is pressed while it is disabled: the calls are made once each in their order, the pages
-- opened are those of the documents that were created and that the router got to, in their order,
-- the reasons shown are those of the others, and the page is then at rest.
pub run-attempts :
    (attempts : List Attempt) (s : Visit)
    → s.creating ≡ false
    → s.stage ≡ resting
    → run (events_of attempts) s ≡ record {
      creating = false;
      stage = resting;
      calls = s.calls ++ map (λ (a : Attempt). a.call) attempts;
      opened = s.opened ++ pages_of attempts;
      reasons = s.reasons ++ reasons_of attempts;
    }
unfolding run
run-attempts [] s h k =
    rw (append-nil s.calls, append-nil s.opened, append-nil s.reasons, h, k) refl
run-attempts (a ∷ attempts) s h k =
    run-attempt a (events_of attempts) s h
    ∙ run-attempts attempts (rested a s) refl refl
    ∙ ground (
      arith,
      append_assoc s.calls (a.call ∷ []) (map (λ (a : Attempt). a.call) attempts),
      append_assoc s.opened (page_of a.ending) (pages_of attempts),
      append_assoc s.reasons (reason_of a.ending) (reasons_of attempts),
    )
