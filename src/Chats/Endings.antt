-- ===== src/Chats/Endings.antt =====
-- How a question and a brief of an open chat end (apps/web/src/routes/chats.$id.tsx).
use lgtm.Prelude.{
  ◌≡◌, refl, sym, ap, ◌∙◌, append-nil, false, none, some, List, [], ◌∷◌, ◌++◌, map, Text, text,
  trim, is_empty, last_or,
}
use lgtm.Types.{Chat}
use lgtm.Server.Calls.{ask_chat, enhance_prompt}
use lgtm.Chats.{
  send, brief, asking, briefing, Conversation, Event, typed, press_send, press_brief, ask_resolves,
  ask_rejects, refetched, refetch_rejects, brief_resolves, brief_rejects, is_busy, is_pending,
  last_said, transcript, begin_send, begin_brief, step, run,
}

run-append : (es fs : List Event) (s : Conversation) → run (es ++ fs) s ≡ run fs (run es s)
unfolding run
run-append [] fs s = refl
run-append (e ∷ es) fs s = run-append es fs (step e s)

-- typing changes the box only
run-typed :
    (texts : List Text) (s : Conversation)
    → run (map typed texts) s ≡ record s { draft = last_or s.draft texts }
unfolding run step
run-typed [] s = refl
run-typed (t ∷ texts) s = run-typed texts (record s { draft = t })

-- a press, typing, and what comes then
run-press :
    (press : Event) (texts : List Text) (es : List Event) (s t : Conversation)
    → step press s ≡ t
    → run (press ∷ (map typed texts ++ es)) s ≡ run es (record t { draft = last_or t.draft texts })
unfolding run
run-press press texts es s t e =
    ap (run (map typed texts ++ es)) e
    ∙ run-append (map typed texts) es t
    ∙ ap (run es) (run-typed texts t)

pub data Ending : Type 0 where
  answered : Chat → Ending
  refused : Text → Ending
  refetch_fails : Text → Ending

abbrev pub ends : Ending → List Event
ends (answered chat) = ask_resolves ∷ refetched chat ∷ []
ends (refused reason) = ask_rejects reason ∷ []
ends (refetch_fails reason) = ask_resolves ∷ refetch_rejects reason ∷ []

-- what is then in the box, given what was asked and what was typed meanwhile
abbrev pub box : Text → Text → Ending → Text
box asked later (answered _) = later
box asked later (refused _) = asked
box asked later (refetch_fails _) = asked

abbrev pub shown : Ending → List Text
shown (answered _) = []
shown (refused reason) = reason ∷ []
shown (refetch_fails reason) = reason ∷ []

-- the box with the question taken out of it, and the question on its way
abbrev pub asked_with : Text → Conversation → Conversation
asked_with asked s = record s {
  draft = [];
  busy = some send;
  stage = asking asked;
  calls = s.calls ++ ask_chat s.chat.id asked ∷ [];
}

pub begin_send-asks :
    (s : Conversation)
    → is_empty (trim s.draft) ≡ false
    → is_busy s ≡ false
    → is_pending s ≡ false
    → step press_send s ≡ asked_with (trim s.draft) s
unfolding step begin_send
begin_send-asks s full free over = rw (full, free, over) refl

finish :
    (asked : Text) (texts : List Text) (ending : Ending) (s : Conversation)
    → let s' = run (ends ending) (record (asked_with asked s) { draft = last_or [] texts }) in
      (is_busy s' ≡ false)
      × (s'.draft ≡ box asked (last_or [] texts) ending)
      × (s'.toasts ≡ s.toasts ++ shown ending)
      × (s'.calls ≡ s.calls ++ ask_chat s.chat.id asked ∷ [])
unfolding run step
finish asked texts (answered chat) s = (refl, refl, sym (append-nil s.toasts), refl)
finish asked texts (refused reason) s = (refl, refl, refl, refl)
finish asked texts (refetch_fails reason) s = (refl, refl, refl, refl)

-- A question that is sent from a chat at rest, whose last word is the agent's, is asked once,
-- trimmed. However the request ends, and whatever is typed in the meantime, the page is then at
-- rest. If the question was answered for and the chat fetched again, the box holds what was typed
-- since; if either fails, the reason is shown and the question is in the box again, in place of
-- what was typed since.
pub send-ending :
    (texts : List Text) (ending : Ending) (s : Conversation)
    → is_empty (trim s.draft) ≡ false
    → is_busy s ≡ false
    → is_pending s ≡ false
    → let s' = run (press_send ∷ (map typed texts ++ ends ending)) s in
      (is_busy s' ≡ false)
      × (s'.draft ≡ box (trim s.draft) (last_or [] texts) ending)
      × (s'.toasts ≡ s.toasts ++ shown ending)
      × (s'.calls ≡ s.calls ++ ask_chat s.chat.id (trim s.draft) ∷ [])
send-ending texts ending s full free over =
    rw (run-press press_send texts (ends ending) s _ (begin_send-asks s full free over))
      (finish (trim s.draft) texts ending s)

-- whether a brief was written, or the reason that none was
pub data Answer : Type 0 where
  written not_written : Text → Answer

abbrev pub answer : Answer → Event
answer (written prompt) = brief_resolves prompt
answer (not_written reason) = brief_rejects reason

abbrev pub brief_of : Text → Answer → Text
brief_of fallback (written prompt) = prompt
brief_of fallback (not_written reason) = fallback

abbrev pub reasons : Answer → List Text
reasons (written prompt) = []
reasons (not_written reason) = reason ∷ []

-- the page while a brief is written
abbrev pub briefed : Conversation → Conversation
briefed s = record s {
  busy = some brief;
  stage = briefing (last_said [] s.chat.turns);
  calls =
      s.calls
      ++ enhance_prompt
          (text "Conversation with the workspace agent:\n\n" ++ transcript s.chat.turns) none
        ∷ [];
}

pub begin_brief-briefed : (s : Conversation) → is_busy s ≡ false → step press_brief s ≡ briefed s
unfolding step begin_brief
begin_brief-briefed s free = rw free refl

finish_brief :
    (texts : List Text) (a : Answer) (s : Conversation)
    → let b = briefed s in
      let s' = run (answer a ∷ []) (record b { draft = last_or b.draft texts }) in
      (s'.handed ≡ some (brief_of (last_said [] s.chat.turns) a))
      × (is_busy s' ≡ false)
      × (s'.toasts ≡ s.toasts ++ reasons a)
unfolding run step
finish_brief texts (written prompt) s = (refl, refl, sym (append-nil s.toasts))
finish_brief texts (not_written reason) s = (refl, refl, refl)

-- Asking for a brief in a chat that is not busy always ends with one handed to the composer, and
-- with the page at rest: the brief that was written from the transcript, or, when none was, the
-- last text that the person had in the chat when the button was pressed, with the reason shown.
pub brief-ending :
    (texts : List Text) (a : Answer) (s : Conversation)
    → is_busy s ≡ false
    → let s' = run (press_brief ∷ (map typed texts ++ answer a ∷ [])) s in
      (s'.handed ≡ some (brief_of (last_said [] s.chat.turns) a))
      × (is_busy s' ≡ false)
      × (s'.toasts ≡ s.toasts ++ reasons a)
brief-ending texts a s free =
    rw (run-press press_brief texts (answer a ∷ []) s _ (begin_brief-briefed s free))
      (finish_brief texts a s)
