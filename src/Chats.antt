-- ===== src/Chats.antt =====
-- apps/web/src/routes/chats.$id.tsx: an open chat with the workspace agent. The React state of the
-- page, the chat that its loader has and what its callbacks wait for are one record; a step is one
-- uninterrupted run of JavaScript. Shown and References are about what stands in the conversation
-- (apps/web/src/components/workspace-chat.tsx, apps/web/src/components/answer-references.tsx).
pub mod Shown
pub mod References
pub mod Endings
pub mod Moves
mod Tests
use lgtm.Prelude.{
  Bool, true, false, ◌||◌, Option, none, some, List, [], ◌∷◌, ◌++◌, map, Text, text, trim, is_empty,
  join, if◌then◌else◌,
}
use lgtm.Types.{Chat, ChatTurn, ChatRole, person, agent}
use lgtm.Server.{ApiCall}
use lgtm.Server.Calls.{ask_chat, enhance_prompt}

abbrev pub is_person : ChatRole → Bool
is_person person = true
is_person agent = false

abbrev speaker : ChatRole → Text
speaker person = text "Person"
speaker agent = text "Agent"

-- the conversation as the models read it
unfoldable pub transcript : List ChatTurn → Text
transcript turns =
    join (text "\n\n")
      (map (λ (turn : ChatTurn). speaker turn.role ++ text ": " ++ turn.text) turns)

pub data Busy : Type 0 where
  send brief : Busy

-- what the page waits for: the answer to `askChat` or the refetch behind it, with the question,
-- or the answer to `enhancePrompt`, with the brief that stands in for it
pub data Stage : Type 0 where
  resting : Stage
  asking refetching briefing : Text → Stage

pub record Conversation : Type 0 where
  pub chat : Chat
  pub draft : Text
  pub busy : Option Busy
  pub stage : Stage
  pub calls : List ApiCall
  pub toasts : List Text
  -- the brief with which the page is left for the composer
  pub handed : Option Text

pub data Event : Type 0 where
  typed : Text → Event
  press_send press_brief : Event
  ask_resolves : Event
  ask_rejects : Text → Event
  -- the loader has run again, for the question or for the interval
  refetched polled : Chat → Event
  refetch_rejects : Text → Event
  brief_resolves brief_rejects : Text → Event

-- `chat.turns.at(-1)?.role === "person"`
unfoldable pub ends_with_person : List ChatTurn → Bool
ends_with_person [] = false
ends_with_person (turn ∷ []) = is_person turn.role
ends_with_person (_ ∷ turn ∷ turns) = ends_with_person (turn ∷ turns)

abbrev pub is_pending : Conversation → Bool
is_pending s = ends_with_person s.chat.turns

abbrev pub is_busy : Conversation → Bool
is_busy s = elim s.busy [ none ↦ false | some _ ↦ true ]

-- the text of the last turn of the person, or the text given
unfoldable pub last_said : Text → List ChatTurn → Text
last_said default [] = default
last_said default (turn ∷ turns) =
    last_said (if is_person turn.role then turn.text else default) turns

unfoldable pub begin_send : Conversation → Conversation
begin_send s =
    let asked = trim s.draft in
    if is_empty asked || is_busy s || is_pending s then s else record s {
      draft = [];
      busy = some send;
      stage = asking asked;
      calls = s.calls ++ ask_chat s.chat.id asked ∷ [];
    }

-- the `catch` and the `finally` of `send`
abbrev take_back : Text → Text → Conversation → Conversation
take_back asked reason s = record s {
  draft = asked;
  busy = none;
  stage = resting;
  toasts = s.toasts ++ reason ∷ [];
}

unfoldable pub begin_brief : Conversation → Conversation
begin_brief s = if is_busy s then s else record s {
  busy = some brief;
  stage = briefing (last_said [] s.chat.turns);
  calls =
      s.calls
      ++ enhance_prompt
          (text "Conversation with the workspace agent:\n\n" ++ transcript s.chat.turns) none
        ∷ [];
}

-- the `finally` of `createTask` and the navigation behind it
abbrev pub hand_over : Text → Conversation → Conversation
hand_over text s = record s { busy = none; stage = resting; handed = some text }

unfoldable pub step : Event → Conversation → Conversation
unfolding begin_send begin_brief
step (typed text) s = record s { draft = text }
step press_send s = begin_send s
step press_brief s = begin_brief s
step ask_resolves s = elim s.stage [
  | asking asked ↦ record s { stage = refetching asked }
  | resting ↦ s
  | refetching _ ↦ s
  | briefing _ ↦ s
]
step (ask_rejects reason) s = elim s.stage [
  | asking asked ↦ take_back asked reason s
  | resting ↦ s
  | refetching _ ↦ s
  | briefing _ ↦ s
]
step (refetched chat) s = elim s.stage [
  | refetching _ ↦ record s { chat = chat; busy = none; stage = resting }
  | resting ↦ s
  | asking _ ↦ s
  | briefing _ ↦ s
]
step (refetch_rejects reason) s = elim s.stage [
  | refetching asked ↦ take_back asked reason s
  | resting ↦ s
  | asking _ ↦ s
  | briefing _ ↦ s
]
step (brief_resolves prompt) s = elim s.stage [
  | briefing _ ↦ hand_over prompt s
  | resting ↦ s
  | asking _ ↦ s
  | refetching _ ↦ s
]
step (brief_rejects reason) s = elim s.stage [
  | briefing fallback ↦ hand_over fallback (record s { toasts = s.toasts ++ reason ∷ [] })
  | resting ↦ s
  | asking _ ↦ s
  | refetching _ ↦ s
]
-- the interval runs only while the last word is the person's
step (polled chat) s = if is_pending s then record s { chat = chat } else s

unfoldable pub run : List Event → Conversation → Conversation
run [] s = s
run (e ∷ es) s = run es (step e s)
