-- ===== src/Chats/Moves.antt =====
-- An open chat while its reader goes elsewhere in the app (apps/web/src/routes/chats.$id.tsx). What a
-- callback waits for goes on when its page has been unmounted: its toasts are shown and it navigates
-- from wherever the reader is. Whether the router mounts the page anew for another chat is an
-- argument. The home page (apps/web/src/routes/index.tsx) takes the brief in its address as the
-- draft of its composer when it is mounted, and heeds no later one.
pub mod Carried
pub mod Asked
use lgtm.Prelude.{
  ◌≡◌, ap, ℕ, zero, suc, Bool, true, false, not, ◌&&◌, Option, none, some, List, [], ◌∷◌, ◌++◌,
  Text, text_eq, if◌then◌else◌,
}
use lgtm.Types.{Chat}
use lgtm.Chats.{
  resting, Conversation, Event, ask_resolves, ask_rejects, refetched, refetch_rejects,
  brief_resolves, brief_rejects, step,
}

unfoldable pub opened_chat : Chat → Conversation
opened_chat chat = record {
  chat = chat;
  draft = [];
  busy = none;
  stage = resting;
  calls = [];
  toasts = [];
  handed = none;
}

-- what is on the screen: a chat, the home page with the draft that it was mounted with, or any
-- other page
pub data Place : Type 0 where
  at_chat : Conversation → Place
  at_composer : Text → Place
  elsewhere : Place

-- where the reader goes: to a chat, to the home page by a link without a brief, or to another page
pub data Destination : Type 0 where
  to_chat : Chat → Destination
  to_home to_other : Destination

pub record Window : Type 0 where
  pub place : Place
  -- the pages that were unmounted, as far as their callbacks go on
  pub gone : List Conversation

pub data WindowEvent : Type 0 where
  here : Event → WindowEvent
  -- the answer to what an unmounted page waits for
  there : ℕ → Event → WindowEvent
  goes : Destination → WindowEvent

abbrev pub unmounted : Place → List Conversation
unmounted (at_chat s) = s ∷ []
unmounted elsewhere = []
unmounted (at_composer _) = []

unfoldable pub leave_for : Place → Window → Window
leave_for place w = record { place = place; gone = w.gone ++ unmounted w.place }

-- the page after a step, or the composer that it has navigated to
abbrev pub follow : Conversation → Place
follow s = elim s.handed [ none ↦ at_chat s | some brief ↦ at_composer brief ]

pub follow-waiting : (s : Conversation) → s.handed ≡ none → follow s ≡ at_chat s
follow-waiting s h =
    ap (λ handed. elim handed [ none ↦ at_chat s | some brief ↦ at_composer brief ]) h

-- navigating to the home page, which stays mounted if it is the page already
unfoldable pub go_home : Text → Window → Window
unfolding leave_for
go_home brief w = elim w.place [
  | at_composer _ ↦ w
  | at_chat _ ↦ leave_for (at_composer brief) w
  | elsewhere ↦ leave_for (at_composer brief) w
]

unfoldable pub go : Bool → Destination → Window → Window
unfolding leave_for go_home opened_chat
go remounts to_other w = leave_for elsewhere w
go remounts to_home w = go_home [] w
go remounts (to_chat chat) w = elim w.place [
  | at_chat s ↦
      if remounts && not (text_eq chat.id s.chat.id)
      then leave_for (at_chat (opened_chat chat)) w
      else record w { place = at_chat (record s { chat = chat }) }
  | elsewhere ↦ leave_for (at_chat (opened_chat chat)) w
  | at_composer _ ↦ leave_for (at_chat (opened_chat chat)) w
]

-- an answer is the only thing that an unmounted page can get
abbrev pub is_answer : Event → Bool
is_answer ask_resolves = true
is_answer (ask_rejects _) = true
is_answer (refetched _) = true
is_answer (refetch_rejects _) = true
is_answer (brief_resolves _) = true
is_answer (brief_rejects _) = true
is_answer _ = false

-- the brief that a step navigates with
abbrev pub newly_handed : Conversation → Conversation → Option Text
newly_handed before after = elim before.handed [ none ↦ after.handed | some _ ↦ none ]

-- the unmounted pages after an answer to one of them, and the brief that it navigates with
unfoldable pub answer_gone : ℕ → Event → List Conversation → List Conversation × Option Text
answer_gone i e [] = ([], none)
answer_gone zero e (s ∷ ss) = let s' = step e s in (s' ∷ ss, newly_handed s s')
answer_gone (suc i) e (s ∷ ss) = let (later, brief) = answer_gone i e ss in (s ∷ later, brief)

unfoldable pub arrive : Option Text → Window → Window
unfolding go_home
arrive none w = w
arrive (some brief) w = go_home brief w

unfoldable pub move : Bool → WindowEvent → Window → Window
unfolding go answer_gone arrive
move remounts (here e) w = elim w.place [
  | at_chat s ↦ record w { place = follow (step e s) }
  | elsewhere ↦ w
  | at_composer _ ↦ w
]
move remounts (there i e) w =
    let (gone, brief) = answer_gone i e w.gone in
    if is_answer e then arrive brief (record w { gone = gone }) else w
move remounts (goes chat) w = go remounts chat w

unfoldable pub moves : Bool → List WindowEvent → Window → Window
unfolding move
moves remounts [] w = w
moves remounts (e ∷ es) w = moves remounts es (move remounts e w)
