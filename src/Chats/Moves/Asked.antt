-- ===== src/Chats/Moves/Asked.antt =====
-- A question that is refused after its reader has gone to another chat
-- (apps/web/src/routes/chats.$id.tsx).
use lgtm.Prelude.{
  ◌≡◌, refl, ap, ◌∙◌, Bool, true, false, none, [], ◌∷◌, Text, text_eq, trim, is_empty,
  if◌then◌else◌,
}
use lgtm.Types.{Chat}
use lgtm.Chats.{Conversation, press_send, ask_rejects, is_busy, is_pending, step}
use lgtm.Chats.Endings.{asked_with, begin_send-asks}
use lgtm.Chats.Moves.{
  opened_chat, Place, at_chat, elsewhere, at_composer, to_chat, WindowEvent, here, there, goes,
  leave_for, go, answer_gone, arrive, follow, follow-waiting, move, moves,
}

-- the text in the box of the chat on the screen
abbrev pub box_of : Place → Text
box_of (at_chat s) = s.draft
box_of elsewhere = []
box_of (at_composer brief) = []

abbrev turned_down : Bool → Text → WindowEvent
turned_down remounts reason =
    if remounts then there 0 (ask_rejects reason) else here (ask_rejects reason)

asked-moved :
    (remounts : Bool) (other : Chat) (reason asked : Text) (s : Conversation)
    → text_eq other.id s.chat.id ≡ false
    → s.handed ≡ none
    → box_of
        (moves remounts
          (goes (to_chat other) ∷ turned_down remounts reason ∷ [])
          (record { place = at_chat (asked_with asked s); gone = [] })).place
      ≡ (if remounts then [] else asked)
unfolding moves move go leave_for answer_gone arrive step opened_chat
asked-moved true other reason asked s e h = rw (e, h) refl
asked-moved false other reason asked s e h = rw (h) refl

-- A question that is sent from a chat at rest and refused when its reader is in another chat: where
-- the router mounts the page anew for another chat it is lost, and where the router keeps the page
-- it is put into the box of the other chat.
question-moved :
    (remounts : Bool) (other : Chat) (reason : Text) (s : Conversation)
    → is_empty (trim s.draft) ≡ false
    → is_busy s ≡ false
    → is_pending s ≡ false
    → text_eq other.id s.chat.id ≡ false
    → s.handed ≡ none
    → box_of
        (moves remounts
          (here press_send ∷ goes (to_chat other) ∷ turned_down remounts reason ∷ [])
          (record { place = at_chat s; gone = [] })).place
      ≡ (if remounts then [] else trim s.draft)
unfolding moves move
question-moved remounts other reason s full free over e h =
    let asked = asked_with (trim s.draft) s in
    let final : Place → Text = λ place.
      box_of
        (moves remounts (goes (to_chat other) ∷ turned_down remounts reason ∷ [])
          (record { place = place; gone = [] })).place in
    ap (λ c. final (follow c)) (begin_send-asks s full free over)
    ∙ ap final (follow-waiting asked h)
    ∙ asked-moved remounts other reason (trim s.draft) s e h
