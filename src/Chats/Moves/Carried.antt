-- ===== src/Chats/Moves/Carried.antt =====
-- Where a brief leads that is being written while the reader goes elsewhere
-- (apps/web/src/routes/chats.$id.tsx).
use lgtm.Prelude.{
  ◌≡◌, refl, ap, ◌∙◌, Bool, true, false, not, ◌&&◌, none, some, List, [], ◌∷◌, ◌++◌, map, Text,
  text_eq, Bool-cases, inl, inr, if◌then◌else◌,
}
use lgtm.Types.{Chat}
use lgtm.Chats.{briefing, Conversation, press_brief, is_busy, last_said, hand_over, step}
use lgtm.Chats.Endings.{
  Answer, written, not_written, answer, brief_of, briefed, begin_brief-briefed,
}
use lgtm.Chats.Moves.{
  follow, follow-waiting, opened_chat, Place, Destination, to_chat, to_home, to_other, go_home,
  at_chat, elsewhere, at_composer, Window, WindowEvent, here, there, goes, leave_for, go,
  answer_gone, arrive, move, moves,
}

-- whether the page of a chat is still mounted after the reader has gone to these places
abbrev pub stays : Bool → Text → List Destination → Bool
stays remounts id [] = true
stays remounts id (to_other ∷ places) = false
stays remounts id (to_home ∷ places) = false
stays remounts id (to_chat chat ∷ places) =
    not (remounts && not (text_eq chat.id id)) && stays remounts chat.id places

record IsWaiting (fallback : Text) (s : Conversation) : Type 0 where
  stage : s.stage ≡ briefing fallback
  handed : s.handed ≡ none

step-answer :
    (fallback : Text) (s : Conversation) (o : Answer)
    → IsWaiting fallback s
    → (step (answer o) s).handed ≡ some (brief_of fallback o)
unfolding step
step-answer fallback s (written prompt) h = rw (h.stage) refl
step-answer fallback s (not_written reason) h = rw (h.stage) refl

abbrev at : Place → List Conversation → Window
at place gone = record { place = place; gone = gone }

-- going to another chat, where the page is mounted anew and where it is kept
go-anew :
    (remounts : Bool) (chat : Chat) (s : Conversation) (gone : List Conversation)
    → (remounts && not (text_eq chat.id s.chat.id)) ≡ true
    → go remounts (to_chat chat) (at (at_chat s) gone)
      ≡ at (at_chat (opened_chat chat)) (gone ++ s ∷ [])
unfolding go leave_for go_home
go-anew remounts chat s gone e = rw (e) refl

go-kept :
    (remounts : Bool) (chat : Chat) (s : Conversation) (gone : List Conversation)
    → (remounts && not (text_eq chat.id s.chat.id)) ≡ false
    → go remounts (to_chat chat) (at (at_chat s) gone)
      ≡ at (at_chat (record s { chat = chat })) gone
unfolding go leave_for go_home
go-kept remounts chat s gone e = rw (e) refl

-- whether the reader is on the home page
abbrev is_home : Place → Bool
is_home (at_chat s) = false
is_home (at_composer draft) = true
is_home elsewhere = false

abbrev leads_home : Destination → Bool
leads_home (to_chat chat) = false
leads_home to_home = true
leads_home to_other = false

-- whether the last of the places is the home page
abbrev pub ends_home : Bool → List Destination → Bool
ends_home before [] = before
ends_home before (d ∷ places) = ends_home (leads_home d) places

-- the reader is on the home page, which was reached by a link and has an empty composer, or not
abbrev Lands : Bool → Place → Type 0
Lands true place = place ≡ at_composer []
Lands false place = is_home place ≡ false

-- where the reader is, with a page that is still the first of the unmounted ones
record Stepped (home : Bool) (w : Window) (g : Conversation) : Type 0 where
  place : Place
  more : List Conversation
  reached : w ≡ at place (g ∷ more)
  lands : Lands home place

go-first :
    (remounts : Bool) (d : Destination) (home : Bool) (place : Place) (g : Conversation)
    (gs : List Conversation)
    → Lands home place
    → Stepped (ends_home home (d ∷ [])) (go remounts d (at place (g ∷ gs))) g
unfolding go leave_for go_home
go-first remounts to_other home place g gs h = record {
  place = elsewhere;
  more = _;
  reached = refl;
  lands = refl;
}
go-first remounts to_home home (at_chat s) g gs h = record {
  place = at_composer [];
  more = _;
  reached = refl;
  lands = refl;
}
go-first remounts to_home home elsewhere g gs h = record {
  place = at_composer [];
  more = _;
  reached = refl;
  lands = refl;
}
go-first remounts to_home true (at_composer draft) g gs h = record {
  place = at_composer draft;
  more = gs;
  reached = refl;
  lands = h;
}
go-first remounts to_home false (at_composer draft) g gs h = cc
go-first remounts (to_chat chat) home (at_chat s) g gs h =
    elim (Bool-cases (remounts && not (text_eq chat.id s.chat.id))) [
      | inl e ↦ record {
        place = at_chat (opened_chat chat);
        more = gs ++ s ∷ [];
        reached = go-anew remounts chat s (g ∷ gs) e;
        lands = refl;
      }
      | inr e ↦ record {
        place = at_chat (record s { chat = chat });
        more = gs;
        reached = go-kept remounts chat s (g ∷ gs) e;
        lands = refl;
      }
    ]
go-first remounts (to_chat chat) home elsewhere g gs h = record {
  place = at_chat (opened_chat chat);
  more = _;
  reached = refl;
  lands = refl;
}
go-first remounts (to_chat chat) home (at_composer draft) g gs h = record {
  place = at_chat (opened_chat chat);
  more = _;
  reached = refl;
  lands = refl;
}

moves-first :
    (remounts : Bool) (places : List Destination) (home : Bool) (place : Place) (g : Conversation)
    (gs : List Conversation)
    → Lands home place
    → Stepped (ends_home home places) (moves remounts (map goes places) (at place (g ∷ gs))) g
unfolding moves move
moves-first remounts [] home place g gs h = record {
  place = place;
  more = gs;
  reached = refl;
  lands = h;
}
moves-first remounts (d ∷ places) home place g gs h =
    let next = go-first remounts d home place g gs h in
    let last =
      moves-first remounts places (ends_home home (d ∷ [])) next.place g next.more next.lands in
    record {
      place = last.place;
      more = last.more;
      reached = ap (moves remounts (map goes places)) next.reached ∙ last.reached;
      lands = last.lands;
    }

go_home-Lands :
    (home : Bool) (brief : Text) (place : Place) (gone : List Conversation)
    → Lands home place
    → (go_home brief (at place gone)).place ≡ at_composer (if home then [] else brief)
unfolding go_home leave_for
go_home-Lands true brief (at_composer draft) gone h = h
go_home-Lands true brief (at_chat s) gone h = cc
go_home-Lands true brief elsewhere gone h = cc
go_home-Lands false brief (at_composer draft) gone h = cc
go_home-Lands false brief (at_chat s) gone h = refl
go_home-Lands false brief elsewhere gone h = refl

-- the answer to the first of the unmounted pages
answered-first :
    (remounts : Bool) (fallback : Text) (o : Answer) (home : Bool) (place : Place)
    (g : Conversation) (gs : List Conversation)
    → IsWaiting fallback g
    → Lands home place
    → (move remounts (there 0 (answer o)) (at place (g ∷ gs))).place
      ≡ at_composer (if home then [] else brief_of fallback o)
unfolding move answer_gone arrive step
answered-first remounts fallback (written prompt) home place g gs waits h =
    rw (waits.handed, waits.stage) (go_home-Lands home prompt place (hand_over prompt g ∷ gs) h)
answered-first remounts fallback (not_written reason) home place g gs waits h =
    rw (waits.handed, waits.stage)
      (go_home-Lands home fallback place
        (hand_over fallback (record g { toasts = g.toasts ++ reason ∷ [] }) ∷ gs) h)

-- the answer, to the page if it is mounted and to the first of the others if not
abbrev pub answer_to : Bool → Answer → WindowEvent
answer_to true o = here (answer o)
answer_to false o = there 0 (answer o)

-- the draft of the composer that a brief leads to
abbrev pub draft_of : List Destination → Text → Text
draft_of places brief = if ends_home false places then [] else brief

gone-follows :
    (remounts : Bool) (places : List Destination) (home : Bool) (fallback : Text) (o : Answer)
    (place : Place) (g : Conversation)
    → IsWaiting fallback g
    → Lands home place
    → (move remounts
        (there 0 (answer o))
        (moves remounts (map goes places) (at place (g ∷ [])))).place
      ≡ at_composer (if ends_home home places then [] else brief_of fallback o)
gone-follows remounts places home fallback o place g waits h =
    let last = moves-first remounts places home place g [] h in
    ap (λ w. (move remounts (there 0 (answer o)) w).place) last.reached
    ∙ answered-first remounts fallback o (ends_home home places) last.place g last.more waits
        last.lands

abbrev ends_at : Bool → Answer → Bool → Window → Place
ends_at remounts o stays_there w = (move remounts (answer_to stays_there o) w).place

awaited-follows :
    (remounts : Bool) (places : List Destination) (fallback : Text) (o : Answer) (s : Conversation)
    → IsWaiting fallback s
    → (move remounts
        (answer_to (stays remounts s.chat.id places) o)
        (moves remounts (map goes places) (at (at_chat s) []))).place
      ≡ at_composer (draft_of places (brief_of fallback o))
unfolding moves
awaited-follows remounts [] fallback o s waits =
    unfold move in
    ap
      (λ handed. elim handed [
        | none ↦ at_chat (step (answer o) s)
        | some brief ↦ at_composer brief
      ])
      (step-answer fallback s o waits)
awaited-follows remounts (to_other ∷ places) fallback o s waits =
    unfold move go leave_for in gone-follows remounts places false fallback o elsewhere s waits refl
awaited-follows remounts (to_home ∷ places) fallback o s waits =
    unfold move go go_home leave_for in
    gone-follows remounts places true fallback o (at_composer []) s waits refl
awaited-follows remounts (to_chat chat ∷ places) fallback o s waits =
    elim (Bool-cases (remounts && not (text_eq chat.id s.chat.id))) [
      | inl e ↦
          ap
            (λ b.
              ends_at remounts o (not b && stays remounts chat.id places)
                (after (to_chat chat ∷ places)))
            e
          ∙ ap (λ w. ends_at remounts o false (moves remounts (map goes places) w))
              (go-anew remounts chat s [] e)
          ∙ gone-follows remounts places false fallback o (at_chat (opened_chat chat)) s waits refl
      | inr e ↦
          ap
            (λ b.
              ends_at remounts o (not b && stays remounts chat.id places)
                (after (to_chat chat ∷ places)))
            e
          ∙ ap
              (λ w.
                ends_at remounts o (stays remounts chat.id places)
                  (moves remounts (map goes places) w))
              (go-kept remounts chat s [] e)
          ∙ awaited-follows remounts places fallback o (record s { chat = chat })
              (record { stage = waits.stage; handed = waits.handed })
    ]
  where
    after : List Destination → Window
    after ps = moves remounts (map goes ps) (at (at_chat s) [])

-- A brief that is begun in a chat at rest leads to the composer of the home page wherever the reader
-- has gone in the meantime, and whether or not the router mounts the page anew for another chat:
-- with the text that was written, or, if writing it fails, with the last thing that the person said
-- in the chat where it was begun. If the reader is on the home page by then, the composer there
-- stays as it was opened, empty, and the brief is lost.
pub brief-follows :
    (remounts : Bool) (places : List Destination) (o : Answer) (s : Conversation)
    → is_busy s ≡ false
    → s.handed ≡ none
    → let away =
        moves remounts
          (here press_brief ∷ map goes places)
          (record { place = at_chat s; gone = [] }) in
      (move remounts (answer_to (stays remounts s.chat.id places) o) away).place
      ≡ at_composer (draft_of places (brief_of (last_said [] s.chat.turns) o))
unfolding moves move
brief-follows remounts places o s rests fresh =
    let id = s.chat.id in
    let final : Place → Place = λ place.
      ends_at remounts o (stays remounts id places)
        (moves remounts (map goes places) (at place [])) in
    ap (λ c. final (follow c)) (begin_brief-briefed s rests)
    ∙ ap final (follow-waiting (briefed s) fresh)
    ∙ awaited-follows remounts places (last_said [] s.chat.turns) o (briefed s)
        (record { stage = refl; handed = fresh })
