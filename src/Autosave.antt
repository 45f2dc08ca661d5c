-- ===== src/Autosave.antt =====
-- The save loop of an open document, which apps/web/src/routes/scratchpads_.$id.tsx and
-- apps/web/src/routes/skills_.$id.tsx hold with the same text. `request` builds the call of the
-- server function that writes a markdown text. The refs and the React state of the component are
-- one record; a step of it is one uninterrupted run of JavaScript, from an event or from the
-- settling of the awaited request to the next `await`.
pub mod Trace
pub mod Order
pub mod Latest
pub mod Failure
mod Tests
use lgtm.Prelude.{ℕ, suc, Option, none, some, List, [], ◌∷◌, ◌++◌, Text}

pub data SaveState : Type 0 where
  idle saving saved : SaveState

pub record Document (R : Type 0) : Type 0 where
  pub latest : Text
  pub queued : Option Text
  -- the text of the request whose promise `inFlight` holds
  pub in_flight : Option Text
  pub save_state : SaveState
  -- the requests made, oldest first, and how many of them have settled
  pub sent : List R
  pub settled : ℕ
  pub toasts : List Text

-- What reaches the document: the editor emits a markdown text, the awaited request settles, or
-- the timer that puts "Saved" away fires.
pub data Event : Type 0 where
  markdown : Text → Event
  resolved : Event
  rejected : Text → Event
  saved_shown : Event

unfoldable pub open_document : {R : Type 0} → Text → Document R
open_document content = record {
  latest = content;
  queued = none;
  in_flight = none;
  save_state = idle;
  sent = [];
  settled = 0;
  toasts = [];
}

module _ {R : Type 0} (request : Text → R) where
  -- the `while` from its test to the next `await`, or to the end of the `try` and its `finally`
  unfoldable pub save_round : Document R → Document R
  save_round d = elim d.queued [
    | some content ↦ record d {
      queued = none;
      in_flight = some content;
      sent = d.sent ++ request content ∷ [];
    }
    | none ↦ record d { save_state = saved; in_flight = none }
  ]

  -- a save already in flight parks the newer markdown
  unfoldable pub save : Text → Document R → Document R
  unfolding save_round
  save content d = elim d.in_flight [
    | some _ ↦ record d { queued = some content }
    | none ↦ save_round (record d { queued = some content; save_state = saving })
  ]

  unfoldable pub on_markdown : Text → Document R → Document R
  unfolding save
  on_markdown content d = save content (record d { latest = content })

  -- the awaited request resolves and the loop goes on
  unfoldable pub land : Document R → Document R
  unfolding save_round
  land d = elim d.in_flight [
    | none ↦ d
    | some _ ↦ save_round (record d { settled = suc d.settled })
  ]

  -- the awaited request rejects: the `catch` and the `finally`
  unfoldable pub fail : Text → Document R → Document R
  fail reason d = elim d.in_flight [
    | none ↦ d
    | some _ ↦ record d {
      settled = suc d.settled;
      toasts = d.toasts ++ reason ∷ [];
      save_state = idle;
      in_flight = none;
    }
  ]

  -- the effect's timer runs only while the state is "saved"
  unfoldable pub settle : Document R → Document R
  settle d = elim d.save_state [ idle ↦ d | saving ↦ d | saved ↦ record d { save_state = idle } ]

  unfoldable pub step : Event → Document R → Document R
  unfolding on_markdown land fail settle
  step (markdown content) d = on_markdown content d
  step resolved d = land d
  step (rejected reason) d = fail reason d
  step saved_shown d = settle d

  unfoldable pub run : List Event → Document R → Document R
  run [] d = d
  run (e ∷ es) d = run es (step e d)
