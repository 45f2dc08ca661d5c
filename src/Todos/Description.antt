-- ===== src/Todos/Description.antt =====
-- `Description` of apps/web/src/routes/todos_.$id.tsx. `request` builds the call that writes a
-- text. A step is one uninterrupted run of JavaScript, as in the save loop of a document.
pub mod Latest
pub mod Stored
use lgtm.Prelude.{Option, none, some, List, [], ◌∷◌, ◌++◌, Text, text_eq, if◌then◌else◌}
use lgtm.Autosave.{SaveState, idle, saving, saved}

pub record Description (R : Type 0) : Type 0 where
  pub latest : Text
  -- the text of the request that `inFlight` waits for
  pub in_flight : Option Text
  pub state : SaveState
  pub sent : List R
  pub toasts : List Text

pub data Event : Type 0 where
  markdown : Text → Event
  resolved : Event
  rejected : Text → Event

unfoldable pub open_description : {R : Type 0} → Text → Description R
open_description description = record {
  latest = description;
  in_flight = none;
  state = idle;
  sent = [];
  toasts = [];
}

module _ {R : Type 0} (request : Text → R) where
  -- `send` up to its `await`
  unfoldable pub send : Text → Description R → Description R
  send md d = record d { in_flight = some md; sent = d.sent ++ request md ∷ [] }

  -- an edit that lands in the middle of a request only becomes the latest text
  unfoldable pub save : Text → Description R → Description R
  unfolding send
  save md d = elim d.in_flight [
    | some _ ↦ record d { latest = md }
    | none ↦ send md (record d { latest = md; state = saving })
  ]

  -- `send` behind its `await`, and the `then` and the `finally`
  unfoldable pub land : Description R → Description R
  unfolding send
  land d = elim d.in_flight [
    | none ↦ d
    | some md ↦
        if text_eq d.latest md
        then record d { in_flight = none; state = saved }
        else send d.latest d
  ]

  -- the `catch` and the `finally`
  unfoldable pub fail : Text → Description R → Description R
  fail reason d = elim d.in_flight [
    | none ↦ d
    | some _ ↦ record d { in_flight = none; state = idle; toasts = d.toasts ++ reason ∷ [] }
  ]

  unfoldable pub step : Event → Description R → Description R
  unfolding save land fail
  step (markdown md) d = save md d
  step resolved d = land d
  step (rejected reason) d = fail reason d

  unfoldable pub run : List Event → Description R → Description R
  run [] d = d
  run (e ∷ es) d = run es (step e d)
