-- ===== src/Writer/Saver.antt =====
-- The interface of a save loop to the page that mounts an editor on it, and such a page with the
-- text that the orchestrator keeps: the document pages (apps/web/src/routes/scratchpads_.$id.tsx,
-- apps/web/src/routes/skills_.$id.tsx) and the description of a todo
-- (apps/web/src/routes/todos_.$id.tsx). A request that resolves has reached the orchestrator; one
-- that rejects may have, and its answer was lost. Nobody else writes the text meanwhile. `keeps` is
-- what the orchestrator makes of a text that it is sent.
pub mod Promise
use lgtm.Prelude.{◌≡◌, Bool, true, Option, none, some, List, [], ◌∷◌, Text, if◌then◌else◌}
use lgtm.Editor
use lgtm.Editor.{Editor, Output, on_markdown, on_headings, mount}

-- the text after a request for the one in flight, if there is one
abbrev pub arrived : (Text → Text) → Option Text → Text → Text
arrived keeps none kept = kept
arrived keeps (some x) kept = keeps x

-- the operations of a save loop, what can be seen of it, and the laws that its pages rely on;
-- `IsTrue kept d` says that what the loop claims holds of the text kept
pub record Saver (D : Type 0) (keeps : Text → Text) : Type 1 where
  pub opened : Text → D
  pub save : Text → D → D
  pub land : D → D
  pub fail : Text → D → D
  -- the timer that puts the line "Saved" away
  pub rest : D → D
  pub latest : D → Text
  pub in_flight : D → Option Text
  pub says_saved : D → Bool
  pub IsTrue : Text → D → Type 0
  pub opened-IsTrue : (kept content : Text) → IsTrue kept (opened content)
  pub save-IsTrue : (kept c : Text) (d : D) → IsTrue kept d → IsTrue kept (save c d)
  pub land-IsTrue :
      (kept : Text) (d : D) → IsTrue kept d → IsTrue (arrived keeps (in_flight d) kept) (land d)
  pub fail-IsTrue :
      (reason : Text) (reached : Bool) (kept : Text) (d : D)
      → IsTrue kept d
      → IsTrue (if reached then arrived keeps (in_flight d) kept else kept) (fail reason d)
  pub rest-IsTrue : (kept : Text) (d : D) → IsTrue kept d → IsTrue kept (rest d)
  pub opened-latest : (content : Text) → latest (opened content) ≡ content
  pub save-latest : (c : Text) (d : D) → latest (save c d) ≡ c
  pub land-latest : (d : D) → latest (land d) ≡ latest d
  pub fail-latest : (reason : Text) (d : D) → latest (fail reason d) ≡ latest d
  pub rest-latest : (d : D) → latest (rest d) ≡ latest d
  pub promise :
      (kept : Text) (d : D) → IsTrue kept d → says_saved d ≡ true → kept ≡ keeps (latest d)

pub data PageEvent : Type 0 where
  edited : Editor.Event → PageEvent
  resolved : PageEvent
  -- with whether the request had reached the orchestrator
  rejected : Text → Bool → PageEvent
  rested : PageEvent

pub record SavedPage (D : Type 0) : Type 0 where
  pub view : Editor
  pub store : D
  -- the text as the orchestrator has it
  pub kept : Text

module _ {D R : Type 0} {keeps : Text → Text} (S : Saver D keeps) (request : Text → R)
    (apply : R → Text → Text) where
  -- what the request in flight makes of the text
  abbrev pub served : Option Text → Text → Text
  served none kept = kept
  served (some x) kept = apply (request x) kept

  -- the callbacks that the editor makes, in order
  unfoldable pub receive : List Output → D → D
  receive [] d = d
  receive (on_markdown content ∷ out) d = receive out (S.save content d)
  receive (on_headings _ ∷ out) d = receive out d

  unfoldable pub open_page : Text → SavedPage D
  open_page content = record { view = mount content; store = S.opened content; kept = content }

  unfoldable pub step : PageEvent → SavedPage D → SavedPage D
  unfolding receive
  step (edited e) s =
      let (view, out) = Editor.step e s.view in
      record s { view = view; store = receive out s.store }
  step resolved s = record s { store = S.land s.store; kept = served (S.in_flight s.store) s.kept }
  step (rejected reason reached) s = record s {
    store = S.fail reason s.store;
    kept = if reached then served (S.in_flight s.store) s.kept else s.kept;
  }
  step rested s = record s { store = S.rest s.store }

  unfoldable pub run : List PageEvent → SavedPage D → SavedPage D
  unfolding step
  run [] s = s
  run (e ∷ es) s = run es (step e s)
