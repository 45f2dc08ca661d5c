-- ===== src/Page.antt =====
-- An open document page: the editor of apps/web/src/components/markdown-editor.tsx mounted with
-- the document's content, its `onMarkdown` bound to the document's (`ScratchpadDocument` in
-- apps/web/src/routes/scratchpads_.$id.tsx and `SkillDocument` in
-- apps/web/src/routes/skills_.$id.tsx). The document outlives the editor's last flush.
pub mod Saved
pub mod Stored
mod Tests
use lgtm.Prelude.{List, [], ◌∷◌, Text}
use lgtm.Autosave
use lgtm.Autosave.{Document, open_document}
use lgtm.Editor
use lgtm.Editor.{Editor, Output, on_markdown, on_headings, mount}

pub data Event : Type 0 where
  editor : Editor.Event → Event
  resolved : Event
  rejected : Text → Event
  saved_shown : Event

pub record Page (R : Type 0) : Type 0 where
  pub view : Editor
  pub store : Document R

module _ {R : Type 0} (request : Text → R) where
  -- the calls of the owner's callbacks, in order
  unfoldable pub receive : List Output → Document R → Document R
  receive [] d = d
  receive (on_markdown content ∷ out) d = receive out (Autosave.on_markdown request content d)
  receive (on_headings _ ∷ out) d = receive out d

  unfoldable pub open_page : Text → Page R
  open_page content = record { view = mount content; store = open_document content }

  unfoldable pub step : Event → Page R → Page R
  unfolding receive
  step (editor e) p =
      let (view, out) = Editor.step e p.view in record { view = view; store = receive out p.store }
  step resolved p = record p { store = Autosave.land request p.store }
  step (rejected reason) p = record p { store = Autosave.fail request reason p.store }
  step saved_shown p = record p { store = Autosave.settle request p.store }

  unfoldable pub run : List Event → Page R → Page R
  run [] p = p
  run (e ∷ es) p = run es (step e p)
