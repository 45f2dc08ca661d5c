-- ===== src/Page/Stored.antt =====
-- The save loop of a document (apps/web/src/routes/scratchpads_.$id.tsx,
-- apps/web/src/routes/skills_.$id.tsx) under an editor, with the document that the orchestrator has.
use lgtm.Prelude.{
  ◌≡◌, refl, ap, Bool, true, false, Option, none, some, List, Text, Option-cases, inl, inr, arith,
  if◌then◌else◌,
}
use lgtm.Autosave.{
  SaveState, idle, saving, saved, Document, open_document, save_round, save, on_markdown, land,
  fail, settle,
}
use lgtm.Editor.Laws.{typed}
use lgtm.Writer.Saver.{Saver, arrived, PageEvent, open_page, run}
use lgtm.Writer.Saver.Promise.{editing, kept-typed}

abbrev pub is_saved : SaveState → Bool
is_saved saved = true
is_saved idle = false
is_saved saving = false

abbrev pub Carries : Text → Option Text → Type 0
Carries latest none = Unit
Carries latest (some c) = c ≡ latest

module _ {R : Type 0} (keeps : Text → Text) (request : Text → R) where
  -- a parked text is the latest one; so is that of the request in flight, if none is parked; and
  -- "Saved" is said of the latest text only, with nothing in flight
  abbrev pub IsTrue : Text → Document R → Type 0
  IsTrue kept d =
      Carries d.latest d.queued
      × (d.queued ≡ none → Carries d.latest d.in_flight)
      × (d.save_state ≡ saved → (kept ≡ keeps d.latest) × (d.in_flight ≡ none))

  pub on_markdown-IsTrue :
      (kept c : Text) (d : Document R) → IsTrue kept d → IsTrue kept (on_markdown request c d)
  unfolding on_markdown save save_round
  on_markdown-IsTrue kept c d h = ground (arith, h)

  pub land-IsTrue :
      (kept : Text) (d : Document R)
      → IsTrue kept d
      → IsTrue (arrived keeps d.in_flight kept) (land request d)
  unfolding land save_round
  land-IsTrue kept d h = ground (arith, h)

  -- a request that fails may have changed the document, and nothing is then shown as saved
  pub fail-IsTrue :
      (reason : Text) (reached : Bool) (kept : Text) (d : Document R)
      → IsTrue kept d
      → IsTrue (if reached then arrived keeps d.in_flight kept else kept) (fail request reason d)
  unfolding fail
  fail-IsTrue reason reached kept d h = elim (Option-cases d.in_flight) [
    | inl e ↦ ground (arith, h, e)
    | inr (x, e) ↦ ground (arith, h, e)
  ]

  pub settle-IsTrue :
      (kept : Text) (d : Document R) → IsTrue kept d → IsTrue kept (settle request d)
  unfolding settle
  settle-IsTrue kept d h = ground (arith, h)

  pub on_markdown-latest : (c : Text) (d : Document R) → (on_markdown request c d).latest ≡ c
  unfolding on_markdown save save_round
  on_markdown-latest c d = ground arith

  pub land-latest : (d : Document R) → (land request d).latest ≡ d.latest
  unfolding land save_round
  land-latest d = ground arith

  pub fail-latest : (reason : Text) (d : Document R) → (fail request reason d).latest ≡ d.latest
  unfolding fail
  fail-latest reason d = ground arith

  pub settle-latest : (d : Document R) → (settle request d).latest ≡ d.latest
  unfolding settle
  settle-latest d = ground arith

  pub promise :
      (kept : Text) (d : Document R)
      → IsTrue kept d
      → is_saved d.save_state ≡ true
      → kept ≡ keeps d.latest
  promise kept d h said = ground (arith, h, said)

  pub opened-IsTrue : (kept content : Text) → IsTrue kept (open_document {R = R} content)
  unfolding open_document
  opened-IsTrue kept content = ground arith

  pub opened-latest : (content : Text) → (open_document {R = R} content).latest ≡ content
  unfolding open_document
  opened-latest content = refl

  -- the save loop of a document as its page uses it
  abbrev pub document_saver : Saver (Document R) keeps
  document_saver = record {
    opened = open_document;
    save = on_markdown request;
    land = land request;
    fail = fail request;
    rest = settle request;
    latest = λ d. d.latest;
    in_flight = λ d. d.in_flight;
    says_saved = λ d. is_saved d.save_state;
    IsTrue = IsTrue;
    opened-IsTrue = opened-IsTrue;
    save-IsTrue = on_markdown-IsTrue;
    land-IsTrue = land-IsTrue;
    fail-IsTrue = fail-IsTrue;
    rest-IsTrue = settle-IsTrue;
    opened-latest = opened-latest;
    save-latest = on_markdown-latest;
    land-latest = land-latest;
    fail-latest = fail-latest;
    rest-latest = settle-latest;
    promise = promise;
  }

module _ {R : Type 0} (keeps : Text → Text) (request : Text → R) (apply : R → Text → Text)
    (writes : (t s : Text) → apply (request t) s ≡ keeps t) where
  -- Whatever is typed in a document, however the requests end, and whether or not one that failed
  -- had reached the orchestrator: when the page says "Saved" and no edit waits for its debounce, the
  -- orchestrator keeps what it makes of the text that stands in the editor: that text itself for a
  -- scratchpad, the text put into its normal form for a skill. The request for a text is taken to
  -- make that of it, whatever was kept before, and nobody else to write the document.
  pub document_kept :
      (content : Text) (es : List PageEvent)
      → let S = document_saver keeps request in
        let s = run S request apply es (open_page S request apply content) in
        s.store.save_state ≡ saved
        → s.view.timer ≡ false
        → s.kept ≡ keeps (typed content (editing es))
  document_kept content es said quiet =
      kept-typed (document_saver keeps request) request apply writes content es (ap is_saved said)
        quiet
